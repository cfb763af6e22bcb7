-- ===== src/Poller/Spool/Uploads.antt =====
-- poller.py: the threads that spool, post and collect artefacts, as steps on one directory, with
-- ledgers of what became of each.
use test_serv.Base.{
  ℕ, ◌≡◌, Bool, false, not, ◌&&◌, some, List, [], ◌∷◌, String, ltb, leb, ◌==◌, if◌then◌else◌,
}
use test_serv.Base.Dict.{Dict, lookup, insert, mem}
use test_serv.Server.Store.{Bytes, File}
use test_serv.Poller.Spool.{
  Spool, Posted, accepted, lost, http_error, Moment, spool_digest, spool_name, spool_artefact,
  finish_post, gc_refused_spools,
}

-- The spool, what was ever spooled, what posts are under way, what the server has acknowledged with
-- the bytes it got, what it has refused for good, and what was collected.
pub record Uploads : Type 0 where
  pub spool : Spool
  pub spooled : Dict Bytes
  pub under_way : Dict Bytes
  pub acked : Dict Bytes
  pub dropped : List String
  pub expired : List String

-- An HTTPError that ends the retries.
abbrev pub is_final : ℕ → Bool
is_final code = not (code == 409) && leb 400 code && ltb code 500

abbrev pub note_reply : Posted → String → Bytes → Uploads → Uploads
note_reply accepted name body w = record w { acked = insert name body w.acked }
note_reply lost name body w = w
note_reply (http_error code) name body w = record w {
  dropped = if is_final code then name ∷ w.dropped else w.dropped;
}

abbrev pub joined : List String → List String → List String
joined [] ys = ys
joined (x ∷ xs) ys = x ∷ joined xs ys

-- A session's artefact is spooled under a name that is not taken, a thread reads a spooled file to
-- post it, a post ends, refused/ is collected, or the poller starts again.
pub data Step (w : Uploads) : Uploads → Type 0 where
  spools :
      (wall : ℕ) (job_id run : String) (tar : Bytes)
      → mem (spool_name job_id run) w.spooled ≡ false
      → Step w (record w {
        spool = (spool_artefact wall job_id run tar w.spool).1;
        spooled = insert (spool_name job_id run) tar w.spooled;
      })
  reads :
      {digest : String} (name : String) (f : File)
      → spool_digest name ≡ some digest
      → lookup name w.spool.pending ≡ some f
      → Step w (record w { under_way = insert name f.body w.under_way })
  ends :
      {body : Bytes} (at : Moment) (name : String) (posted : Posted)
      → lookup name w.under_way ≡ some body
      → Step w (
          note_reply posted name body (record w { spool = (finish_post at name posted w.spool).1 }))
  collects :
      (now : ℕ)
      → Step w (record w {
        spool = (gc_refused_spools now w.spool).1;
        expired = joined (gc_refused_spools now w.spool).0 w.expired;
      })
  restarts :
      Step w (record w {
        under_way = [];
        spool = record w.spool { retry_after = []; circuit_until = 0 };
      })

abbrev pub no_uploads : Uploads
no_uploads = record {
  spool = record { pending = []; refused = []; retry_after = []; circuit_until = 0 };
  spooled = [];
  under_way = [];
  acked = [];
  dropped = [];
  expired = [];
}

pub data Reach : Uploads → Type 0 where
  start : Reach no_uploads
  next : {w v : Uploads} → Reach w → Step w v → Reach v
