-- ===== src/Poller/Spool/Kept.antt =====
-- poller.py: whatever uploads, retries and collections do at once, no artefact is lost.
use test_serv.Base.{◌≡◌, ◌⊎◌, inl, inr, true, Option, none, some, String, arith, Option-cases}
use test_serv.Base.Dict.{lookup, contains, lookup-nil}
use test_serv.Server.Store.{Bytes, File}
use test_serv.Poller.Spool.Uploads.{
  Uploads, Step, spools, reads, ends, collects, restarts, Reach, start, next,
}
use test_serv.Poller.Spool.Moves.{IsKept, spools-IsKept, reads-IsKept, collects-IsKept, ends-IsKept}

Step-IsKept : {w v : Uploads} → Step w v → IsKept w → IsKept v
Step-IsKept (spools wall job_id run tar fresh) v = spools-IsKept v wall job_id run tar fresh
Step-IsKept (reads name f named e) v = reads-IsKept v name f e
Step-IsKept (ends at name posted e) v = ends-IsKept v at name posted e
Step-IsKept (collects now) v = collects-IsKept v now
Step-IsKept restarts v = record {
  kept = v.kept;
  pending_body = v.pending_body;
  refused_body = v.refused_body;
  post_body = λ n b h. absurd (ground (arith, lookup-nil {V = Bytes} n));
  acked_body = v.acked_body;
}

Reach-IsKept : {w : Uploads} → Reach w → IsKept w
unfolding lookup
Reach-IsKept start = record {
  kept = λ n h. absurd (ground arith);
  pending_body = λ n f h. absurd (ground arith);
  refused_body = λ n f h. absurd (ground arith);
  post_body = λ n b h. absurd (ground arith);
  acked_body = λ n b h. absurd (ground arith);
}
Reach-IsKept (next r step) = Step-IsKept step (Reach-IsKept r)

abbrev pub body_of : Option File → Option Bytes
body_of none = none
body_of (some f) = some f.body

-- Whatever sessions spool, threads post, collect and restart, an artefact that was once spooled
-- stands with its bytes in PENDING or in refused/, or the server has acknowledged a post of exactly
-- those bytes, or the server has answered one with a status from 400 to 499 other than 409, or
-- refused/ was collected with it.
pub artefact_is_kept :
    {w : Uploads}
    → Reach w
    → (n : String) (b : Bytes) → lookup n w.spooled ≡ some b
    → (body_of (lookup n w.spool.pending) ≡ some b)
      ⊎ ((body_of (lookup n w.spool.refused) ≡ some b)
          ⊎ ((lookup n w.acked ≡ some b)
              ⊎ ((contains n w.dropped ≡ true) ⊎ (contains n w.expired ≡ true))))
artefact_is_kept {w} r n b h =
    let v = Reach-IsKept r in
    elim (Option-cases (lookup n w.spool.pending)) [
      | inr (f, e) ↦ inl (ground (arith, v.pending_body n f e))
      | inl p ↦ elim (Option-cases (lookup n w.spool.refused)) [
        | inr (f, e) ↦ inr (inl (ground (arith, v.refused_body n f e)))
        | inl q ↦ elim (Option-cases (lookup n w.acked)) [
          | inr (c, e) ↦ inr (inr (inl (ground (arith, v.acked_body n c e))))
          | inl u ↦ inr (inr (inr (ground (arith, v.kept n))))
        ]
      ]
    ]
