-- ===== src/Poller/Spool.antt =====
-- poller.py: the artefacts spooled in PENDING, their posts, and PENDING/refused. Times are in
-- milliseconds.
pub mod Uploads
pub mod Moves
pub mod Kept
pub mod Drained
pub mod Delivered
use Prim.Native.String.{◌++◌}
use test_serv.Base.{
  ℕ, Bool, true, false, not, ◌&&◌, ◌||◌, Option, none, some, List, [], ◌∷◌, ◌+◌, ◌-◌, ◌*◌, String,
  str_eq, ltb, leb, ◌==◌, if◌then◌else◌,
}
use test_serv.Base.Text.{all_chars, text_length, is_empty, partition}
use test_serv.Base.Dict.{Dict, lookup, insert, erase, keys}
use test_serv.Server.Digest.{is_hex}
use test_serv.Server.Store.{Bytes, File}
use test_serv.Registry.Resolve.{ends_with}

abbrev pub refused_grace : ℕ
refused_grace = 6 * 3600 * 1000

abbrev pub refused_retry_backoff : ℕ
refused_retry_backoff = 5 * 60 * 1000

abbrev pub refused_retention : ℕ
refused_retention = 365 * 24 * 3600 * 1000

abbrev pub push_circuit_open : ℕ
push_circuit_open = 30 * 1000

-- The files of PENDING and of PENDING/refused, _refused_retry_after and _push_circuit_until.
pub record Spool : Type 0 where
  pub pending : Dict File
  pub refused : Dict File
  pub retry_after : Dict ℕ
  pub circuit_until : ℕ

-- How a POST ends: with a status below 400, an HTTPError, or no answer.
pub data Posted : Type 0 where
  accepted lost : Posted
  http_error : ℕ → Posted

-- time.time() and time.monotonic() where a post ends, and whether os.replace works.
pub record Moment : Type 0 where
  pub wall : ℕ
  pub mono : ℕ
  pub can_park : Bool

abbrev tar_tail : Option String → Bool
tar_tail none = false
tar_tail (some tail) = str_eq tail "tar" || str_eq tail "tar\n"

-- _SPOOL_NAME_RE, and its group: the digest.
abbrev run_part : String → Bool
run_part rest =
    let (run, tail) = partition b'.' rest in
    all_chars is_hex run && not (is_empty run) && tar_tail tail

abbrev after_digest : String × Option String → Option String
after_digest (d, none) = none
after_digest (d, some rest) =
    if all_chars is_hex d && text_length d == 64 && run_part rest then some d else none

unfoldable pub spool_digest : String → Option String
spool_digest name = after_digest (partition b'.' name)

unfoldable pub spool_name : String → String → String
spool_name job_id run = job_id ++ ("." ++ (run ++ ".tar"))

-- `run` is what uuid4 gives.
unfoldable pub spool_artefact : ℕ → String → String → Bytes → Spool → String × Spool
unfolding spool_name
spool_artefact wall job_id run tar s =
    let name = spool_name job_id run in
    (name, record s { pending = insert name (record { mtime = wall; body = tar }) s.pending })

-- The age of the file, 0 if it has gone.
abbrev age_of : ℕ → Option File → ℕ
age_of wall none = 0
age_of wall (some f) = wall - f.mtime

-- os.replace(spool_path, refused/name), if the file is still there.
abbrev park : Bool → String → Option File → Spool → Spool
park false name f s = s
park true name none s = s
park true name (some f) s = record s {
  pending = erase name s.pending;
  refused = insert name f s.refused;
}

-- A 409: the file stays for six hours, then it is parked.
unfoldable pub refuse : Moment → String → Spool → Spool
refuse at name s =
    if ltb (age_of at.wall (lookup name s.pending)) refused_grace
    then record s { retry_after = insert name (at.mono + refused_retry_backoff) s.retry_after }
    else park at.can_park name (lookup name s.pending) s

-- What _post_spooled does with the end of its POST. The file may have gone meanwhile.
unfoldable pub finish_post : Moment → String → Posted → Spool → Bool × Spool
unfolding refuse
finish_post at name accepted s = (true, record s { pending = erase name s.pending })
finish_post at name lost s = (false, record s { circuit_until = at.mono + push_circuit_open })
finish_post at name (http_error code) s =
    if code == 409
    then (false, refuse at name s)
    else if leb 400 code && ltb code 500
    then (false, record s { pending = erase name s.pending })
    else (false, s)

-- The whole of _post_spooled when no other thread moves during the POST. `post` is the server.
unfoldable pub post_spooled : Moment → (String → Bytes → Posted) → String → Spool → Bool × Spool
unfolding finish_post
post_spooled at post name s = elim (spool_digest name) [
  | none ↦ (false, s)
  | some digest ↦ elim (lookup name s.pending) [
    | none ↦ (false, s)
    | some f ↦ finish_post at name (post digest f.body) s
  ]
]

-- _refused_retry_after.get(path, 0.0)
abbrev pub retry_time : String → Spool → ℕ
retry_time name s = elim (lookup name s.retry_after) [ none ↦ 0 | some t ↦ t ]

-- One name of the listing; `mono` is the clock at the test of the retry time.
unfoldable pub drain_one : ℕ → Moment → (String → Bytes → Posted) → String → Spool → Spool
unfolding post_spooled
drain_one mono at post name s =
    if not (ends_with ".tar" name)
    then s
    else if ltb mono (retry_time name s)
    then s
    else (post_spooled at post name s).1

-- The clocks of a drain: one reading before and one after the post, for the nth name.
unfoldable pub drain_names :
    (ℕ → ℕ × Moment) → ℕ → (String → Bytes → Posted) → List String → Spool → Spool
unfolding drain_one
drain_names clock n post [] s = s
drain_names clock n post (name ∷ names) s =
    drain_names clock (n + 1) post names (drain_one (clock n).0 (clock n).1 post name s)

-- `sorted` of the listing is Python's.
unfoldable pub drain_pending_uploads :
    (List String → List String) → ℕ → (ℕ → ℕ × Moment) → (String → Bytes → Posted) → Spool → Spool
unfolding drain_names
drain_pending_uploads sorted mono clock post s =
    if ltb mono s.circuit_until then s else drain_names clock 0 post (sorted (keys s.pending)) s

-- min(600, 30 + size / 1e6) seconds, in microseconds; 30 if the file has gone.
pub drain_per_spool_timeout : Option ℕ → ℕ
drain_per_spool_timeout none = 30_000_000
drain_per_spool_timeout (some size) =
    if ltb (30_000_000 + size) 600_000_000 then 30_000_000 + size else 600_000_000

-- The listing of refused/, with the names that go.
unfoldable pub gc_refused : ℕ → List String → Dict File → List String × Dict File
gc_refused now [] d = ([], d)
gc_refused now (name ∷ names) d = elim (lookup name d) [
  | none ↦ gc_refused now names d
  | some f ↦
      let old = ltb (f.mtime + refused_retention) now in
      let (gone, d') = gc_refused now names (if old then erase name d else d) in
      if old then (name ∷ gone, d') else (gone, d')
]

unfoldable pub gc_refused_spools : ℕ → Spool → List String × Spool
unfolding gc_refused
gc_refused_spools now s =
    let (gone, d) = gc_refused now (keys s.refused) s.refused in (gone, record s { refused = d })
