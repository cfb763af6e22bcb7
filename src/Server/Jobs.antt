-- ===== src/Server/Jobs.antt =====
-- server.py: _list_jobs. `manifest` is the status that _peek_manifest_status reads from a tar.
pub mod Rows
use test_serv.Base.{
  ℕ, Bool, true, false, not, ◌&&◌, ◌||◌, Option, none, some, List, [], ◌∷◌, String, str_eq, ltb,
  leb, length, if◌then◌else◌,
}
use test_serv.Base.Text.{is_empty}
use test_serv.Base.Dict.{Dict, lookup, insert, mem, keys}
use test_serv.Server.Digest.{is_digest}
use test_serv.Server.Meta.{read_meta}
use test_serv.Server.Store.{File, MetaFile, State}

pub data Status : Type 0 where
  queued running done : Status

-- One row: the times and the meta stand only where the source sets them.
pub record Job : Type 0 where
  pub digest : String
  pub status : Status
  pub queued_at : Option ℕ
  pub picked_up_at : Option ℕ
  pub completed_at : Option ℕ
  pub size_bytes : ℕ
  pub meta : Option (Dict String)
  pub manifest_status : Option String
  pub cancel_pending : Bool

-- _try_meta
abbrev pub try_meta : String → Dict MetaFile → Dict String
try_meta digest metas = elim (lookup digest metas) [ none ↦ [] | some m ↦ read_meta m.content ]

abbrev pub queued_job : String → File → Dict MetaFile → Job
queued_job digest f metas = record {
  digest = digest;
  status = queued;
  queued_at = some f.mtime;
  picked_up_at = none;
  completed_at = none;
  size_bytes = length f.body;
  meta = some (try_meta digest metas);
  manifest_status = none;
  cancel_pending = false;
}

abbrev pub running_job : String → File → Dict MetaFile → Job
running_job digest f metas = record (queued_job digest f metas) {
  status = running;
  queued_at = none;
  picked_up_at = some f.mtime;
}

-- The loop over INPUTS.
unfoldable pub add_queued : Dict File → Dict MetaFile → Dict Job → Dict Job
add_queued [] metas jobs = jobs
add_queued ((d, f) ∷ files) metas jobs =
    add_queued files metas (if is_digest d then insert d (queued_job d f metas) jobs else jobs)

-- The loop over DONE.
unfoldable pub add_running : Dict File → Dict MetaFile → Dict Job → Dict Job
add_running [] metas jobs = jobs
add_running ((d, f) ∷ files) metas jobs =
    add_running files metas
      (if not (is_digest d) || mem d jobs then jobs else insert d (running_job d f metas) jobs)

-- seen_outputs: the newest time of each digest, above 0.
abbrev pub seen_time : String → Dict ℕ → ℕ
seen_time d seen = elim (lookup d seen) [ none ↦ 0 | some t ↦ t ]

unfoldable pub see_outputs : Dict File → Dict ℕ → Dict ℕ
see_outputs [] seen = seen
see_outputs ((d, f) ∷ files) seen =
    see_outputs files
      (if is_digest d && ltb (seen_time d seen) f.mtime then insert d f.mtime seen else seen)

-- A digest with no record gets a row of its own.
abbrev pub bare_job : String → Job
bare_job digest = record {
  digest = digest;
  status = done;
  queued_at = none;
  picked_up_at = none;
  completed_at = none;
  size_bytes = 0;
  meta = none;
  manifest_status = none;
  cancel_pending = false;
}

abbrev pub job_or_bare : String → Option Job → Job
job_or_bare digest none = bare_job digest
job_or_bare digest (some j) = j

-- `if ms:`
abbrev pub if_text : Option String → Option String
if_text none = none
if_text (some ms) = if is_empty ms then none else some ms

unfoldable pub add_done : (String → Option String) → Dict ℕ → Dict Job → Dict Job
add_done manifest [] jobs = jobs
add_done manifest ((d, t) ∷ seen) jobs = add_done manifest seen (
    insert d
      (record (job_or_bare d (lookup d jobs)) {
        status = done;
        completed_at = some t;
        manifest_status = if_text (manifest d);
      })
      jobs)

-- The loop over CANCEL.
abbrev pub mark_cancel : String → Option Job → Dict Job → Dict Job
mark_cancel d none jobs = jobs
mark_cancel d (some j) jobs = insert d (record j { cancel_pending = true }) jobs

unfoldable pub mark_cancels : List String → Dict Job → Dict Job
mark_cancels [] jobs = jobs
mark_cancels (d ∷ ds) jobs =
    mark_cancels ds (if is_digest d then mark_cancel d (lookup d jobs) jobs else jobs)

unfoldable pub collect_jobs : (String → Option String) → State → Dict Job
collect_jobs manifest s = mark_cancels (keys s.cancel) (
    add_done manifest (see_outputs s.outputs [])
      (add_running s.done s.done_meta (add_queued s.inputs s.inputs_meta [])))

-- The latest of the times, 0 for one that is missing.
abbrev pub or_zero : Option ℕ → ℕ
or_zero none = 0
or_zero (some t) = t

abbrev pub most : ℕ → ℕ → ℕ
most a b = if leb a b then b else a

abbrev pub latest : Job → ℕ
latest j = most (or_zero j.queued_at) (most (or_zero j.picked_up_at) (or_zero j.completed_at))

-- sorted(..., reverse=True), which keeps the order of rows with the same time.
pub insert_job : Job → List Job → List Job
insert_job j [] = j ∷ []
insert_job j (k ∷ ks) =
    let rest = insert_job j ks in if leb (latest k) (latest j) then j ∷ k ∷ ks else k ∷ rest

pub sort_jobs : Dict Job → List Job
unfolding insert_job
sort_jobs [] = []
sort_jobs ((d, j) ∷ jobs) = insert_job j (sort_jobs jobs)

pub list_jobs : (String → Option String) → State → List Job
unfolding collect_jobs sort_jobs
list_jobs manifest s = sort_jobs (collect_jobs manifest s)
