-- ===== src/Server/Steps.antt =====
-- server.py: the requests as atomic steps on the state directory, in any order. ThreadingHTTPServer
-- runs handlers side by side; the steps are the file operations that the handlers make whole:
-- queue_job under its lock, each claim by rename, each rollback, and the other handlers.
use test_serv.Base.{ℕ, Bool, true, ◌≡◌, some, String}
use test_serv.Base.Dict.{Dict}
use test_serv.Server.Digest.{is_digest}
use test_serv.Server.Store.{Bytes, File, MetaFile, ContentLength, State, Externals, empty_state}
use test_serv.Server.Queue.{queue_job}
use test_serv.Server.Pickup.{claim_plan, claim_meta, return_plan, return_meta}
use test_serv.Server.Upload.{artefact, delete_handler, receive_status}
use test_serv.Server.Cancel.{cancel_job, resolve_stale_cancel, mark_sweep, mark_release}
use test_serv.Server.Sweep.{prune_stale_jobs, gc_outputs, wipe_all_jobs, pull_cancels}

-- The routes of cancels and jobs match `[0-9a-f]{64}` before they call their handlers.
pub data Step (ext : Externals) (s : State) : State → Type 0 where
  submits :
      (now : ℕ) (body : Bytes) (meta : Dict String) → Step ext s (queue_job ext now body meta s).1
  claims : (k : String) {f : File} {t : State} → claim_plan k s ≡ some (f, t) → Step ext s t
  claims_meta :
      (k : String) {m : MetaFile} {t : State} → claim_meta k s ≡ some (m, t) → Step ext s t
  returns : (k : String) → Step ext s (return_plan k s)
  returns_meta : (k : String) → Step ext s (return_meta k s)
  uploads :
      (now : ℕ) (full : Bool) (n : ContentLength) (stream : Bytes) (path : String)
      → Step ext s (artefact ext now full n stream path s).1
  deletes : (name : String) → Step ext s (delete_handler name s).1
  cancels : (now : ℕ) (d : String) → is_digest d ≡ true → Step ext s (cancel_job ext now d s).1
  resolves :
      (now : ℕ) (d : String) → is_digest d ≡ true → Step ext s (resolve_stale_cancel ext now d s).1
  prunes : (now : ℕ) → Step ext s (prune_stale_jobs ext now s).1
  collects : (now : ℕ) → Step ext s (gc_outputs now s)
  wipes : Step ext s (wipe_all_jobs s).1
  pulls : (now : ℕ) → Step ext s (pull_cancels now s).1
  publishes :
      (now : ℕ) (n : ContentLength) (stream : Bytes) (name : String)
      → Step ext s (receive_status now n stream name s).1
  sweeps : Step ext s (mark_sweep s).1
  releases : (now : ℕ) (id : String) → Step ext s (mark_release now id s).1

pub data Reach (ext : Externals) : State → Type 0 where
  start : Reach ext empty_state
  next : {s t : State} → Reach ext s → Step ext s t → Reach ext t
