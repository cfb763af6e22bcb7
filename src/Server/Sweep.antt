-- ===== src/Server/Sweep.antt =====
-- server.py: prune_stale_jobs, _gc_outputs, _wipe_all_jobs and _pull_cancels.
pub mod Prune
use test_serv.Base.{
  ℕ, Bool, List, [], ◌∷◌, ◌+◌, ◌*◌, ◌&&◌, not, String, ltb, leb, length, if◌then◌else◌,
}
use test_serv.Base.Dict.{Dict, mem, contains}
use test_serv.Json
use test_serv.Json.{Fields, strings}
use test_serv.Server.Digest.{is_digest}
use test_serv.Server.Store.{
  State, File, MetaFile, Externals, json, Reply, reply, prune_min_age, inflight_digests,
  unlink_done, unlink_done_meta,
}

abbrev pub output_max_age : ℕ
output_max_age = 7 * 24 * 3600 * 1000

abbrev pub marker_max_age : ℕ
marker_max_age = 5_400_000

-- Whether the loop of prune_stale_jobs removes the record: `live` is the poller's view.
pub is_stale : ℕ → List String → Dict File → String → File → Bool
is_stale now live outputs k f =
    is_digest k && not (mem k outputs) && not (contains k live) && leb (f.mtime + prune_min_age) now

-- The loop over the listing of DONE.
unfoldable pub prune_loop : ℕ → List String → Dict File → Dict File → State → ℕ × State
unfolding is_stale
prune_loop now live outputs [] s = (0, s)
prune_loop now live outputs ((k, f) ∷ listing) s =
    let (n, s') =
      prune_loop now live outputs listing
        (if is_stale now live outputs k f then unlink_done_meta k (unlink_done k s) else s) in
    (if is_stale now live outputs k f then n + 1 else n, s')

module _ (ext : Externals) where
  unfoldable pub prune_stale_jobs : ℕ → State → ℕ × State
  unfolding prune_loop
  prune_stale_jobs now s = prune_loop now (inflight_digests ext now s) s.outputs s.done s

-- The files of a directory that GC keeps: those no older than a week.
unfoldable pub gc_files : ℕ → Dict File → Dict File
gc_files now [] = []
gc_files now ((k, f) ∷ d) =
    let rest = gc_files now d in if ltb (f.mtime + output_max_age) now then rest else (k, f) ∷ rest

pub gc_metas : ℕ → Dict MetaFile → Dict MetaFile
gc_metas now [] = []
gc_metas now ((k, f) ∷ d) =
    let rest = gc_metas now d in if ltb (f.mtime + output_max_age) now then rest else (k, f) ∷ rest

unfoldable pub gc_outputs : ℕ → State → State
unfolding gc_files gc_metas
gc_outputs now s = record s {
  outputs = gc_files now s.outputs;
  done = gc_files now s.done;
  done_meta = gc_metas now s.done_meta;
}

unfoldable pub wipe_all_jobs : State → Reply × State
wipe_all_jobs s = (
  reply 200 (
      json (
        Json.obj (
          Json.field "status" (Json.str "ok") (
            Json.field "inputs" (Json.num (length s.inputs + length s.inputs_meta)) (
              Json.field "done" (Json.num (length s.done + length s.done_meta)) (
                Json.field "outputs" (Json.num (length s.outputs))
                  (Json.field "cancel" (Json.num (length s.cancel)) Fields.end))))))),
  record s { inputs = []; inputs_meta = []; done = []; done_meta = []; outputs = []; cancel = [] },
)

-- The markers that are live, and CANCEL without those that are not.
unfoldable pub live_markers : ℕ → Dict ℕ → List String × Dict ℕ
live_markers now [] = ([], [])
live_markers now ((k, t) ∷ d) =
    let (live, rest) = live_markers now d in
    if not (is_digest k)
    then (live, (k, t) ∷ rest)
    else if ltb (t + marker_max_age) now
    then (live, rest)
    else (k ∷ live, (k, t) ∷ rest)

unfoldable pub pull_cancels : ℕ → State → Reply × State
unfolding live_markers
pull_cancels now s =
    let (live, rest) = live_markers now s.cancel in
    (reply 200 (json (Json.arr (strings live))), record s { cancel = rest })
