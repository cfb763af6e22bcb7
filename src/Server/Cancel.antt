-- ===== src/Server/Cancel.antt =====
-- server.py: _cancel_job, _resolve_stale_cancel, _mark_release and _mark_sweep.
pub mod Outcomes
use test_serv.Base.{
  ℕ, Bool, true, false, none, some, List, [], ◌∷◌, ◌+◌, ◌&&◌, not, String, ltb, if◌then◌else◌,
}
use test_serv.Base.Dict.{lookup, insert, mem, contains}
use test_serv.Json
use test_serv.Json.{Fields, status_of, strings}
use test_serv.Server.Digest.{is_safe_name}
use test_serv.Server.Store.{
  State, Externals, nothing, text, json, Reply, reply, prune_min_age, inflight_digests,
  unlink_input, unlink_input_meta, unlink_done, unlink_done_meta, unlink_cancel,
}

-- The labels of the files that were there to unlink.
abbrev pub labels : List (String × Bool) → List String
labels [] = []
labels ((l, true) ∷ ls) = l ∷ labels ls
labels ((l, false) ∷ ls) = labels ls

abbrev removed_field : List String → Fields
removed_field ls = Json.field "removed" (Json.arr (strings ls)) Fields.end

-- The job record and the marker, unlinked in the source's order.
unfoldable pub drop_job : String → State → List String × State
drop_job digest s = (
  labels (
      ("done", mem digest s.done)
      ∷ ("meta", mem digest s.done_meta)
      ∷ ("cancel", mem digest s.cancel)
      ∷ []),
  unlink_cancel digest (unlink_done_meta digest (unlink_done digest s)),
)

unfoldable pub signal_marker : ℕ → String → State → State
signal_marker now digest s = record s { cancel = insert digest now s.cancel }

unfoldable pub is_fresh : ℕ → String → State → Bool
is_fresh now digest s = elim (lookup digest s.done) [
  | none ↦ true
  | some f ↦ ltb now (f.mtime + prune_min_age)
]

module _ (ext : Externals) where
  -- The part of _cancel_job after the unlinks in INPUTS.
  unfoldable pub cancel_running : ℕ → String → State → Reply × State
  cancel_running now digest s =
      if mem digest s.done
      then if not (contains digest (inflight_digests ext now s)) && not (is_fresh now digest s)
        then (let (removed, s') = drop_job digest s in
            (reply 200 (json (status_of "stale_canceled" digest (removed_field removed))), s'))
        else (
          reply 200 (json (status_of "cancel_signaled" digest Fields.end)),
          signal_marker now digest s,
        )
      else (reply 404 nothing, s)

  unfoldable pub cancel_job : ℕ → String → State → Reply × State
  cancel_job now digest s =
      let s' = unlink_input_meta digest (unlink_input digest s) in
      if mem digest s.inputs
      then (reply 200 (json (status_of "canceled_queued" digest Fields.end)), s')
      else cancel_running now digest s'

  unfoldable pub resolve_stale_cancel : ℕ → String → State → Reply × State
  resolve_stale_cancel now digest s =
      if not (mem digest s.cancel)
      then (reply 404 (json (status_of "no_cancel" digest Fields.end)), s)
      else if contains digest (inflight_digests ext now s)
      then (reply 409 (json (status_of "inflight" digest Fields.end)), s)
      else if mem digest s.outputs
      then (
        reply 200 (json (status_of "done" digest (removed_field ("cancel" ∷ [])))),
        unlink_cancel digest s,
      )
      else (let (removed, s') = drop_job digest s in
          (reply 200 (json (status_of "stale_canceled" digest (removed_field removed))), s'))

unfoldable pub mark_sweep : State → Reply × State
mark_sweep s = (reply 200 (text "sweep queued\n"), record s { sweep = true })

unfoldable pub mark_release : ℕ → String → State → Reply × State
mark_release now device_id s =
    if not (is_safe_name device_id)
    then (reply 400 nothing, s)
    else (reply 200 (text "marked\n"), record s { release = insert device_id now s.release })
