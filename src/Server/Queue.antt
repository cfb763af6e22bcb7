-- ===== src/Server/Queue.antt =====
-- server.py: queue_job. One call runs under `_submit_lock`.
pub mod Admission
use test_serv.Base.{ℕ, [], ◌∷◌, String, leb, length, if◌then◌else◌}
use test_serv.Base.Dict.{Dict, insert, erase, mem, contains}
use test_serv.Server.Meta.{format_meta}
use test_serv.Server.Store.{Bytes, State, Externals, max_queued_plans, inflight_digests}

pub data QueueStatus : Type 0 where
  queue_full stale_outputs duplicate queued : QueueStatus

-- The meta file is written, or an old one removed, before the plan appears.
unfoldable pub write_meta : ℕ → String → Dict String → State → State
write_meta now digest [] s = record s { inputs_meta = erase digest s.inputs_meta }
write_meta now digest (kv ∷ meta) s = record s {
  inputs_meta =
      insert digest (record { mtime = now; content = format_meta (kv ∷ meta) }) s.inputs_meta;
}

unfoldable pub write_plan : ℕ → String → Bytes → State → State
write_plan now digest body s = record s {
  inputs = insert digest (record { mtime = now; body = body }) s.inputs;
}

unfoldable pub drop_marker : String → State → State
drop_marker digest s = record s { cancel = erase digest s.cancel }

module _ (ext : Externals) where
  -- The status that the checks of queue_job come to, in their order.
  unfoldable pub admission : ℕ → String → State → QueueStatus
  admission now digest s =
      if leb max_queued_plans (length s.inputs)
      then queue_full
      else if mem digest s.outputs
      then stale_outputs
      else if mem digest s.inputs
      then duplicate
      else if mem digest s.done
      then duplicate
      else if contains digest (inflight_digests ext now s)
      then duplicate
      else queued

  abbrev pub enact : QueueStatus → ℕ → String → Bytes → Dict String → State → State
  enact queued now digest body meta s =
      drop_marker digest (write_plan now digest body (write_meta now digest meta s))
  enact _ now digest body meta s = s

  unfoldable pub queue_job : ℕ → Bytes → Dict String → State → (String × QueueStatus) × State
  queue_job now body meta s =
      let digest = ext.sha256 body in
      let status = admission now digest s in ((digest, status), enact status now digest body meta s)
