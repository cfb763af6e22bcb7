-- ===== src/Server/Lifecycle.antt =====
-- server.py: one job from its submission to its clean-up.
use test_serv.Base.{ℕ, ◌<◌, ◌≡◌, ◌≢◌, true, false, some, String, arith, length, eq_iff}
use test_serv.Base.Dict.{Dict, insert, erase, mem, contains, lookup-insert, lookup-erase}
use test_serv.Server.Store.{Bytes, File, State, Externals, max_queued_plans, inflight_digests}
use test_serv.Server.Queue.{queued, queue_job}
use test_serv.Server.Queue.Admission.{queue_job_effect, queue_job_accepts}
use test_serv.Server.Pickup.{claim_plan}
use test_serv.Server.Upload.{store_artefact, plan_present, delete_outputs, output_names}

-- A queued plan can be claimed, and is claimed with the body that was queued.
pub claim_after_queue :
    (ext : Externals) (t1 : ℕ) (body : Bytes) (meta : Dict String) (s : State)
    → (queue_job ext t1 body meta s).0.1 ≡ queued
    → let d = ext.sha256 body in
      let q = (queue_job ext t1 body meta s).1 in
      claim_plan d q
      ≡ some (
        record { mtime = t1; body = body },
        record q {
          inputs = erase d q.inputs;
          done = insert d (record { mtime = t1; body = body }) q.done;
        },
      )
unfolding claim_plan
claim_after_queue ext t1 body meta s h =
    let d = ext.sha256 body in
    let effect = (queue_job_effect ext t1 s body meta h).0 d in ground (arith, effect, eq_iff d d)

module _ (ext : Externals) (t1 t2 t3 : ℕ) (body artefact_body : Bytes) (meta : Dict String)
    (s : State) where
  -- A job that is queued, claimed, finished and cleaned up leaves no trace that stops the same plan
  -- from being queued again: once the poller no longer reports it in flight and the queue has room,
  -- a second submission is taken. While its artefact or its record is there, it is not.
  pub queue_job_again :
      {f : File} {c : State}
      → (queue_job ext t1 body meta s).0.1 ≡ queued
      → claim_plan (ext.sha256 body) (queue_job ext t1 body meta s).1 ≡ some (f, c)
      → let d = ext.sha256 body in
        let finished = store_artefact ext t2 d artefact_body c in
        let (removed, cleaned) = delete_outputs d "" finished in
        (plan_present ext t2 d c ≡ true)
        × (removed ≡ 1)
        × ((queue_job ext t3 body meta c).0.1 ≢ queued)
        × ((queue_job ext t3 body meta finished).0.1 ≢ queued)
        × (contains d (inflight_digests ext t3 cleaned) ≡ false
            → length cleaned.inputs < max_queued_plans
            → (queue_job ext t3 body meta cleaned).0.1 ≡ queued)
  unfolding claim_plan store_artefact delete_outputs output_names plan_present
  queue_job_again {f} {c} h claimed =
      let d = ext.sha256 body in
      let effect = (queue_job_effect ext t1 s body meta h).0 d in
      let q = (queue_job ext t1 body meta s).1 in
      let moved : c ≡ record q { inputs = erase d q.inputs; done = insert d f q.done } =
        ground arith in
      let in_done : mem d c.done ≡ true =
        rw moved (ground (arith, lookup-insert d d f q.done, eq_iff d d)) in
      let not_queued : mem d c.inputs ≡ false =
        rw moved (ground (arith, lookup-erase d d q.inputs, eq_iff d d)) in
      let file : File = record { mtime = t2; body = artefact_body } in
      let stored : mem d (insert d file c.outputs) ≡ true =
        ground (arith, lookup-insert d d file c.outputs, eq_iff d d) in
      let finished = store_artefact ext t2 d artefact_body c in
      let o = delete_outputs d "" finished in
      (
        ground arith,
        ground arith,
        (λ e. absurd (ground (arith, (queue_job_accepts ext t3 c body meta).0 e))),
        (λ e. absurd (ground (arith, (queue_job_accepts ext t3 finished body meta).0 e))),
        (λ quiet room. (queue_job_accepts ext t3 o.1 body meta).1 (
          room,
          ground (arith, lookup-erase d d (insert d file c.outputs), eq_iff d d),
          ground arith,
          ground (arith, lookup-erase d d c.done, eq_iff d d),
          quiet,
        )),
      )
