-- ===== src/Server/Queue/Admission.antt =====
-- server.py: when queue_job takes a plan, and what it then changes.
use test_serv.Base.{
  ℕ, ◌<◌, ◌≡◌, ◌≢◌, ◌↔◌, ◌⊎◌, inl, inr, refl, false, Option, none, some, [], ◌∷◌, String, arith,
  length, str_eq, if◌then◌else◌,
}
use test_serv.Base.Dict.{Dict, lookup, mem, contains, lookup-insert, lookup-erase}
use test_serv.Server.Meta.{format_meta}
use test_serv.Server.Store.{Bytes, MetaFile, State, Externals, max_queued_plans, inflight_digests}
use test_serv.Server.Queue.{
  QueueStatus, queued, enact, admission, queue_job, write_meta, write_plan, drop_marker,
}

module _ (ext : Externals) (now : ℕ) (s : State) where
  -- queue_job takes a plan exactly when the queue has room and no artefact, queued plan, job
  -- record or fresh inflight entry has its digest.
  pub queue_job_accepts :
      (body : Bytes) (meta : Dict String)
      → let d = ext.sha256 body in
        ((queue_job ext now body meta s).0.1 ≡ queued) ↔ (
          (length s.inputs < max_queued_plans)
          × (mem d s.outputs ≡ false)
          × (mem d s.inputs ≡ false)
          × (mem d s.done ≡ false)
          × (contains d (inflight_digests ext now s) ≡ false))
  unfolding queue_job admission
  queue_job_accepts body meta = (λ h. ground arith, λ h. ground arith)

  -- A refused plan changes nothing on disk.
  pub queue_job_refuses :
      (body : Bytes) (meta : Dict String)
      → (queue_job ext now body meta s).0.1 ≢ queued
      → (queue_job ext now body meta s).1 ≡ s
  unfolding queue_job
  queue_job_refuses body meta h = ground arith

abbrev pub meta_file : ℕ → Dict String → Option MetaFile
meta_file now [] = none
meta_file now (kv ∷ meta) = some (record { mtime = now; content = format_meta (kv ∷ meta) })

lookup-write_meta :
    (now : ℕ) (d : String) (meta : Dict String) (s : State) (j : String)
    → lookup j (write_meta now d meta s).inputs_meta
      ≡ (if str_eq d j then meta_file now meta else lookup j s.inputs_meta)
unfolding write_meta
lookup-write_meta now d [] s j = lookup-erase d j s.inputs_meta
lookup-write_meta now d (kv ∷ meta) s j = lookup-insert d j _ s.inputs_meta

write_meta_keeps :
    (now : ℕ) (d : String) (meta : Dict String) (s : State)
    → let t = write_meta now d meta s in
      (t.inputs ≡ s.inputs)
      × (t.done ≡ s.done)
      × (t.outputs ≡ s.outputs)
      × (t.cancel ≡ s.cancel)
      × (t.done_meta ≡ s.done_meta)
      × (t.status ≡ s.status)
unfolding write_meta
write_meta_keeps now d [] s = ground arith
write_meta_keeps now d (kv ∷ meta) s = ground arith

-- A plan that is taken stands in INPUTS under its digest, with exactly its own meta file and no
-- cancel marker; every other queued plan, meta file and marker, all of DONE with its meta files, all of
-- OUTPUTS and the status files stay.
pub queue_job_effect :
    (ext : Externals) (now : ℕ) (s : State) (body : Bytes) (meta : Dict String)
    → (queue_job ext now body meta s).0.1 ≡ queued
    → let d = ext.sha256 body in
      let t = (queue_job ext now body meta s).1 in
      ((j : String)
        → (lookup j t.inputs ≡ (
            if str_eq d j then some (record { mtime = now; body = body }) else lookup j s.inputs))
          × (lookup j t.inputs_meta
              ≡ (if str_eq d j then meta_file now meta else lookup j s.inputs_meta))
          × (lookup j t.cancel ≡ (if str_eq d j then none else lookup j s.cancel)))
      × (t.done ≡ s.done)
      × (t.outputs ≡ s.outputs)
      × (t.done_meta ≡ s.done_meta)
      × (t.status ≡ s.status)
unfolding queue_job write_plan drop_marker
queue_job_effect ext now s body meta h =
    let d = ext.sha256 body in
    let kept = write_meta_keeps now d meta s in
    rw h (
      λ j. (
        rw (kept.0) (lookup-insert d j _ s.inputs),
        lookup-write_meta now d meta s j,
        rw (kept.3) (lookup-erase d j s.cancel),
      ),
      kept.1,
      kept.2,
      kept.4,
      kept.5,
    )

enact_cases :
    (ext : Externals) (q : QueueStatus) (now : ℕ) (d : String) (body : Bytes) (meta : Dict String)
    (s : State)
    → (enact ext q now d body meta s ≡ s) ⊎ (q ≡ queued)
enact_cases ext QueueStatus.queue_full now d body meta s = inl refl
enact_cases ext QueueStatus.stale_outputs now d body meta s = inl refl
enact_cases ext QueueStatus.duplicate now d body meta s = inl refl
enact_cases ext queued now d body meta s = inr refl

pub queue_job_cases :
    (ext : Externals) (now : ℕ) (body : Bytes) (meta : Dict String) (s : State)
    → ((queue_job ext now body meta s).1 ≡ s) ⊎ ((queue_job ext now body meta s).0.1 ≡ queued)
unfolding queue_job
queue_job_cases ext now body meta s = enact_cases ext _ now _ body meta s
