-- ===== src/Server/Cancel/Outcomes.antt =====
-- server.py: what DELETE /jobs/<digest> and the poller's acknowledgement leave behind.
use test_serv.Base.{
  ℕ, ◌+◌, ◌≤◌, ◌≡◌, refl, true, false, not, ◌&&◌, ◌||◌, none, some, [], ◌∷◌, String, arith, str_eq,
  eq_iff, if◌then◌else◌,
}
use test_serv.Base.Dict.{Dict, lookup, mem, contains, lookup-insert, lookup-erase}
use test_serv.Json.{Fields, status_of}
use test_serv.Server.Digest.{is_digest}
use test_serv.Server.Store.{Bytes, State, Externals, reply, json, inflight_digests}
use test_serv.Server.Queue.{queued, queue_job}
use test_serv.Server.Queue.Admission.{queue_job_effect}
use test_serv.Server.Upload.{store_artefact}
use test_serv.Server.Sweep.{live_markers, marker_max_age}
use test_serv.Server.Cancel.{cancel_job, cancel_running, drop_job, signal_marker, is_fresh}

module _ (ext : Externals) (now : ℕ) (d : String) (s : State) where
  -- Canceling a queued job takes its plan and meta file out of the queue, and nothing else.
  pub cancel_job_queued :
      mem d s.inputs ≡ true
      → let o = cancel_job ext now d s in
        (o.0 ≡ reply 200 (json (status_of "canceled_queued" d Fields.end)))
        × ((j : String)
            → (lookup j o.1.inputs ≡ (if str_eq d j then none else lookup j s.inputs))
              × (lookup j o.1.inputs_meta ≡ (if str_eq d j then none else lookup j s.inputs_meta)))
        × (o.1.done ≡ s.done)
        × (o.1.outputs ≡ s.outputs)
        × (o.1.cancel ≡ s.cancel)
  unfolding cancel_job
  cancel_job_queued h =
      rw h
        (refl, λ j. (lookup-erase d j s.inputs, lookup-erase d j s.inputs_meta), refl, refl, refl)

  -- Canceling a job that is picked up: a marker is left while the poller may still own the job,
  -- and otherwise its record and any old marker go. Either way no artefact and no other job's
  -- record or marker is touched. A digest with neither plan nor record is not found.
  pub cancel_job_running :
      mem d s.inputs ≡ false
      → let t = (cancel_job ext now d s).1 in
        let owned = contains d (inflight_digests ext now s) || is_fresh now d s in
        ((cancel_job ext now d s).0.code ≡ (if mem d s.done then 200 else 404))
        × (t.outputs ≡ s.outputs)
        × ((j : String)
            → (lookup j t.done
                ≡ (if mem d s.done && not owned && str_eq d j then none else lookup j s.done))
              × (lookup j t.cancel ≡ (
                  if mem d s.done && str_eq d j
                  then (if owned then some now else none)
                  else lookup j s.cancel)))
  unfolding cancel_job cancel_running drop_job signal_marker is_fresh inflight_digests
  cancel_job_running h = (
    ground arith,
    ground arith,
    λ j. (
      ground (arith, lookup-erase d j s.done, eq_iff d j),
      ground (arith, lookup-erase d j s.cancel, lookup-insert d j now s.cancel, eq_iff d j),
    ),
  )

pub live_markers_fresh :
    (now : ℕ) (d : String) (t : ℕ) (c : Dict ℕ)
    → lookup d c ≡ some t
    → is_digest d ≡ true
    → now ≤ t + marker_max_age
    → contains d (live_markers now c).0 ≡ true
unfolding live_markers lookup
live_markers_fresh now d t [] e safe young = absurd (ground arith)
live_markers_fresh now d t ((k, u) ∷ c) e safe young =
    ground (arith, live_markers_fresh now d t c, eq_iff k d)

pub live_markers_absent :
    (now : ℕ) (d : String) (c : Dict ℕ)
    → mem d c ≡ false
    → contains d (live_markers now c).0 ≡ false
unfolding live_markers lookup
live_markers_absent now d [] h = refl
live_markers_absent now d ((k, u) ∷ c) h = ground (arith, live_markers_absent now d c, eq_iff k d)

lookup-live_markers :
    (now : ℕ) (d : String) (t : ℕ) (c : Dict ℕ)
    → lookup d c ≡ some t
    → now ≤ t + marker_max_age
    → lookup d (live_markers now c).1 ≡ some t
unfolding live_markers lookup
lookup-live_markers now d t [] e young = absurd (ground arith)
lookup-live_markers now d t ((k, u) ∷ c) e young =
    ground (arith, lookup-live_markers now d t c, eq_iff k d)

-- A job that was just queued is on no list of cancels, whatever markers were left before.
pub no_phantom_cancel :
    (ext : Externals) (now later : ℕ) (body : Bytes) (meta : Dict String) (s : State)
    → (queue_job ext now body meta s).0.1 ≡ queued
    → contains (ext.sha256 body) (live_markers later (queue_job ext now body meta s).1.cancel).0
      ≡ false
no_phantom_cancel ext now later body meta s h =
    let d = ext.sha256 body in
    let effect = queue_job_effect ext now s body meta h in
    live_markers_absent later d (queue_job ext now body meta s).1.cancel
      (ground (arith, (effect.0 d).2, eq_iff d d))

-- A cancel of a picked-up job that the poller may own is on the list of cancels for the next ninety
-- minutes, also when the list was pulled in between, and off it once the artefact is stored.
pub cancel_is_listed :
    (ext : Externals) (now t1 t2 t3 : ℕ) (d : String) (body : Bytes) (s : State)
    → is_digest d ≡ true
    → mem d s.inputs ≡ false
    → mem d s.done ≡ true
    → contains d (inflight_digests ext now s) || is_fresh now d s ≡ true
    → t1 ≤ now + marker_max_age
    → t2 ≤ now + marker_max_age
    → let t = (cancel_job ext now d s).1 in
      let u = record t { cancel = (live_markers t1 t.cancel).1 } in
      (contains d (live_markers t2 u.cancel).0 ≡ true)
      × (contains d (live_markers t3 (store_artefact ext t3 d body u).cancel).0 ≡ false)
unfolding store_artefact
cancel_is_listed ext now t1 t2 t3 d body s safe unqueued picked owned h1 h2 =
    let running = cancel_job_running ext now d s unqueued in
    let t = (cancel_job ext now d s).1 in
    let marked : lookup d t.cancel ≡ some now = ground (arith, ((running.2) d).1, eq_iff d d) in
    let kept = lookup-live_markers t1 d now t.cancel marked h1 in
    (
      live_markers_fresh t2 d now (live_markers t1 t.cancel).1 kept safe h2,
      live_markers_absent t3 d _
          (ground (arith, lookup-erase d d (live_markers t1 t.cancel).1, eq_iff d d)),
    )
