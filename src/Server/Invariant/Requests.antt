-- ===== src/Server/Invariant/Requests.antt =====
-- server.py: the requests that name one digest keep the invariant.
use test_serv.Base.{ℕ, Bool, true, ◌≡◌, String, arith, eq_iff, inl, inr, ◌⊎◌}
use test_serv.Base.Dict.{Dict, lookup-insert}
use test_serv.Server.Digest.{is_digest, split_name}
use test_serv.Server.Store.{Bytes, State, Externals, ContentLength, unlink_cancel, read_body}
use test_serv.Server.Queue.Admission.{queue_job_cases, queue_job_accepts, queue_job_effect}
use test_serv.Server.Queue.{queue_job}
use test_serv.Server.Upload.{artefact, store_artefact}
use test_serv.Server.Cancel.{
  cancel_job, cancel_running, resolve_stale_cancel, drop_job, signal_marker,
}
use test_serv.Server.Invariant.{IsValid, Shrinks-IsValid, Shrinks-refl}
use test_serv.Server.Invariant.Moves.{
  drop_job-IsValid, signal_marker-IsValid, unqueue-IsValid, cancel_job_cases,
}

module _ (ext : Externals) (hashes : (b : Bytes) → is_digest (ext.sha256 b) ≡ true) where
  pub queue_job-IsValid :
      (now : ℕ) (body : Bytes) (meta : Dict String) {s : State}
      → IsValid s
      → IsValid (queue_job ext now body meta s).1
  queue_job-IsValid now body meta {s} v = elim (queue_job_cases ext now body meta s) [
    | inl e ↦ rw e v
    | inr q ↦
        let facts = (queue_job_accepts ext now s body meta).0 q in
        let effect = queue_job_effect ext now s body meta q in
        let d = ext.sha256 body in
        record {
          exclusive =
              λ k h. ground (arith, (effect.0 k).0, effect.1, facts.3, eq_iff d k, v.exclusive k);
          safe_inputs =
              λ k h. ground (arith, (effect.0 k).0, eq_iff d k, hashes body, v.safe_inputs k);
          safe_done = λ k h. ground (arith, effect.1, v.safe_done k);
          safe_outputs = λ k h. ground (arith, effect.2, v.safe_outputs k);
        }
  ]

  pub store_artefact-IsValid :
      (now : ℕ) (d : String) (body : Bytes) {s : State}
      → is_digest d ≡ true
      → IsValid s
      → IsValid (store_artefact ext now d body s)
  unfolding store_artefact
  store_artefact-IsValid now d body {s} safe v = record {
    exclusive = v.exclusive;
    safe_inputs = v.safe_inputs;
    safe_done = v.safe_done;
    safe_outputs = λ k h. ground (
      arith,
      lookup-insert d k (record { mtime = now; body = body }) s.outputs,
      eq_iff d k,
      v.safe_outputs k,
    );
  }

  artefact_cases :
      (now : ℕ) (full : Bool) (n : ContentLength) (stream : Bytes) (path : String) (s : State)
      → let d = (split_name path).0 in
        ((artefact ext now full n stream path s).1 ≡ s)
        ⊎ ((is_digest d ≡ true)
            × ((artefact ext now full n stream path s).1
                ≡ store_artefact ext now d (read_body n stream) s))
  unfolding artefact
  artefact_cases now full n stream path s = ground arith

  pub artefact-IsValid :
      (now : ℕ) (full : Bool) (n : ContentLength) (stream : Bytes) (path : String) {s : State}
      → IsValid s
      → IsValid (artefact ext now full n stream path s).1
  artefact-IsValid now full n stream path {s} v = elim (artefact_cases now full n stream path s) [
    | inl e ↦ rw e v
    | inr (safe, e) ↦ rw e (store_artefact-IsValid now _ _ safe v)
  ]

  cancel_running_cases :
      (now : ℕ) (d : String) (s : State)
      → ((cancel_running ext now d s).1 ≡ s)
        ⊎ (((cancel_running ext now d s).1 ≡ (drop_job d s).1)
            ⊎ ((cancel_running ext now d s).1 ≡ signal_marker now d s))
  unfolding cancel_running
  cancel_running_cases now d s = ground arith

  pub cancel_running-IsValid :
      (now : ℕ) (d : String) {s : State} → IsValid s → IsValid (cancel_running ext now d s).1
  cancel_running-IsValid now d {s} v = elim (cancel_running_cases now d s) [
    | inl e ↦ rw e v
    | inr (inl e) ↦ rw e (drop_job-IsValid d v)
    | inr (inr e) ↦ rw e (signal_marker-IsValid now d v)
  ]

  pub cancel_job-IsValid :
      (now : ℕ) (d : String) {s : State} → IsValid s → IsValid (cancel_job ext now d s).1
  cancel_job-IsValid now d {s} v = elim (cancel_job_cases ext now d s) [
    | inl e ↦ rw e (unqueue-IsValid d v)
    | inr e ↦ rw e (cancel_running-IsValid now d (unqueue-IsValid d v))
  ]

  resolve_cases :
      (now : ℕ) (d : String) (s : State)
      → let t = (resolve_stale_cancel ext now d s).1 in
        (t ≡ s) ⊎ ((t ≡ unlink_cancel d s) ⊎ (t ≡ (drop_job d s).1))
  unfolding resolve_stale_cancel
  resolve_cases now d s = ground arith

  pub resolve-IsValid :
      (now : ℕ) (d : String) {s : State} → IsValid s → IsValid (resolve_stale_cancel ext now d s).1
  resolve-IsValid now d {s} v = elim (resolve_cases now d s) [
    | inl e ↦ rw e v
    | inr (inl e) ↦
        rw e
          (Shrinks-IsValid v (Shrinks-refl s.inputs) (Shrinks-refl s.done) (Shrinks-refl s.outputs))
    | inr (inr e) ↦ rw e (drop_job-IsValid d v)
  ]
