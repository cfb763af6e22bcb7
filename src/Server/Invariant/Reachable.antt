-- ===== src/Server/Invariant/Reachable.antt =====
-- server.py: every request keeps the invariant, and so does any sequence of them.
use test_serv.Base.{
  ℕ, Bool, true, false, ◌≡◌, refl, List, [], ◌∷◌, String, arith, Option-cases, inl, inr, ◌⊎◌,
}
use test_serv.Base.Dict.{Dict, lookup}
use test_serv.Base.Text.{is_empty}
use test_serv.Server.Digest.{is_digest}
use test_serv.Server.Store.{
  Bytes, File, State, Externals, ContentLength, unlink_output, inflight_digests,
}
use test_serv.Server.Upload.{
  drop_record, delete_handler, delete_outputs, parse_output_name, receive_status,
}
use test_serv.Server.Cancel.{mark_sweep, mark_release}
use test_serv.Server.Sweep.{
  prune_stale_jobs, prune_loop, gc_files, gc_outputs, wipe_all_jobs, pull_cancels,
}
use test_serv.Server.Steps.{
  Step, Reach, submits, claims, claims_meta, returns, returns_meta, uploads, deletes, cancels,
  resolves, prunes, collects, wipes, pulls, publishes, sweeps, releases, start, next,
}
use test_serv.Server.Invariant.{IsValid, Shrinks, erase-Shrinks, Shrinks-IsValid, Shrinks-refl}
use test_serv.Server.Invariant.Moves.{
  none-true, claim_plan-IsValid, return_plan-IsValid, claim_meta-IsValid, return_meta-IsValid,
  if_IsValid, empty-IsValid,
}
use test_serv.Server.Invariant.Requests.{
  queue_job-IsValid, artefact-IsValid, cancel_job-IsValid, resolve-IsValid,
}

prune_loop-IsValid :
    (now : ℕ) (live : List String) (outputs listing : Dict File) {s : State}
    → IsValid s
    → IsValid (prune_loop now live outputs listing s).1
unfolding prune_loop
prune_loop-IsValid now live outputs [] v = v
prune_loop-IsValid now live outputs ((k, f) ∷ listing) {s} v =
    prune_loop-IsValid now live outputs listing (
      if_IsValid _
        (Shrinks-IsValid v (Shrinks-refl s.inputs) (erase-Shrinks k s.done)
          (Shrinks-refl s.outputs))
        v)

gc_files-Shrinks : (now : ℕ) (d : Dict File) → Shrinks d (gc_files now d)
unfolding gc_files lookup
gc_files-Shrinks now [] k h = h
gc_files-Shrinks now ((j, f) ∷ d) k h = ground (arith, gc_files-Shrinks now d k)

gc_outputs-IsValid : (now : ℕ) {s : State} → IsValid s → IsValid (gc_outputs now s)
unfolding gc_outputs
gc_outputs-IsValid now {s} v =
    Shrinks-IsValid v (Shrinks-refl s.inputs) (gc_files-Shrinks now s.done)
      (gc_files-Shrinks now s.outputs)

drop_record-IsValid :
    (b : Bool) (d : String) {s : State} → IsValid s → IsValid (drop_record b d (unlink_output d s))
drop_record-IsValid true d {s} v =
    Shrinks-IsValid v (Shrinks-refl s.inputs) (erase-Shrinks d s.done) (erase-Shrinks d s.outputs)
drop_record-IsValid false d {s} v =
    Shrinks-IsValid v (Shrinks-refl s.inputs) (Shrinks-refl s.done) (erase-Shrinks d s.outputs)

delete_outputs_cases :
    (d ext : String) (s : State)
    → ((delete_outputs d ext s).1 ≡ s)
      ⊎ ((delete_outputs d ext s).1 ≡ drop_record (is_empty ext) d (unlink_output d s))
unfolding delete_outputs
delete_outputs_cases d ext s = ground arith

delete_outputs-IsValid :
    (d ext : String) {s : State} → IsValid s → IsValid (delete_outputs d ext s).1
delete_outputs-IsValid d ext {s} v = elim (delete_outputs_cases d ext s) [
  | inl e ↦ rw e v
  | inr e ↦ rw e (drop_record-IsValid (is_empty ext) d v)
]

delete_handler-IsValid : (name : String) {s : State} → IsValid s → IsValid (delete_handler name s).1
unfolding delete_handler
delete_handler-IsValid name {s} v = elim (Option-cases (parse_output_name name)) [
  | inl e ↦ rw (e, delete_handler) v
  | inr ((d, x), e) ↦ rw (e, delete_handler) (delete_outputs-IsValid d x v)
]

receive_status_cases :
    (now : ℕ) (n : ContentLength) (stream : Bytes) (name : String) (s : State)
    → let t = (receive_status now n stream name s).1 in
      (t.inputs ≡ s.inputs) × (t.done ≡ s.done) × (t.outputs ≡ s.outputs)
unfolding receive_status
receive_status_cases now n stream name s = ground arith

mark_release_cases :
    (now : ℕ) (id : String) (s : State)
    → let t = (mark_release now id s).1 in
      (t.inputs ≡ s.inputs) × (t.done ≡ s.done) × (t.outputs ≡ s.outputs)
unfolding mark_release
mark_release_cases now id s = ground arith

same-IsValid :
    {s t : State}
    → IsValid s
    → (t.inputs ≡ s.inputs) × (t.done ≡ s.done) × (t.outputs ≡ s.outputs)
    → IsValid t
same-IsValid {s} {t} v (i, d, o) =
    Shrinks-IsValid v (λ k h. rw i at h) (λ k h. rw d at h) (λ k h. rw o at h)

module _ (ext : Externals) (hashes : (b : Bytes) → is_digest (ext.sha256 b) ≡ true) where
  -- Every request, served or refused, keeps the directories apart and their names safe.
  pub Step-IsValid : {s t : State} → Step ext s t → IsValid s → IsValid t
  unfolding prune_stale_jobs wipe_all_jobs pull_cancels mark_sweep
  Step-IsValid (submits now body meta) v = queue_job-IsValid ext hashes now body meta v
  Step-IsValid (claims k e) v = claim_plan-IsValid k e v
  Step-IsValid (claims_meta k e) v = claim_meta-IsValid k e v
  Step-IsValid (returns k) v = return_plan-IsValid k v
  Step-IsValid (returns_meta k) v = return_meta-IsValid k v
  Step-IsValid (uploads now full n stream path) v =
      artefact-IsValid ext hashes now full n stream path v
  Step-IsValid (deletes name) v = delete_handler-IsValid name v
  Step-IsValid (cancels now d safe) v = cancel_job-IsValid ext hashes now d v
  Step-IsValid (resolves now d safe) v = resolve-IsValid ext hashes now d v
  Step-IsValid {s} (prunes now) v =
      prune_loop-IsValid now (inflight_digests ext now s) s.outputs s.done v
  Step-IsValid (collects now) v = gc_outputs-IsValid now v
  Step-IsValid wipes v =
      Shrinks-IsValid v (λ k h. none-true k h) (λ k h. none-true k h) (λ k h. none-true k h)
  Step-IsValid (pulls now) v = same-IsValid v (refl, refl, refl)
  Step-IsValid (publishes now n stream name) v =
      same-IsValid v (receive_status_cases now n stream name _)
  Step-IsValid sweeps v = same-IsValid v (refl, refl, refl)
  Step-IsValid (releases now id) v = same-IsValid v (mark_release_cases now id _)

  -- Whatever requests a server that began with an empty state directory has served, in any
  -- order, no digest is both queued and picked up, and every plan and artefact on disk is filed
  -- under a name of the digest's form. SHA-256 digests are assumed to have that form.
  pub Reach-IsValid : {s : State} → Reach ext s → IsValid s
  Reach-IsValid start = empty-IsValid
  Reach-IsValid (next r st) = Step-IsValid st (Reach-IsValid r)
