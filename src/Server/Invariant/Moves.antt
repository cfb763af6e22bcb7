-- ===== src/Server/Invariant/Moves.antt =====
-- server.py: the renames and removals of single files keep the invariant.
use test_serv.Base.{
  ℕ, Bool, true, false, ◌≡◌, some, [], String, arith, eq_iff, if◌then◌else◌, Option-cases, inl, inr,
  ◌⊎◌,
}
use test_serv.Base.Dict.{lookup, mem, lookup-nil, lookup-insert, lookup-erase}
use mathlib.Core.Bool.{false≢true}
use test_serv.Server.Store.{
  File, MetaFile, State, Externals, empty_state, unlink_input, unlink_input_meta,
}
use test_serv.Server.Pickup.{claim_plan, claim_meta, return_plan, return_meta}
use test_serv.Server.Cancel.{cancel_job, cancel_running, drop_job, signal_marker}
use test_serv.Server.Invariant.{IsValid, erase-Shrinks, Shrinks-IsValid, Shrinks-refl}

-- Moving a file between INPUTS and DONE.
pub claim_plan-IsValid :
    (k : String) {f : File} {s t : State} → claim_plan k s ≡ some (f, t) → IsValid s → IsValid t
unfolding claim_plan
claim_plan-IsValid k {f} {s} {t} e v = record {
  exclusive = λ j h.
      ground
        (arith, lookup-erase k j s.inputs, lookup-insert k j f s.done, eq_iff k j, v.exclusive j);
  safe_inputs = λ j h. ground (arith, lookup-erase k j s.inputs, v.safe_inputs j);
  safe_done =
      λ j h. ground (arith, lookup-insert k j f s.done, eq_iff k j, v.safe_inputs k, v.safe_done j);
  safe_outputs = λ j h. ground (arith, v.safe_outputs j);
}

pub return_plan-IsValid : (k : String) {s : State} → IsValid s → IsValid (return_plan k s)
unfolding return_plan
return_plan-IsValid k {s} v = elim (Option-cases (lookup k s.done)) [
  | inl e ↦ rw (e, return_plan) v
  | inr (f, e) ↦
      rw (e, return_plan)
        (record {
          exclusive = λ j h. ground (
            arith,
            lookup-erase k j s.done,
            lookup-insert k j f s.inputs,
            eq_iff k j,
            v.exclusive j,
          );
          safe_inputs = λ j h.
              ground
                (arith, lookup-insert k j f s.inputs, eq_iff k j, v.safe_done k, v.safe_inputs j);
          safe_done = λ j h. ground (arith, lookup-erase k j s.done, v.safe_done j);
          safe_outputs = v.safe_outputs;
        })
]

pub claim_meta-IsValid :
    (k : String) {m : MetaFile} {s t : State} → claim_meta k s ≡ some (m, t) → IsValid s → IsValid t
unfolding claim_meta
claim_meta-IsValid k {m} {s} {t} e v = record {
  exclusive = λ j h. ground (arith, v.exclusive j);
  safe_inputs = λ j h. ground (arith, v.safe_inputs j);
  safe_done = λ j h. ground (arith, v.safe_done j);
  safe_outputs = λ j h. ground (arith, v.safe_outputs j);
}

pub return_meta-IsValid : (k : String) {s : State} → IsValid s → IsValid (return_meta k s)
unfolding return_meta
return_meta-IsValid k {s} v = elim (Option-cases (lookup k s.done_meta)) [
  | inl e ↦ rw (e, return_meta) v
  | inr (m, e) ↦
      rw (e, return_meta)
        (record {
          exclusive = v.exclusive;
          safe_inputs = v.safe_inputs;
          safe_done = v.safe_done;
          safe_outputs = v.safe_outputs;
        })
]

pub drop_job-IsValid : (d : String) {s : State} → IsValid s → IsValid (drop_job d s).1
unfolding drop_job
drop_job-IsValid d {s} v =
    Shrinks-IsValid v (Shrinks-refl s.inputs) (erase-Shrinks d s.done) (Shrinks-refl s.outputs)

pub signal_marker-IsValid :
    (now : ℕ) (d : String) {s : State} → IsValid s → IsValid (signal_marker now d s)
unfolding signal_marker
signal_marker-IsValid now d {s} v =
    Shrinks-IsValid v (Shrinks-refl s.inputs) (Shrinks-refl s.done) (Shrinks-refl s.outputs)

pub unqueue-IsValid :
    (d : String) {s : State} → IsValid s → IsValid (unlink_input_meta d (unlink_input d s))
unqueue-IsValid d {s} v =
    Shrinks-IsValid v (erase-Shrinks d s.inputs) (Shrinks-refl s.done) (Shrinks-refl s.outputs)

pub cancel_job_cases :
    (ext : Externals) (now : ℕ) (d : String) (s : State)
    → let u = unlink_input_meta d (unlink_input d s) in
      ((cancel_job ext now d s).1 ≡ u)
      ⊎ ((cancel_job ext now d s).1 ≡ (cancel_running ext now d u).1)
unfolding cancel_job
cancel_job_cases ext now d s = ground arith

pub if_IsValid : (b : Bool) {s t : State} → IsValid s → IsValid t → IsValid (if b then s else t)
if_IsValid true v w = v
if_IsValid false v w = w

pub none-true : {P : Type 0} (k : String) → mem {V = File} k [] ≡ true → P
none-true k h = absurd (false≢true (rw lookup-nil at h))

pub empty-IsValid : IsValid empty_state
empty-IsValid = record {
  exclusive = λ k h. none-true k h;
  safe_inputs = λ k h. none-true k h;
  safe_done = λ k h. none-true k h;
  safe_outputs = λ k h. none-true k h;
}
