-- ===== src/Server/Pickup/Rollback.antt =====
-- server.py: a body that does not get through puts the plan back into the queue.
use test_serv.Base.{◌≡◌, ap, ◌∙◌, false, none, some, inl, inr, String, arith, Option-cases, eq_iff}
use test_serv.Base.Dict.{lookup, insert, erase, mem, lookup-erase, lookup-insert}
use test_serv.Server.Store.{File, MetaFile, State}
use test_serv.Server.Pickup.{
  body_cut, claim_plan, claim_meta, return_plan, return_meta, finish_claim, rollback_pickup,
}
use test_serv.Server.Invariant.{IsValid}

abbrev moved : String → File → State → State
moved k f s = record s { inputs = erase k s.inputs; done = insert k f s.done }

claim_plan-moved :
    (k : String) (s : State) {f : File} {t : State}
    → claim_plan k s ≡ some (f, t)
    → (lookup k s.inputs ≡ some f) × (t ≡ moved k f s)
unfolding claim_plan
claim_plan-moved k s h = ground arith

lookup-return_plan :
    (k : String) (f : File) (s : State) (j : String)
    → lookup k s.inputs ≡ some f
    → mem k s.done ≡ false
    → let u = return_plan k (moved k f s) in
      (lookup j u.inputs ≡ lookup j s.inputs)
      × (lookup j u.done ≡ lookup j s.done)
      × (u.inputs_meta ≡ s.inputs_meta)
unfolding return_plan
lookup-return_plan k f s j here away = ground (
  arith,
  eq_iff k j,
  eq_iff k k,
  lookup-insert k k f s.done,
  lookup-insert k j f (erase k s.inputs),
  lookup-erase k j s.inputs,
  lookup-erase k j (insert k f s.done),
  lookup-insert k j f s.done,
)

finish_claim-none :
    (k : String) (f : File) (s : State)
    → lookup k s.inputs_meta ≡ none
    → (finish_claim body_cut k f (moved k f s)).1 ≡ return_plan k (moved k f s)
unfolding finish_claim claim_meta rollback_pickup
finish_claim-none k f s h = ground arith

abbrev meta_moved : String → MetaFile → State → State
meta_moved k m s = record s {
  inputs_meta = insert k m (erase k s.inputs_meta);
  done_meta = erase k (insert k m s.done_meta);
}

finish_claim-some :
    (k : String) (f : File) (m : MetaFile) (s : State)
    → lookup k s.inputs_meta ≡ some m
    → (finish_claim body_cut k f (moved k f s)).1 ≡ return_plan k (moved k f (meta_moved k m s))
unfolding finish_claim claim_meta rollback_pickup return_meta
finish_claim-some k f m s h = ground (arith, lookup-insert k k m s.done_meta, eq_iff k k)

-- A pickup whose write of the plan's body fails leaves every queued plan, its meta file and every job
-- record as they were, modification times included.
pub finish_claim_rolls_back :
    (k : String) (s : State) {f : File} {t : State}
    → IsValid s
    → claim_plan k s ≡ some (f, t)
    → (j : String)
    → let u = (finish_claim body_cut k f t).1 in
      (lookup j u.inputs ≡ lookup j s.inputs)
      × (lookup j u.inputs_meta ≡ lookup j s.inputs_meta)
      × (lookup j u.done ≡ lookup j s.done)
finish_claim_rolls_back k s {f} {t} v e j =
    let (here, taken) = claim_plan-moved k s e in
    let away : mem k s.done ≡ false = v.exclusive k (rw here) in
    rw taken (elim (Option-cases (lookup k s.inputs_meta)) [
      | inl h ↦
          let back = lookup-return_plan k f s j here away in
          rw (finish_claim-none k f s h) (back.0, ap (lookup j) (back.2), back.1)
      | inr (m, h) ↦
          let back = lookup-return_plan k f (meta_moved k m s) j here away in
          rw (finish_claim-some k f m s h) (
            back.0,
            ap (lookup j) (back.2)
                ∙ ground (
                  arith,
                  lookup-insert k j m (erase k s.inputs_meta),
                  lookup-erase k j s.inputs_meta,
                  eq_iff k j,
                ),
            back.1,
          )
    ])
