-- ===== src/Plan/Devices/Sets.antt =====
-- plan.py: required_devices holds exactly the plugins of the device ops, each once.
use test_serv.Base.{
  ◌≡◌, ◌∙◌, ap, refl, Bool, false, ◌||◌, none, some, List, [], ◌∷◌, String, arith, str_eq, eq_iff,
  any, inl, inr, Option-cases,
}
use test_serv.Base.Dict.{contains}
use test_serv.Plan.Text.{Op}
use test_serv.Plan.Devices.{add, split_device_ref, required_devices}

pub uses : String → Op → Bool
uses p op = elim op.device [ none ↦ false | some d ↦ str_eq (split_device_ref d).0 p ]

abbrev pub Distinct : List String → Type 0
Distinct [] = Unit
Distinct (x ∷ xs) = (contains x xs ≡ false) × Distinct xs

contains-add :
    (x p : String) (xs : List String) → contains p (add x xs) ≡ (str_eq x p || contains p xs)
unfolding add
contains-add x p xs = ground (arith, eq_iff x p)

add-Distinct : (x : String) (xs : List String) → Distinct xs → Distinct (add x xs)
unfolding add
add-Distinct x xs h = ground arith

-- A plugin is required exactly when some op runs on one of its devices, and it is listed once.
pub required_devices_lem :
    (p : String) (ops : List Op)
    → (contains p (required_devices ops) ≡ any (uses p) ops) × Distinct (required_devices ops)
unfolding required_devices uses
required_devices_lem p [] = (refl, tt)
required_devices_lem p (op ∷ ops) = elim (Option-cases op.device) [
  | inl e ↦ rw (e, required_devices, uses) (required_devices_lem p ops)
  | inr (d, e) ↦
      let (found, distinct) = required_devices_lem p ops in
      let plugin = (split_device_ref d).0 in
      rw (e, required_devices, uses)
        (
          contains-add plugin p (required_devices ops) ∙ ap (λ b. str_eq plugin p || b) found,
          add-Distinct plugin (required_devices ops) distinct,
        )
]
