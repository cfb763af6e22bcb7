-- ===== src/Plan/Text/Parsed.antt =====
-- plan.py: what holds of the ops that parse_text returns.
use test_serv.Base.{ℕ, ◌+◌, ◌≤◌, ◌≡◌, true, false, none, some, List, [], ◌∷◌, String, length, ◌⊎◌}
use test_serv.Base.Text.{is_space, all_chars, is_empty, partition, join_spaces}
use test_serv.Base.Dict.{Dict, NodupKeys, mem}
use test_serv.Plan.Value.{Result, ok, Value, str, PyText}
use test_serv.Plan.Tokens.{tokens}
use test_serv.Plan.Text.{Op, control_verb_specs, max_ops}

-- The op of one line. A device op has the first token's device and verb; a control op has a verb of
-- the table. Each further token is an argument with a name of its own, but for a control verb whose
-- tokens are joined to one text.
pub data IsOpOf (raw : String) (op : Op) : Type 0 where
  on_device :
      (d head : String) (ts : List String)
      → tokens raw ≡ some (head ∷ ts)
      → partition b':' head ≡ (d, some op.verb)
      → op.device ≡ some d
      → is_empty d ≡ false
      → is_empty op.verb ≡ false
      → NodupKeys op.args
      → length op.args ≡ length ts
      → IsOpOf raw op
  control :
      (ts : List String)
      → tokens raw ≡ some (op.verb ∷ ts)
      → op.device ≡ none
      → mem op.verb control_verb_specs ≡ true
      → NodupKeys op.args
      → (op.args ≡ ("text", str (join_spaces ts)) ∷ []) ⊎ (length op.args ≡ length ts)
      → IsOpOf raw op

-- The ops of the lines from number `n` on: one for each line that has a token.
pub data AreOpsOf : ℕ → List String → List Op → Type 0 where
  no_lines : {n : ℕ} → AreOpsOf n [] []
  blank_line :
      {n : ℕ} {lines : List String} {ops : List Op} (raw : String)
      → (all_chars is_space raw ≡ true) ⊎ (tokens raw ≡ some [])
      → AreOpsOf (n + 1) lines ops
      → AreOpsOf n (raw ∷ lines) ops
  op_line :
      {n : ℕ} {lines : List String} {ops : List Op} (raw : String) (op : Op)
      → op.lineno ≡ n
      → IsOpOf raw op
      → AreOpsOf (n + 1) lines ops
      → AreOpsOf n (raw ∷ lines) (op ∷ ops)

-- The line numbers rise from `n` on.
abbrev pub Rising : ℕ → List Op → Type 0
Rising n [] = Unit
Rising n (op ∷ ops) = (n ≤ op.lineno) × Rising (op.lineno + 1) ops

module _ (py : PyText) where
  abbrev control_of : ℕ → String → Dict Value → Result Op
  control_of lineno head args =
      ok (record { lineno = lineno; device = none; verb = head; args = args })

  -- What the loop returns from line `lineno` on, with `total` ops read before.
  abbrev Parsed : ℕ → ℕ → List String → List Op → Type 0
  Parsed lineno total lines ops =
      AreOpsOf lineno lines ops
      × Rising lineno ops
      × (total ≤ max_ops → total + length ops ≤ max_ops)
