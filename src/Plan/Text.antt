-- ===== src/Plan/Text.antt =====
-- plan.py: CONTROL_VERB_SPECS, Op, and parse_text.
pub mod Parsed
use test_serv.Base.{
  ℕ, ◌+◌, ◌*◌, Bool, true, false, Option, none, some, List, [], ◌∷◌, String, ◌||◌, ltb,
  if◌then◌else◌,
}
use test_serv.Base.Text.{
  all_chars, is_space, is_empty, partition, has_char, split_lines, join_spaces, text_length,
}
use test_serv.Base.Dict.{Dict, lookup}
use test_serv.Plan.Value.{
  plan_too_large, too_many_ops, tokenize, bad_device, unknown_verb, Result, ok, err, ◌>>=◌, Value,
  str, PyText,
}
use test_serv.Plan.Tokens.{tokens}
use test_serv.Plan.Args.{parse_args}

abbrev pub max_plan_text_bytes : ℕ
max_plan_text_bytes = 256 * 1024

abbrev pub max_ops : ℕ
max_ops = 4096

-- The argument schemas of a control verb, and whether it takes the rest of its line as text.
pub record VerbSpec : Type 0 where
  pub args : Dict String
  pub optional_args : Dict String
  pub positional : Bool

abbrev pub control_verb_specs : Dict VerbSpec
control_verb_specs =
    ("mark", record { args = []; optional_args = ("tag", "ident") ∷ []; positional = false })
    ∷ ("delay", record { args = ("ms", "int") ∷ []; optional_args = []; positional = false })
    ∷ ("inventory", record { args = []; optional_args = []; positional = false })
    ∷ ("description", record { args = []; optional_args = ("text", "str") ∷ []; positional = true })
    ∷ ("expect", record { args = []; optional_args = ("text", "str") ∷ []; positional = true })
    ∷ []

pub record Op : Type 0 where
  pub lineno : ℕ
  pub device : Option String
  pub verb : String
  pub args : Dict Value

module _ (py : PyText) where
  -- `device:op args...`, the head split at its first ":".
  pub device_op : ℕ → String → List String → String × Option String → Result Op
  device_op lineno head rest (device, none) = err (bad_device lineno head)
  device_op lineno head rest (device, some verb) =
      if is_empty device || is_empty verb then err (bad_device lineno head) else (do
        args ← parse_args py rest lineno
        ok (record { lineno = lineno; device = some device; verb = verb; args = args }))

  pub control_args : VerbSpec → List String → ℕ → Result (Dict Value)
  control_args spec rest lineno =
      if spec.positional
      then ok (("text", str (join_spaces rest)) ∷ [])
      else parse_args py rest lineno

  pub control_op : ℕ → String → List String → Result Op
  unfolding control_args
  control_op lineno head rest = elim (lookup head control_verb_specs) [
    | none ↦ err (unknown_verb lineno head)
    | some spec ↦ control_args spec rest lineno >>= λ args.
        ok (record { lineno = lineno; device = none; verb = head; args = args })
  ]

  -- The op of one line, if the line holds any token.
  pub parse_tokens : ℕ → List String → Result (Option Op)
  unfolding device_op control_op
  parse_tokens lineno [] = ok none
  parse_tokens lineno (head ∷ rest) = do
    op ←
        (if has_char b':' head
          then device_op lineno head rest (partition b':' head)
          else control_op lineno head rest)
    ok (some op)

  unfoldable pub parse_line : ℕ → String → Result (Option Op)
  unfolding parse_tokens
  parse_line lineno raw =
      if all_chars is_space raw
      then ok none
      else elim (tokens raw) [ none ↦ err (tokenize lineno) | some toks ↦ parse_tokens lineno toks ]

  -- The loop over the lines from number `lineno` on, with `total` ops read before.
  unfoldable pub parse_lines : ℕ → ℕ → List String → Result (List Op)
  parse_lines lineno total [] = ok []
  parse_lines lineno total (raw ∷ lines) = parse_line lineno raw >>= λ found. elim found [
    | none ↦ parse_lines (lineno + 1) total lines
    | some op ↦
        if ltb max_ops (total + 1)
        then err too_many_ops
        else (do ops ← parse_lines (lineno + 1) (total + 1) lines; ok (op ∷ ops))
  ]

  unfoldable pub parse_text : String → Result (List Op)
  parse_text text =
      if ltb max_plan_text_bytes (text_length text)
      then err plan_too_large
      else parse_lines 1 0 (split_lines text)
