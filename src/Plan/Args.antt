-- ===== src/Plan/Args.antt =====
-- plan.py: _parse_args, the key=value arguments of one line.
use test_serv.Base.{
  ℕ, Bool, false, Option, none, some, List, [], ◌∷◌, String, code, ◌||◌, ◌==◌, if◌then◌else◌,
}
use test_serv.Base.Text.{all_chars, is_empty, partition}
use test_serv.Base.Dict.{Dict, insert, mem}
use test_serv.Plan.Value.{
  expected_key_value, bad_arg_name, duplicate_arg, Result, ok, err, ◌>>=◌, Value, PyText,
  parse_value,
}

module _ (py : PyText) where
  unfoldable pub is_arg_name : String → Bool
  is_arg_name k = if is_empty k then false else all_chars (λ c. py.is_alnum c || code c == b'_') k

  -- One token, split at its first "=".
  unfoldable pub parse_arg : ℕ → Dict Value → String → String × Option String → Result (Dict Value)
  parse_arg lineno args t (k, none) = err (expected_key_value lineno t)
  parse_arg lineno args t (k, some v) =
      if is_arg_name k
      then if mem k args
        then err (duplicate_arg lineno k)
        else (do value ← parse_value py v; ok (insert k value args))
      else err (bad_arg_name lineno k)

  unfoldable pub parse_args_from : ℕ → Dict Value → List String → Result (Dict Value)
  parse_args_from lineno args [] = ok args
  parse_args_from lineno args (t ∷ ts) = do
    args' ← parse_arg lineno args t (partition b'=' t)
    parse_args_from lineno args' ts

  unfoldable pub parse_args : List String → ℕ → Result (Dict Value)
  unfolding parse_args_from
  parse_args tokens lineno = parse_args_from lineno [] tokens
