-- ===== src/Plan/Value.antt =====
-- plan.py: PlanError, Value and _parse_value.
pub use test_serv.Base.Result.{ok, err, ◌>>=◌}
use test_serv.Base.Result.{Fallible}
use test_serv.Base.{
  ℕ, Bool, false, Option, none, some, String, Char, code, str_eq, ◌&&◌, ◌||◌, ◌==◌, if◌then◌else◌,
}
use test_serv.Base.Int.{ℤ}
use test_serv.Base.Text.{all_chars, is_empty, starts_with_char, rest_of}

-- What the plan code raises, with the line number where it gives one. `unicode_error` is the
-- UnicodeDecodeError of a plan.txt that is not UTF-8 and `tar_error` a TarError of getmembers or
-- read, which load_tar does not catch: these are no PlanErrors.
pub data Error : Type 0 where
  plan_too_large too_many_ops tar_too_large bad_tar plan_txt_too_large too_many_blobs : Error
  missing_plan_txt unicode_error tar_error : Error
  bad_blob_ref unsafe_member blob_too_large : String → Error
  tokenize : ℕ → Error
  expected_key_value bad_arg_name duplicate_arg bad_device unknown_verb : ℕ → String → Error
  blob_not_in_tar : ℕ → String → Error

abbrev pub Result {ℓ} : Type ℓ → Type ℓ
Result A = Fallible Error A

pub data Value : Type 0 where
  int : ℤ → Value
  str : String → Value
  bool : Bool → Value
  ident : String → Value
  blob : String → Value

-- Python's character classes and int(tok, base), which go by Unicode tables. `int_of` is none
-- where int raises ValueError.
pub record PyText : Type 0 where
  pub is_alnum : Char → Bool
  pub is_alpha : Char → Bool
  pub int_of : ℕ → String → Option ℤ

-- tok.startswith(("0x", "0X", "-0x", "-0X"))
zero_x : String → Bool
zero_x s =
    starts_with_char b'0' s
    && (starts_with_char b'x' (rest_of s) || starts_with_char b'X' (rest_of s))

unfoldable pub is_hex_literal : String → Bool
unfolding zero_x
is_hex_literal s = zero_x s || (starts_with_char b'-' s && zero_x (rest_of s))

module _ (py : PyText) where
  -- c.isalnum() or c in "._-"
  abbrev pub is_name_char : Char → Bool
  is_name_char c = py.is_alnum c || code c == b'.' || code c == b'_' || code c == b'-'

  unfoldable pub is_ident : String → Bool
  is_ident String.[] = false
  is_ident (String.◌∷◌ c s) =
      (py.is_alpha c || code c == b'_') && all_chars is_name_char (String.◌∷◌ c s)

  unfoldable pub is_blob_name : String → Bool
  is_blob_name s = if is_empty s then false else all_chars is_name_char s

  abbrev word_value : String → Value
  word_value tok = if is_ident tok then ident tok else str tok

  unfoldable pub parse_value : String → Result Value
  parse_value tok =
      if starts_with_char b'@' tok
      then if is_blob_name (rest_of tok) then ok (blob (rest_of tok)) else err (bad_blob_ref tok)
      else if str_eq tok "true" || str_eq tok "false"
      then ok (bool (str_eq tok "true"))
      else elim (py.int_of (if is_hex_literal tok then 16 else 10) tok) [
        | some n ↦ ok (int n)
        | none ↦ ok (word_value tok)
      ]
