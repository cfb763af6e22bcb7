-- ===== src/Schema.antt =====
-- plugin.py: op schemas, _decode_one and decode_args; plan.py: the typed reads of a Value.
mod Tests
pub mod Decoded
pub use test_serv.Base.Result.{ok, err, ◌>>=◌}
use test_serv.Base.Result.{Fallible}
use test_serv.Base.{ℕ, Bool, none, some, List, [], ◌∷◌, String, str_eq, if◌then◌else◌}
use test_serv.Base.Int.{ℤ}
use test_serv.Base.Dict.{Dict, lookup, insert, mem}
use test_serv.Plan.Value
use test_serv.Plan.Value.{Value}

-- What the decoding raises: a PlanError of a typed read, or a ValueError.
pub data Error : Type 0 where
  wrong_kind : Value → Error
  expected_ident blob_not_provided unknown_schema_type unknown_arg missing_arg : String → Error

abbrev pub Result {ℓ} : Type ℓ → Type ℓ
Result A = Fallible Error A

-- A decoded argument: a plain Python value, or None for an optional argument that is absent.
pub data Arg : Type 0 where
  int : ℤ → Arg
  str : String → Arg
  bool : Bool → Arg
  bytes : List ℕ → Arg
  absent : Arg

pub as_int : Value → Result Arg
as_int (Value.int n) = ok (int n)
as_int v = err (wrong_kind v)

pub as_str : Value → Result Arg
as_str (Value.str s) = ok (str s)
as_str (Value.ident s) = ok (str s)
as_str v = err (wrong_kind v)

pub as_bool : Value → Result Arg
as_bool (Value.bool b) = ok (bool b)
as_bool v = err (wrong_kind v)

pub as_ident : String → Value → Result Arg
as_ident name (Value.ident s) = ok (str s)
as_ident name v = err (expected_ident name)

pub as_blob : Dict (List ℕ) → Value → Result Arg
as_blob blobs (Value.blob name) = elim (lookup name blobs) [
  | some body ↦ ok (bytes body)
  | none ↦ err (blob_not_provided name)
]
as_blob blobs v = err (wrong_kind v)

pub raw : Value → Arg
raw (Value.int n) = int n
raw (Value.str s) = str s
raw (Value.bool b) = bool b
raw (Value.ident s) = str s
raw (Value.blob s) = str s

pub decode_one : String → String → Value → Dict (List ℕ) → Result Arg
unfolding as_int as_str as_bool as_ident as_blob raw
decode_one name want v blobs =
    if str_eq want "int"
    then as_int v
    else if str_eq want "str"
    then as_str v
    else if str_eq want "bool"
    then as_bool v
    else if str_eq want "ident"
    then as_ident name v
    else if str_eq want "blob"
    then as_blob blobs v
    else if str_eq want "any"
    then ok (raw v)
    else err (unknown_schema_type name)

pub record OpSchema : Type 0 where
  pub args : Dict String
  pub optional_args : Dict String

-- {**op_schema.args, **optional}
pub merge : Dict String → Dict String → Dict String
merge d [] = d
merge d ((k, v) ∷ more) = merge (insert k v d) more

-- The loop over the given arguments.
pub decode_given : Dict String → Dict (List ℕ) → Dict Value → Dict Arg → Result (Dict Arg)
decode_given combined blobs [] out = ok out
decode_given combined blobs ((k, v) ∷ given) out = elim (lookup k combined) [
  | none ↦ err (unknown_arg k)
  | some want ↦
      decode_one k want v blobs >>= λ a. decode_given combined blobs given (insert k a out)
]

pub check_required : Dict String → Dict Arg → Result (Unit {0})
check_required [] out = ok tt
check_required ((k, t) ∷ required) out =
    if mem k out then check_required required out else err (missing_arg k)

-- out.setdefault(name, None) for each optional name
pub fill_optional : Dict String → Dict Arg → Dict Arg
fill_optional [] out = out
fill_optional ((k, t) ∷ optional) out =
    fill_optional optional (if mem k out then out else insert k absent out)

pub decode_args : OpSchema → Dict Value → Dict (List ℕ) → Result (Dict Arg)
unfolding decode_given merge check_required fill_optional
decode_args schema given blobs =
    decode_given (merge schema.args schema.optional_args) blobs given [] >>= λ out.
    check_required schema.args out >>= λ _. ok (fill_optional schema.optional_args out)
