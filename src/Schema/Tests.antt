-- ===== src/Schema/Tests.antt =====
-- plugin.py: a concrete schema.
use test_serv.Base.{◌≡◌, refl, true, false, some, [], ◌∷◌, String}
use test_serv.Base.Int.{pos}
use test_serv.Base.Dict.{Dict, lookup, insert, mem}
use test_serv.Plan.Value.{Value}
use test_serv.Schema.{ok, Arg, OpSchema, merge, decode_one, decode_args}
use test_serv.Schema.Decoded.{decode_args_values}

abbrev delay_schema : OpSchema
delay_schema = record { args = ("ms", "int") ∷ []; optional_args = ("tag", "str") ∷ [] }

abbrev delay_given : Dict Value
delay_given = ("ms", Value.int (pos 10)) ∷ []

abbrev delay_decoded : Dict Arg
delay_decoded = ("ms", Arg.int (pos 10)) ∷ ("tag", Arg.absent) ∷ []

delay-decode : decode_args delay_schema delay_given [] ≡ ok delay_decoded
unfolding decode_args lookup insert decode_one
delay-decode = refl

decode_args_values_example :
    ((want : String) (v : Value)
      → lookup "ms" delay_given ≡ some v
      → lookup "ms" (merge delay_schema.args delay_schema.optional_args) ≡ some want
      → (a : Arg) × (decode_one "ms" want v [] ≡ ok a) × (lookup "ms" delay_decoded ≡ some a))
    × (mem "ms" delay_given ≡ false
        → mem "ms" delay_schema.optional_args ≡ true
        → lookup "ms" delay_decoded ≡ some Arg.absent)
unfolding lookup
decode_args_values_example =
    decode_args_values delay_schema delay_given [] "ms" delay-decode (refl, tt)
