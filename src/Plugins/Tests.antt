-- ===== src/Plugins/Tests.antt =====
-- plugins/: a text with a backslash and a line break.
use mathlib.Core.List.{◌++◌}
use test_serv.Base.Int.{ℤ, pos}
use test_serv.Base.Text.{has_char}
use test_serv.Base.{
  ℕ, zero, suc, ◌+◌, ◌-◌, ◌*◌, ◌<◌, ltb, false, String, Option, some, arith, if◌then◌else◌, ◌≡◌,
  refl, true, none, List, [], ◌∷◌, Char, code,
}
use test_serv.Plan.Value.{PyText}
use test_serv.Plugins.Escapes.{decode_escapes, encoded}
use test_serv.Plugins.Escapes.RoundTrip.{escape, hex_digit, IsPython, decode_escapes-escape}

abbrev plain_text : PyText
plain_text = record { is_alnum = λ c. true; is_alpha = λ c. true; int_of = λ n s. none }

abbrev latin : Char → List ℕ
latin c = code c ∷ []

abbrev hex_value : Char → ℕ
hex_value c = if ltb (code c) 58 then code c - 48 else code c - 87

-- int(text, 16) of two digits.
abbrev read_hex : ℕ → String → Option ℤ
read_hex base (String.◌∷◌ a (String.◌∷◌ b String.[])) = some (pos (16 * hex_value a + hex_value b))
read_hex base _ = none

abbrev hex_text : PyText
hex_text = record { is_alnum = λ c. true; is_alpha = λ c. true; int_of = read_hex }

hex_value-digit : (n : ℕ) → n < 16 → hex_value (hex_digit n) ≡ n
unfolding hex_digit
hex_value-digit zero h = refl
hex_value-digit (suc zero) h = refl
hex_value-digit (suc (suc zero)) h = refl
hex_value-digit (suc (suc (suc zero))) h = refl
hex_value-digit (suc (suc (suc (suc zero)))) h = refl
hex_value-digit (suc (suc (suc (suc (suc zero))))) h = refl
hex_value-digit (suc (suc (suc (suc (suc (suc zero)))))) h = refl
hex_value-digit (suc (suc (suc (suc (suc (suc (suc zero))))))) h = refl
hex_value-digit (suc (suc (suc (suc (suc (suc (suc (suc zero)))))))) h = refl
hex_value-digit (suc (suc (suc (suc (suc (suc (suc (suc (suc zero))))))))) h = refl
hex_value-digit (suc (suc (suc (suc (suc (suc (suc (suc (suc (suc zero)))))))))) h = refl
hex_value-digit (suc (suc (suc (suc (suc (suc (suc (suc (suc (suc (suc zero))))))))))) h = refl
hex_value-digit (suc (suc (suc (suc (suc (suc (suc (suc (suc (suc (suc (suc zero)))))))))))) h =
    refl
hex_value-digit (suc (suc (suc (suc (suc (suc (suc (suc (suc (suc (suc (suc (suc zero)))))))))))))
      h =
    refl
hex_value-digit
      (suc (suc (suc (suc (suc (suc (suc (suc (suc (suc (suc (suc (suc (suc zero)))))))))))))) h =
    refl
hex_value-digit
      (suc (suc (suc (suc (suc (suc (suc (suc (suc (suc (suc (suc (suc (suc (suc zero)))))))))))))))
      h =
    refl
hex_value-digit
      (suc
        (suc (suc (suc (suc (suc (suc (suc (suc (suc (suc (suc (suc (suc (suc (suc n))))))))))))))))
      h =
    absurd (omega arith)

hex_text-IsPython : IsPython hex_text latin
hex_text-IsPython = record {
  ascii = λ c h. refl;
  reads_hex = λ a b h k. rw (hex_value-digit a h, hex_value-digit b k) refl;
}

decode_escapes-escape_example :
    ((s : String) → decode_escapes hex_text latin (escape s) ≡ encoded latin s)
    × ((d : Char) (s : String)
        → has_char (code d) "\\'\"0abfnrtvx" ≡ false
        → decode_escapes hex_text latin (String.◌∷◌ "\\" (String.◌∷◌ d s))
          ≡ latin "\\" ++ (latin d ++ decode_escapes hex_text latin s))
decode_escapes-escape_example = decode_escapes-escape hex_text latin hex_text-IsPython

-- A tab, a bell and an escape character.
tab_text : decode_escapes hex_text latin "\\t\\a\\x1b" ≡ 9 ∷ 7 ∷ 27 ∷ []
unfolding decode_escapes
tab_text = refl

sends_return : decode_escapes plain_text latin "y\\r" ≡ 121 ∷ 13 ∷ []
unfolding decode_escapes
sends_return = refl
