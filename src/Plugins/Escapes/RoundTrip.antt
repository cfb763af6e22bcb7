-- ===== src/Plugins/Escapes/RoundTrip.antt =====
-- plugins/_text.py: text written with its escapes, and what decode_escapes makes of it.
use test_serv.Base.{
  ℕ, ◌<◌, ◌≡◌, ◌∙◌, ap, refl, false, Option, none, some, List, [], ◌∷◌, String, Char, code, arith,
  ltb, ◌==◌, ◌||◌, ◌+◌, ◌*◌, Bool, zero, suc, Option-cases, if◌then◌else◌, Bool-cases, inl, inr,
}
use mathlib.Core.List.{◌++◌}
use mathlib.Core.Path.{subst}
use Prim.Native.Nat.{◌/◌, ◌%◌}
use test_serv.Base.Text.{has_char}
use test_serv.Base.Int.{pos}
use test_serv.Plan.Value.{PyText}
use test_serv.Plugins.Escapes.{
  simple, byte_of, encoded, hex_pair, escape_pair, decode_escapes, decode-pair, decode-plain,
  decode-hex,
}

-- The bytes that have an escape of their own, with the letter after the backslash.
abbrev letters : List (ℕ × Char)
letters =
    (0, "0")
    ∷ (7, "a")
    ∷ (8, "b")
    ∷ (9, "t")
    ∷ (10, "n")
    ∷ (11, "v")
    ∷ (12, "f")
    ∷ (13, "r")
    ∷ (34, "\"")
    ∷ (39, "'")
    ∷ (92, "\\")
    ∷ []

abbrev find_letter : ℕ → List (ℕ × Char) → Option Char
find_letter n [] = none
find_letter n ((m, c) ∷ rest) = if m == n then some c else find_letter n rest

unfoldable letter_of : ℕ → Option Char
letter_of n = find_letter n letters

digits : List Char
digits =
    "0" ∷ "1" ∷ "2" ∷ "3" ∷ "4" ∷ "5" ∷ "6" ∷ "7" ∷ "8" ∷ "9" ∷ "a" ∷ "b" ∷ "c" ∷ "d" ∷ "e" ∷ "f"
    ∷ []

nth_digit : ℕ → List Char → Char
nth_digit n [] = "?"
nth_digit zero (c ∷ cs) = c
nth_digit (suc n) (c ∷ cs) = nth_digit n cs

-- A digit of base 16 below 16.
unfoldable pub hex_digit : ℕ → Char
unfolding digits nth_digit
hex_digit n = nth_digit n digits

-- The other control characters, which are written by their code.
abbrev is_control : ℕ → Bool
is_control n = ltb n 32 || n == 127

-- A text with each character that has an escape written so, and other control characters as "\xNN".
unfoldable pub escape : String → String
unfolding letter_of
escape String.[] = String.[]
escape (String.◌∷◌ c s) = elim (letter_of (code c)) [
  | some e ↦ String.◌∷◌ "\\" (String.◌∷◌ e (escape s))
  | none ↦
      if is_control (code c)
      then String.◌∷◌ "\\" (
          String.◌∷◌ "x" (
            String.◌∷◌ (hex_digit (code c / 16)) (String.◌∷◌ (hex_digit (code c % 16)) (escape s))))
      else String.◌∷◌ c (escape s)
]

abbrev Escapes : ℕ → Char → Type 0
Escapes n e = (simple (code e) ≡ some n) × ((code e == b'x') ≡ false) × (n < 128)

abbrev AllEscape : List (ℕ × Char) → Type 0
AllEscape [] = Unit
AllEscape ((n, e) ∷ rest) = Escapes n e × AllEscape rest

find_letter-Escapes :
    (n : ℕ) (e : Char) (table : List (ℕ × Char))
    → AllEscape table
    → find_letter n table ≡ some e
    → Escapes n e
find_letter-Escapes n e [] all h = absurd (ground arith)
find_letter-Escapes n e ((m, c) ∷ rest) (first, others) h = elim (Bool-cases (m == n)) [
  | inl same ↦
      let eq : m ≡ n = ground (arith, same) in
      let eq' : c ≡ e = ground (arith, same, h) in
      subst (λ k. Escapes k e) eq (subst (Escapes m) eq' first)
  | inr other ↦ find_letter-Escapes n e rest others (ground (arith, other, h))
]

letters-Escapes : AllEscape letters
unfolding simple
letters-Escapes = (
  (refl, refl, omega arith),
  (
    (refl, refl, omega arith),
    (
      (refl, refl, omega arith),
      (
        (refl, refl, omega arith),
        (
          (refl, refl, omega arith),
          (
            (refl, refl, omega arith),
            (
              (refl, refl, omega arith),
              (
                (refl, refl, omega arith),
                (
                  (refl, refl, omega arith),
                  ((refl, refl, omega arith), ((refl, refl, omega arith), tt)),
                ),
              ),
            ),
          ),
        ),
      ),
    ),
  ),
)

letter_of-simple : (n : ℕ) (e : Char) → letter_of n ≡ some e → Escapes n e
unfolding letter_of
letter_of-simple n e h = find_letter-Escapes n e letters letters-Escapes h

nothing_left : (py : PyText) (utf8 : Char → List ℕ) → decode_escapes py utf8 "" ≡ []
unfolding decode_escapes
nothing_left py utf8 = refl

-- What the code relies on: UTF-8 encodes an ASCII character as its code, and int(text, 16) reads two
-- digits of base 16.
pub record IsPython (py : PyText) (utf8 : Char → List ℕ) : Type 0 where
  pub ascii : (c : Char) → code c < 128 → utf8 c ≡ code c ∷ []
  pub reads_hex :
      (a b : ℕ)
      → a < 16
      → b < 16
      → py.int_of 16 (hex_pair py utf8 (hex_digit a) (hex_digit b)) ≡ some (pos (16 * a + b))

hex_byte :
    (py : PyText) (utf8 : Char → List ℕ) (n : ℕ)
    → IsPython py utf8
    → n < 128
    → byte_of (py.int_of 16 (hex_pair py utf8 (hex_digit (n / 16)) (hex_digit (n % 16)))) ≡ some n
hex_byte py utf8 n python small =
    let same : 16 * (n / 16) + n % 16 ≡ n = omega arith in
    rw (python.reads_hex (n / 16) (n % 16) (omega arith) (omega arith)) (rw same (ground arith))

escape_byte :
    (py : PyText) (utf8 : Char → List ℕ) (e : Char) (n : ℕ)
    → simple (code e) ≡ some n
    → (rest : List ℕ) → escape_pair py utf8 "\\" e rest ≡ n ∷ rest
escape_byte py utf8 e n h rest = rw (h, escape_pair) refl

no_letter : (n : ℕ) → letter_of n ≡ none → (n == b'\\') ≡ false
unfolding letter_of
no_letter n h = ground (arith, h)

no_escape :
    (n : ℕ) → has_char n "\\'\"0abfnrtvx" ≡ false → (simple n ≡ none) × ((n == b'x') ≡ false)
unfolding has_char simple
no_escape n h = (ground (arith, h), ground (arith, h))

escaped :
    (py : PyText) (utf8 : Char → List ℕ)
    → IsPython py utf8
    → (s : String) → decode_escapes py utf8 (escape s) ≡ encoded utf8 s
unfolding escape encoded
escaped py utf8 python String.[] = nothing_left py utf8
escaped py utf8 python (String.◌∷◌ c s) =
    let rest = escaped py utf8 python s in
    elim (Option-cases (letter_of (code c))) [
      | inr (e, found) ↦
          let (byte, no_hex, small) = letter_of-simple (code c) e found in
          rw (found, escape, python.ascii c small)
            (decode-pair py utf8 "\\" e (escape s) refl no_hex
              ∙ escape_byte py utf8 e (code c) byte (decode_escapes py utf8 (escape s))
              ∙ ap (λ r. code c ∷ r) rest)
      | inl e ↦ elim (Bool-cases (is_control (code c))) [
        | inl control ↦
            let small : code c < 128 = ground (arith, control) in
            rw (e, control, escape, python.ascii c small)
              (decode-hex py utf8 (hex_digit (code c / 16)) (hex_digit (code c % 16)) (escape s)
                  (code c) (hex_byte py utf8 (code c) python small)
                ∙ ap (λ r. code c ∷ r) rest)
        | inr plain ↦
            rw (e, plain, escape)
              (decode-plain py utf8 c (escape s) (no_letter (code c) e)
                ∙ ap (λ r. utf8 c ++ r) rest)
      ]
    ]

unknown :
    (py : PyText) (utf8 : Char → List ℕ) (d : Char) (s : String)
    → has_char (code d) "\\'\"0abfnrtvx" ≡ false
    → decode_escapes py utf8 (String.◌∷◌ "\\" (String.◌∷◌ d s))
      ≡ utf8 "\\" ++ (utf8 d ++ decode_escapes py utf8 s)
unknown py utf8 d s h =
    let (no_simple, no_hex) = no_escape (code d) h in
    decode-pair py utf8 "\\" d s refl no_hex ∙ rw (no_simple, escape_pair) refl

-- Decoding the escaped form of any text, with each of the eleven escapes and with "\xNN" for other
-- control characters, gives the text's UTF-8 bytes. A backslash before a character that starts no
-- escape stands for itself.
pub decode_escapes-escape :
    (py : PyText) (utf8 : Char → List ℕ)
    → IsPython py utf8
    → ((s : String) → decode_escapes py utf8 (escape s) ≡ encoded utf8 s)
      × ((d : Char) (s : String)
          → has_char (code d) "\\'\"0abfnrtvx" ≡ false
          → decode_escapes py utf8 (String.◌∷◌ "\\" (String.◌∷◌ d s))
            ≡ utf8 "\\" ++ (utf8 d ++ decode_escapes py utf8 s))
decode_escapes-escape py utf8 python = (escaped py utf8 python, λ d s h. unknown py utf8 d s h)
