-- ===== src/Plugins/Escapes.antt =====
-- plugins/_text.py: decode_escapes. The UTF-8 encoder and int(text, 16) are parameters.
pub mod RoundTrip
use test_serv.Base.{
  ℕ, ◌<◌, ◌≡◌, ◌∙◌, ap, refl, true, false, Option, none, some, List, [], ◌∷◌, String, Char, code,
  arith, ltb, ◌==◌, ◌||◌, ◌+◌, ◌*◌, Bool, zero, suc, Option-cases, if◌then◌else◌, Bool-cases, inl,
  inr,
}
use mathlib.Core.List.{◌++◌}
use mathlib.Core.Path.{subst}
use Prim.Native.Nat.{◌/◌, ◌%◌}
use test_serv.Base.Text.{has_char}
use test_serv.Base.Int.{ℤ, pos, negsuc}
use test_serv.Plan.Value.{PyText}

-- The table `simple`, by code points.
unfoldable pub simple : ℕ → Option ℕ
simple c =
    if c == b'\\'
    then some 0x5C
    else if c == 39
    then some 0x27
    else if c == 34
    then some 0x22
    else if c == b'0'
    then some 0x00
    else if c == b'a'
    then some 0x07
    else if c == b'b'
    then some 0x08
    else if c == b'f'
    then some 0x0C
    else if c == b'n'
    then some 0x0A
    else if c == b'r'
    then some 0x0D
    else if c == b't'
    then some 0x09
    else if c == b'v'
    then some 0x0B
    else none

-- int(hh, 16) as a byte; a ValueError, also that of bytearray.append, gives none.
abbrev pub byte_of : Option ℤ → Option ℕ
byte_of none = none
byte_of (some (negsuc n)) = none
byte_of (some (pos n)) = if ltb n 256 then some n else none

-- s.encode("utf-8")
unfoldable pub encoded : (Char → List ℕ) → String → List ℕ
encoded utf8 String.[] = []
encoded utf8 (String.◌∷◌ c s) = utf8 c ++ encoded utf8 s

module _ (py : PyText) (utf8 : Char → List ℕ) where
  abbrev pub hex_pair : Char → Char → String
  hex_pair h l = String.◌∷◌ h (String.◌∷◌ l String.[])

  abbrev pub hex_or : List ℕ → Option ℕ → List ℕ
  hex_or literal none = literal
  hex_or literal (some b) = b ∷ []

  -- A backslash, a character, and the bytes of what follows the two.
  abbrev pub escape_pair : Char → Char → List ℕ → List ℕ
  escape_pair c d rest = elim (simple (code d)) [
    | some b ↦ b ∷ rest
    | none ↦ utf8 c ++ (utf8 d ++ rest)
  ]

  -- "\xNN" needs both digits; a backslash at the end stands for itself.
  unfoldable pub decode_escapes : String → List ℕ
  unfolding simple
  decode_escapes String.[] = []
  decode_escapes (String.◌∷◌ c String.[]) = utf8 c ++ []
  decode_escapes (String.◌∷◌ c (String.◌∷◌ d String.[])) = elim (code c == b'\\') [
    | true ↦ escape_pair c d []
    | false ↦ utf8 c ++ decode_escapes (String.◌∷◌ d String.[])
  ]
  decode_escapes (String.◌∷◌ c (String.◌∷◌ d (String.◌∷◌ h String.[]))) = elim (code c == b'\\') [
    | true ↦ escape_pair c d (decode_escapes (String.◌∷◌ h String.[]))
    | false ↦ utf8 c ++ decode_escapes (String.◌∷◌ d (String.◌∷◌ h String.[]))
  ]
  decode_escapes (String.◌∷◌ c (String.◌∷◌ d (String.◌∷◌ h (String.◌∷◌ l s)))) =
      elim (code c == b'\\') [
        | false ↦ utf8 c ++ decode_escapes (String.◌∷◌ d (String.◌∷◌ h (String.◌∷◌ l s)))
        | true ↦ elim (code d == b'x') [
          | false ↦ escape_pair c d (decode_escapes (String.◌∷◌ h (String.◌∷◌ l s)))
          | true ↦
              hex_or (utf8 c ++ (utf8 d ++ (utf8 h ++ utf8 l)))
                (byte_of (py.int_of 16 (hex_pair h l)))
              ++ decode_escapes s
        ]
      ]

  -- Two characters that start an escape, or one that does not, before any text.
  pub decode-pair :
      (c d : Char) (s : String)
      → code c ≡ b'\\'
      → (code d == b'x') ≡ false
      → decode_escapes (String.◌∷◌ c (String.◌∷◌ d s)) ≡ escape_pair c d (decode_escapes s)
  unfolding decode_escapes
  decode-pair c d String.[] bs no_hex =
      let is_bs : (code c == b'\\') ≡ true = ground (arith, bs) in rw (is_bs, decode_escapes) refl
  decode-pair c d (String.◌∷◌ h String.[]) bs no_hex =
      let is_bs : (code c == b'\\') ≡ true = ground (arith, bs) in rw (is_bs, decode_escapes) refl
  decode-pair c d (String.◌∷◌ h (String.◌∷◌ l s)) bs no_hex =
      let is_bs : (code c == b'\\') ≡ true = ground (arith, bs) in
      rw (is_bs, no_hex, decode_escapes) refl

  pub decode-plain :
      (c : Char) (s : String)
      → (code c == b'\\') ≡ false
      → decode_escapes (String.◌∷◌ c s) ≡ utf8 c ++ decode_escapes s
  unfolding decode_escapes
  decode-plain c String.[] plain = refl
  decode-plain c (String.◌∷◌ d String.[]) plain = ground (arith, plain)
  decode-plain c (String.◌∷◌ d (String.◌∷◌ h String.[])) plain = ground (arith, plain)
  decode-plain c (String.◌∷◌ d (String.◌∷◌ h (String.◌∷◌ l s))) plain = ground (arith, plain)

  pub decode-hex :
      (h l : Char) (s : String) (b : ℕ)
      → byte_of (py.int_of 16 (hex_pair h l)) ≡ some b
      → decode_escapes (String.◌∷◌ "\\" (String.◌∷◌ "x" (String.◌∷◌ h (String.◌∷◌ l s))))
        ≡ b ∷ decode_escapes s
  unfolding decode_escapes
  decode-hex h l s b e = rw e refl
