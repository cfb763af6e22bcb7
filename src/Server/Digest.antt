-- ===== src/Server/Digest.antt =====
-- server.py: SAFE_DIGEST_RE and the names of uploaded files.
use Prim.Native.String.{◌++◌}
use Prim.Native.String.append
use test_serv.Base.{
  ℕ, zero, suc, Bool, true, false, Option, none, some, ◌&&◌, ◌||◌, ◌≡◌, refl, String, Char, code,
  leb, ◌==◌, if◌then◌else◌, ◌⊎◌, arith, ◌+◌,
}
use test_serv.Base.Text.{all_chars, text_length, is_empty}

unfoldable pub is_hex : Char → Bool
is_hex c = (leb b'0' (code c) && leb (code c) b'9') || (leb b'a' (code c) && leb (code c) b'f')

-- `n` more digits; the regex's `$` also lets one newline stand at the end.
unfoldable pub hex_digits : ℕ → String → Bool
unfolding is_hex
hex_digits zero String.[] = true
hex_digits zero (String.◌∷◌ c s) = code c == 10 && is_empty s
hex_digits (suc n) String.[] = false
hex_digits (suc n) (String.◌∷◌ c s) = is_hex c && hex_digits n s

unfoldable pub is_digest : String → Bool
unfolding hex_digits
is_digest s = hex_digits 64 s

is_alnum : Char → Bool
is_alnum c =
    let n = code c in
    (leb b'A' n && leb n b'Z') || (leb b'a' n && leb n b'z') || (leb b'0' n && leb n b'9')

is_name_char : Char → Bool
unfolding is_alnum
is_name_char c = is_alnum c || code c == b'.' || code c == b'_' || code c == b'-'

-- A regex `^[...]+$`: at least one character of the class, and maybe a newline at the end.
class_text : (Char → Bool) → String → Bool
class_text p String.[] = true
class_text p (String.◌∷◌ c s) = (p c && class_text p s) || (code c == 10 && is_empty s)

-- SAFE_EXT_RE and SAFE_NAME_RE
unfoldable pub is_alnum_text : String → Bool
unfolding is_alnum class_text
is_alnum_text String.[] = false
is_alnum_text (String.◌∷◌ c s) = is_alnum c && class_text is_alnum s

unfoldable pub is_safe_name : String → Bool
unfolding is_name_char class_text
is_safe_name String.[] = false
is_safe_name (String.◌∷◌ c s) = is_name_char c && class_text is_name_char s

-- s.lstrip(".")
unfoldable pub lstrip_dots : String → String
lstrip_dots String.[] = String.[]
lstrip_dots (String.◌∷◌ c s) =
    let rest = lstrip_dots s in if code c == b'.' then rest else String.◌∷◌ c s

-- path.rsplit("/", 1)[-1]
pub after_slash : String → String
after_slash String.[] = String.[]
after_slash (String.◌∷◌ c s) =
    let rest = after_slash s in
    if all_chars (λ d. elim (code d == b'/') [ true ↦ false | false ↦ true ]) s
    then (if code c == b'/' then s else String.◌∷◌ c s)
    else rest

-- The last dot of a name and what follows it, if there is one.
last_dot : String → Option (String × String)
last_dot String.[] = none
last_dot (String.◌∷◌ c s) = elim (last_dot s) [
  | some (root, ext) ↦ some (String.◌∷◌ c root, ext)
  | none ↦ if code c == b'.' then some (String.[], String.◌∷◌ c s) else none
]

-- os.path.splitext of a name with no slash: leading dots start no extension.
pub splitext : String → String × String
unfolding last_dot
splitext s = elim (last_dot s) [
  | none ↦ (s, String.[])
  | some (root, ext) ↦ if all_chars (λ c. code c == b'.') root then (s, String.[]) else (root, ext)
]

-- `(digest, ext)` of an uploaded or requested name.
unfoldable pub split_name : String → String × String
unfolding after_slash splitext
split_name path = splitext (after_slash path)

-- A name that passes is 64 characters long, or 65 with a final newline.
pub hex_digits_length :
    (n : ℕ) (s : String) → hex_digits n s ≡ true → (text_length s ≡ n) ⊎ (text_length s ≡ n + 1)
unfolding hex_digits
hex_digits_length zero String.[] h = ground arith
hex_digits_length zero (String.◌∷◌ c String.[]) h = ground arith
hex_digits_length zero (String.◌∷◌ c (String.◌∷◌ d s)) h = ground arith
hex_digits_length (suc n) String.[] h = ground arith
hex_digits_length (suc n) (String.◌∷◌ c s) h = ground (arith, hex_digits_length n s)

split_tar : split_name "x/y/ab.tar" ≡ ("ab", ".tar")
unfolding split_name all_chars
split_tar = refl

is_digest_example :
    is_digest "00112233445566778899aabbccddeeff00112233445566778899aabbccddeeff" ≡ true
unfolding is_digest
is_digest_example = refl

abbrev not_slash : Char → Bool
not_slash c = elim (code c == b'/') [ true ↦ false | false ↦ true ]

hex_tar-slash : (d : String) → all_chars is_hex d ≡ true → all_chars not_slash (d ++ ".tar") ≡ true
unfolding all_chars is_hex
hex_tar-slash String.[] h = refl
hex_tar-slash (String.◌∷◌ c d) h = rw (append.cons c d ".tar") (ground (arith, hex_tar-slash d))

after_slash-none : (s : String) → all_chars not_slash s ≡ true → after_slash s ≡ s
unfolding all_chars after_slash
after_slash-none String.[] h = refl
after_slash-none (String.◌∷◌ c s) h = ground arith

hex_tar-dot : (d : String) → all_chars is_hex d ≡ true → last_dot (d ++ ".tar") ≡ some (d, ".tar")
unfolding all_chars is_hex last_dot
hex_tar-dot String.[] h = refl
hex_tar-dot (String.◌∷◌ c d) h =
    let rest : all_chars is_hex d ≡ true = ground arith in
    rw (append.cons c d ".tar") (rw (hex_tar-dot d rest, last_dot) refl)

-- A name of hexadecimal digits and the ending ".tar" splits into those.
pub split_name-hex :
    (d : String)
    → all_chars is_hex d ≡ true
    → is_empty d ≡ false
    → split_name (d ++ ".tar") ≡ (d, ".tar")
unfolding split_name splitext all_chars is_hex
split_name-hex String.[] h e = absurd (ground arith)
split_name-hex (String.◌∷◌ c d) h e =
    let s = String.◌∷◌ c d in
    let no_dots : all_chars (λ c. code c == b'.') s ≡ false = ground arith in
    rw (after_slash-none (s ++ ".tar") (hex_tar-slash s h))
      (rw (hex_tar-dot s h, splitext) (ground (arith, no_dots)))
