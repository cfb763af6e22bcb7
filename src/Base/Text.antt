-- ===== src/Base/Text.antt =====
-- Python's `str` as native text: the methods that the program calls, by recursion on characters.
use Prim.Native.Nat.{ℕ, zero, suc, ◌≤◌}
use Prim.Native.Char.{Char, code}
use Prim.Native.String.{String, ◌++◌}
use mathlib.Core.Path.{◌≡◌, refl}
use mathlib.Core.Bool.{Bool, true, false, ◌&&◌, ◌||◌}
use mathlib.Core.Option.{Option, none, some}
use mathlib.Core.List.{List, [], ◌∷◌}
use native.Mathlib.Omega.{arith}
use test_serv.Base.Tests.{leb, ◌==◌, if◌then◌else◌}

-- The code points of a text.
abbrev pub codes : String → List ℕ
codes String.[] = []
codes (String.◌∷◌ c s) = code c ∷ codes s

-- len(s)
abbrev pub text_length : String → ℕ
text_length String.[] = 0
text_length (String.◌∷◌ c s) = suc (text_length s)

-- all(p(c) for c in s)
unfoldable pub all_chars : (Char → Bool) → String → Bool
all_chars p String.[] = true
all_chars p (String.◌∷◌ c s) = p c && all_chars p s

abbrev pub is_empty : String → Bool
is_empty String.[] = true
is_empty (String.◌∷◌ c s) = false

-- s.partition(c): what stands before the first `c`, and after it if there is one.
unfoldable pub partition : ℕ → String → String × Option String
partition x String.[] = (String.[], none)
partition x (String.◌∷◌ c s) =
    let (before, after) = partition x s in
    if code c == x then (String.[], some s) else (String.◌∷◌ c before, after)

-- s[:n]
unfoldable pub text_take : ℕ → String → String
text_take zero s = String.[]
text_take (suc n) String.[] = String.[]
text_take (suc n) (String.◌∷◌ c s) = String.◌∷◌ c (text_take n s)

pub text_length-take-le : (n : ℕ) (s : String) → text_length (text_take n s) ≤ n
unfolding text_take
text_length-take-le zero s = omega arith
text_length-take-le (suc n) String.[] = omega arith
text_length-take-le (suc n) (String.◌∷◌ c s) = omega (arith, text_length-take-le n s)

-- str.isspace of one character
unfoldable pub is_space : Char → Bool
is_space c =
    let n = code c in
    (leb 9 n && leb n 13)
    || (leb 28 n && leb n 32)
    || n == 133
    || n == 160
    || n == 5760
    || (leb 8192 n && leb n 8202)
    || n == 8232
    || n == 8233
    || n == 8239
    || n == 8287
    || n == 12288

unfoldable pub lstrip : String → String
lstrip String.[] = String.[]
lstrip (String.◌∷◌ c s) = let rest = lstrip s in if is_space c then rest else String.◌∷◌ c s

unfoldable pub rstrip : String → String
rstrip String.[] = String.[]
rstrip (String.◌∷◌ c s) =
    let rest = rstrip s in if is_space c && is_empty rest then String.[] else String.◌∷◌ c rest

-- The lines of str.splitlines: "\r\n" is one line break.
pub is_break : Char → Bool
is_break c =
    let n = code c in
    (leb 10 n && leb n 13) || (leb 28 n && leb n 30) || n == 133 || n == 8232 || n == 8233

abbrev pub push_char : Char → List String → List String
push_char c [] = String.◌∷◌ c String.[] ∷ []
push_char c (l ∷ ls) = String.◌∷◌ c l ∷ ls

unfoldable pub split_lines : String → List String
unfolding is_break
split_lines String.[] = []
split_lines (String.◌∷◌ c String.[]) =
    if is_break c then String.[] ∷ [] else String.◌∷◌ c String.[] ∷ []
split_lines (String.◌∷◌ c (String.◌∷◌ d s)) =
    let after_two = String.[] ∷ split_lines s in
    let after_one = split_lines (String.◌∷◌ d s) in
    if code c == 13 && code d == 10
    then after_two
    else if is_break c
    then String.[] ∷ after_one
    else push_char c after_one

-- s.startswith(x) for one character, and `x in s`.
abbrev pub starts_with_char : ℕ → String → Bool
starts_with_char x String.[] = false
starts_with_char x (String.◌∷◌ c s) = code c == x

unfoldable pub has_char : ℕ → String → Bool
has_char x String.[] = false
has_char x (String.◌∷◌ c s) = code c == x || has_char x s

-- s[1:]
abbrev pub rest_of : String → String
rest_of String.[] = String.[]
rest_of (String.◌∷◌ c s) = s

-- s + c
unfoldable pub snoc : String → Char → String
snoc String.[] d = String.◌∷◌ d String.[]
snoc (String.◌∷◌ c s) d = String.◌∷◌ c (snoc s d)

-- " ".join(words)
unfoldable pub join_spaces : List String → String
join_spaces [] = ""
join_spaces (w ∷ []) = w
join_spaces (w ∷ (v ∷ vs)) = w ++ (" " ++ join_spaces (v ∷ vs))

split_test : split_lines "a\r\nb\n" ≡ "a" ∷ "b" ∷ []
unfolding split_lines
split_test = refl
