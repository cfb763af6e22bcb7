-- ===== src/Plan/Tokens/Words.antt =====
-- plan.py: words with no quote, comment mark or white space come back from the tokeniser.
use Prim.Native.String.{◌++◌}
use text.Mathlib.TextLemmas.{nil-append, append-nil, cons-append}
use test_serv.Base.{
  ◌≡◌, ◌∙◌, ap, sym, refl, Bool, true, false, not, ◌||◌, some, List, [], ◌∷◌, String, Char, code,
  arith, ◌==◌, All,
}
use test_serv.Base.Text.{all_chars, is_empty, snoc, join_spaces}
use test_serv.Plan.Tokens.{space, word, is_gap, is_quote, lex, emit, tokens}

unfoldable pub is_plain : Char → Bool
is_plain c = not (is_gap c || code c == b'#' || is_quote c)

pub record IsWord (w : String) : Type 0 where
  pub some_char : is_empty w ≡ false
  pub plain : all_chars is_plain w ≡ true

snoc-append : (t : String) (c : Char) (w : String) → snoc t c ++ w ≡ t ++ String.◌∷◌ c w
unfolding snoc
snoc-append String.[] c w = rw (cons-append, nil-append, nil-append) refl
snoc-append (String.◌∷◌ d t) c w =
    rw (cons-append, cons-append) (ap (String.◌∷◌ d) (snoc-append t c w))

-- Inside a word the lexer reads its plain characters into the token.
lex_plain :
    (t : String) (c : Char) (s : String)
    → is_plain c ≡ true
    → lex word t (String.◌∷◌ c s) ≡ lex word (snoc t c) s
unfolding lex is_plain
lex_plain t c s h = ground arith

lex-word :
    (t w rest : String)
    → all_chars is_plain w ≡ true
    → lex word t (w ++ rest) ≡ lex word (t ++ w) rest
unfolding all_chars
lex-word t String.[] rest h = rw (nil-append, append-nil) refl
lex-word t (String.◌∷◌ c w) rest h = rw cons-append (
    lex_plain t c (w ++ rest) (ground arith)
    ∙ lex-word (snoc t c) w rest (ground arith)
    ∙ ap (λ u. lex word u rest) (snoc-append t c w))

-- At the start of a word the lexer begins with its first character.
lex-space : (w rest : String) → IsWord w → lex space "" (w ++ rest) ≡ lex word w rest
unfolding all_chars lex is_plain
lex-space String.[] rest h = absurd (ground (arith, h.some_char))
lex-space (String.◌∷◌ c w) rest h = rw cons-append (
    ground (arith, h.plain)
    ∙ lex-word (String.◌∷◌ c String.[]) w rest (ground (arith, h.plain))
    ∙ ap (λ u. lex word u rest) (rw (cons-append, nil-append) refl))

lex-gap : (w rest : String) → lex word w (" " ++ rest) ≡ emit w (lex space "" rest)
unfolding lex is_gap
lex-gap w rest = rw (cons-append, nil-append) refl

-- A line of plain words joined by single spaces is split into those words again.
pub tokens-join_spaces :
    (w : String) (ws : List String)
    → All IsWord (w ∷ ws)
    → tokens (join_spaces (w ∷ ws)) ≡ some (w ∷ ws)
unfolding tokens lex join_spaces
tokens-join_spaces w [] (h, hs) = ap (lex space "") (sym (append-nil w)) ∙ lex-space w String.[] h
tokens-join_spaces w (v ∷ vs) (h, hs) =
    lex-space w (" " ++ join_spaces (v ∷ vs)) h
    ∙ lex-gap w (join_spaces (v ∷ vs))
    ∙ ap (emit w) (tokens-join_spaces v vs hs)
