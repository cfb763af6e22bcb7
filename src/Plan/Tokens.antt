-- ===== src/Plan/Tokens.antt =====
-- plan.py: the tokens of one line, as parse_text sets shlex up: POSIX quoting, `#` comments, words
-- split at white space, no escape character. This is shlex.read_token's state machine.
pub mod Words
use test_serv.Base.{
  Bool, Option, none, some, List, [], ◌∷◌, String, Char, code, ◌||◌, ◌≡◌, refl, ◌==◌, if◌then◌else◌,
}
use mathlib.Core.Option
use test_serv.Base.Text.{snoc}

pub data LexState : Type 0 where
  space : LexState
  word : LexState
  quoted : Char → LexState

-- shlex.whitespace
unfoldable pub is_gap : Char → Bool
is_gap c = let n = code c in n == 32 || n == 9 || n == 13 || n == 10

unfoldable pub is_quote : Char → Bool
is_quote c = let n = code c in n == 34 || n == 39

abbrev pub emit : String → Option (List String) → Option (List String)
emit tok none = none
emit tok (some toks) = some (tok ∷ toks)

-- `none` is the ValueError of a quotation that is not closed. The token read so far is `tok`.
pub lex : LexState → String → String → Option (List String)
unfolding is_gap is_quote snoc
lex space tok String.[] = some []
lex word tok String.[] = some (tok ∷ [])
lex (quoted q) tok String.[] = none
lex space tok (String.◌∷◌ c s) =
    let skip = lex space "" s in
    let open_quote = lex (quoted c) "" s in
    let begin = lex word (String.◌∷◌ c String.[]) s in
    if is_gap c
    then skip
    else if code c == b'#'
    then some []
    else if is_quote c
    then open_quote
    else begin
lex word tok (String.◌∷◌ c s) =
    let finish = emit tok (lex space "" s) in
    let open_quote = lex (quoted c) tok s in
    let extend = lex word (snoc tok c) s in
    if is_gap c
    then finish
    else if code c == b'#'
    then some (tok ∷ [])
    else if is_quote c
    then open_quote
    else extend
lex (quoted q) tok (String.◌∷◌ c s) =
    let close = lex word tok s in
    let extend = lex (quoted q) (snoc tok c) s in if code c == code q then close else extend

unfoldable pub tokens : String → Option (List String)
unfolding lex
tokens raw = lex space "" raw

tokens_test : tokens "a:b  x='1 #2'y # c" ≡ some ("a:b" ∷ "x=1 #2y" ∷ [])
unfolding tokens
tokens_test = refl

tokens_open : tokens "description \"oops" ≡ none
unfolding tokens
tokens_open = refl
