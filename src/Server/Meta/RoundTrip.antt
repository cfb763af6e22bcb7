-- ===== src/Server/Meta/RoundTrip.antt =====
-- server.py: a meta file reads back as the dict that was written.
use Prim.Native.Char.{Char, code}
use Prim.Native.String.{◌++◌}
use text.Mathlib.TextLemmas.{nil-append, cons-append, append_assoc}
use mathlib.Core.List
use test_serv.Base.{
  ◌≡◌, ap, ◌∙◌, sym, refl, Bool, true, false, not, some, [], ◌∷◌, String, arith, ◌==◌, All,
}
use test_serv.Base.Text.{is_space, lstrip, rstrip, partition, is_empty, all_chars}
use test_serv.Base.Dict.{Dict, NodupKeys, NodupKeys-fresh, insert-new, mem}
use test_serv.Server.Meta.{add_entry, is_newline, lines, format_meta, read_lines, read_meta}

-- A value that one line can hold: no line break, and no white space at its end.
pub record IsClean (v : String) : Type 0 where
  pub one_line : all_chars (λ c. not (is_newline c)) v ≡ true
  pub stripped : rstrip v ≡ v

unfoldable pub starts_solid : String → Bool
starts_solid String.[] = false
starts_solid (String.◌∷◌ c s) = not (is_space c)

-- A key: it does not begin with white space, and has no line break and no "=".
pub record IsKey (k : String) : Type 0 where
  pub solid : starts_solid k ≡ true
  pub one_line : all_chars (λ c. not (is_newline c)) k ≡ true
  pub no_equals : all_chars (λ c. not (code c == b'=')) k ≡ true

lines-line :
    (a rest : String)
    → all_chars (λ c. not (is_newline c)) a ≡ true
    → lines (a ++ ("\n" ++ rest)) ≡ a ∷ lines rest
unfolding lines is_newline all_chars
lines-line String.[] rest h = rw (nil-append, cons-append) (rw nil-append refl)
lines-line (String.◌∷◌ c s) rest h =
    rw cons-append (rw (lines-line s rest (ground arith)) (ground arith))

append-ne-empty : (a s : String) → is_empty s ≡ false → is_empty (a ++ s) ≡ false
append-ne-empty String.[] s h = rw nil-append h
append-ne-empty (String.◌∷◌ c a) s h = rw cons-append refl

rstrip-append : (a s : String) → rstrip s ≡ s → is_empty s ≡ false → rstrip (a ++ s) ≡ a ++ s
unfolding rstrip
rstrip-append String.[] s h e = rw nil-append h
rstrip-append (String.◌∷◌ c a) s h e =
    rw cons-append (rw (rstrip-append a s h e) (ground (arith, append-ne-empty a s e)))

partition-key :
    (k v : String)
    → all_chars (λ c. not (code c == b'=')) k ≡ true
    → partition b'=' (k ++ ("=" ++ v)) ≡ (k, some v)
unfolding partition all_chars
partition-key String.[] v h = rw (nil-append, cons-append, nil-append) refl
partition-key (String.◌∷◌ c k) v h =
    rw cons-append (rw (partition-key k v (ground arith)) (ground arith))

lstrip-key : (k s : String) → starts_solid k ≡ true → lstrip (k ++ s) ≡ k ++ s
unfolding lstrip starts_solid
lstrip-key String.[] s h = absurd (ground arith)
lstrip-key (String.◌∷◌ c k) s h = rw cons-append (ground arith)

rstrip-value : (v : String) → rstrip v ≡ v → rstrip ("=" ++ v) ≡ "=" ++ v
unfolding rstrip is_space
rstrip-value v h = rw (cons-append, nil-append, h) refl

equals-ne-empty : (v : String) → is_empty ("=" ++ v) ≡ false
equals-ne-empty v = rw cons-append refl

-- One line of a meta file, read.
entry-line :
    (k v : String)
    → IsKey k
    → IsClean v
    → partition b'=' (rstrip (lstrip (k ++ ("=" ++ v)))) ≡ (k, some v)
entry-line k v ik iv = rw (lstrip-key k ("=" ++ v) ik.solid) (
    rw (rstrip-append k ("=" ++ v) (rstrip-value v iv.stripped) (equals-ne-empty v))
      (partition-key k v ik.no_equals))

all_chars-append :
    (p : Char → Bool) (a b : String)
    → all_chars p a ≡ true
    → all_chars p b ≡ true
    → all_chars p (a ++ b) ≡ true
unfolding all_chars
all_chars-append p String.[] b ha hb = rw nil-append hb
all_chars-append p (String.◌∷◌ c a) b ha hb =
    rw cons-append (ground (arith, all_chars-append p a b))

value-one_line :
    (v : String)
    → all_chars (λ c. not (is_newline c)) v ≡ true
    → all_chars (λ c. not (is_newline c)) ("=" ++ v) ≡ true
unfolding all_chars is_newline
value-one_line v h = rw (cons-append, nil-append) h

regroup :
    (k v rest : String) → k ++ ("=" ++ (v ++ ("\n" ++ rest))) ≡ (k ++ ("=" ++ v)) ++ ("\n" ++ rest)
regroup k v rest = simp append_assoc

add_entry-key :
    (k v : String) (acc : Dict String)
    → IsKey k
    → mem k acc ≡ false
    → add_entry (k, some v) acc ≡ List.◌++◌ acc ((k, v) ∷ [])
unfolding starts_solid
add_entry-key String.[] v acc ik new = absurd (ground (arith, ik.solid))
add_entry-key (String.◌∷◌ c k) v acc ik new = insert-new _ v acc new

read_lines-format :
    (m acc : Dict String)
    → All (λ (k, v). IsKey k × IsClean v) m
    → NodupKeys (List.◌++◌ acc m)
    → read_lines acc (lines (format_meta m)) ≡ List.◌++◌ acc m
unfolding read_lines format_meta lines
read_lines-format [] acc h u = sym (List.append-nil acc)
read_lines-format ((k, v) ∷ m) acc ((ik, iv), h) u =
    let line = k ++ ("=" ++ v) in
    let rest = format_meta m in
    let one = all_chars-append _ k ("=" ++ v) ik.one_line (value-one_line v iv.one_line) in
    let added = add_entry-key k v acc ik (NodupKeys-fresh k v acc m u) in
    let assoc = List.append_assoc acc ((k, v) ∷ []) m in
    rw (regroup k v rest) (
      rw (lines-line line rest one) (
        ap (λ e. read_lines (add_entry e acc) (lines rest)) (entry-line k v ik iv)
        ∙ ap (λ a. read_lines a (lines rest)) added
        ∙ read_lines-format m (List.◌++◌ acc ((k, v) ∷ [])) h (rw assoc u)
        ∙ assoc))

-- A meta file reads back as the dict that was written, in the same order, provided that its keys
-- are distinct and hold no "=", and that no key or value has a line break or loses characters to
-- the reader's strip.
pub read_meta-format :
    (m : Dict String)
    → All (λ (k, v). IsKey k × IsClean v) m
    → NodupKeys m
    → read_meta (format_meta m) ≡ m
unfolding read_meta
read_meta-format m h u = read_lines-format m [] h u
