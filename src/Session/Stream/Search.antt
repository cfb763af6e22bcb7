-- ===== src/Session/Stream/Search.antt =====
-- session.py: the incremental search of contains_bytes finds what a search of the whole stream does.
use test_serv.Base.{
  ℕ, zero, suc, ◌+◌, ◌-◌, ◌≤◌, ◌≡◌, ◌∙◌, sym, ap, refl, true, false, ◌&&◌, List, [], ◌∷◌, arith,
  ltb, ◌==◌, length, length-append, take, drop, Bool-cases, inl, inr,
}
use mathlib.Core.List.{◌++◌, append-nil, append_assoc}
use test_serv.Session.Stream.{
  Record, Stream, joined, Cursor, occurs, scan_records, contains_bytes, evict, append,
  stream_max_bytes, new_cursor,
}
use test_serv.Session.Stream.Bytes.{end_of}
use test_serv.Session.Stream.Overlap.{end_of_all, scan_records_lem}

-- What a cursor knows: the needle is in none of the bytes of its records, whose end it keeps.
pub record IsCurrent (needle : List ℕ) (c : Cursor) (s : Stream) : Type 0 where
  pub inside : c.index ≤ length s.records
  pub missed : occurs needle (joined (take c.index s.records)) ≡ false
  pub kept : c.tail ≡ end_of (length needle - 1) (joined (take c.index s.records))

joined-append : (rs qs : List Record) → joined (rs ++ qs) ≡ joined rs ++ joined qs
unfolding joined
joined-append [] qs = refl
joined-append ((t, chunk) ∷ rs) qs =
    ap (λ e. chunk ++ e) (joined-append rs qs) ∙ sym (append_assoc chunk (joined rs) (joined qs))

take-drop : (n : ℕ) (rs : List Record) → take n rs ++ drop n rs ≡ rs
take-drop zero rs = refl
take-drop (suc n) [] = refl
take-drop (suc n) (r ∷ rs) = ap (λ e. r ∷ e) (take-drop n rs)

-- A cursor of the stream: of an older generation, or current.
pub record IsRight (needle : List ℕ) (c : Cursor) (s : Stream) : Type 0 where
  pub past : c.gen ≤ s.truncate_gen
  pub current : (c.known && c.gen == s.truncate_gen) ≡ true → IsCurrent needle c s

-- The search from a place of which the cursor is right.
search_from :
    (b : ℕ) (n : List ℕ) (c : Cursor) (s : Stream)
    → IsCurrent (b ∷ n) c s
    → let o = scan_records (b ∷ n) c.tail (drop c.index s.records) in
      (o.0 ≡ occurs (b ∷ n) (joined s.records))
      × (o.0 ≡ false → o.1 ≡ end_of (length n) (joined s.records))
search_from b n c s v =
    let first = joined (take c.index s.records) in
    let whole : first ++ joined (drop c.index s.records) ≡ joined s.records =
      sym (joined-append (take c.index s.records) (drop c.index s.records))
      ∙ ap joined (take-drop c.index s.records) in
    let less : suc (length n) - 1 ≡ length n = omega arith in
    let tail : c.tail ≡ end_of (length n) first = v.kept ∙ ap (λ k. end_of k first) less in
    let scan = scan_records_lem b n first (drop c.index s.records) v.missed in
    rw tail (scan.0 ∙ ap (occurs (b ∷ n)) whole, λ h. scan.1 h ∙ ap (end_of (length n)) whole)

-- A search from the start of the stream.
fresh-IsCurrent :
    (b : ℕ) (n : List ℕ) (s : Stream)
    → IsCurrent (b ∷ n) (record { index = 0; tail = []; known = true; gen = s.truncate_gen }) s
unfolding joined occurs
fresh-IsCurrent b n s = record {
  inside = omega arith;
  missed = refl;
  kept = sym (end_of_all (suc (length n) - 1) [] (omega arith));
}

take-all : (rs : List Record) → take (length rs) rs ≡ rs
take-all [] = refl
take-all (r ∷ rs) = ap (λ e. r ∷ e) (take-all rs)

after-IsCurrent :
    (b : ℕ) (n kept : List ℕ) (s : Stream)
    → occurs (b ∷ n) (joined s.records) ≡ false
    → kept ≡ end_of (length n) (joined s.records)
    → IsCurrent
        (b ∷ n)
        (record { index = length s.records; tail = kept; known = true; gen = s.truncate_gen })
        s
after-IsCurrent b n kept s missed e =
    let less : suc (length n) - 1 ≡ length n = omega arith in
    record {
      inside = omega arith;
      missed = ap (λ rs. occurs (b ∷ n) (joined rs)) (take-all s.records) ∙ missed;
      kept =
          e
          ∙ sym (ap (λ k. end_of k (joined s.records)) less)
          ∙ sym (ap (λ rs. end_of (suc (length n) - 1) (joined rs)) (take-all s.records));
    }

-- The cursor of the scan, with what it starts from.
search_with :
    (b : ℕ) (n : List ℕ) (c : Cursor) (s : Stream)
    → IsCurrent (b ∷ n) c s
    → let o = scan_records (b ∷ n) c.tail (drop c.index s.records) in
      (o.0 ≡ occurs (b ∷ n) (joined s.records))
      × (o.0 ≡ false
          → IsCurrent
              (b ∷ n)
              (record { index = length s.records; tail = o.1; known = true; gen = s.truncate_gen })
              s)
search_with b n c s v =
    let found = search_from b n c s v in
    (found.0, λ h. after-IsCurrent b n _ s (sym found.0 ∙ h) (found.1 h))

evict-gen :
    (rs : List Record) (size dropped gen : ℕ)
    → let (rs', (size', (dropped', gen'))) = evict rs size dropped gen in
      (gen ≤ gen') × (gen' ≡ gen → rs' ≡ rs)
unfolding evict
evict-gen [] size dropped gen = (omega arith, λ h. refl)
evict-gen (r ∷ []) size dropped gen = (omega arith, λ h. refl)
evict-gen ((t, chunk) ∷ r ∷ rs) size dropped gen = elim (Bool-cases (ltb stream_max_bytes size)) [
  | inr e ↦ rw e (omega arith, λ h. refl)
  | inl e ↦
      let rest = evict-gen (r ∷ rs) (size - length chunk) (dropped + length chunk) (gen + 1) in
      rw e (omega (arith, rest.0), λ h. absurd (omega (arith, rest.0)))
]

take-append : (k : ℕ) (rs qs : List Record) → k ≤ length rs → take k (rs ++ qs) ≡ take k rs
take-append zero rs qs h = refl
take-append (suc k) [] qs h = absurd (omega arith)
take-append (suc k) (r ∷ rs) qs h = ap (λ e. r ∷ e) (take-append k rs qs (omega arith))

append-records :
    (t : ℕ) (chunk : List ℕ) (s : Stream)
    → (append t chunk s).truncate_gen ≡ s.truncate_gen
    → (qs : List Record) × ((append t chunk s).records ≡ s.records ++ qs)
unfolding append
append-records t [] s same = ([], sym (append-nil s.records))
append-records t (x ∷ xs) s same =
    let more = s.records ++ ((t, x ∷ xs) ∷ []) in
    let evicted = evict-gen more (s.size + length (x ∷ xs)) s.dropped s.truncate_gen in
    elim (Bool-cases s.closed) [
      | inl shut ↦ ([], ground (arith, shut, append-nil s.records))
      | inr opened ↦ ((t, x ∷ xs) ∷ [], ground (arith, opened, evicted))
    ]

append-gen :
    (t : ℕ) (chunk : List ℕ) (s : Stream) → s.truncate_gen ≤ (append t chunk s).truncate_gen
unfolding append
append-gen t [] s = omega arith
append-gen t (x ∷ xs) s =
    let more = s.records ++ ((t, x ∷ xs) ∷ []) in
    ground (arith, evict-gen more (s.size + length (x ∷ xs)) s.dropped s.truncate_gen)

-- More records leave a cursor current.
grown-IsCurrent :
    (needle : List ℕ) (c : Cursor) (s u : Stream) (qs : List Record)
    → u.records ≡ s.records ++ qs
    → IsCurrent needle c s
    → IsCurrent needle c u
grown-IsCurrent needle c s u qs e v =
    let same : take c.index u.records ≡ take c.index s.records =
      ap (take c.index) e ∙ take-append c.index s.records qs v.inside in
    record {
      inside =
          omega
            (arith, ap (λ (rs : List Record). length rs) e, length-append s.records qs, v.inside);
      missed = ap (λ rs. occurs needle (joined rs)) same ∙ v.missed;
      kept = v.kept ∙ sym (ap (λ rs. end_of (length needle - 1) (joined rs)) same);
    }

append-IsRight :
    (needle : List ℕ) (c : Cursor) (t : ℕ) (chunk : List ℕ) (s : Stream)
    → IsRight needle c s
    → IsRight needle c (append t chunk s)
append-IsRight needle c t chunk s v = record {
  past = omega (arith, append-gen t chunk s, v.past);
  current = λ usable.
      let same : (append t chunk s).truncate_gen ≡ s.truncate_gen =
        ground (arith, append-gen t chunk s, v.past) in
      let grown = append-records t chunk s same in
      grown-IsCurrent needle c s (append t chunk s) grown.0 grown.1 (v.current (ground arith));
}

search_right :
    (b : ℕ) (n : List ℕ) (c : Cursor) (s : Stream)
    → IsRight (b ∷ n) c s
    → let o = contains_bytes (b ∷ n) c s in
      (o.0 ≡ occurs (b ∷ n) (joined s.records))
      × (o.0 ≡ false → IsCurrent (b ∷ n) o.1 s)
      × (o.1.gen ≡ s.truncate_gen)
unfolding contains_bytes
search_right b n c s v =
    let fresh = search_with b n _ s (fresh-IsCurrent b n s) in
    elim (Bool-cases (c.known && c.gen == s.truncate_gen)) [
      | inr other ↦ rw (other, contains_bytes) (fresh.0, fresh.1, refl)
      | inl same ↦ elim (Bool-cases (ltb (length s.records) c.index)) [
        | inl past ↦ rw (same, past, contains_bytes) (fresh.0, fresh.1, refl)
        | inr within ↦
            let found = search_with b n c s (v.current same) in
            rw (same, within, contains_bytes) (found.0, found.1, refl)
      ]
    ]

-- A search with a right cursor, which a new cursor is, tells whether the needle stands anywhere in
-- the bytes of the whole stream, also across records. After a search that finds nothing the cursor
-- is right, and it is right after any further append, whether that drops old records or not.
pub contains_bytes_lem :
    (b : ℕ) (n : List ℕ) (c : Cursor) (s : Stream)
    → IsRight (b ∷ n) c s
    → let o = contains_bytes (b ∷ n) c s in
      (o.0 ≡ occurs (b ∷ n) (joined s.records))
      × (o.0 ≡ false → (t : ℕ) (chunk : List ℕ) → IsRight (b ∷ n) o.1 (append t chunk s))
contains_bytes_lem b n c s v =
    let (found, current, gen) = search_right b n c s v in
    (
      found,
      λ missed t chunk.
          append-IsRight (b ∷ n) _ t chunk s
            (record { past = omega (arith, gen); current = λ usable. current missed }),
    )

pub new_cursor-IsRight : (needle : List ℕ) (s : Stream) → IsRight needle new_cursor s
new_cursor-IsRight needle s = record { past = omega arith; current = λ h. absurd (ground arith) }
