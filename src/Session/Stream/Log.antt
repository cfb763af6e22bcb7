-- ===== src/Session/Stream/Log.antt =====
-- session.py: a stream as a log of bytes that forgets only its oldest ones.
use test_serv.Base.{
  ℕ, zero, suc, ◌+◌, ◌-◌, ◌≤◌, ◌≡◌, ◌∙◌, sym, ap, refl, false, List, [], ◌∷◌, arith, ltb, length,
  drop, drop-append-past, drop-append-within, drop-nil, length-append, Bool-cases, inl, inr,
}
use mathlib.Core.List.{◌++◌, append-nil, append_assoc}
use test_serv.Session.Stream.{Record, Stream, stream_max_bytes, evict, append, joined}

-- The abstract stream: all bytes that were ever appended, and how many of them are forgotten.
pub record ByteLog : Type 0 where
  pub all_bytes : List ℕ
  pub forgotten : ℕ

-- The stream stands for the log: it has the bytes after the forgotten ones, and counts these.
pub record Implements (s : Stream) (l : ByteLog) : Type 0 where
  pub bytes : joined s.records ≡ drop l.forgotten l.all_bytes
  pub count : s.dropped ≡ l.forgotten
  pub within : l.forgotten ≤ length l.all_bytes

evict-joined :
    (rs : List Record) (size dropped gen : ℕ)
    → let (rs', (size', (dropped', gen'))) = evict rs size dropped gen in
      (joined rs' ≡ drop (dropped' - dropped) (joined rs))
      × (dropped ≤ dropped')
      × (dropped' ≤ dropped + length (joined rs))
unfolding evict joined
evict-joined [] size dropped gen =
    let none_gone : dropped - dropped ≡ 0 = omega arith in
    (ap (λ k. drop k (joined [])) (sym none_gone), omega arith, omega arith)
evict-joined (r ∷ []) size dropped gen =
    let none_gone : dropped - dropped ≡ 0 = omega arith in
    (ap (λ k. drop k (joined (r ∷ []))) (sym none_gone), omega arith, omega arith)
evict-joined ((t, chunk) ∷ r ∷ rs) size dropped gen =
    elim (Bool-cases (ltb stream_max_bytes size)) [
      | inr e ↦
          let none_gone : dropped - dropped ≡ 0 = omega arith in
          rw e (
            ap (λ k. drop k (joined ((t, chunk) ∷ r ∷ rs))) (sym none_gone),
            omega arith,
            omega arith,
          )
      | inl e ↦
          let o = evict (r ∷ rs) (size - length chunk) (dropped + length chunk) (gen + 1) in
          let rest =
            evict-joined (r ∷ rs) (size - length chunk) (dropped + length chunk) (gen + 1) in
          let gone = o.1.1.0 - (dropped + length chunk) in
          let more : o.1.1.0 - dropped ≡ length chunk + gone = omega (arith, rest.1) in
          rw e (
            rest.0
                ∙ sym (drop-append-past chunk (joined (r ∷ rs)) gone)
                ∙ ap (λ k. drop k (chunk ++ joined (r ∷ rs))) (sym more),
            omega (arith, rest.1),
            omega (arith, rest.2, length-append chunk (joined (r ∷ rs))),
          )
    ]

length-drop : (n : ℕ) (xs : List ℕ) → length (drop n xs) ≡ length xs - n
length-drop zero xs = omega arith
length-drop (suc n) [] = omega arith
length-drop (suc n) (x ∷ xs) = omega (arith, length-drop n xs)

drop-drop : (m n : ℕ) (xs : List ℕ) → drop m (drop n xs) ≡ drop (n + m) xs
drop-drop m zero xs = let same : m ≡ 0 + m = omega arith in ap (λ k. drop k xs) same
drop-drop m (suc n) [] = drop-nil m ∙ sym (drop-nil (suc n + m))
drop-drop m (suc n) (x ∷ xs) =
    let next : suc (n + m) ≡ suc n + m = omega arith in
    drop-drop m n xs ∙ ap (λ k. drop k (x ∷ xs)) next

joined-snoc :
    (rs : List Record) (t : ℕ) (chunk : List ℕ)
    → joined (rs ++ ((t, chunk) ∷ [])) ≡ joined rs ++ chunk
unfolding joined
joined-snoc [] t chunk = append-nil chunk
joined-snoc ((u, c) ∷ rs) t chunk =
    ap (λ e. c ++ e) (joined-snoc rs t chunk) ∙ sym (append_assoc c (joined rs) chunk)

-- What an eviction after an append keeps of the log.
evicted-Implements :
    (t : ℕ) (chunk : List ℕ) (size gen : ℕ) (s : Stream) (l : ByteLog)
    → Implements s l
    → let (rs', (size', (dropped', gen'))) =
        evict (s.records ++ ((t, chunk) ∷ [])) size s.dropped gen in
      (joined rs' ≡ drop dropped' (l.all_bytes ++ chunk))
      × (l.forgotten ≤ dropped')
      × (dropped' ≤ length (l.all_bytes ++ chunk))
evicted-Implements t chunk size gen s l v =
    let more = s.records ++ ((t, chunk) ∷ []) in
    let kept = evict-joined more size s.dropped gen in
    let dropped' = (evict more size s.dropped gen).1.1.0 in
    let all = l.all_bytes ++ chunk in
    let now : joined more ≡ drop l.forgotten all =
      joined-snoc s.records t chunk
      ∙ ap (λ e. e ++ chunk) v.bytes
      ∙ sym (drop-append-within l.forgotten l.all_bytes chunk v.within) in
    let sum : l.forgotten + (dropped' - s.dropped) ≡ dropped' = omega (arith, v.count, kept.1) in
    let long : length (drop l.forgotten all) ≡ length all - l.forgotten =
      length-drop l.forgotten all in
    let same : length (joined more) ≡ length (drop l.forgotten all) =
      ap (λ (e : List ℕ). length e) now in
    (
      kept.0
          ∙ ap (drop (dropped' - s.dropped)) now
          ∙ drop-drop (dropped' - s.dropped) l.forgotten all
          ∙ ap (λ k. drop k all) sum,
      omega (arith, v.count, kept.1),
      omega (arith, v.count, kept.2, same, long, v.within, length-append l.all_bytes chunk),
    )

-- An append to an open stream adds its bytes to the end of the log that the stream implements, and
-- the stream forgets at most further bytes from the log's start, which it counts.
pub append-Implements :
    (t : ℕ) (chunk : List ℕ) (s : Stream) (l : ByteLog)
    → s.closed ≡ false
    → Implements s l
    → (n : ℕ) × (l.forgotten ≤ n)
      × Implements (append t chunk s) (record { all_bytes = l.all_bytes ++ chunk; forgotten = n })
unfolding append
append-Implements t [] s l opened v = (
  l.forgotten,
  omega arith,
  record {
    bytes = v.bytes ∙ ap (drop l.forgotten) (sym (append-nil l.all_bytes));
    count = v.count;
    within = omega (arith, v.within, length-append l.all_bytes []);
  },
)
append-Implements t (b ∷ bs) s l opened v =
    let more = s.records ++ ((t, b ∷ bs) ∷ []) in
    let o = evict more (s.size + length (b ∷ bs)) s.dropped s.truncate_gen in
    let kept = evicted-Implements t (b ∷ bs) (s.size + length (b ∷ bs)) s.truncate_gen s l v in
    (o.1.1.0, kept.1, rw opened (record { bytes = kept.0; count = refl; within = kept.2 }))
