-- ===== src/Session/Stream/Bytes.antt =====
-- session.py: a stream counts its bytes, keeps to its cap, and its tail is the end of its bytes.
use test_serv.Base.{
  ℕ, zero, suc, ◌+◌, ◌-◌, ◌≤◌, ◌≡◌, ◌∙◌, sym, ap, refl, false, ◌⊎◌, inl, inr, List, [], ◌∷◌, arith,
  ltb, leb, ◌==◌, length, length-append, drop, drop-nil, drop-length, drop-append-past,
  drop-append-within, Bool-cases,
}
use mathlib.Core.List.{◌++◌, append-nil, append_assoc}
use test_serv.Session.Stream.{
  Record, Stream, stream_max_bytes, evict, append, joined, tail_chunks, tail_bytes, reversed,
}

-- The sum of the records' lengths.
abbrev pub total : List Record → ℕ
total [] = 0
total ((t, chunk) ∷ rs) = length chunk + total rs

total-append :
    (rs : List Record) (t : ℕ) (chunk : List ℕ)
    → total (rs ++ ((t, chunk) ∷ [])) ≡ total rs + length chunk
total-append [] t chunk = omega arith
total-append ((u, d) ∷ rs) t chunk = omega (arith, total-append rs t chunk)

evict_lem :
    (rs : List Record) (size dropped gen : ℕ)
    → size ≡ total rs
    → let (rs', (size', (dropped', gen'))) = evict rs size dropped gen in
      (size' ≡ total rs')
      × (dropped' + size' ≡ dropped + size)
      × (size' ≤ stream_max_bytes ⊎ length rs' ≤ 1)
unfolding evict
evict_lem [] size dropped gen h = (h, refl, inr (omega arith))
evict_lem (r ∷ []) size dropped gen h = (h, refl, inr (omega arith))
evict_lem ((t, chunk) ∷ r ∷ rs) size dropped gen h = elim (Bool-cases (ltb stream_max_bytes size)) [
  | inl e ↦
      let rest =
        evict_lem (r ∷ rs) (size - length chunk) (dropped + length chunk) (gen + 1) (omega arith) in
      rw e (rest.0, omega (arith, rest.1), rest.2)
  | inr e ↦ rw e (h, refl, inl (ground arith))
]

-- An append to an open stream whose byte count is right keeps the count right, loses no byte from
-- the sum of kept and dropped bytes, and leaves at most the cap's bytes or one record.
pub append_lem :
    (t : ℕ) (chunk : List ℕ) (s : Stream)
    → s.closed ≡ false
    → s.size ≡ total s.records
    → s.size ≤ stream_max_bytes ⊎ length s.records ≤ 1
    → let u = append t chunk s in
      (u.size ≡ total u.records)
      × (u.dropped + u.size ≡ s.dropped + s.size + length chunk)
      × (u.size ≤ stream_max_bytes ⊎ length u.records ≤ 1)
unfolding append
append_lem t [] s opened sized capped = (sized, omega arith, capped)
append_lem t (b ∷ bs) s opened sized capped =
    let grown =
      evict_lem (s.records ++ ((t, b ∷ bs) ∷ [])) (s.size + length (b ∷ bs)) s.dropped
        s.truncate_gen (omega (arith, sized, total-append s.records t (b ∷ bs))) in
    rw opened (grown.0, omega (arith, grown.1), grown.2)

-- The bytes of a list of records that is in reverse order.
joined_rev : List Record → List ℕ
joined_rev [] = []
joined_rev ((t, chunk) ∷ rs) = joined_rev rs ++ chunk

joined_rev-reversed :
    (rs out : List Record) → joined_rev (reversed rs out) ≡ joined_rev out ++ joined rs
unfolding joined joined_rev
joined_rev-reversed [] out = sym (append-nil _)
joined_rev-reversed ((t, chunk) ∷ rs) out =
    joined_rev-reversed rs ((t, chunk) ∷ out) ∙ append_assoc (joined_rev out) chunk (joined rs)

-- The last n bytes.
abbrev pub end_of : ℕ → List ℕ → List ℕ
end_of n xs = drop (length xs - n) xs

end_of_none : (xs : List ℕ) → end_of 0 xs ≡ []
end_of_none xs =
    let whole : length xs - 0 ≡ length xs = omega arith in
    ap (λ k. drop k xs) whole ∙ drop-length xs

end_of-append-all : (n : ℕ) (xs ys : List ℕ) → n ≤ length ys → end_of n (xs ++ ys) ≡ end_of n ys
end_of-append-all n xs ys h =
    let split : length (xs ++ ys) - n ≡ length xs + (length ys - n) =
      omega (arith, length-append xs ys) in
    ap (λ k. drop k (xs ++ ys)) split ∙ drop-append-past xs ys (length ys - n)

end_of-append-more :
    (n : ℕ) (xs ys : List ℕ) → length ys ≤ n → end_of n (xs ++ ys) ≡ end_of (n - length ys) xs ++ ys
end_of-append-more n xs ys h =
    let split : length (xs ++ ys) - n ≡ length xs - (n - length ys) =
      omega (arith, length-append xs ys) in
    ap (λ k. drop k (xs ++ ys)) split
    ∙ drop-append-within (length xs - (n - length ys)) xs ys (omega arith)

tail_chunks_lem :
    (n : ℕ) (rs : List Record) (out : List ℕ)
    → tail_chunks n rs out ≡ end_of n (joined_rev rs) ++ out
unfolding tail_chunks joined_rev
tail_chunks_lem n [] out = sym (ap (λ xs. xs ++ out) (drop-nil (0 - n)))
tail_chunks_lem zero ((t, chunk) ∷ rs) out =
    sym (ap (λ xs. xs ++ out) (end_of_none (joined_rev rs ++ chunk)))
tail_chunks_lem (suc n) ((t, chunk) ∷ rs) out =
    let left : (suc n == 0) ≡ false = ground arith in
    elim (Bool-cases (leb (suc n) (length chunk))) [
      | inl e ↦
          rw (left, e)
            (ap (λ xs. xs ++ out)
              (sym (end_of-append-all (suc n) (joined_rev rs) chunk (ground arith))))
      | inr e ↦
          rw (left, e)
            (tail_chunks_lem (suc n - length chunk) rs (chunk ++ out)
              ∙ sym (append_assoc (end_of (suc n - length chunk) (joined_rev rs)) chunk out)
              ∙ ap (λ xs. xs ++ out)
                  (sym (end_of-append-more (suc n) (joined_rev rs) chunk (ground arith))))
    ]

-- tail_bytes is the last n bytes of all the records joined, or all of them if there are fewer.
pub tail_bytes_lem : (n : ℕ) (s : Stream) → tail_bytes n s ≡ end_of n (joined s.records)
unfolding tail_bytes joined_rev
tail_bytes_lem n s =
    tail_chunks_lem n (reversed s.records []) []
    ∙ append-nil _
    ∙ ap (end_of n) (joined_rev-reversed s.records [])
