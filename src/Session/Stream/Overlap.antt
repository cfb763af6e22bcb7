-- ===== src/Session/Stream/Overlap.antt =====
-- session.py: the overlap that contains_bytes keeps between two records is enough.
use test_serv.Base.{
  ℕ, suc, ◌-◌, ◌≤◌, ◌≡◌, ◌∙◌, sym, ap, refl, true, false, ◌&&◌, List, [], ◌∷◌, arith, ltb, ◌==◌,
  length, length-append, drop, Bool-cases, inl, inr,
}
use mathlib.Core.List.{◌++◌, append-nil, append_assoc}
use test_serv.Session.Stream.{Record, joined, starts_with, occurs, scan_records, last_bytes}
use test_serv.Session.Stream.Bytes.{end_of}

starts_with-append :
    (n xs ys : List ℕ) → length n ≤ length xs → starts_with n (xs ++ ys) ≡ starts_with n xs
starts_with-append [] xs ys h = refl
starts_with-append (a ∷ n) [] ys h = absurd (omega arith)
starts_with-append (a ∷ n) (x ∷ xs) ys h =
    ap (λ b. a == x && b) (starts_with-append n xs ys (omega arith))

starts_with-longer : (n xs ys : List ℕ) → starts_with n xs ≡ true → starts_with n (xs ++ ys) ≡ true
starts_with-longer [] xs ys h = refl
starts_with-longer (a ∷ n) [] ys h = absurd (ground arith)
starts_with-longer (a ∷ n) (x ∷ xs) ys h = ground (arith, starts_with-longer n xs ys)

occurs-append : (n xs ys : List ℕ) → occurs n xs ≡ true → occurs n (xs ++ ys) ≡ true
unfolding occurs
occurs-append [] [] [] h = refl
occurs-append [] [] (y ∷ ys) h = refl
occurs-append (a ∷ n) [] ys h = absurd (ground arith)
occurs-append n (x ∷ xs) ys h =
    ground (arith, occurs-append n xs ys, starts_with-longer n (x ∷ xs) ys)

pub end_of_all : (k : ℕ) (xs : List ℕ) → length xs ≤ k → end_of k xs ≡ xs
end_of_all k xs h = let whole : length xs - k ≡ 0 = omega arith in ap (λ i. drop i xs) whole

end_of-cons : (k x : ℕ) (xs : List ℕ) → k ≤ length xs → end_of k (x ∷ xs) ≡ end_of k xs
end_of-cons k x xs h =
    let more : suc (length xs) - k ≡ suc (length xs - k) = omega arith in
    ap (λ i. drop i (x ∷ xs)) more

-- Where the first part has no match, only its last bytes matter for the rest.
occurs-overlap :
    (b : ℕ) (n xs ys : List ℕ)
    → occurs (b ∷ n) xs ≡ false
    → occurs (b ∷ n) (end_of (length n) xs ++ ys) ≡ occurs (b ∷ n) (xs ++ ys)
unfolding occurs
occurs-overlap b n [] ys h =
    ap (λ e. occurs (b ∷ n) (e ++ ys)) (end_of_all (length n) [] (omega arith))
occurs-overlap b n (x ∷ xs) ys h = elim (Bool-cases (ltb (length n) (length (x ∷ xs)))) [
  | inr short ↦ ap (λ e. occurs (b ∷ n) (e ++ ys)) (end_of_all (length n) (x ∷ xs) (ground arith))
  | inl long ↦
      let enough : suc (length n) ≤ suc (length xs) = ground arith in
      let first = starts_with-append (b ∷ n) (x ∷ xs) ys enough in
      let rest = occurs-overlap b n xs ys (ground arith) in
      ap (λ e. occurs (b ∷ n) (e ++ ys)) (end_of-cons (length n) x xs (omega arith))
      ∙ rest
      ∙ ground (arith, first)
]

-- The overlap of the overlap and a chunk is that of all the bytes.
end_of-overlap : (k : ℕ) (xs ys : List ℕ) → end_of k (end_of k xs ++ ys) ≡ end_of k (xs ++ ys)
end_of-overlap k [] ys = ap (λ e. end_of k (e ++ ys)) (end_of_all k [] (omega arith))
end_of-overlap k (x ∷ xs) ys = elim (Bool-cases (ltb k (length (x ∷ xs)))) [
  | inr short ↦ ap (λ e. end_of k (e ++ ys)) (end_of_all k (x ∷ xs) (ground arith))
  | inl long ↦
      let enough : k ≤ length xs = ground arith in
      ap (λ e. end_of k (e ++ ys)) (end_of-cons k x xs enough)
      ∙ end_of-overlap k xs ys
      ∙ sym (end_of-cons k x (xs ++ ys) (omega (arith, length-append xs ys, enough)))
]

-- The scan goes on from a first part `xs` in which the needle does not occur.
pub scan_records_lem :
    (b : ℕ) (n xs : List ℕ) (rs : List Record)
    → occurs (b ∷ n) xs ≡ false
    → let o = scan_records (b ∷ n) (end_of (length n) xs) rs in
      (o.0 ≡ occurs (b ∷ n) (xs ++ joined rs))
      × (o.0 ≡ false → o.1 ≡ end_of (length n) (xs ++ joined rs))
unfolding scan_records joined
scan_records_lem b n xs [] none_yet =
    let whole = append-nil xs in rw whole (sym none_yet, λ h. refl)
scan_records_lem b n xs ((t, chunk) ∷ rs) none_yet =
    let window = end_of (length n) xs ++ chunk in
    let same : occurs (b ∷ n) window ≡ occurs (b ∷ n) (xs ++ chunk) =
      occurs-overlap b n xs chunk none_yet in
    let assoc = append_assoc xs chunk (joined rs) in
    elim (Bool-cases (occurs (b ∷ n) (xs ++ chunk))) [
      | inl found ↦
          let later : occurs (b ∷ n) (xs ++ (chunk ++ joined rs)) ≡ true =
            ap (occurs (b ∷ n)) (sym assoc)
            ∙ occurs-append (b ∷ n) (xs ++ chunk) (joined rs) found in
          let here : occurs (b ∷ n) window ≡ true = same ∙ found in
          rw here (sym later, λ h. absurd (ground arith))
      | inr missed ↦
          let here : occurs (b ∷ n) window ≡ false = same ∙ missed in
          let rest = scan_records_lem b n (xs ++ chunk) rs missed in
          let less : suc (length n) - 1 ≡ length n = omega arith in
          let kept : last_bytes (suc (length n) - 1) window ≡ end_of (length n) (xs ++ chunk) =
            ap (λ k. end_of k window) less ∙ end_of-overlap (length n) xs chunk in
          rw here (
            rw kept
              (rest.0 ∙ ap (occurs (b ∷ n)) assoc, λ h. rest.1 h ∙ ap (end_of (length n)) assoc))
    ]
