-- ===== src/Registry/Threads/Exclusive.antt =====
-- registry.py: the invariant of the lending threads, and how one acquire moves in it.
use test_serv.Base.{
  ℕ, zero, suc, ◌+◌, ◌≤◌, ◌≡◌, ◌∙◌, ◌⊎◌, inl, inr, true, false, Option, none, some, List, ◌∷◌,
  String, arith, ◌==◌, eq_iff, get_elem?, sym, ap, ◌-◌,
}
use test_serv.Base.Int.{pos}
use test_serv.Base.Dict.{lookup}
use test_serv.Registry.{Entry, Registry}
use test_serv.Registry.Specs.Keeps.{Keeps, refs_of, owner}
use test_serv.Registry.Lend.Balance.{depth}
use test_serv.Registry.Threads.{
  Phase, opening, ended, using, Acquire, World, total, replace, holds_key, uses_key, enters, at,
  moved, added, phase_holds, phase_enters,
}
use test_serv.Registry.Threads.Counts.{total-replace, get_elem?-replace, total-one, total-two}

abbrev pub handle_of : Option Entry → Option ℕ
handle_of none = none
handle_of (some entry) = some entry.handle

-- Each lock is held as often as the acquires hold it, by their thread; each count is the number of
-- acquires that use the handle, and the handle of each is the cached one; a device that is being
-- opened is not cached; a thread is inside at most one __enter__.
pub record IsExclusive (w : World) : Type 0 where
  pub depths : (j : String) → depth j w.registry ≡ total (holds_key j) w.acquires
  pub owners :
      (i : ℕ) (a : Acquire)
      → at w i ≡ some a
      → 1 ≤ phase_holds a.phase
      → owner a.key w.registry ≡ a.thread
  pub counts :
      (j : String) → refs_of (lookup j w.registry.cache) ≡ pos (total (uses_key j) w.acquires)
  pub handles :
      (i : ℕ) (a : Acquire) (h : ℕ)
      → at w i ≡ some a
      → a.phase ≡ using h
      → handle_of (lookup a.key w.registry.cache) ≡ some h
  pub opens :
      (i : ℕ) (a : Acquire)
      → at w i ≡ some a
      → a.phase ≡ opening
      → lookup a.key w.registry.cache ≡ none
  pub single : (thread : ℕ) → total (enters thread) w.acquires ≤ 1

-- What a move of one acquire to a phase, with a new registry, must bring.
pub record Move (a : Acquire) (p : Phase) (w : World) (t : Registry) : Type 0 where
  pub depths :
      (j : String)
      → depth j t + holds_key j a ≡ depth j w.registry + holds_key j (record a { phase = p })
  pub owner_own : 1 ≤ phase_holds p → owner a.key t ≡ a.thread
  pub owner_rest : (j : String) → 1 ≤ depth j w.registry → owner j t ≡ owner j w.registry
  pub counts :
      (j : String) (n : ℕ)
      → refs_of (lookup j w.registry.cache) ≡ pos (n + uses_key j a)
      → refs_of (lookup j t.cache) ≡ pos (n + uses_key j (record a { phase = p }))
  pub handle_own : (h : ℕ) → p ≡ using h → handle_of (lookup a.key t.cache) ≡ some h
  pub handle_rest :
      (j : String) (h : ℕ)
      → handle_of (lookup j w.registry.cache) ≡ some h
      → 1 ≤ total (uses_key j) w.acquires
      → handle_of (lookup j t.cache) ≡ some h
  pub opens_own : p ≡ opening → lookup a.key t.cache ≡ none
  pub opens_rest :
      (j : String)
      → lookup j w.registry.cache ≡ none
      → (lookup j t.cache ≡ none) ⊎ ((a.phase ≡ opening) × (j ≡ a.key))
  pub enters_less : phase_enters p ≤ phase_enters a.phase ⊎ (total (enters a.thread) w.acquires ≡ 0)

module _ {w : World} {t : Registry} (i : ℕ) (a : Acquire) (p : Phase) (here : at w i ≡ some a)
    (v : IsExclusive w) (m : Move a p w t) where
  b : Acquire
  b = record a { phase = p }

  moved-depths : (j : String) → depth j t ≡ total (holds_key j) (replace i b w.acquires)
  unfolding b
  moved-depths j =
      omega (arith, m.depths j, v.depths j, total-replace (holds_key j) i a b w.acquires here)

  moved-counts :
      (j : String) → refs_of (lookup j t.cache) ≡ pos (total (uses_key j) (replace i b w.acquires))
  unfolding b
  moved-counts j =
      let few = total-one (uses_key j) i a w.acquires here in
      let n = total (uses_key j) w.acquires - uses_key j a in
      let before : total (uses_key j) w.acquires ≡ n + uses_key j a = omega (arith, few) in
      let after : total (uses_key j) (replace i b w.acquires) ≡ n + uses_key j b =
        omega (arith, total-replace (uses_key j) i a b w.acquires here, few) in
      m.counts j n (v.counts j ∙ ap pos before) ∙ ap pos (sym after)

  moved-single : (thread : ℕ) → total (enters thread) (replace i b w.acquires) ≤ 1
  unfolding b
  moved-single thread = elim m.enters_less [
    | inl less ↦
        ground (arith, less, v.single thread, total-replace (enters thread) i a b w.acquires here)
    | inr none_in ↦
        ground
          (arith, none_in, v.single thread, total-replace (enters thread) i a b w.acquires here)
  ]

  moved-owners :
      (k : ℕ) (c : Acquire)
      → get_elem? (replace i b w.acquires) k ≡ some c
      → 1 ≤ phase_holds c.phase
      → owner c.key t ≡ c.thread
  unfolding b
  moved-owners k c at_k holds = elim (get_elem?-replace i k a b c w.acquires at_k here) [
    | inl (same, e) ↦
        let ph : c.phase ≡ p = ap (λ (x : Acquire). x.phase) e in
        rw e (m.owner_own (rw (sym ph) holds))
    | inr (other, old) ↦
        let some_held : 1 ≤ depth c.key w.registry = ground (
          arith,
          v.depths c.key,
          total-one (holds_key c.key) k c w.acquires old,
          eq_iff c.key c.key,
        ) in
        m.owner_rest c.key some_held ∙ v.owners k c old holds
  ]

  moved-handles :
      (k : ℕ) (c : Acquire) (h : ℕ)
      → get_elem? (replace i b w.acquires) k ≡ some c
      → c.phase ≡ using h
      → handle_of (lookup c.key t.cache) ≡ some h
  unfolding b
  moved-handles k c h at_k used = elim (get_elem?-replace i k a b c w.acquires at_k here) [
    | inl (same, e) ↦ rw e (m.handle_own h (sym (ap (λ (x : Acquire). x.phase) e) ∙ used))
    | inr (other, old) ↦
        let counted : 1 ≤ total (uses_key c.key) w.acquires =
          ground (arith, total-one (uses_key c.key) k c w.acquires old, eq_iff c.key c.key, used) in
        m.handle_rest c.key h (v.handles k c h old used) counted
  ]

  -- Two acquires of one device cannot both be in pl.open.
  alone :
      (k : ℕ) (c : Acquire)
      → (i == k) ≡ false
      → at w k ≡ some c
      → c.phase ≡ opening
      → a.phase ≡ opening
      → c.key ≡ a.key
      → false ≡ true
  alone k c other old op op' same =
      let theirs : owner c.key w.registry ≡ c.thread = v.owners k c old (ground (arith, op)) in
      let ours : owner a.key w.registry ≡ a.thread = v.owners i a here (ground (arith, op')) in
      let thread : c.thread ≡ a.thread = cc in
      ground (
        arith,
        total-two (enters a.thread) i k a c w.acquires other here old,
        v.single a.thread,
        thread,
      )

  moved-opens :
      (k : ℕ) (c : Acquire)
      → get_elem? (replace i b w.acquires) k ≡ some c
      → c.phase ≡ opening
      → lookup c.key t.cache ≡ none
  unfolding b
  moved-opens k c at_k op = elim (get_elem?-replace i k a b c w.acquires at_k here) [
    | inl (same, e) ↦ rw e (m.opens_own (sym (ap (λ (x : Acquire). x.phase) e) ∙ op))
    | inr (other, old) ↦ elim (m.opens_rest c.key (v.opens k c old op)) [
      | inl gone ↦ gone
      | inr (op', same) ↦
          let never : false ≡ true = alone k c other old op op' same in absurd (ground arith)
    ]
  ]

  pub moved-IsExclusive : IsExclusive (moved i a p t w)
  unfolding b
  moved-IsExclusive = record {
    depths = moved-depths;
    owners = moved-owners;
    counts = moved-counts;
    handles = moved-handles;
    opens = moved-opens;
    single = moved-single;
  }

-- An acquire of a longer list is the new one or an old one.
first_or_rest :
    (i : ℕ) (x a : Acquire) (xs : List Acquire)
    → get_elem? (x ∷ xs) i ≡ some a
    → (a ≡ x) ⊎ ((k : ℕ) × (get_elem? xs k ≡ some a))
first_or_rest zero x a xs h = inl (ground arith)
first_or_rest (suc i) x a xs h = inr (i, h)

-- Another acquire object that does nothing yet.
pub added-IsExclusive :
    {w : World} (thread : ℕ) (key : String)
    → IsExclusive w
    → IsExclusive (added thread key ended w.registry w)
added-IsExclusive {w} thread key v = record {
  depths = λ j. ground (arith, v.depths j);
  owners = λ i a h holds. elim (first_or_rest i _ a w.acquires h) [
    | inl e ↦ absurd (ground arith)
    | inr (k, old) ↦ v.owners k a old holds
  ];
  counts = λ j. ground (arith, v.counts j);
  handles = λ i a n h used. elim (first_or_rest i _ a w.acquires h) [
    | inl e ↦ absurd (ground arith)
    | inr (k, old) ↦ v.handles k a n old used
  ];
  opens = λ i a h op. elim (first_or_rest i _ a w.acquires h) [
    | inl e ↦ absurd (ground arith)
    | inr (k, old) ↦ v.opens k a old op
  ];
  single = λ j. ground (arith, v.single j);
}

-- An operation that no acquire makes.
pub Keeps-IsExclusive :
    {w : World} {t : Registry}
    → Keeps w.registry t
    → IsExclusive w
    → IsExclusive (record w { registry = t })
Keeps-IsExclusive {w} {t} k v = record {
  depths = λ j. k.depths j ∙ v.depths j;
  owners = λ i a h held. ground (arith, k.owners a.key, v.owners i a h held);
  counts = λ j. elim (k.cached j) [
    | inl same ↦ rw same (v.counts j)
    | inr (gone, idle) ↦ ground (arith, v.counts j)
  ];
  handles = λ i a n h used. elim (k.cached a.key) [
    | inl same ↦ rw same (v.handles i a n h used)
    | inr (gone, idle) ↦
        let counted = total-one (uses_key a.key) i a w.acquires h in
        absurd (ground (arith, counted, v.counts a.key, eq_iff a.key a.key, used))
  ];
  opens = λ i a h op. elim (k.cached a.key) [
    | inl same ↦ same ∙ v.opens i a h op
    | inr (gone, idle) ↦ gone
  ];
  single = v.single;
}
