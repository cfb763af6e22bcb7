-- ===== src/Registry/Specs/Keeps.antt =====
-- registry.py: what the operations that no acquire makes leave of the locks and of the entries.
use test_serv.Base.{
  ℕ, ◌≡◌, ◌∙◌, ◌⊎◌, inl, inr, refl, false, Option, none, some, List, [], ◌∷◌, String, arith, str_eq,
  eq_iff, Option-cases, Bool-cases,
}
use test_serv.Base.Int.{ℤ, pos}
use test_serv.Base.Dict.{Dict, lookup, insert, erase, contains, keys, lookup-insert, lookup-erase}
use test_serv.Registry.{Spec, Entry, Lock, Registry, is_positive}
use test_serv.Registry.Specs.{
  Probe, kept, seen, close_if_cached, is_gone, drop_vanished_one, drop_vanished, install_found,
  scan, add_found, keys_of, with_lock, refresh, refresh_plugin, release_now,
}
use test_serv.Registry.Lend.Balance.{depth, depth-with_lock}

-- The count and the handle of what the cache has.
abbrev pub refs_of : Option Entry → ℤ
refs_of none = pos 0
refs_of (some entry) = entry.refs

abbrev pub owner_of : Option Lock → ℕ
owner_of none = 0
owner_of (some lock) = lock.owner

unfoldable pub owner : String → Registry → ℕ
owner key s = owner_of (lookup key s.locks)

-- The locks are as before, and only entries that nobody uses have gone.
pub record Keeps (s t : Registry) : Type 0 where
  pub depths : (j : String) → depth j t ≡ depth j s
  pub owners : (j : String) → owner j t ≡ owner j s
  pub cached :
      (j : String)
      → (lookup j t.cache ≡ lookup j s.cache)
        ⊎ ((lookup j t.cache ≡ none) × (is_positive (refs_of (lookup j s.cache)) ≡ false))

pub Keeps-refl : (s : Registry) → Keeps s s
Keeps-refl s = record { depths = λ j. refl; owners = λ j. refl; cached = λ j. inl refl }

cached_trans :
    {a b c : Option Entry}
    → (b ≡ a) ⊎ ((b ≡ none) × (is_positive (refs_of a) ≡ false))
    → (c ≡ b) ⊎ ((c ≡ none) × (is_positive (refs_of b) ≡ false))
    → (c ≡ a) ⊎ ((c ≡ none) × (is_positive (refs_of a) ≡ false))
cached_trans (inl p) (inl q) = inl (q ∙ p)
cached_trans (inl p) (inr (q, r)) = inr (q, ground arith)
cached_trans (inr (p, r)) (inl q) = inr (q ∙ p, r)
cached_trans (inr (p, r)) (inr (q, r')) = inr (q, r)

pub Keeps-trans : {s t u : Registry} → Keeps s t → Keeps t u → Keeps s u
Keeps-trans k l = record {
  depths = λ j. l.depths j ∙ k.depths j;
  owners = λ j. l.owners j ∙ k.owners j;
  cached = λ j. cached_trans (k.cached j) (l.cached j);
}

close_if_cached-locks : (key : String) (s : Registry) → (close_if_cached key s).locks ≡ s.locks
unfolding close_if_cached
close_if_cached-locks key s = elim (Option-cases (lookup key s.cache)) [
  | inl e ↦ ground arith
  | inr (f, e) ↦ elim (Bool-cases (is_positive f.refs)) [
    | inl p ↦ ground arith
    | inr p ↦ elim (Option-cases (lookup key s.specs)) [
      | inl e' ↦ ground arith
      | inr ((pname, spec), e') ↦ elim (Bool-cases (contains pname s.plugins)) [
        | inl q ↦ ground arith
        | inr q ↦ ground arith
      ]
    ]
  ]
]

close_if_cached-cached :
    (key j : String) (s : Registry)
    → (lookup j (close_if_cached key s).cache ≡ lookup j s.cache)
      ⊎ ((lookup j (close_if_cached key s).cache ≡ none)
          × (is_positive (refs_of (lookup j s.cache)) ≡ false))
unfolding close_if_cached
close_if_cached-cached key j s = elim (Option-cases (lookup key s.cache)) [
  | inl e ↦ inl (ground arith)
  | inr (f, e) ↦ elim (Bool-cases (is_positive f.refs)) [
    | inl p ↦ inl (
        ground (
          arith,
          eq_iff key j,
          lookup-insert key j f (erase key s.cache),
          lookup-erase key j s.cache,
        ))
    | inr p ↦ elim (Option-cases (lookup key s.specs)) [
      | inl e' ↦ elim (Bool-cases (str_eq key j)) [
        | inl m ↦
            inr (
              ground (arith, eq_iff key j, lookup-erase key j s.cache),
              ground (arith, eq_iff key j),
            )
        | inr m ↦ inl (ground (arith, lookup-erase key j s.cache))
      ]
      | inr ((pname, spec), e') ↦ elim (Bool-cases (str_eq key j)) [
        | inl m ↦
            inr (
              ground (arith, eq_iff key j, lookup-erase key j s.cache),
              ground (arith, eq_iff key j),
            )
        | inr m ↦ inl (ground (arith, lookup-erase key j s.cache))
      ]
    ]
  ]
]

-- A change of the specs and pins besides.
same_locks : {s t : Registry} → t.locks ≡ s.locks → t.cache ≡ s.cache → Keeps s t
unfolding depth owner
same_locks p q = record {
  depths = λ j. ground (arith, p);
  owners = λ j. ground (arith, p);
  cached = λ j. inl (ground (arith, q));
}

pub close_if_cached-Keeps : (key : String) (s : Registry) → Keeps s (close_if_cached key s)
unfolding depth owner
close_if_cached-Keeps key s = record {
  depths = λ j. ground (arith, close_if_cached-locks key s);
  owners = λ j. ground (arith, close_if_cached-locks key s);
  cached = λ j. close_if_cached-cached key j s;
}

pub release_now-Keeps : (key : String) (s : Registry) → Keeps s (release_now key s).1
unfolding release_now
release_now-Keeps key s = elim (Option-cases (lookup key s.cache)) [
  | inl e ↦ rw (e, release_now) (Keeps-refl s)
  | inr (f, e) ↦ elim (Bool-cases (is_positive f.refs)) [
    | inl p ↦ rw (e, release_now, p) (Keeps-refl s)
    | inr p ↦ rw (e, release_now, p) (close_if_cached-Keeps key s)
  ]
]

drop_vanished-Keeps :
    (found : Dict (String × Spec)) (ks : List String) (s : Registry)
    → Keeps s (drop_vanished found ks s)
unfolding drop_vanished drop_vanished_one
drop_vanished-Keeps found [] s = Keeps-refl s
drop_vanished-Keeps found (key ∷ ks) s = elim (Bool-cases (is_gone found key s)) [
  | inr e ↦ rw e (drop_vanished-Keeps found ks s)
  | inl e ↦
      let s' = record s { specs = erase key s.specs } in
      let one =
        Keeps-trans (same_locks {s = s} {t = s'} refl refl) (close_if_cached-Keeps key s') in
      rw e (Keeps-trans one (drop_vanished-Keeps found ks (close_if_cached key s')))
]

pub owner-with_lock :
    (key j : String) (s : Registry)
    → owner j (record s { locks = with_lock key s.locks }) ≡ owner j s
unfolding owner
owner-with_lock key j s = elim (Option-cases (lookup key s.locks)) [
  | inl e ↦
      ground (arith, lookup-insert key j (record { owner = 0; depth = 0 }) s.locks, eq_iff key j)
  | inr (l, e) ↦ ground arith
]

install_found-Keeps :
    (found : Dict (String × Spec)) (s : Registry) → Keeps s (install_found found s)
unfolding install_found
install_found-Keeps [] s = Keeps-refl s
install_found-Keeps ((key, val) ∷ found) s =
    let s' = record s { specs = insert key val s.specs } in
    let one : Keeps s' (record s' { locks = with_lock key s.locks }) = record {
      depths = λ j. depth-with_lock key j s';
      owners = λ j. owner-with_lock key j s';
      cached = λ j. inl refl;
    } in
    Keeps-trans (Keeps-trans (same_locks {s = s} {t = s'} refl refl) one)
      (install_found-Keeps found _)

pub refresh-Keeps : (probes : List (String × Probe)) (s : Registry) → Keeps s (refresh probes s)
unfolding refresh
refresh-Keeps probes s =
    let found = scan probes s.specs [] in
    Keeps-trans (drop_vanished-Keeps found (keys s.specs) s) (install_found-Keeps found _)

pub refresh_plugin-Keeps :
    (name : String) (probe : Probe) (s : Registry) → Keeps s (refresh_plugin name probe s)
unfolding refresh_plugin
refresh_plugin-Keeps name kept s = Keeps-refl s
refresh_plugin-Keeps name (seen specs) s = elim (Bool-cases (contains name s.plugins)) [
  | inr e ↦ rw e (Keeps-refl s)
  | inl e ↦
      let found = add_found name specs [] in
      rw e (
        Keeps-trans (drop_vanished-Keeps found (keys_of name s.specs) s)
          (install_found-Keeps found _))
]
