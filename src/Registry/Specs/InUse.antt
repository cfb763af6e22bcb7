-- ===== src/Registry/Specs/InUse.antt =====
-- registry.py: what refresh and the closing of handles leave alone.
use test_serv.Base.{
  ◌≡◌, ◌∙◌, refl, true, false, ◌&&◌, none, List, [], ◌∷◌, String, arith, str_eq, eq_iff,
  Option-cases, Bool-cases, inl, inr,
}
use test_serv.Base.Dict.{Dict, lookup, erase, mem, contains, keys, lookup-insert, lookup-erase}
use test_serv.Registry.{Spec, Registry, is_positive}
use test_serv.Registry.Specs.{
  Probe, close_if_cached, is_gone, is_idle, is_unpinned, drop_vanished_one, drop_vanished,
  install_found, scan, keys_of, refresh, refresh_plugin, Probe, kept, seen, add_found,
}

-- Dropping a vanished device forgets its spec first, so the close finds no plugin.
drop_vanished_one-closes :
    (found : Dict (String × Spec)) (key : String) (s : Registry)
    → (drop_vanished_one found key s).closed ≡ s.closed
unfolding drop_vanished_one close_if_cached
drop_vanished_one-closes found key s = ground (arith, lookup-erase key key s.specs, eq_iff key key)

drop_vanished-closes :
    (found : Dict (String × Spec)) (ks : List String) (s : Registry)
    → (drop_vanished found ks s).closed ≡ s.closed
unfolding drop_vanished
drop_vanished-closes found [] s = refl
drop_vanished-closes found (key ∷ ks) s =
    drop_vanished-closes found ks (drop_vanished_one found key s)
    ∙ drop_vanished_one-closes found key s

install_found-keeps :
    (found : Dict (String × Spec)) (s : Registry)
    → let t = install_found found s in (t.closed ≡ s.closed) × (t.cache ≡ s.cache)
unfolding install_found
install_found-keeps [] s = (refl, refl)
install_found-keeps ((key, val) ∷ found) s = install_found-keeps found _

-- A device that a session has pinned, or whose handle is in use.
pub record IsHeld (j : String) (s : Registry) : Type 0 where
  pub has_spec : mem j s.specs ≡ true
  pub held : (is_unpinned j s && is_idle j s) ≡ false

close_if_cached_cases :
    (key : String) (s : Registry)
    → let t = close_if_cached key s in (t.specs ≡ s.specs) × (t.pinned_specs ≡ s.pinned_specs)
unfolding close_if_cached
close_if_cached_cases key s = elim (Option-cases (lookup key s.cache)) [
  | inl e ↦ ground arith
  | inr (f, e) ↦ elim (Bool-cases (is_positive f.refs)) [
    | inl p ↦ ground arith
    | inr p ↦ elim (Option-cases (lookup key s.specs)) [
      | inl e' ↦ ground arith
      | inr ((pname, spec), e') ↦ elim (Bool-cases (contains pname s.plugins)) [
        | inl q ↦ ground arith
        | inr q ↦ ground arith
      ]
    ]
  ]
]

close_if_cached-other :
    (key j : String) (s : Registry)
    → str_eq key j ≡ false
    → lookup j (close_if_cached key s).cache ≡ lookup j s.cache
unfolding close_if_cached
close_if_cached-other key j s miss = elim (Option-cases (lookup key s.cache)) [
  | inl e ↦ ground arith
  | inr (f, e) ↦ elim (Bool-cases (is_positive f.refs)) [
    | inl p ↦ ground (arith, lookup-insert key j f (erase key s.cache), lookup-erase key j s.cache)
    | inr p ↦ elim (Option-cases (lookup key s.specs)) [
      | inl e' ↦ ground (arith, lookup-erase key j s.cache)
      | inr ((pname, spec), e') ↦ elim (Bool-cases (contains pname s.plugins)) [
        | inl q ↦ ground (arith, lookup-erase key j s.cache)
        | inr q ↦ ground (arith, lookup-erase key j s.cache)
      ]
    ]
  ]
]

-- One step of the loop leaves a held device's spec, cache entry and pins.
drop_vanished_one-IsHeld :
    (found : Dict (String × Spec)) (key j : String) (s : Registry)
    → IsHeld j s
    → let t = drop_vanished_one found key s in (lookup j t.cache ≡ lookup j s.cache) × IsHeld j t
unfolding drop_vanished_one close_if_cached
drop_vanished_one-IsHeld found key j s h = elim (Bool-cases (is_gone found key s)) [
  | inr e ↦ rw e (refl, h)
  | inl e ↦
      let other : str_eq key j ≡ false = ground (arith, h.held, eq_iff key j) in
      let s' = record s { specs = erase key s.specs } in
      let parts = close_if_cached_cases key s' in
      let same : lookup j (close_if_cached key s').cache ≡ lookup j s.cache =
        close_if_cached-other key j s' other in
      rw e (
        same,
        record {
          has_spec = ground (arith, parts, h.has_spec, lookup-erase key j s.specs);
          held = ground (arith, parts, same, h.held);
        },
      )
]

drop_vanished-IsHeld :
    (found : Dict (String × Spec)) (ks : List String) (j : String) (s : Registry)
    → IsHeld j s
    → let t = drop_vanished found ks s in (lookup j t.cache ≡ lookup j s.cache) × IsHeld j t
unfolding drop_vanished
drop_vanished-IsHeld found [] j s h = (refl, h)
drop_vanished-IsHeld found (key ∷ ks) j s h =
    let one = drop_vanished_one-IsHeld found key j s h in
    let more = drop_vanished-IsHeld found ks j (drop_vanished_one found key s) one.1 in
    (more.0 ∙ one.0, more.1)

install_found-specs :
    (found : Dict (String × Spec)) (j : String) (s : Registry)
    → mem j s.specs ≡ true
    → mem j (install_found found s).specs ≡ true
unfolding install_found
install_found-specs [] j s h = h
install_found-specs ((key, val) ∷ found) j s h =
    install_found-specs found j _ (ground (arith, lookup-insert key j val s.specs))

refresh_plugin-IsHeld :
    (name : String) (probe : Probe) (j : String) (s : Registry)
    → IsHeld j s
    → let u = refresh_plugin name probe s in
      (mem j u.specs ≡ true) × (lookup j u.cache ≡ lookup j s.cache)
unfolding refresh_plugin
refresh_plugin-IsHeld name kept j s h = (h.has_spec, refl)
refresh_plugin-IsHeld name (seen specs) j s h = elim (Bool-cases (contains name s.plugins)) [
  | inr e ↦ rw e (h.has_spec, refl)
  | inl e ↦
      let found = add_found name specs [] in
      let ks = keys_of name s.specs in
      let (cached, held) = drop_vanished-IsHeld found ks j s h in
      rw e (
        install_found-specs found j _ held.has_spec,
        rw ((install_found-keeps found (drop_vanished found ks s)).1) cached,
      )
]

closed-refresh_plugin :
    (name : String) (probe : Probe) (s : Registry) → (refresh_plugin name probe s).closed ≡ s.closed
unfolding refresh_plugin
closed-refresh_plugin name kept s = refl
closed-refresh_plugin name (seen specs) s = elim (Bool-cases (contains name s.plugins)) [
  | inr e ↦ rw e refl
  | inl e ↦
      let found = add_found name specs [] in
      let ks = keys_of name s.specs in
      rw e
        ((install_found-keeps found (drop_vanished found ks s)).0 ∙ drop_vanished-closes found ks s)
]

-- Whatever the probes report, a full refresh and a refresh of one plugin leave a held device its
-- spec and its cache entry.
pub refresh-IsHeld :
    (probes : List (String × Probe)) (name : String) (probe : Probe) (j : String) (s : Registry)
    → IsHeld j s
    → let t = refresh probes s in
      let u = refresh_plugin name probe s in
      (mem j t.specs ≡ true)
      × (lookup j t.cache ≡ lookup j s.cache)
      × (mem j u.specs ≡ true)
      × (lookup j u.cache ≡ lookup j s.cache)
unfolding refresh
refresh-IsHeld probes name probe j s h =
    let found = scan probes s.specs [] in
    let (cached, held) = drop_vanished-IsHeld found (keys s.specs) j s h in
    let one = refresh_plugin-IsHeld name probe j s h in
    (
      install_found-specs found j _ held.has_spec,
      rw ((install_found-keeps found (drop_vanished found (keys s.specs) s)).1) cached,
      one.0,
      one.1,
    )

-- No refresh, full or of one plugin, closes a handle.
pub closed-refresh :
    (probes : List (String × Probe)) (name : String) (probe : Probe) (s : Registry)
    → ((refresh probes s).closed ≡ s.closed) × ((refresh_plugin name probe s).closed ≡ s.closed)
unfolding refresh
closed-refresh probes name probe s =
    let found = scan probes s.specs [] in
    (
      (install_found-keeps found (drop_vanished found (keys s.specs) s)).0
          ∙ drop_vanished-closes found (keys s.specs) s,
      closed-refresh_plugin name probe s,
    )

-- An idle, unpinned device that no probe reports loses its spec and its cache entry, and its handle
-- is not closed: the spec, which names the plugin to call, is forgotten before the close.
pub drop_vanished_one_leaks :
    (found : Dict (String × Spec)) (key : String) (s : Registry)
    → mem key found ≡ false
    → is_unpinned key s ≡ true
    → is_idle key s ≡ true
    → let t = drop_vanished_one found key s in
      (mem key t.specs ≡ false) × (lookup key t.cache ≡ none) × (t.closed ≡ s.closed)
unfolding drop_vanished_one close_if_cached
drop_vanished_one_leaks found key s gone unpinned idle =
    let by = lookup-erase key key s.specs in
    (
      ground (arith, lookup-erase key key s.cache, by, eq_iff key key),
      ground (arith, lookup-erase key key s.cache, by, eq_iff key key),
      drop_vanished_one-closes found key s,
    )
