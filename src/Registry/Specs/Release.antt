-- ===== src/Registry/Specs/Release.antt =====
-- registry.py: what release_now closes.
use test_serv.Base.{
  ◌≡◌, false, not, ◌&&◌, none, some, String, arith, str_eq, eq_iff, if◌then◌else◌, Option-cases,
  Bool-cases, inl, inr,
}
use test_serv.Base.Dict.{lookup, contains, lookup-erase}
use test_serv.Registry.{Registry, is_positive}
use test_serv.Registry.Specs.{close_if_cached, release_now}

-- release_now returns whether it closed the handle: it does so exactly when the device is cached
-- and not in use, calling the close of the plugin of its spec, and it leaves every other entry.
pub release_now_lem :
    (key j : String) (s : Registry)
    → let o = release_now key s in
      (o.0
        ≡ (elim (lookup key s.cache) [ none ↦ false | some entry ↦ not (is_positive entry.refs) ]))
      × (lookup j o.1.cache ≡ (if o.0 && str_eq key j then none else lookup j s.cache))
unfolding release_now close_if_cached
release_now_lem key j s = elim (Option-cases (lookup key s.cache)) [
  | inl e ↦ ground (arith, eq_iff key j)
  | inr (f, e) ↦ elim (Bool-cases (is_positive f.refs)) [
    | inl p ↦ ground (arith, eq_iff key j)
    | inr p ↦ elim (Option-cases (lookup key s.specs)) [
      | inl e' ↦ ground (arith, lookup-erase key j s.cache)
      | inr ((pname, spec), e') ↦ elim (Bool-cases (contains pname s.plugins)) [
        | inl q ↦ ground (arith, lookup-erase key j s.cache)
        | inr q ↦ ground (arith, lookup-erase key j s.cache)
      ]
    ]
  ]
]
