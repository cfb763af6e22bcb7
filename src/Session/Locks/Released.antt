-- ===== src/Session/Locks/Released.antt =====
-- session.py: how often a session's locks are released.
use test_serv.Base.{
  ℕ, ◌+◌, ◌-◌, ◌≡◌, ◌∙◌, refl, ◌&&◌, ◌||◌, some, List, [], ◌∷◌, String, arith, str_eq, eq_iff, ltb,
  if◌then◌else◌, Option-cases, Bool-cases, inl, inr,
}
use test_serv.Base.Dict.{lookup, contains}
use test_serv.Plan.Devices.Sets.{Distinct}
use test_serv.Registry.{Registry, is_positive}
use test_serv.Registry.Specs.{with_lock, release_now, close_if_cached}
use test_serv.Registry.Lend.{take_lock, drop_lock}
use test_serv.Registry.Lend.Balance.{depth, depth-with_lock, depth-drop_lock, depth-take_lock}
use test_serv.Session.Locks.{
  lock_keys, unpin, unpin_all, release_touched, release_rest, release_session, backwards,
}

-- How often a key is listed.
abbrev pub occurrences : String → List String → ℕ
occurrences j [] = 0
occurrences j (key ∷ ks) = (if str_eq key j then 1 else 0) + occurrences j ks

depth-lock_keys :
    (thread : ℕ) (ks : List String) (j : String) (s : Registry) {t : Registry}
    → lock_keys thread ks s ≡ some t
    → depth j t ≡ depth j s + occurrences j ks
unfolding lock_keys
depth-lock_keys thread [] j s h = ground arith
depth-lock_keys thread (key ∷ ks) j s {t} h =
    let s1 = record s { locks = with_lock key s.locks } in
    elim (Option-cases (take_lock thread key s1)) [
      | inl e ↦ absurd (ground arith)
      | inr (s2, e) ↦
          let rest : lock_keys thread ks s2 ≡ some t = ground arith in
          ground (
            arith,
            depth-lock_keys thread ks j s2 rest,
            depth-take_lock thread key j s1 e,
            depth-with_lock key j s,
          )
    ]

locks-close_if_cached : (key : String) (s : Registry) → (close_if_cached key s).locks ≡ s.locks
unfolding close_if_cached
locks-close_if_cached key s = elim (Option-cases (lookup key s.cache)) [
  | inl e ↦ ground arith
  | inr (f, e) ↦ elim (Bool-cases (is_positive f.refs)) [
    | inl p ↦ ground arith
    | inr p ↦ elim (Option-cases (lookup key s.specs)) [
      | inl e' ↦ ground arith
      | inr ((pname, spec), e') ↦ elim (Bool-cases (contains pname s.plugins)) [
        | inl q ↦ ground arith
        | inr q ↦ ground arith
      ]
    ]
  ]
]

depth-release_now : (key j : String) (s : Registry) → depth j (release_now key s).1 ≡ depth j s
unfolding release_now depth
depth-release_now key j s = ground (arith, locks-close_if_cached key s)

depth-unpin_all :
    (ks : List String) (j : String) (s : Registry) → depth j (unpin_all ks s) ≡ depth j s
unfolding unpin_all unpin depth
depth-unpin_all [] j s = refl
depth-unpin_all (key ∷ ks) j s = depth-unpin_all ks j (unpin key s) ∙ ground arith

release_touched_lem :
    (touched locked released : List String) (j : String) (s : Registry)
    → Distinct touched
    → let o = release_touched touched locked released s in
      (depth j o.1 ≡ (if contains j touched && contains j locked then depth j s - 1 else depth j s))
      × (contains j o.0 ≡ (contains j touched && contains j locked || contains j released))
unfolding release_touched
release_touched_lem [] locked released j s u = (refl, refl)
release_touched_lem (key ∷ ks) locked released j s (fresh, u) =
    let t = (release_now key s).1 in
    elim (Bool-cases (contains key locked)) [
      | inl e ↦
          let ih = release_touched_lem ks locked (key ∷ released) j (drop_lock key t) u in
          rw (e, release_touched)
            (ground (arith, ih, depth-release_now key j s, depth-drop_lock key j t, eq_iff key j))
      | inr e ↦
          let ih = release_touched_lem ks locked released j t u in
          rw (e, release_touched) (ground (arith, ih, depth-release_now key j s, eq_iff key j))
    ]

depth-release_rest :
    (ks released : List String) (j : String) (s : Registry)
    → depth j (release_rest ks released s)
      ≡ (if contains j released then depth j s else depth j s - occurrences j ks)
unfolding release_rest
depth-release_rest [] released j s = ground arith
depth-release_rest (key ∷ ks) released j s = elim (Bool-cases (contains key released)) [
  | inl e ↦ rw e (ground (arith, depth-release_rest ks released j s, eq_iff key j))
  | inr e ↦ rw e (
      ground (
        arith,
        depth-release_rest ks released j (drop_lock key s),
        depth-drop_lock key j s,
        eq_iff key j,
      ))
]

occurrences-contains : (j : String) (ks : List String) → contains j ks ≡ ltb 0 (occurrences j ks)
occurrences-contains j [] = refl
occurrences-contains j (key ∷ ks) = ground (arith, occurrences-contains j ks)

occurrences-backwards :
    (j : String) (ks out : List String)
    → occurrences j (backwards ks out) ≡ occurrences j ks + occurrences j out
occurrences-backwards j [] out = omega arith
occurrences-backwards j (key ∷ ks) out = omega (arith, occurrences-backwards j ks (key ∷ out))

-- When a session that has acquired its locks releases them, a device that no op touched is held as
-- often as before the session. A touched device loses one of its locks: it is held as before if its
-- key was acquired once, and once more for each further time.
pub depth-release_session :
    (thread : ℕ) (touched acquired pinned : List String) (j : String) (s : Registry) {t : Registry}
    → lock_keys thread acquired s ≡ some t
    → Distinct touched
    → depth j (release_session touched acquired pinned t) ≡ (
        if contains j touched && contains j acquired
        then depth j s + occurrences j acquired - 1
        else depth j s)
unfolding release_session
depth-release_session thread touched acquired pinned j s {t} h u =
    let locked = backwards acquired [] in
    let o = release_touched touched locked [] t in
    ground (
      arith,
      release_touched_lem touched locked [] j t u,
      depth-lock_keys thread acquired j s h,
      depth-unpin_all pinned j o.1,
      depth-release_rest locked o.0 j (unpin_all pinned o.1),
      occurrences-contains j locked,
      occurrences-contains j acquired,
      occurrences-backwards j acquired [],
    )
