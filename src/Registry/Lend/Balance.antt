-- ===== src/Registry/Lend/Balance.antt =====
-- registry.py: an acquire and its release leave the locks and the counts as they were.
use test_serv.Base.{
  ℕ, zero, suc, ◌+◌, ◌-◌, ◌≡◌, refl, Option, none, some, ◌∷◌, String, arith, str_eq, eq_iff,
  if◌then◌else◌, Option-cases, Bool-cases, inl, inr,
}
use test_serv.Base.Int.{ℤ, pos, negsuc}
use test_serv.Base.Dict.{lookup, insert, contains, lookup-insert}
use test_serv.Registry.{Lock, Registry, succ, pred}
use test_serv.Registry.Specs.{with_lock}
use test_serv.Registry.Lend.{
  Opened, timed_out, failed, opened, Lending, lent, to_open, raised, check_key, take_lock,
  drop_lock, begin_lend, finish_open, enter, exit, hung, continue_lend,
}

-- How often the lock of a device is held.
abbrev pub depth_of : Option Lock → ℕ
depth_of none = 0
depth_of (some lock) = lock.depth

unfoldable pub depth : String → Registry → ℕ
depth key s = depth_of (lookup key s.locks)

pred-succ : (n : ℤ) → pred (succ n) ≡ n
pred-succ (pos n) = refl
pred-succ (negsuc zero) = refl
pred-succ (negsuc (suc n)) = refl

pub depth-with_lock :
    (key j : String) (s : Registry)
    → depth j (record s { locks = with_lock key s.locks }) ≡ depth j s
unfolding depth
depth-with_lock key j s = elim (Option-cases (lookup key s.locks)) [
  | inl e ↦
      ground (arith, lookup-insert key j (record { owner = 0; depth = 0 }) s.locks, eq_iff key j)
  | inr (l, e) ↦ ground arith
]

pub depth-drop_lock :
    (key j : String) (s : Registry)
    → depth j (drop_lock key s) ≡ (if str_eq key j then depth j s - 1 else depth j s)
unfolding depth drop_lock
depth-drop_lock key j s = elim (Option-cases (lookup key s.locks)) [
  | inl e ↦ ground (arith, eq_iff key j)
  | inr (l, e) ↦
      ground (arith, lookup-insert key j (record l { depth = l.depth - 1 }) s.locks, eq_iff key j)
]

pub depth-take_lock :
    (thread : ℕ) (key j : String) (s : Registry) {t : Registry}
    → take_lock thread key s ≡ some t
    → (depth j t ≡ (if str_eq key j then depth j s + 1 else depth j s)) × (t.cache ≡ s.cache)
unfolding depth take_lock
depth-take_lock thread key j s h = elim (Option-cases (lookup key s.locks)) [
  | inl e ↦
      ground
        (arith, lookup-insert key j (record { owner = thread; depth = 1 }) s.locks, eq_iff key j)
  | inr (l, e) ↦ ground (
    arith,
    lookup-insert key j (record l { depth = l.depth + 1 }) s.locks,
    lookup-insert key j (record { owner = thread; depth = 1 }) s.locks,
    eq_iff key j,
  )
]

abbrev pub holds : Lending → ℕ
holds (lent h) = 1
holds (to_open pname spec) = 1
holds (raised e) = 0

-- Under the lock: an exception gives the lock back, any other result keeps it.
depth-begin_lend :
    (key j : String) (s : Registry) {d : ℕ}
    → depth key s ≡ suc d
    → let o = begin_lend key s in depth j o.1 ≡ (if str_eq key j then d + holds o.0 else depth j s)
unfolding begin_lend depth
depth-begin_lend key j s h = elim (Bool-cases (contains key s.quarantined)) [
  | inl q ↦ ground (arith, depth-drop_lock key j s, eq_iff key j)
  | inr q ↦ elim (Option-cases (lookup key s.cache)) [
    | inr (entry, e) ↦ ground (arith, eq_iff key j)
    | inl e ↦ elim (Option-cases (lookup key s.specs)) [
      | inl e' ↦ ground (arith, depth-drop_lock key j s, eq_iff key j)
      | inr ((pname, spec), e') ↦ elim (Bool-cases (contains pname s.plugins)) [
        | inl known ↦ ground (arith, eq_iff key j)
        | inr unknown ↦ ground (arith, depth-drop_lock key j s, eq_iff key j)
      ]
    ]
  ]
]

depth-finish_open :
    (key j : String) (outcome : Opened) (s : Registry) {d : ℕ}
    → depth key s ≡ suc d
    → let o = finish_open key outcome s in
      depth j o.1 ≡ (if str_eq key j then d + holds o.0 else depth j s)
unfolding finish_open depth
depth-finish_open key j timed_out s h = ground (
  arith,
  depth-drop_lock key j (record s {
    quarantined = key ∷ s.quarantined;
    verify_results = insert key hung s.verify_results;
  }),
  eq_iff key j,
)
depth-finish_open key j failed s h = ground (arith, depth-drop_lock key j s, eq_iff key j)
depth-finish_open key j (opened n) s h = ground (arith, eq_iff key j)

-- The whole of what runs under the lock.
depth-continue_lend :
    (key j : String) (outcome : Opened) (s : Registry) (o : Lending × Registry) {d : ℕ}
    → depth key s ≡ suc d
    → depth key o.1 ≡ d + holds o.0
    → depth j o.1 ≡ (if str_eq key j then d + holds o.0 else depth j s)
    → let r = continue_lend key outcome o in
      depth j r.1 ≡ (if str_eq key j then d + holds r.0 else depth j s)
depth-continue_lend key j outcome s (lent h, s') at_key rest all = all
depth-continue_lend key j outcome s (raised e, s') at_key rest all = all
depth-continue_lend key j outcome s (to_open pname spec, s') {d} at_key rest all =
    let at_open : depth key s' ≡ suc d = ground arith in
    let under = depth-finish_open key j outcome s' at_open in
    elim (Bool-cases (str_eq key j)) [
      | inl e ↦ rw e (ground (arith, under))
      | inr e ↦ rw e (ground (arith, under))
    ]

-- An acquire that hands out a handle holds the device's lock once more than before, and one that
-- raises, on any path, holds it as often as before. No other device's lock changes.
pub depth-enter :
    (thread : ℕ) (key j : String) (outcome : Opened) (s : Registry) {res : Lending} {t : Registry}
    → enter thread key outcome s ≡ some (res, t)
    → depth j t ≡ (if str_eq key j then depth j s + holds res else depth j s)
unfolding enter
depth-enter thread key j outcome s {res} {t} h = elim (Option-cases (check_key key s)) [
  | inr (e, refused) ↦ ground (arith, eq_iff key j)
  | inl passed ↦
      let s1 = record s { locks = with_lock key s.locks } in
      elim (Option-cases (take_lock thread key s1)) [
        | inl waits ↦ absurd (ground arith)
        | inr (s2, taken) ↦
            let at_key : depth key s2 ≡ suc (depth key s) = ground (
              arith,
              depth-take_lock thread key key s1 taken,
              depth-with_lock key key s,
              eq_iff key key,
            ) in
            let at_j : depth j s2 ≡ (if str_eq key j then depth j s + 1 else depth j s) =
              ground (arith, depth-take_lock thread key j s1 taken, depth-with_lock key j s) in
            let under =
              depth-continue_lend key j outcome s2 (begin_lend key s2) at_key
                (ground (arith, depth-begin_lend key key s2 at_key, eq_iff key key))
                (depth-begin_lend key j s2 at_key) in
            let same : continue_lend key outcome (begin_lend key s2) ≡ (res, t) = ground arith in
            ground (arith, under, same, at_j, eq_iff key j)
      ]
]

pub depth-exit :
    (key j : String) (s : Registry)
    → depth j (exit key s) ≡ (if str_eq key j then depth j s - 1 else depth j s)
unfolding exit depth
depth-exit key j s = elim (Option-cases (lookup key s.cache)) [
  | inl e ↦ ground (arith, depth-drop_lock key j s)
  | inr (entry, e) ↦ ground (
    arith,
    depth-drop_lock key j
        (record s { cache = insert key (record entry { refs = pred entry.refs }) s.cache }),
  )
]

-- The release of a handle that an acquire has handed out gives every device's lock back.
pub depth-exit-enter :
    (thread : ℕ) (key j : String) (outcome : Opened) (s : Registry) {h : ℕ} {t : Registry}
    → enter thread key outcome s ≡ some (lent h, t)
    → depth j (exit key t) ≡ depth j s
depth-exit-enter thread key j outcome s {h} {t} e =
    ground (arith, depth-enter thread key j outcome s e, depth-exit key j t, eq_iff key j)
