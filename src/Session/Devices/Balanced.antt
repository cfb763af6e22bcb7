-- ===== src/Session/Devices/Balanced.antt =====
-- session.py: how often an op leaves each device locked, on every path.
use test_serv.Base.{
  ℕ, ◌+◌, ◌≤◌, ◌≡◌, sym, refl, true, ◌||◌, Option, none, some, List, String, str_eq, eq_iff, arith,
  if◌then◌else◌, Option-cases, Bool-cases, inl, inr,
}
use test_serv.Base.Dict.{Dict, lookup, mem, contains, lookup-insert, lookup-erase}
use test_serv.Base.Result.{Fallible, ok, err}
use test_serv.Registry.{Registry}
use test_serv.Registry.Specs.{with_lock}
use test_serv.Registry.Specs.Keeps.{refresh_plugin-Keeps}
use test_serv.Registry.Lend.{lent, to_open, raised, take_lock, enter}
use test_serv.Registry.Lend.Balance.{
  depth, depth-with_lock, depth-take_lock, depth-enter, depth-exit,
}
use test_serv.Registry.Resolve.{LookupError, resolve}
use test_serv.Session.Locks.{pin}
use test_serv.Session.Devices.{
  Held, Failed, DeviceOp, retry_resolve, lock_late, entered, open_device, use_device, on_device,
  after_lock, after_resolve, on_resolved, run_device_op,
}

-- The locks of a device that the session accounts for: one for the session, one for an open handle.
abbrev pub held_by : String → Held → ℕ
held_by j st = (if contains j st.session_locked then 1 else 0) + (if mem j st.pinned then 1 else 0)

-- No lock is lost or left over: what the session accounts for changes as the locks do.
abbrev pub Balanced : String → Held → Held → Type 0
Balanced j st st' = depth j st'.registry + held_by j st ≡ depth j st.registry + held_by j st'

depth-pin : (key j : String) (s : Registry) → depth j (pin key s) ≡ depth j s
unfolding pin depth
depth-pin key j s = ground arith

lock_late-Balanced :
    (thread : ℕ) (op : DeviceOp) (key j : String) (st : Held) {e : Option Failed} {st' : Held}
    → lock_late thread op key st ≡ some (e, st')
    → Balanced j st st' × (st'.pinned ≡ st.pinned)
unfolding lock_late
lock_late-Balanced thread op key j st {e} {st'} h =
    let s = record st.registry { locks = with_lock key st.registry.locks } in
    elim (Bool-cases (contains key st.session_locked)) [
      | inl held ↦ ground (arith, held)
      | inr free ↦ elim (Option-cases (take_lock thread key (pin key s))) [
        | inl waits ↦
            ground (arith, free, waits, depth-pin key j s, depth-with_lock key j st.registry)
        | inr (t, taken) ↦ ground (
          arith,
          free,
          taken,
          (depth-take_lock thread key j (pin key s) taken).0,
          depth-pin key j s,
          depth-with_lock key j st.registry,
          eq_iff key j,
        )
      ]
    ]

module _ (thread : ℕ) (op : DeviceOp) (key j : String) (st : Held) where
  -- An acquire that lends leaves the lock once more, one that raises as often as before.
  entered-Balanced :
      (next : ℕ → Held → Option Failed × Held) {e : Option Failed} {st' : Held}
      → ((h : ℕ) (s : Registry)
          → depth j s ≡ (if str_eq key j then depth j st.registry + 1 else depth j st.registry)
          → Balanced j st (next h (record st { registry = s })).1)
      → entered key next st (enter thread key op.opening st.registry) ≡ some (e, st')
      → Balanced j st st'
  entered-Balanced next {e} {st'} after h =
      elim (Option-cases (enter thread key op.opening st.registry)) [
        | inl waits ↦ absurd (ground (arith, waits))
        | inr ((lent n, s), lends) ↦
            let counted = depth-enter thread key j op.opening st.registry lends in
            let same : (next n (record st { registry = s })).1 ≡ st' = ground (arith, lends) in
            rw (sym same) (after n s counted)
        | inr ((to_open p spec, s), lends) ↦ absurd (ground (arith, lends))
        | inr ((raised x, s), lends) ↦
            ground (arith, lends, depth-enter thread key j op.opening st.registry lends)
      ]

  on_device-Balanced :
      {e : Option Failed} {st' : Held}
      → (mem key st.pinned ≡ true → 1 ≤ depth key st.registry)
      → on_device thread op key st ≡ some (e, st')
      → Balanced j st st'
  unfolding on_device
  on_device-Balanced {e} {st'} locked h = elim (Bool-cases (str_eq op.verb "close")) [
    | inl closes ↦ elim (Bool-cases (mem key st.pinned)) [
      | inl here ↦ ground (
        arith,
        closes,
        here,
        locked here,
        depth-exit key j st.registry,
        lookup-erase key j st.pinned,
        eq_iff key j,
      )
      | inr gone ↦ ground (arith, closes, gone)
    ]
    | inr other ↦ elim (Bool-cases (str_eq op.verb "open")) [
      | inl opens ↦ elim (Bool-cases (mem key st.pinned)) [
        | inl here ↦ ground (arith, other, opens, here)
        | inr gone ↦
            entered-Balanced (open_device key) {e = e} {st' = st'}
              (λ n s counted.
                ground (arith, counted, gone, lookup-insert key j n st.pinned, eq_iff key j))
              (ground (arith, other, opens, gone, h))
      ]
      | inr works ↦ elim (Bool-cases (mem key st.pinned)) [
        | inl here ↦ ground (arith, other, works, here)
        | inr gone ↦
            entered-Balanced (use_device op key) {e = e} {st' = st'}
              (λ n s counted. ground (arith, counted, depth-exit key j s, eq_iff key j))
              (ground (arith, other, works, gone, h))
      ]
    ]
  ]

lock_late-grows :
    (thread : ℕ) (op : DeviceOp) (key : String) (st : Held) {e : Option Failed} {st' : Held}
    → lock_late thread op key st ≡ some (e, st')
    → depth key st.registry ≤ depth key st'.registry
unfolding lock_late
lock_late-grows thread op key st {e} {st'} h =
    let s = record st.registry { locks = with_lock key st.registry.locks } in
    let before = depth-pin key key s in
    let made = depth-with_lock key key st.registry in
    elim (Bool-cases (contains key st.session_locked)) [
      | inl held ↦ ground (arith, held)
      | inr free ↦ elim (Option-cases (take_lock thread key (pin key s))) [
        | inl waits ↦ ground (arith, free, waits, before, made)
        | inr (t, taken) ↦ ground (
          arith,
          free,
          taken,
          (depth-take_lock thread key key (pin key s) taken).0,
          before,
          made,
          eq_iff key key,
        )
      ]
    ]

-- A refreshed plugin leaves the locks.
retry-depth :
    (op : DeviceOp) (j : String) (s : Registry) (r : Fallible LookupError String)
    → depth j (retry_resolve op s r).0 ≡ depth j s
retry-depth op j s (ok key) = refl
retry-depth op j s (err e) = (refresh_plugin-Keeps op.plugin_name op.probe s).depths j

on_key-Balanced :
    (thread : ℕ) (op : DeviceOp) (key j : String) (st : Held) {e : Option Failed} {st' : Held}
    → ((k : String) → mem k st.pinned ≡ true → 1 ≤ depth k st.registry)
    → after_lock thread op key (lock_late thread op key st) ≡ some (e, st')
    → Balanced j st st'
on_key-Balanced thread op key j st {e} {st'} locked h =
    elim (Option-cases (lock_late thread op key st)) [
      | inl waits ↦ absurd (ground (arith, waits))
      | inr ((some x, u), ends) ↦
          let one = lock_late-Balanced thread op key j st ends in
          let same : u ≡ st' = ground (arith, ends) in rw (sym same) one.0
      | inr ((none, u), went) ↦
          let one = lock_late-Balanced thread op key j st went in
          let here = lock_late-Balanced thread op key key st went in
          let more : depth key st.registry ≤ depth key u.registry =
            lock_late-grows thread op key st went in
          let two =
            on_device-Balanced thread op key j u {e = e} {st' = st'}
              (λ p. omega (arith, locked key (rw (sym here.1) p), more))
              (ground (arith, went, h)) in
          omega (arith, one.0, two)
    ]

on_resolved-Balanced :
    (thread : ℕ) (op : DeviceOp) (j : String) (st : Held) {e : Option Failed} {st' : Held}
    → ((k : String) → mem k st.pinned ≡ true → 1 ≤ depth k st.registry)
    → (o : Registry × Fallible LookupError String)
    → ((k : String) → depth k o.0 ≡ depth k st.registry)
    → after_resolve thread op st o ≡ some (e, st')
    → Balanced j st st'
on_resolved-Balanced thread op j st {e} {st'} locked (s, err x) same h = ground (arith, same j, h)
on_resolved-Balanced thread op j st {e} {st'} locked (s, ok key) same h =
    let st1 : Held = record st { registry = s } in
    let rest : Balanced j st1 st' =
      on_key-Balanced thread op key j st1 (λ k p. omega (arith, locked k p, same k)) h in
    omega (arith, rest, same j)

-- An op on a device, on every path it can end, failures included, changes how often each device is
-- locked by exactly what the session accounts for: one for each key in _session_locked_keys and one
-- for each open handle in `pinned`. So an op that raises leaves no lock behind, and none is given
-- back twice. The devices with an open handle are locked before it.
pub run_device_op-Balanced :
    (plugins : Dict (List String)) (thread : ℕ) (op : DeviceOp) (st : Held) {e : Option Failed}
    {st' : Held}
    → ((k : String) → mem k st.pinned ≡ true → 1 ≤ depth k st.registry)
    → run_device_op plugins thread op st ≡ some (e, st')
    → (j : String) → depth j st'.registry + held_by j st ≡ depth j st.registry + held_by j st'
unfolding run_device_op on_resolved
run_device_op-Balanced plugins thread op st {e} {st'} locked h j =
    let o = retry_resolve op st.registry (resolve op.plugin_name op.spec_id st.registry) in
    let whole =
      on_resolved-Balanced thread op j st {e = e} {st' = st'} locked o
        (λ k. retry-depth op k st.registry (resolve op.plugin_name op.spec_id st.registry)) in
    elim (Option-cases (lookup op.plugin_name plugins)) [
      | inl none_such ↦ ground (arith, none_such, h)
      | inr (verbs, known) ↦ elim (Bool-cases (str_eq op.verb "open" || str_eq op.verb "close")) [
        | inl pins ↦ whole (ground (arith, known, pins, h))
        | inr works ↦ elim (Bool-cases (contains op.verb verbs)) [
          | inr bad ↦ ground (arith, known, works, bad, h)
          | inl good ↦ elim (Bool-cases op.decodes) [
            | inl decodes ↦ whole (ground (arith, known, works, good, decodes, h))
            | inr bad ↦ ground (arith, known, works, good, bad, h)
          ]
        ]
      ]
    ]
