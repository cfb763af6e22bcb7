-- ===== src/Session/Devices.antt =====
-- session.py: _resolve_device and _run_device_op, for a session's thread that no other disturbs.
pub mod Balanced
use test_serv.Base.{
  ℕ, Bool, true, false, ◌||◌, Option, none, some, List, [], ◌∷◌, String, str_eq, if◌then◌else◌,
}
use test_serv.Base.Dict.{Dict, lookup, insert, erase, mem, contains}
use test_serv.Base.Result.{Fallible, ok, err}
use test_serv.Registry.{Registry}
use test_serv.Registry.Specs.{Probe, with_lock, refresh_plugin}
use test_serv.Registry.Lend.{Opened, Raised, Lending, lent, to_open, raised, take_lock, enter, exit}
use test_serv.Registry.Resolve.{LookupError, resolve}
use test_serv.Session.Locks.{pin}

-- The registry, _session_locked_keys, `pinned` with its handles, and touched_keys.
pub record Held : Type 0 where
  pub registry : Registry
  pub session_locked : List String
  pub pinned : Dict ℕ
  pub touched : List String

-- What an op raises: it names no plugin or op, or its arguments do not decode; its device does not
-- resolve; the session is canceled while it waits; the acquire raises; or its own code does.
pub data Failed : Type 0 where
  unknown bad_args wait_canceled op_raised : Failed
  no_device : LookupError → Failed
  not_lent : Raised → Failed

-- An op of the plan with what it meets: whether its arguments decode, what a probe of its plugin
-- reports, whether the session is canceled, how an open ends and whether its own code returns.
pub record DeviceOp : Type 0 where
  pub plugin_name : String
  pub spec_id : Option String
  pub verb : String
  pub decodes : Bool
  pub probe : Probe
  pub canceled : Bool
  pub opening : Opened
  pub returns : Bool

-- The key, after a probe of the plugin if there is none at first.
abbrev pub retry_resolve :
    DeviceOp → Registry → Fallible LookupError String → Registry × Fallible LookupError String
retry_resolve op s (ok key) = (s, ok key)
retry_resolve op s (err e) =
    let s' = refresh_plugin op.plugin_name op.probe s in (s', resolve op.plugin_name op.spec_id s')

abbrev pub touch : String → Held → Held
touch key st = record st {
  touched = if contains key st.touched then st.touched else key ∷ st.touched;
}

-- The lock of a device that the session does not hold yet; `none` while it waits for another thread.
abbrev pub locked_late : DeviceOp → String → Held → Option Registry → Option (Option Failed × Held)
locked_late op key st (some s) =
    some (none, touch key (record st { registry = s; session_locked = key ∷ st.session_locked }))
locked_late op key st none = if op.canceled then some (some wait_canceled, st) else none

unfoldable pub lock_late : ℕ → DeviceOp → String → Held → Option (Option Failed × Held)
lock_late thread op key st =
    if contains key st.session_locked
    then some (none, touch key st)
    else (let s = pin key (record st.registry { locks = with_lock key st.registry.locks }) in
        locked_late op key (record st { registry = s }) (take_lock thread key s))

-- What runs on the resolved device, with its lock held for the session.
abbrev pub entered :
    String
    → (ℕ → Held → Option Failed × Held)
    → Held
    → Option (Lending × Registry)
    → Option (Option Failed × Held)
entered key next st none = none
entered key next st (some (lent h, s)) = some (next h (record st { registry = s }))
entered key next st (some (to_open pname spec, s)) = none
entered key next st (some (raised e, s)) = some (some (not_lent e), record st { registry = s })

abbrev pub op_result : DeviceOp → Option Failed
op_result op = if op.returns then none else some op_raised

abbrev pub open_device : String → ℕ → Held → Option Failed × Held
open_device key h st = (none, record st { pinned = insert key h st.pinned })

-- The `with` block: the handle is given back also when the op raises.
abbrev pub use_device : DeviceOp → String → ℕ → Held → Option Failed × Held
use_device op key h st = (op_result op, record st { registry = exit key st.registry })

unfoldable pub on_device : ℕ → DeviceOp → String → Held → Option (Option Failed × Held)
on_device thread op key st =
    if str_eq op.verb "close"
    then (if mem key st.pinned
        then some
            (none, record st { pinned = erase key st.pinned; registry = exit key st.registry })
        else some (none, st))
    else if str_eq op.verb "open"
    then (if mem key st.pinned
        then some (none, st)
        else entered key (open_device key) st (enter thread key op.opening st.registry))
    else (if mem key st.pinned
        then some (op_result op, st)
        else entered key (use_device op key) st (enter thread key op.opening st.registry))

abbrev pub after_lock :
    ℕ → DeviceOp → String → Option (Option Failed × Held) → Option (Option Failed × Held)
after_lock thread op key none = none
after_lock thread op key (some (some e, st)) = some (some e, st)
after_lock thread op key (some (none, st)) = on_device thread op key st

abbrev pub after_resolve :
    ℕ → DeviceOp → Held → Registry × Fallible LookupError String → Option (Option Failed × Held)
after_resolve thread op st (s, err e) = some (some (no_device e), record st { registry = s })
after_resolve thread op st (s, ok key) =
    after_lock thread op key (lock_late thread op key (record st { registry = s }))

unfoldable pub on_resolved : ℕ → DeviceOp → Held → Option (Option Failed × Held)
on_resolved thread op st =
    after_resolve thread op st
      (retry_resolve op st.registry (resolve op.plugin_name op.spec_id st.registry))

abbrev pub with_verbs : ℕ → DeviceOp → Held → Option (List String) → Option (Option Failed × Held)
with_verbs thread op st none = some (some unknown, st)
with_verbs thread op st (some verbs) =
    if str_eq op.verb "open" || str_eq op.verb "close"
    then on_resolved thread op st
    else if contains op.verb verbs
    then (if op.decodes then on_resolved thread op st else some (some bad_args, st))
    else some (some unknown, st)

-- `none` where the thread waits for a lock of another thread.
unfoldable pub run_device_op :
    Dict (List String) → ℕ → DeviceOp → Held → Option (Option Failed × Held)
run_device_op plugins thread op st = with_verbs thread op st (lookup op.plugin_name plugins)
