-- ===== src/Registry/Lend.antt =====
-- registry.py: _Acquire. An acquire is the checks, the lock, and the cache or the open; the open
-- runs outside the registry's own lock, between `begin_lend` and `finish_open`.
pub mod Balance
use test_serv.Base.{ℕ, ◌+◌, ◌-◌, false, not, Option, none, some, ◌∷◌, String, ◌==◌, if◌then◌else◌}
use test_serv.Base.Int.{pos}
use test_serv.Base.Dict.{lookup, insert, mem, contains}
use test_serv.Registry.{Spec, Registry, Verify, succ, pred}
use test_serv.Registry.Specs.{with_lock}

-- LookupError, BusyError, the KeyError of a spec that went meanwhile, and the failure of pl.open.
pub data Raised : Type 0 where
  not_present busy key_error open_failed : Raised

-- pl.open under its wall-clock cap.
pub data Opened : Type 0 where
  timed_out failed : Opened
  opened : ℕ → Opened

-- What the code under the lock comes to: a handle, an open to do, or an exception.
pub data Lending : Type 0 where
  lent : ℕ → Lending
  to_open : String → Spec → Lending
  raised : Raised → Lending

unfoldable pub check_key : String → Registry → Option Raised
check_key key s =
    if not (mem key s.specs)
    then some not_present
    else if contains key s.quarantined
    then some busy
    else none

-- dev_lock.acquire() of a thread; `none` while another thread holds the lock.
unfoldable pub take_lock : ℕ → String → Registry → Option Registry
take_lock thread key s = elim (lookup key s.locks) [
  | none ↦ some (record s { locks = insert key (record { owner = thread; depth = 1 }) s.locks })
  | some lock ↦
      if lock.depth == 0
      then some (record s { locks = insert key (record { owner = thread; depth = 1 }) s.locks })
      else if lock.owner == thread
      then some (record s { locks = insert key (record lock { depth = lock.depth + 1 }) s.locks })
      else none
]

unfoldable pub drop_lock : String → Registry → Registry
drop_lock key s = elim (lookup key s.locks) [
  | none ↦ s
  | some lock ↦ record s { locks = insert key (record lock { depth = lock.depth - 1 }) s.locks }
]

-- With the device's lock held: quarantine again, then the cache. An exception releases the lock.
unfoldable pub begin_lend : String → Registry → Lending × Registry
unfolding drop_lock
begin_lend key s =
    if contains key s.quarantined
    then (raised busy, drop_lock key s)
    else elim (lookup key s.cache) [
      | some entry ↦ (
        lent entry.handle,
        record s { cache = insert key (record entry { refs = succ entry.refs }) s.cache },
      )
      | none ↦ elim (lookup key s.specs) [
        | none ↦ (raised key_error, drop_lock key s)
        | some (pname, spec) ↦
            if contains pname s.plugins
            then (to_open pname spec, s)
            else (raised key_error, drop_lock key s)
      ]
    ]

abbrev pub hung : Verify
hung = record { ok = some false; verified = false }

-- After the open. A hung one quarantines the key before the lock goes.
unfoldable pub finish_open : String → Opened → Registry → Lending × Registry
unfolding drop_lock
finish_open key timed_out s = (
  raised busy,
  drop_lock key (record s {
    quarantined = key ∷ s.quarantined;
    verify_results = insert key hung s.verify_results;
  }),
)
finish_open key failed s = (raised open_failed, drop_lock key s)
finish_open key (opened h) s =
    (lent h, record s { cache = insert key (record { handle = h; refs = pos 1 }) s.cache })

abbrev pub continue_lend : String → Opened → Lending × Registry → Lending × Registry
continue_lend key outcome (lent h, s) = (lent h, s)
continue_lend key outcome (to_open pname spec, s) = finish_open key outcome s
continue_lend key outcome (raised e, s) = (raised e, s)

abbrev locked : String → Opened → Option Registry → Option (Lending × Registry)
locked key outcome none = none
locked key outcome (some s) = some (continue_lend key outcome (begin_lend key s))

-- The whole __enter__; `none` while it waits for the device's lock.
unfoldable pub enter : ℕ → String → Opened → Registry → Option (Lending × Registry)
unfolding check_key take_lock begin_lend finish_open
enter thread key outcome s = elim (check_key key s) [
  | some e ↦ some (raised e, s)
  | none ↦ locked key outcome (take_lock thread key (record s { locks = with_lock key s.locks }))
]

-- __exit__ of an acquire that has lent a handle.
unfoldable pub exit : String → Registry → Registry
unfolding drop_lock
exit key s = elim (lookup key s.cache) [
  | none ↦ drop_lock key s
  | some entry ↦
      drop_lock key
        (record s { cache = insert key (record entry { refs = pred entry.refs }) s.cache })
]
