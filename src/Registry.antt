-- ===== src/Registry.antt =====
-- registry.py: DeviceRegistry, the device specs and the handles lent to sessions.
mod Tests
pub mod Specs
pub mod Lend
pub mod Resolve
pub mod Threads
use test_serv.Base.{ℕ, suc, zero, Bool, true, false, Option, List, [], String}
use test_serv.Base.Int.{ℤ, pos, negsuc}
use test_serv.Base.Dict.{Dict}
use test_serv.Json.{Json}

-- One spec of probe(): its "id", which may be missing, and the rest of the dict.
pub record Spec : Type 0 where
  pub id : Option String
  pub info : Json

-- A cache entry `[handle, refs]`.
pub record Entry : Type 0 where
  pub handle : ℕ
  pub refs : ℤ

-- A threading.RLock: the thread that owns it and how often it has acquired it. Depth 0 is free.
pub record Lock : Type 0 where
  pub owner : ℕ
  pub depth : ℕ

-- What the verify column shows: ok is None for a device in use.
pub record Verify : Type 0 where
  pub ok : Option Bool
  pub verified : Bool

-- `closed` records the calls of pl.close, the newest first.
pub record Registry : Type 0 where
  pub plugins : List String
  pub specs : Dict (String × Spec)
  pub cache : Dict Entry
  pub locks : Dict Lock
  pub verify_results : Dict Verify
  pub pinned_specs : Dict ℕ
  pub quarantined : List String
  pub closed : List (String × ℕ)

abbrev pub new_registry : List String → Registry
new_registry plugins = record {
  plugins = plugins;
  specs = [];
  cache = [];
  locks = [];
  verify_results = [];
  pinned_specs = [];
  quarantined = [];
  closed = [];
}

-- refs > 0 and refs == 0
abbrev pub is_positive : ℤ → Bool
is_positive (pos zero) = false
is_positive (pos (suc n)) = true
is_positive (negsuc n) = false

abbrev pub is_zero : ℤ → Bool
is_zero (pos zero) = true
is_zero (pos (suc n)) = false
is_zero (negsuc n) = false

-- refs + 1 and refs - 1
abbrev pub succ : ℤ → ℤ
succ (pos n) = pos (suc n)
succ (negsuc zero) = pos 0
succ (negsuc (suc n)) = negsuc n

abbrev pub pred : ℤ → ℤ
pred (pos zero) = negsuc 0
pred (pos (suc n)) = pos n
pred (negsuc n) = negsuc (suc n)
