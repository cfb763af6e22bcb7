-- ===== src/Registry/Specs.antt =====
-- registry.py: refresh, refresh_plugin, resolve, release_now, close_all.
pub mod InUse
pub mod Release
pub mod Keeps
use Prim.Native.String.{◌++◌}
use test_serv.Base.{
  ℕ, Bool, true, false, not, ◌&&◌, Option, none, some, List, [], ◌∷◌, String, str_eq, leb,
  if◌then◌else◌,
}
use test_serv.Base.Dict.{Dict, lookup, insert, erase, mem, contains, keys}
use test_serv.Registry.{Spec, Lock, Registry, is_positive, is_zero}

-- What a probe tells: the specs, or _KEEP_PREVIOUS_SPECS.
pub data Probe : Type 0 where
  kept : Probe
  seen : List Spec → Probe

-- f"{pname}.{did}"
abbrev pub device_key : String → String → String
device_key pname did = pname ++ ("." ++ did)

pub add_found : String → List Spec → Dict (String × Spec) → Dict (String × Spec)
add_found pname [] found = found
add_found pname (spec ∷ specs) found = elim spec.id [
  | none ↦ add_found pname specs found
  | some did ↦ add_found pname specs (insert (device_key pname did) (pname, spec) found)
]

pub keep_existing_plugin_specs :
    String → Dict (String × Spec) → Dict (String × Spec) → Dict (String × Spec)
keep_existing_plugin_specs pname [] found = found
keep_existing_plugin_specs pname ((key, (p, spec)) ∷ specs) found =
    keep_existing_plugin_specs pname specs
      (if str_eq p pname then insert key (p, spec) found else found)

-- The loop over the plugins; `specs` is what the registry has.
pub scan :
    List (String × Probe) → Dict (String × Spec) → Dict (String × Spec) → Dict (String × Spec)
unfolding add_found keep_existing_plugin_specs
scan [] specs found = found
scan ((pname, kept) ∷ probes) specs found =
    scan probes specs (keep_existing_plugin_specs pname specs found)
scan ((pname, seen new) ∷ probes) specs found = scan probes specs (add_found pname new found)

-- pl.close(handle), where pl is the plugin of the key's spec, if both are there.
abbrev pub close_handle : Option (String × Spec) → ℕ → Registry → Registry
close_handle none handle s = s
close_handle (some (pname, spec)) handle s =
    if contains pname s.plugins then record s { closed = (pname, handle) ∷ s.closed } else s

unfoldable pub close_if_cached : String → Registry → Registry
close_if_cached key s = elim (lookup key s.cache) [
  | none ↦ s
  | some entry ↦
      if is_positive entry.refs
      then record s { cache = insert key entry (erase key s.cache) }
      else close_handle (lookup key s.specs) entry.handle (record s { cache = erase key s.cache })
]

-- entry is None or entry[1] == 0
abbrev pub is_idle : String → Registry → Bool
is_idle key s = elim (lookup key s.cache) [ none ↦ true | some entry ↦ is_zero entry.refs ]

-- pinned_specs.get(key, 0) <= 0
abbrev pub is_unpinned : String → Registry → Bool
is_unpinned key s = elim (lookup key s.pinned_specs) [ none ↦ true | some n ↦ leb n 0 ]

abbrev pub is_gone : Dict (String × Spec) → String → Registry → Bool
is_gone found key s = not (mem key found) && is_unpinned key s && is_idle key s

-- One key of list(self.specs): a vanished device that nobody holds goes.
pub drop_vanished_one : Dict (String × Spec) → String → Registry → Registry
unfolding close_if_cached
drop_vanished_one found key s =
    if is_gone found key s then close_if_cached key (record s { specs = erase key s.specs }) else s

pub drop_vanished : Dict (String × Spec) → List String → Registry → Registry
unfolding drop_vanished_one
drop_vanished found [] s = s
drop_vanished found (key ∷ ks) s = drop_vanished found ks (drop_vanished_one found key s)

-- per_dev_lock.setdefault(key, RLock())
abbrev pub with_lock : String → Dict Lock → Dict Lock
with_lock key locks =
    if mem key locks then locks else insert key (record { owner = 0; depth = 0 }) locks

pub install_found : Dict (String × Spec) → Registry → Registry
install_found [] s = s
install_found ((key, val) ∷ found) s =
    install_found found (record s { specs = insert key val s.specs; locks = with_lock key s.locks })

unfoldable pub refresh : List (String × Probe) → Registry → Registry
unfolding scan drop_vanished install_found
refresh probes s =
    let found = scan probes s.specs [] in install_found found (drop_vanished found (keys s.specs) s)

-- The keys of one plugin's specs.
abbrev pub keys_of : String → Dict (String × Spec) → List String
keys_of name [] = []
keys_of name ((key, (p, spec)) ∷ specs) =
    let rest = keys_of name specs in if str_eq p name then key ∷ rest else rest

pub refresh_plugin : String → Probe → Registry → Registry
unfolding add_found drop_vanished install_found
refresh_plugin name kept s = s
refresh_plugin name (seen specs) s =
    if contains name s.plugins
    then (let found = add_found name specs [] in
        install_found found (drop_vanished found (keys_of name s.specs) s))
    else s

unfoldable pub release_now : String → Registry → Bool × Registry
unfolding close_if_cached
release_now key s = elim (lookup key s.cache) [
  | none ↦ (false, s)
  | some entry ↦ if is_positive entry.refs then (false, s) else (true, close_if_cached key s)
]

pub close_keys : List String → Registry → Registry
unfolding close_if_cached
close_keys [] s = s
close_keys (key ∷ ks) s = close_keys ks (close_if_cached key s)

unfoldable pub close_all : Registry → Registry
unfolding close_keys
close_all s = close_keys (keys s.cache) s
