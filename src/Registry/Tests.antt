-- ===== src/Registry/Tests.antt =====
-- registry.py: a registry with one device.
mod Runs
use test_serv.Base.{
  ◌+◌, ◌≡◌, String, Option, refl, true, false, not, ◌&&◌, none, some, [], ◌∷◌, str_eq,
  if◌then◌else◌,
}
use test_serv.Base.Int.{pos}
use test_serv.Base.Dict.{lookup, insert, mem}
use test_serv.Json
use test_serv.Registry.{Spec, Registry, new_registry, is_positive}
use test_serv.Registry.Specs.{kept, seen, drop_vanished_one, refresh, refresh_plugin, release_now}
use test_serv.Registry.Specs.InUse.{IsHeld, refresh-IsHeld, closed-refresh, drop_vanished_one_leaks}
use test_serv.Registry.Specs.Release.{release_now_lem}
use test_serv.Registry.Lend.{opened, lent, enter, exit}
use test_serv.Registry.Lend.Balance.{depth, holds, depth-enter, depth-exit-enter}

abbrev spec_a : Spec
spec_a = record { id = some "A"; info = Json.null }

abbrev with_dsp : Registry
with_dsp = record (new_registry ("dsp" ∷ [])) { specs = ("dsp.A", ("dsp", spec_a)) ∷ [] }

-- The device is open and lent once.
abbrev lent_dsp : Registry
lent_dsp = record with_dsp {
  cache = ("dsp.A", record { handle = 7; refs = pos 1 }) ∷ [];
  locks = ("dsp.A", record { owner = 1; depth = 1 }) ∷ [];
}

-- The device is open and idle.
abbrev idle_dsp : Registry
idle_dsp = record with_dsp { cache = ("dsp.A", record { handle = 7; refs = pos 0 }) ∷ [] }

lent_dsp-IsHeld : IsHeld "dsp.A" lent_dsp
unfolding lookup
lent_dsp-IsHeld = record { has_spec = refl; held = refl }

refresh-IsHeld_example :
    let t = refresh (("dsp", seen []) ∷ []) lent_dsp in
    let u = refresh_plugin "dsp" (seen []) lent_dsp in
    (mem "dsp.A" t.specs ≡ true)
    × (lookup "dsp.A" t.cache ≡ lookup "dsp.A" lent_dsp.cache)
    × (mem "dsp.A" u.specs ≡ true)
    × (lookup "dsp.A" u.cache ≡ lookup "dsp.A" lent_dsp.cache)
refresh-IsHeld_example =
    refresh-IsHeld (("dsp", seen []) ∷ []) "dsp" (seen []) "dsp.A" lent_dsp lent_dsp-IsHeld

drop_vanished_one_leaks_example :
    let t = drop_vanished_one [] "dsp.A" idle_dsp in
    (mem "dsp.A" t.specs ≡ false) × (lookup "dsp.A" t.cache ≡ none) × (t.closed ≡ idle_dsp.closed)
unfolding lookup
drop_vanished_one_leaks_example = drop_vanished_one_leaks [] "dsp.A" idle_dsp refl refl refl

first_lend : enter 1 "dsp.A" (opened 7) with_dsp ≡ some (lent 7, lent_dsp)
unfolding enter lookup insert
first_lend = refl

abbrev no_id : Option String
no_id = none
