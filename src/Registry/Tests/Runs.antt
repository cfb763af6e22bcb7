-- ===== src/Registry/Tests/Runs.antt =====
-- A thread that acquires a device, and the theorems on threads at its world.
use test_serv.Base.{ℕ, ◌≡◌, refl, false, some, List, [], ◌∷◌, String, arith}
use test_serv.Base.Int.{pos}
use test_serv.Base.Dict.{lookup, insert}
use test_serv.Json
use test_serv.Registry.{Registry, new_registry}
use test_serv.Registry.Specs.{Probe, seen, refresh, release_now}
use test_serv.Registry.Specs.Keeps.{refs_of}
use test_serv.Registry.Lend.{check_key, take_lock, opened, begin_lend, finish_open}
use test_serv.Registry.Threads.{
  Phase, World, Step, Reach, Acquire, total, uses_key, using, waiting, locked, opening,
}
use test_serv.Registry.Threads.Exclusive.{handle_of}
use test_serv.Registry.Threads.Reached.{one_thread_per_device, lent_handle_stays}

abbrev probes : List (String × Probe)
probes = ("dsp", seen (record { id = some "A"; info = Json.null } ∷ [])) ∷ []

-- The device is found, thread 1 passes the checks, takes the lock, and the plugin opens handle 7.
abbrev scanned : Registry
scanned = record (new_registry ("dsp" ∷ [])) {
  specs = ("dsp.A", ("dsp", record { id = some "A"; info = Json.null })) ∷ [];
  locks = ("dsp.A", record { owner = 0; depth = 0 }) ∷ [];
}

abbrev taken : Registry
taken = record scanned { locks = ("dsp.A", record { owner = 1; depth = 1 }) ∷ [] }

abbrev one_at : Phase → Registry → World
one_at p s = record {
  registry = s;
  acquires = record { thread = 1; key = "dsp.A"; phase = p } ∷ [];
}

abbrev lent_once : Registry
lent_once = record taken { cache = ("dsp.A", record { handle = 7; refs = pos 1 }) ∷ [] }

abbrev acquire_at : Phase → Acquire
acquire_at p = record { thread = 1; key = "dsp.A"; phase = p }

found : Reach ("dsp" ∷ []) (record { registry = scanned; acquires = [] })
unfolding refresh insert lookup
found = Reach.next Reach.start (Step.refreshes probes)

waits : Reach ("dsp" ∷ []) (one_at waiting scanned)
unfolding check_key lookup
waits = Reach.next found (Step.starts 1 "dsp.A" refl refl)

has_lock : Reach ("dsp" ∷ []) (one_at locked taken)
unfolding take_lock lookup insert
has_lock = Reach.next waits (Step.locks 0 (acquire_at waiting) refl refl refl)

is_opening : Reach ("dsp" ∷ []) (one_at opening taken)
unfolding begin_lend lookup
is_opening = Reach.next has_lock (Step.lends 0 (acquire_at locked) refl refl)

is_using : Reach ("dsp" ∷ []) (one_at (using 7) lent_once)
unfolding finish_open insert
is_using = Reach.next is_opening (Step.opens (opened 7) 0 (acquire_at opening) refl refl)

one_thread_per_device_example : ◌≡◌ {A = ℕ} 1 1
one_thread_per_device_example =
    one_thread_per_device is_using 0 0 (acquire_at (using 7)) (acquire_at (using 7)) refl refl
      (omega arith) (omega arith) refl

lent_handle_stays_example :
    (handle_of (lookup "dsp.A" lent_once.cache) ≡ some 7)
    × (refs_of (lookup "dsp.A" lent_once.cache)
        ≡ pos (total (uses_key "dsp.A") (acquire_at (using 7) ∷ [])))
    × (release_now "dsp.A" lent_once ≡ (false, lent_once))
lent_handle_stays_example = lent_handle_stays is_using 0 (acquire_at (using 7)) 7 refl refl
