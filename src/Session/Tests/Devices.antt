-- ===== src/Session/Tests/Devices.antt =====
-- session.py: an op on a device, and an append to an empty stream.
use test_serv.Base.{ℕ, ◌+◌, ◌≤◌, ◌≡◌, refl, true, false, none, some, List, [], ◌∷◌, String, arith}
use mathlib.Core.List.{◌++◌}
use test_serv.Base.Int.{pos}
use test_serv.Base.Dict.{Dict, lookup, insert, mem}
use test_serv.Json
use test_serv.Registry.{Registry, new_registry}
use test_serv.Registry.Specs.{kept}
use test_serv.Registry.Lend.{
  opened, enter, exit, drop_lock, take_lock, check_key, begin_lend, finish_open,
}
use test_serv.Registry.Lend.Balance.{depth}
use test_serv.Registry.Resolve.{resolve, candidates}
use test_serv.Session.Locks.{pin}
use test_serv.Session.Stream.{new_stream, append, joined}
use test_serv.Session.Stream.Log.{ByteLog, Implements, append-Implements}
use test_serv.Session.Devices.{
  Held, DeviceOp, op_raised, run_device_op, on_resolved, lock_late, on_device,
}
use test_serv.Session.Devices.Balanced.{held_by, run_device_op-Balanced}

abbrev with_dsp : Registry
with_dsp = record (new_registry ("dsp" ∷ [])) {
  specs = ("dsp.A", ("dsp", record { id = some "A"; info = Json.null })) ∷ [];
}

abbrev before : Held
before = record { registry = with_dsp; session_locked = []; pinned = []; touched = [] }

-- The op's own code raises.
abbrev reset : DeviceOp
reset = record {
  plugin_name = "dsp";
  spec_id = none;
  verb = "reset";
  decodes = true;
  probe = kept;
  canceled = false;
  opening = opened 7;
  returns = false;
}

abbrev after : Held
after = record {
  registry = record with_dsp {
    cache = ("dsp.A", record { handle = 7; refs = pos 0 }) ∷ [];
    locks = ("dsp.A", record { owner = 1; depth = 1 }) ∷ [];
    pinned_specs = ("dsp.A", 1) ∷ [];
  };
  session_locked = "dsp.A" ∷ [];
  pinned = [];
  touched = "dsp.A" ∷ [];
}

abbrev verbs : Dict (List String)
verbs = ("dsp", "reset" ∷ []) ∷ []

raises : run_device_op verbs 1 reset before ≡ some (some op_raised, after)
unfolding run_device_op on_resolved lock_late on_device enter exit drop_lock take_lock check_key
    begin_lend finish_open resolve candidates pin lookup insert
raises = refl

nothing_pinned : (k : String) → mem k before.pinned ≡ true → 1 ≤ depth k before.registry
unfolding lookup
nothing_pinned k h = absurd (ground arith)

run_device_op-Balanced_example :
    depth "dsp.A" after.registry + held_by "dsp.A" before
    ≡ depth "dsp.A" before.registry + held_by "dsp.A" after
run_device_op-Balanced_example =
    run_device_op-Balanced verbs 1 reset before nothing_pinned raises "dsp.A"

abbrev no_bytes : ByteLog
no_bytes = record { all_bytes = []; forgotten = 0 }

fresh-Implements : Implements new_stream no_bytes
unfolding joined
fresh-Implements = record { bytes = refl; count = refl; within = omega arith }

append-Implements_example :
    (n : ℕ) × (0 ≤ n)
    × Implements
        (append 5 (7 ∷ []) new_stream)
        (record { all_bytes = [] ++ (7 ∷ []); forgotten = n })
append-Implements_example = append-Implements 5 (7 ∷ []) new_stream no_bytes refl fresh-Implements
