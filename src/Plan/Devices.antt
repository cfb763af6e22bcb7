-- ===== src/Plan/Devices.antt =====
-- plan.py: split_device_ref, required_devices and required_device_refs.
pub mod Sets
use Prim.Native.String.{◌++◌}
use test_serv.Base.{Option, none, some, List, [], ◌∷◌, String, if◌then◌else◌}
use test_serv.Base.Text.{has_char, is_empty, partition}
use test_serv.Base.Dict.{contains}
use test_serv.Plan.Text.{Op}

-- A set as a list in which each element stands once.
pub add : String → List String → List String
add x xs = if contains x xs then xs else x ∷ xs

abbrev id_of : Option String → Option String
id_of none = none
id_of (some s) = if is_empty s then none else some s

-- `(plugin, spec_id)` of a device reference; a trailing dot gives no id.
pub split_device_ref : String → String × Option String
split_device_ref device =
    if has_char b'.' device
    then (let (plugin, spec) = partition b'.' device in (plugin, id_of spec))
    else (device, none)

pub required_devices : List Op → List String
unfolding add split_device_ref
required_devices [] = []
required_devices (op ∷ ops) = elim op.device [
  | none ↦ required_devices ops
  | some d ↦ add (split_device_ref d).0 (required_devices ops)
]

abbrev pub ref_text : String × Option String → String
ref_text (plugin, none) = plugin
ref_text (plugin, some id) = plugin ++ ("." ++ id)

unfoldable pub required_device_refs : List Op → List String
unfolding add split_device_ref
required_device_refs [] = []
required_device_refs (op ∷ ops) = elim op.device [
  | none ↦ required_device_refs ops
  | some d ↦ add (ref_text (split_device_ref d)) (required_device_refs ops)
]
