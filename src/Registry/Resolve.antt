-- ===== src/Registry/Resolve.antt =====
-- registry.py: DeviceRegistry.resolve, from a job's reference to a device key.
pub mod Chosen
use Prim.Native.String.{◌++◌}
use test_serv.Base.{
  Bool, true, not, ◌&&◌, ◌||◌, Option, none, some, List, [], ◌∷◌, String, code, ◌==◌, str_eq,
  if◌then◌else◌, keep,
}
use test_serv.Base.Text.{has_char}
use test_serv.Base.Dict.{Dict}
use test_serv.Base.Result.{Fallible, ok, err}
use test_serv.Registry.{Spec, Registry}

-- The two messages of LookupError.
pub data LookupError : Type 0 where
  no_match ambiguous : LookupError

-- s.endswith(suffix)
unfoldable pub ends_with : String → String → Bool
ends_with suffix String.[] = str_eq String.[] suffix
ends_with suffix (String.◌∷◌ c s) =
    let later = ends_with suffix s in str_eq (String.◌∷◌ c s) suffix || later

-- k.rsplit(".", 1)[-1] of a key, which has a dot.
unfoldable pub after_last_dot : String → String
after_last_dot String.[] = String.[]
after_last_dot (String.◌∷◌ c s) =
    let rest = after_last_dot s in
    if has_char b'.' s then rest else if code c == b'.' then s else String.◌∷◌ c s

-- Whether a key of the plugin's specs is a candidate for the id.
abbrev pub fits : Option String → String → Bool
fits none key = true
fits (some spec_id) key = ends_with ("." ++ spec_id) key

unfoldable pub candidates : String → Option String → Dict (String × Spec) → List String
candidates plugin_name spec_id [] = []
candidates plugin_name spec_id ((key, (p, spec)) ∷ specs) =
    let rest = candidates plugin_name spec_id specs in
    if str_eq p plugin_name && fits spec_id key then key ∷ rest else rest

-- Not the catch-all instance.
abbrev pub is_real : String → Bool
is_real key = not (str_eq (after_last_dot key) "any")

abbrev pub single : List String → Fallible LookupError String
single [] = err ambiguous
single (key ∷ []) = ok key
single (key ∷ k ∷ ks) = err ambiguous

-- Several candidates and no id: the real one if there is one.
abbrev pub choose_real : List String → Fallible LookupError String
choose_real ks = single (keep is_real ks)

abbrev pub pick_key : Option String → List String → Fallible LookupError String
pick_key spec_id [] = err no_match
pick_key spec_id (key ∷ []) = ok key
pick_key none (key ∷ k ∷ ks) = choose_real (key ∷ k ∷ ks)
pick_key (some i) (key ∷ k ∷ ks) = ok key

unfoldable pub resolve : String → Option String → Registry → Fallible LookupError String
unfolding candidates
resolve plugin_name spec_id s = pick_key spec_id (candidates plugin_name spec_id s.specs)
