-- ===== src/Registry/Resolve/Chosen.antt =====
-- registry.py: which device resolve chooses.
use test_serv.Base.{
  ◌≡◌, ◌≢◌, Bool, true, false, ◌&&◌, ◌||◌, Option, none, List, [], ◌∷◌, String, str_eq,
}
use test_serv.Base.Dict.{Dict, contains}
use test_serv.Registry.{Spec, Registry}
use test_serv.Registry.Resolve.{is_real}

-- An entry of the registry with this key and plugin.
abbrev pub is_of : String → String → Dict (String × Spec) → Bool
is_of plugin_name key [] = false
is_of plugin_name key ((k, (p, spec)) ∷ specs) =
    (str_eq k key && str_eq p plugin_name) || is_of plugin_name key specs

-- The key is a candidate, and with no id given no other candidate is a real instance.
abbrev Chosen : Option String → List String → String → Type 0
Chosen spec_id ks key =
    (contains key ks ≡ true)
    × (spec_id ≡ none → (j : String) → contains j ks ≡ true → j ≢ key → is_real j ≡ false)
