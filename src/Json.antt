-- ===== src/Json.antt =====
-- JSON values, as json.loads returns them and json.dumps takes them.
use test_serv.Base.{ℕ, Bool, Option, none, some, List, [], ◌∷◌, String, str_eq, if◌then◌else◌}

mutual
  pub data Json : Type 0 where
    null : Json
    bool : Bool → Json
    num : ℕ → Json
    str : String → Json
    arr : Items → Json
    obj : Fields → Json

  pub data Items : Type 0 where
    nil : Items
    cons : Json → Items → Items

  pub data Fields : Type 0 where
    end : Fields
    field : String → Json → Fields → Fields

-- d.get(k) of a decoded object
unfoldable pub get : String → Fields → Option Json
get k end = none
get k (field j v fs) = if str_eq j k then some v else get k fs

-- [str(x) for x in xs] as a JSON array
unfoldable pub strings : List String → Items
strings [] = nil
strings (s ∷ ss) = cons (str s) (strings ss)

-- {"status": tag, "digest": digest, ...}
abbrev pub status_of : String → String → Fields → Json
status_of tag digest more = obj (field "status" (str tag) (field "digest" (str digest) more))
