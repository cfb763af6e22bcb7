-- ===== src/Plan/Tar.antt =====
-- plan.py: load_tar, looks_like_tar, extract_description and the check of blob references.
pub mod Sound
use test_serv.Base.{
  ℕ, ◌+◌, ◌*◌, Bool, true, false, not, Option, none, some, List, [], ◌∷◌, String, code, ◌&&◌, ◌||◌,
  ◌==◌, ltb, leb, length, take, drop, if◌then◌else◌, str_eq,
}
use test_serv.Base.Text.{has_char, starts_with_char}
use test_serv.Base.Dict.{Dict, lookup, insert, mem}
use test_serv.Plan.Value.{
  tar_too_large, bad_tar, unsafe_member, plan_txt_too_large, too_many_blobs, blob_too_large,
  missing_plan_txt, unicode_error, tar_error, blob_not_in_tar, Result, ok, err, ◌>>=◌, Value, int,
  str, bool, ident, blob, PyText,
}
use test_serv.Plan.Text.{Op, max_plan_text_bytes, parse_text}

abbrev pub max_blob_bytes : ℕ
max_blob_bytes = 512 * 1024 * 1024

abbrev pub max_blobs : ℕ
max_blobs = 64

pub record Member : Type 0 where
  pub name : String
  pub is_file : Bool
  pub is_truncated : Bool
  pub body : List ℕ

-- A tar that tarfile.open refuses with a TarError, one whose getmembers raises it, or the members.
-- The read of a member that is truncated raises it too.
pub data TarFile : Type 0 where
  no_tar broken_tar : TarFile
  opened : List Member → TarFile

-- tarfile and the UTF-8 codec. `decode` is none on UnicodeDecodeError, and
-- `decode_lossy` is errors="replace".
pub record Files : Type 0 where
  pub members : List ℕ → TarFile
  pub decode : List ℕ → Option String
  pub decode_lossy : List ℕ → String

pub record Plan : Type 0 where
  pub ops : List Op
  pub blobs : Dict (List ℕ)
  pub text : String

-- ".." in name
unfoldable pub has_dots : String → Bool
has_dots String.[] = false
has_dots (String.◌∷◌ c s) = (code c == b'.' && starts_with_char b'.' s) || has_dots s

unfoldable pub is_unsafe : String → Bool
unfolding has_dots has_char
is_unsafe name = has_char b'/' name || has_dots name || starts_with_char b'.' name

-- plan_text and blobs, as the loop over the members has filled them so far; n_blobs counts the
-- blob members.
pub record Loaded : Type 0 where
  pub plan_text : Option String
  pub blobs : Dict (List ℕ)
  pub n_blobs : ℕ

abbrev pub no_members : Loaded
no_members = record { plan_text = none; blobs = []; n_blobs = 0 }

-- A blob that the tar does not hold, on the first line that names it.
unfoldable pub check_args : ℕ → Dict Value → Dict (List ℕ) → Result (Unit {0})
check_args lineno [] available = ok tt
check_args lineno ((k, blob name) ∷ args) available =
    if mem name available
    then check_args lineno args available
    else err (blob_not_in_tar lineno name)
check_args lineno ((k, int n) ∷ args) available = check_args lineno args available
check_args lineno ((k, str s) ∷ args) available = check_args lineno args available
check_args lineno ((k, bool b) ∷ args) available = check_args lineno args available
check_args lineno ((k, ident s) ∷ args) available = check_args lineno args available

unfoldable pub check_blob_refs : List Op → Dict (List ℕ) → Result (Unit {0})
unfolding check_args
check_blob_refs [] available = ok tt
check_blob_refs (op ∷ ops) available =
    check_args op.lineno op.args available >>= λ _. check_blob_refs ops available

module _ (files : Files) where
  abbrev decoded : Loaded → Option String → Result Loaded
  decoded st none = err unicode_error
  decoded st (some text) = ok (record st { plan_text = some text })

  -- One member of the tar.
  unfoldable pub load_member : Loaded → Member → Result Loaded
  unfolding is_unsafe
  load_member st m =
      if not m.is_file
      then ok st
      else if is_unsafe m.name
      then err (unsafe_member m.name)
      else if m.is_truncated
      then err tar_error
      else if str_eq m.name "plan.txt"
      then (if ltb max_plan_text_bytes (length m.body)
          then err plan_txt_too_large
          else decoded st (files.decode m.body))
      else if leb max_blobs st.n_blobs
      then err too_many_blobs
      else if ltb max_blob_bytes (length m.body)
      then err (blob_too_large m.name)
      else ok (record st { blobs = insert m.name m.body st.blobs; n_blobs = st.n_blobs + 1 })

  unfoldable pub load_members : Loaded → List Member → Result Loaded
  load_members st [] = ok st
  load_members st (m ∷ ms) = load_member st m >>= λ st'. load_members st' ms

  unfoldable pub finish_load : PyText → Loaded → Result Plan
  finish_load py st = elim st.plan_text [
    | none ↦ err missing_plan_txt
    | some text ↦ (do
      ops ← parse_text py text
      checked ← check_blob_refs ops st.blobs
      ok (record { ops = ops; blobs = st.blobs; text = text }))
  ]

  abbrev pub load_opened : PyText → TarFile → Result Plan
  load_opened py no_tar = err bad_tar
  load_opened py broken_tar = err tar_error
  load_opened py (opened ms) = load_members no_members ms >>= finish_load py

  unfoldable pub load_tar : PyText → List ℕ → Result Plan
  unfolding load_members finish_load
  load_tar py tar =
      if ltb (max_plan_text_bytes + max_blob_bytes * max_blobs + 65536) (length tar)
      then err tar_too_large
      else load_opened py (files.members tar)

-- data[257:262] == b"ustar"
abbrev same_bytes : List ℕ → List ℕ → Bool
same_bytes [] [] = true
same_bytes [] (b ∷ bs) = false
same_bytes (a ∷ cs) [] = false
same_bytes (a ∷ cs) (b ∷ bs) = a == b && same_bytes cs bs

pub looks_like_tar : List ℕ → Bool
looks_like_tar d =
    leb 512 (length d) && same_bytes (take 5 (drop 257 d)) (b'u' ∷ b's' ∷ b't' ∷ b'a' ∷ b'r' ∷ [])

-- The text argument of the first op whose verb is "description", be it a device's or the control verb.
pub find_description : List Op → Option Value
find_description [] = none
find_description (op ∷ ops) =
    let later = find_description ops in
    if str_eq op.verb "description"
    then elim (lookup "text" op.args) [ none ↦ later | some v ↦ some v ]
    else later

abbrev description_of : Result (List Op) → Option Value
description_of (err e) = none
description_of (ok ops) = find_description ops

-- tf.extractfile("plan.txt"): the last member of that name; KeyError if there is none.
pub last_member : String → List Member → Option Member
last_member name [] = none
last_member name (m ∷ ms) = elim (last_member name ms) [
  | some later ↦ some later
  | none ↦ if str_eq m.name name then some m else none
]

module _ (files : Files) (py : PyText) where
  -- The member's text, if it is a file; a TarError of any of the three, a missing member or a directory gives None.
  pub packed_text : TarFile → Option String
  unfolding last_member
  packed_text no_tar = none
  packed_text broken_tar = none
  packed_text (opened ms) = elim (last_member "plan.txt" ms) [
    | none ↦ none
    | some m ↦ if m.is_file && not m.is_truncated then some (files.decode_lossy m.body) else none
  ]

  pub body_text : List ℕ → Option String
  unfolding packed_text looks_like_tar
  body_text body =
      if looks_like_tar body
      then packed_text (files.members body)
      else some (files.decode_lossy body)

  unfoldable pub extract_description : List ℕ → Option Value
  unfolding body_text find_description
  extract_description body = elim (body_text body) [
    | none ↦ none
    | some text ↦ description_of (parse_text py text)
  ]
