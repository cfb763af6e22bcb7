-- ===== src/Server/Meta.antt =====
-- server.py: the meta file beside a plan, `key=value` lines, as queue_job writes them and
-- _read_meta reads them.
pub mod RoundTrip
use Prim.Native.String.{◌++◌}
use test_serv.Base.{
  Bool, Option, none, some, List, [], ◌∷◌, ◌||◌, ◌≡◌, refl, String, Char, code, ◌==◌, if◌then◌else◌,
}
use test_serv.Base.Text.{is_space, lstrip, rstrip, partition, is_empty}
use test_serv.Base.Dict.{Dict, insert}

-- The lines of a text file. A carriage return ends a line too; the empty line that "\r\n" then
-- makes holds no key and is passed over by the reader.
unfoldable pub is_newline : Char → Bool
is_newline c = code c == 10 || code c == 13

abbrev push_char : Char → List String → List String
push_char c [] = String.◌∷◌ c String.[] ∷ []
push_char c (l ∷ ls) = String.◌∷◌ c l ∷ ls

pub lines : String → List String
unfolding is_newline
lines String.[] = []
lines (String.◌∷◌ c s) =
    let rest = lines s in if is_newline c then String.[] ∷ rest else push_char c rest

-- "".join(f"{k}={v}\n" for k, v in meta.items())
pub format_meta : Dict String → String
format_meta [] = ""
format_meta ((k, v) ∷ meta) = k ++ ("=" ++ (v ++ ("\n" ++ format_meta meta)))

-- What one line adds to the dict.
abbrev pub add_entry : String × Option String → Dict String → Dict String
add_entry (k, none) meta = if is_empty k then meta else insert k "" meta
add_entry (k, some v) meta = if is_empty k then meta else insert k v meta

pub read_lines : Dict String → List String → Dict String
read_lines meta [] = meta
read_lines meta (l ∷ ls) = read_lines (add_entry (partition b'=' (rstrip (lstrip l))) meta) ls

pub read_meta : String → Dict String
unfolding read_lines lines
read_meta text = read_lines [] (lines text)

read_meta_test :
    read_meta "runtime=30\ndescription=a=b \n" ≡ ("runtime", "30") ∷ ("description", "a=b") ∷ []
unfolding read_meta lstrip rstrip is_space partition insert
read_meta_test = refl
