-- ===== src/Server/Store.antt =====
-- server.py: the state directory and what the handlers read from outside.
use test_serv.Base.{
  ℕ, Bool, true, false, Option, none, some, List, [], ◌∷◌, ◌+◌, ◌*◌, String, ltb, take,
  if◌then◌else◌,
}
use test_serv.Base.Dict.{Dict, lookup, erase}
use test_serv.Json
use test_serv.Json.{Json, Items}
use test_serv.Server.Digest.{is_digest}

abbrev pub Bytes : Type 0
Bytes = List ℕ

-- A file: its modification time, in milliseconds, and its contents.
pub record File : Type 0 where
  pub mtime : ℕ
  pub body : Bytes

-- A meta file, which is text.
pub record MetaFile : Type 0 where
  pub mtime : ℕ
  pub content : String

-- `<digest>.plan` and `<digest>.plan.meta` of INPUTS and of DONE, `<digest>.tar` of OUTPUTS, the
-- markers of CANCEL with their times, and the snapshots of STATUS. Each dict's keys are the names
-- without that ending.
pub record State : Type 0 where
  pub inputs : Dict File
  pub inputs_meta : Dict MetaFile
  pub done : Dict File
  pub done_meta : Dict MetaFile
  pub outputs : Dict File
  pub cancel : Dict ℕ
  pub status : Dict File
  pub release : Dict ℕ
  pub sweep : Bool

abbrev pub empty_state : State
empty_state = record {
  inputs = [];
  inputs_meta = [];
  done = [];
  done_meta = [];
  outputs = [];
  cancel = [];
  status = [];
  release = [];
  sweep = false;
}

-- hashlib and json, which the program calls. `loads` is none where json.loads raises ValueError.
pub record Externals : Type 0 where
  pub sha256 : Bytes → String
  pub loads : Bytes → Option Json

-- The Content-Length header as an integer; `negative n` is -(n + 1).
pub data ContentLength : Type 0 where
  bytes : ℕ → ContentLength
  negative : ℕ → ContentLength

pub data Payload : Type 0 where
  nothing : Payload
  text : String → Payload
  json : Json → Payload
  plan : Bytes → Dict String → Payload

-- What a handler sends: the status code and the body.
pub record Reply : Type 0 where
  pub code : ℕ
  pub payload : Payload

abbrev pub reply : ℕ → Payload → Reply
reply c p = record { code = c; payload = p }

abbrev pub max_artefact_bytes : ℕ
max_artefact_bytes = 256 * 1024 * 1024

abbrev pub max_status_bytes : ℕ
max_status_bytes = 4 * 1024 * 1024

abbrev pub max_queued_plans : ℕ
max_queued_plans = 256

abbrev pub prune_min_age : ℕ
prune_min_age = 30_000

abbrev pub inflight_stale : ℕ
inflight_stale = 300_000

-- n < 0 or n > limit
abbrev pub out_of_range : ℕ → ContentLength → Bool
out_of_range limit (bytes n) = ltb limit n
out_of_range limit (negative n) = true

-- rfile.read(n) if n else b"", of what the client sends.
abbrev pub read_body : ContentLength → Bytes → Bytes
read_body (bytes n) stream = take n stream
read_body (negative n) stream = []

-- Removing one name from a directory; a missing file is passed over.
abbrev pub unlink_input : String → State → State
unlink_input k s = record s { inputs = erase k s.inputs }

abbrev pub unlink_input_meta : String → State → State
unlink_input_meta k s = record s { inputs_meta = erase k s.inputs_meta }

abbrev pub unlink_done : String → State → State
unlink_done k s = record s { done = erase k s.done }

abbrev pub unlink_done_meta : String → State → State
unlink_done_meta k s = record s { done_meta = erase k s.done_meta }

abbrev pub unlink_output : String → State → State
unlink_output k s = record s { outputs = erase k s.outputs }

abbrev pub unlink_cancel : String → State → State
unlink_cancel k s = record s { cancel = erase k s.cancel }

-- The digest of one entry of inflight.json, if the entry is an object with a safe one.
unfoldable pub entry_digest : Json → List String
entry_digest (Json.obj fs) = elim (Json.get "digest" fs) [
  | some (Json.str d) ↦ if is_digest d then d ∷ [] else []
  | _ ↦ []
]
entry_digest _ = []

unfoldable pub entry_digests : Items → List String
entry_digests Items.nil = []
entry_digests (Items.cons e es) = elim (entry_digest e) [
  | [] ↦ entry_digests es
  | d ∷ _ ↦ d ∷ entry_digests es
]

pub decoded_digests : Option Json → List String
decoded_digests (some (Json.arr es)) = entry_digests es
decoded_digests _ = []

module _ (ext : Externals) where
  -- `if not raw` tells an empty file from one to decode.
  pub snapshot_digests : Bytes → List String
  unfolding decoded_digests
  snapshot_digests [] = []
  snapshot_digests (b ∷ bs) = decoded_digests (ext.loads (b ∷ bs))

  unfoldable pub inflight_digests : ℕ → State → List String
  unfolding snapshot_digests
  inflight_digests now s = elim (lookup "inflight.json" s.status) [
    | none ↦ []
    | some f ↦ if ltb (f.mtime + inflight_stale) now then [] else snapshot_digests f.body
  ]
