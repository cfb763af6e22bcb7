-- ===== src/Server/Submit.antt =====
-- server.py: _meta_from_headers and _submit_job, POST /submit.
pub mod Accepted
use Prim.Native.String.{◌++◌}
use test_serv.Base.{
  ℕ, zero, suc, ◌*◌, Bool, true, false, Option, none, some, [], ◌∷◌, String, code, ◌==◌, ◌||◌,
  if◌then◌else◌,
}
use test_serv.Base.Int.{pos, negsuc}
use test_serv.Base.Text.{is_empty, text_take}
use test_serv.Base.Dict.{Dict, lookup, insert}
use test_serv.Json
use test_serv.Json.{Fields}
use test_serv.Plan.Value
use test_serv.Plan.Value.{Value, PyText}
use test_serv.Plan.Tar.{Files, looks_like_tar, extract_description}
use test_serv.Server.Store.{
  Bytes, State, Externals, ContentLength, out_of_range, read_body, json, Reply, reply,
  max_queued_plans,
}
use test_serv.Server.Queue.{QueueStatus, queue_full, stale_outputs, duplicate, queued, queue_job}

abbrev pub max_plan_bytes : ℕ
max_plan_bytes = 256 * 1024 * 1024

-- One of _META_HEADERS, if the request has it and it is not empty.
pub take_header : String → String → Dict String → Dict String → Dict String
take_header header key headers meta = elim (lookup header headers) [
  | none ↦ meta
  | some v ↦ if is_empty v then meta else insert key v meta
]

pub meta_from_headers : Dict String → Dict String
unfolding take_header
meta_from_headers headers =
    take_header "X-Test-Upload-Timeout" "upload-timeout" headers
      (take_header "X-Test-Runtime" "runtime" headers [])

-- desc.replace("\r", " ").replace("\n", " ")
pub blank_breaks : String → String
blank_breaks String.[] = String.[]
blank_breaks (String.◌∷◌ c s) =
    let rest = blank_breaks s in
    if code c == 13 || code c == 10 then " " ++ rest else String.◌∷◌ c rest

-- What becomes of the meta dict. A description that is not text has no `replace`: none is the
-- AttributeError. A value that is false in a test is passed over.
pub describe : Option Value → Dict String → Option (Dict String)
unfolding blank_breaks
describe none meta = some meta
describe (some (Value.str t)) meta =
    some (if is_empty t then meta else insert "description" (text_take 4096 (blank_breaks t)) meta)
describe (some (Value.ident t)) meta =
    some (if is_empty t then meta else insert "description" (text_take 4096 (blank_breaks t)) meta)
describe (some (Value.blob t)) meta =
    some (if is_empty t then meta else insert "description" (text_take 4096 (blank_breaks t)) meta)
describe (some (Value.bool true)) meta = none
describe (some (Value.bool false)) meta = some meta
describe (some (Value.int (pos zero))) meta = some meta
describe (some (Value.int (pos (suc n)))) meta = none
describe (some (Value.int (negsuc n))) meta = none

abbrev digest_field : String → Fields
digest_field digest = Json.field "digest" (Json.str digest) Fields.end

abbrev limit_field : ℕ → Fields
limit_field n = Json.field "limit" (Json.num n) Fields.end

abbrev status_json : String → Fields → Json.Json
status_json status more = Json.obj (Json.field "status" (Json.str status) more)

abbrev pub submit_empty : Reply
submit_empty = reply 400 (json (status_json "empty" Fields.end))

abbrev pub submit_too_large : Reply
submit_too_large = reply 413 (json (status_json "too_large" (limit_field max_plan_bytes)))

abbrev pub submit_disk_full : Reply
submit_disk_full = reply 507 (json (status_json "disk_full" Fields.end))

abbrev pub submit_reply : String → QueueStatus → Reply
submit_reply digest queue_full =
    reply 429 (json (status_json "queue_full" (limit_field max_queued_plans)))
submit_reply digest stale_outputs =
    reply 409 (json (status_json "stale_outputs" (digest_field digest)))
submit_reply digest duplicate = reply 409 (json (status_json "duplicate" (digest_field digest)))
submit_reply digest queued = reply 201 (json (status_json "queued" (digest_field digest)))

-- `pack` is the tar of one member "plan.txt" that tarfile writes around plain text.
module _ (ext : Externals) (files : Files) (py : PyText) (pack : Bytes → Bytes) where
  pub packed : Bytes → Bytes
  packed body = if looks_like_tar body then body else pack body

  abbrev pub send_status : (String × QueueStatus) × State → Reply × State
  send_status ((digest, status), s) = (submit_reply digest status, s)

  abbrev pub queue_described : ℕ → Bytes → Option (Dict String) → State → Option (Reply × State)
  queue_described now body none s = none
  queue_described now body (some meta) s = some (send_status (queue_job ext now body meta s))

  -- From the body on.
  pub submit_body : ℕ → Bytes → Dict String → State → Option (Reply × State)
  unfolding packed meta_from_headers describe
  submit_body now [] headers s = some (submit_empty, s)
  submit_body now (b ∷ bs) headers s =
      let body = packed (b ∷ bs) in
      queue_described now body
        (describe (extract_description files py body) (meta_from_headers headers)) s

  -- The handler; none is an exception, which sends no reply.
  unfoldable pub submit_job :
      ℕ → Bool → ContentLength → Bytes → Dict String → State → Option (Reply × State)
  unfolding submit_body
  submit_job now disk_full n stream headers s =
      if out_of_range max_plan_bytes n
      then some (submit_too_large, s)
      else if disk_full
      then some (submit_disk_full, s)
      else submit_body now (read_body n stream) headers s
