-- ===== src/Server/Upload.antt =====
-- server.py: _artefact, parse_output_name, delete_outputs, _delete_outputs, _receive_status, and the
-- HEAD and GET of an artefact.
pub mod Gate
use test_serv.Base.{
  ℕ, Bool, true, false, Option, none, some, List, [], ◌∷◌, ◌&&◌, ◌||◌, not, String, str_eq,
  if◌then◌else◌,
}
use test_serv.Base.Text.{is_empty}
use test_serv.Base.Dict.{lookup, insert, mem, contains}
use test_serv.Json
use test_serv.Json.{Fields}
use test_serv.Server.Digest.{is_digest, is_safe_name, lstrip_dots, split_name}
use test_serv.Server.Store.{
  Bytes, State, Externals, ContentLength, out_of_range, read_body, Payload, nothing, json, Reply,
  reply, max_artefact_bytes, max_status_bytes, inflight_digests, unlink_cancel, unlink_output,
  unlink_done, unlink_done_meta,
}

-- The bare extension of an upload; none is "tar".
abbrev pub artefact_ext : String → String
artefact_ext url_ext = if is_empty url_ext then "tar" else lstrip_dots url_ext

module _ (ext : Externals) where
  -- The three signals that a job record matches the digest.
  unfoldable pub plan_present : ℕ → String → State → Bool
  plan_present now digest s =
      mem digest s.done || mem digest s.inputs || contains digest (inflight_digests ext now s)

  -- The artefact is stored, and the cancel marker of a finished job goes.
  unfoldable pub store_artefact : ℕ → String → Bytes → State → State
  store_artefact now digest body s =
      unlink_cancel digest
        (record s { outputs = insert digest (record { mtime = now; body = body }) s.outputs })

  unfoldable pub artefact : ℕ → Bool → ContentLength → Bytes → String → State → Reply × State
  artefact now disk_full n stream path s =
      let (digest, url_ext) = split_name path in
      if not (is_digest digest)
      then (reply 400 nothing, s)
      else if not (str_eq (artefact_ext url_ext) "tar")
      then (reply 400 nothing, s)
      else if out_of_range max_artefact_bytes n
      then (reply 413 nothing, s)
      else if disk_full
      then (reply 507 nothing, s)
      else if not (plan_present now digest s)
      then (reply 409 (Payload.text "no matching job record; refusing artefact\n"), s)
      else (reply 200 nothing, store_artefact now digest (read_body n stream) s)

pub parse_output_name : String → Option (String × String)
parse_output_name name =
    let (digest, ext) = split_name name in
    if not (is_digest digest)
    then none
    else if not (is_empty ext) && not (is_safe_name (lstrip_dots ext))
    then none
    else some (digest, ext)

-- OUTPUTS holds `<digest>.tar` alone, since _artefact is its only writer: with no extension every
-- file of the digest is the tar, and any other extension names no file.
unfoldable pub output_names : String → String → State → Bool
output_names digest ext s = (is_empty ext || str_eq ext ".tar") && mem digest s.outputs

abbrev pub drop_record : Bool → String → State → State
drop_record true digest s = unlink_done_meta digest (unlink_done digest s)
drop_record false digest s = s

-- The number of files removed. The job record goes only if an output went.
unfoldable pub delete_outputs : String → String → State → ℕ × State
delete_outputs digest ext s =
    if output_names digest ext s
    then (1, drop_record (is_empty ext) digest (unlink_output digest s))
    else (0, s)

unfoldable pub delete_handler : String → State → Reply × State
delete_handler name s = elim (parse_output_name name) [
  | none ↦ (reply 400 nothing, s)
  | some (digest, ext) ↦
      let (removed, s') = delete_outputs digest ext s in
      (
        reply 200 (
            json (
              Json.obj (
                Json.field "status" (Json.str "ok")
                  (Json.field "removed" (Json.num removed) Fields.end)))),
        s',
      )
]

-- GET /outputs/<digest>.<ext>
pub fetch_output : String → State → Reply
fetch_output name s = elim (parse_output_name name) [
  | none ↦ reply 400 nothing
  | some (digest, ext) ↦
      if is_empty ext
      then reply 400 nothing
      else if str_eq ext ".tar"
      then elim (lookup digest s.outputs) [
        | none ↦ reply 404 nothing
        | some f ↦ reply 200 (Payload.plan f.body [])
      ]
      else reply 404 nothing
]

-- HEAD /outputs/<digest>.tar, with the digest that the route's regex has matched.
pub head_output : String → State → Reply
head_output digest s = if mem digest s.outputs then reply 200 nothing else reply 404 nothing

-- POST /status/<name>
abbrev pub allowed_status_files : List String
allowed_status_files = "devices.json" ∷ "ops.json" ∷ "inflight.json" ∷ "bench.json" ∷ []

unfoldable pub receive_status : ℕ → ContentLength → Bytes → String → State → Reply × State
receive_status now n stream name s =
    if not (contains name allowed_status_files)
    then (reply 400 nothing, s)
    else if out_of_range max_status_bytes n
    then (reply 413 nothing, s)
    else (
      reply 200 (json (Json.obj (Json.field "status" (Json.str "ok") Fields.end))),
      record s {
        status = insert name (record { mtime = now; body = read_body n stream }) s.status;
      },
    )
