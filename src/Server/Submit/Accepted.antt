-- ===== src/Server/Submit/Accepted.antt =====
-- server.py: what POST /submit leaves behind.
use text.Mathlib.TextLemmas.{nil-append, cons-append}
use test_serv.Base.{
  ℕ, zero, suc, ◌≤◌, ◌≡◌, ◌≢◌, ◌∙◌, sym, refl, Bool, true, false, not, ◌||◌, ◌==◌, Option, none,
  some, [], ◌∷◌, String, code, arith, if◌then◌else◌, ◌⊎◌, inl, inr, Option-cases, Bool-cases,
  str_eq, eq_iff,
}
use test_serv.Base.Int.{pos, negsuc}
use test_serv.Base.Text.{is_empty, text_take, text_length, text_length-take-le, all_chars}
use test_serv.Base.Dict.{Dict, lookup, insert, lookup-insert}
use test_serv.Plan.Value.{Value, PyText}
use test_serv.Plan.Tar.{Files, extract_description}
use test_serv.Server.Meta.{is_newline}
use test_serv.Server.Store.{Bytes, State, Externals, ContentLength, out_of_range, read_body, Reply}
use test_serv.Server.Queue.{QueueStatus, queued, queue_job}
use test_serv.Server.Queue.Admission.{queue_job_refuses}
use test_serv.Server.Submit.{
  meta_from_headers, take_header, blank_breaks, describe, packed, submit_body, submit_job,
  submit_reply, send_status, submit_empty, submit_too_large, submit_disk_full, max_plan_bytes,
}

blank_breaks-lines : (s : String) → all_chars (λ c. not (is_newline c)) (blank_breaks s) ≡ true
unfolding blank_breaks all_chars is_newline
blank_breaks-lines String.[] = refl
blank_breaks-lines (String.◌∷◌ c s) = elim (Bool-cases (code c == 13 || code c == 10)) [
  | inl e ↦ rw (e, blank_breaks, cons-append, nil-append) (blank_breaks-lines s)
  | inr e ↦ rw (e, blank_breaks) (ground (arith, blank_breaks-lines s))
]

all_chars-take :
    (n : ℕ) (s : String)
    → all_chars (λ c. not (is_newline c)) s ≡ true
    → all_chars (λ c. not (is_newline c)) (text_take n s) ≡ true
unfolding all_chars text_take is_newline
all_chars-take zero s h = refl
all_chars-take (suc n) String.[] h = refl
all_chars-take (suc n) (String.◌∷◌ c s) h = ground (arith, all_chars-take n s)

-- A header value that fits one line of at most 4096 characters.
pub record IsHeader (v : String) : Type 0 where
  pub one_line : all_chars (λ c. not (is_newline c)) v ≡ true
  pub short : text_length v ≤ 4096

clean-IsHeader : (t : String) → IsHeader (text_take 4096 (blank_breaks t))
clean-IsHeader t = record {
  one_line = all_chars-take 4096 (blank_breaks t) (blank_breaks-lines t);
  short = text_length-take-le 4096 (blank_breaks t);
}

lookup-take_header :
    (header key j : String) (headers meta : Dict String)
    → str_eq key j ≡ false
    → lookup j (take_header header key headers meta) ≡ lookup j meta
unfolding take_header
lookup-take_header header key j headers meta miss = elim (Option-cases (lookup header headers)) [
  | inl e ↦ ground arith
  | inr (v, e) ↦ ground (arith, lookup-insert key j v meta)
]

fresh_headers : (headers : Dict String) → lookup "description" (meta_from_headers headers) ≡ none
unfolding meta_from_headers lookup
fresh_headers headers =
    lookup-take_header "X-Test-Upload-Timeout" "upload-timeout" "description" headers
      (take_header "X-Test-Runtime" "runtime" headers []) refl
    ∙ lookup-take_header "X-Test-Runtime" "runtime" "description" headers [] refl

labelled :
    (t : String) (meta : Dict String) {v : String}
    → lookup "description" meta ≡ none
    → lookup "description"
        (if is_empty t then meta else insert "description" (text_take 4096 (blank_breaks t)) meta)
      ≡ some v
    → IsHeader v
labelled t meta {v} fresh h = elim (Bool-cases (is_empty t)) [
  | inl e ↦ absurd (ground arith)
  | inr e ↦
      let stored : text_take 4096 (blank_breaks t) ≡ v = ground (
        arith,
        lookup-insert "description" "description" (text_take 4096 (blank_breaks t)) meta,
        eq_iff "description" "description",
      ) in
      rw (sym stored) (clean-IsHeader t)
]

describe-IsHeader :
    (found : Option Value) (meta meta' : Dict String) {v : String}
    → lookup "description" meta ≡ none
    → describe found meta ≡ some meta'
    → lookup "description" meta' ≡ some v
    → IsHeader v
unfolding describe
describe-IsHeader none meta meta' fresh h at = absurd (ground arith)
describe-IsHeader (some (Value.str t)) meta meta' fresh h at = labelled t meta fresh (ground arith)
describe-IsHeader (some (Value.ident t)) meta meta' fresh h at =
    labelled t meta fresh (ground arith)
describe-IsHeader (some (Value.blob t)) meta meta' fresh h at = labelled t meta fresh (ground arith)
describe-IsHeader (some (Value.bool true)) meta meta' fresh h at = absurd (ground arith)
describe-IsHeader (some (Value.bool false)) meta meta' fresh h at = absurd (ground arith)
describe-IsHeader (some (Value.int (pos zero))) meta meta' fresh h at = absurd (ground arith)
describe-IsHeader (some (Value.int (pos (suc n)))) meta meta' fresh h at = absurd (ground arith)
describe-IsHeader (some (Value.int (negsuc n))) meta meta' fresh h at = absurd (ground arith)

module _ (ext : Externals) (files : Files) (py : PyText) (pack : Bytes → Bytes) where
  -- A refusal that changes nothing, or a queued plan whose description fits a header line.
  abbrev pub Submitted : ℕ → Bytes → State → Reply → State → Type 0
  Submitted now raw s r t =
      let body = packed ext files py pack raw in
      ((r.code ≢ 201) × (t ≡ s))
      ⊎ ((meta : Dict String) × (t ≡ (queue_job ext now body meta s).1)
          × ((queue_job ext now body meta s).0.1 ≡ queued)
          × (r.code ≡ 201)
          × ((v : String) → lookup "description" meta ≡ some v → IsHeader v))

  submit_reply-code : (d : String) (q : QueueStatus) → q ≡ queued ⊎ (submit_reply d q).code ≢ 201
  submit_reply-code d queued = inl refl
  submit_reply-code d QueueStatus.queue_full = inr (λ e. absurd (ground arith))
  submit_reply-code d QueueStatus.stale_outputs = inr (λ e. absurd (ground arith))
  submit_reply-code d QueueStatus.duplicate = inr (λ e. absurd (ground arith))

  code_ne_queued : (d : String) (q : QueueStatus) → (submit_reply d q).code ≢ 201 → q ≢ queued
  code_ne_queued d q ne e = ne (rw e refl)

  send_status-Submitted :
      (now : ℕ) (raw : Bytes) (meta : Dict String) (s : State)
      → ((v : String) → lookup "description" meta ≡ some v → IsHeader v)
      → let body = packed ext files py pack raw in
        let o = send_status ext files py pack (queue_job ext now body meta s) in
        Submitted now raw s o.0 o.1
  send_status-Submitted now raw meta s safe =
      let body = packed ext files py pack raw in
      let o = queue_job ext now body meta s in
      elim (submit_reply-code o.0.0 o.0.1) [
        | inl taken ↦ inr (meta, refl, taken, rw taken refl, safe)
        | inr ne ↦ inl (ne, queue_job_refuses ext now s body meta (code_ne_queued o.0.0 o.0.1 ne))
      ]

  submit_body-Submitted :
      (now : ℕ) (raw : Bytes) (headers : Dict String) (s : State) {o : Reply × State}
      → submit_body ext files py pack now raw headers s ≡ some o
      → Submitted now raw s o.0 o.1
  unfolding submit_body
  submit_body-Submitted now [] headers s {o} h =
      let refused : o ≡ (submit_empty, s) = ground arith in
      rw refused (inl ((λ e. absurd (ground arith)), refl))
  submit_body-Submitted now (b ∷ bs) headers s {o} h =
      let body = packed ext files py pack (b ∷ bs) in
      let found = extract_description files py body in
      elim (Option-cases (describe found (meta_from_headers headers))) [
        | inl e ↦ absurd (ground arith)
        | inr (meta, e) ↦
            let sent : o ≡ send_status ext files py pack (queue_job ext now body meta s) =
              ground arith in
            rw sent (
              send_status-Submitted now (b ∷ bs) meta s (λ v at.
                describe-IsHeader found (meta_from_headers headers) meta (fresh_headers headers) e
                  at))
      ]

  -- A submission that sends a reply is refused with nothing changed, or it is answered 201 and
  -- queues the body, packed as a tar if it was plain text, with a meta dict whose description, if
  -- there is one, has no line break and at most 4096 characters.
  pub submit_job_lem :
      (now : ℕ) (full : Bool) (n : ContentLength) (stream : Bytes) (headers : Dict String)
      (s : State) {o : Reply × State}
      → submit_job ext files py pack now full n stream headers s ≡ some o
      → Submitted now (read_body n stream) s o.0 o.1
  unfolding submit_job
  submit_job_lem now full n stream headers s {o} h =
      elim (Bool-cases (out_of_range max_plan_bytes n)) [
        | inl e ↦
            let refused : o ≡ (submit_too_large, s) = ground arith in
            rw refused (inl ((λ e. absurd (ground arith)), refl))
        | inr e ↦ elim (Bool-cases full) [
          | inl e' ↦
              let refused : o ≡ (submit_disk_full, s) = ground arith in
              rw refused (inl ((λ e. absurd (ground arith)), refl))
          | inr e' ↦ submit_body-Submitted now (read_body n stream) headers s {o = o} (ground arith)
        ]
      ]
