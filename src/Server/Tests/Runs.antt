-- ===== src/Server/Tests/Runs.antt =====
-- server.py: concrete uploads, cancels and sweeps.
use test_serv.Base.{
  ◌≡◌, ◌↔◌, refl, true, false, not, ◌&&◌, ◌||◌, none, some, [], ◌∷◌, String, arith, str_eq,
  if◌then◌else◌,
}
use test_serv.Base.Dict.{insert, erase, lookup, mem, contains}
use test_serv.Base.Text.{split_lines, is_space, rstrip, all_chars}
use test_serv.Server.Digest.{is_digest, hex_digits, is_hex, split_name, lstrip_dots}
use test_serv.Server.Store.{bytes, inflight_digests, max_artefact_bytes, out_of_range}
use test_serv.Plan.Value.{PyText}
use test_serv.Plan.Tar.{no_tar, Files, extract_description}
use test_serv.Plan.Text.{parse_text, parse_lines}
use test_serv.Server.Submit.{submit_job, submit_reply}
use test_serv.Server.Submit.Accepted.{Submitted, submit_job_lem}
use test_serv.Server.Queue.{queue_job, queued, admission, drop_marker, write_plan, write_meta}
use test_serv.Server.Upload.{
  artefact, artefact_ext, plan_present, delete_outputs, output_names, store_artefact,
}
use test_serv.Server.Upload.Gate.{artefact_accepts, has_job}
use test_serv.Server.Cancel.{cancel_job, is_fresh}
use test_serv.Server.Cancel.Outcomes.{cancel_job_running, cancel_is_listed}
use test_serv.Server.Sweep.{live_markers, prune_stale_jobs}
use test_serv.Server.Sweep.Prune.{
  prune_stale_jobs_lem, prune_after_slow_queue, count_abandoned, is_abandoned,
}
use test_serv.Server.Meta.{format_meta, read_meta, is_newline}
use test_serv.Server.Meta.RoundTrip.{IsKey, IsClean, starts_solid, read_meta-format}
use test_serv.Server.Store.{empty_state}
use test_serv.Server.Jobs.{collect_jobs}
use test_serv.Server.Jobs.Rows.{status_of, phase, collect_jobs-status}
use test_serv.Server.Tests.{
  digest_b, outside, two_digests-is_digest, queued_b, running_b, finished_b, claimed_b,
}

abbrev tar_b : String
tar_b = "0123456789abcdef0123456789abcdef0123456789abcdef0123456789abcdef.tar"

artefact_accepts_example :
    let (d, url_ext) = split_name tar_b in
    ((artefact outside 5 false (bytes 1) (9 ∷ []) tar_b running_b).0.code ≡ 200) ↔ (
      (is_digest d ≡ true)
      × (str_eq (artefact_ext url_ext) "tar" ≡ true)
      × (out_of_range max_artefact_bytes (bytes 1) ≡ false)
      × (false ≡ false)
      × (has_job outside 5 d running_b ≡ true))
artefact_accepts_example = artefact_accepts outside 5 false (bytes 1) (9 ∷ []) tar_b running_b

stored_b : (artefact outside 5 false (bytes 1) (9 ∷ []) tar_b running_b).0.code ≡ 200
unfolding artefact split_name is_digest hex_digits is_hex plan_present lookup all_chars lstrip_dots
stored_b = refl

deleted_b : (delete_outputs digest_b "" finished_b).0 ≡ 1
unfolding delete_outputs output_names lookup
deleted_b = refl

emptied_b : running_b.outputs ≡ (delete_outputs digest_b "" finished_b).1.outputs
unfolding delete_outputs output_names lookup erase
emptied_b = refl

cancel_job_running_example :
    let t = (cancel_job outside 5 digest_b running_b).1 in
    let owned =
      contains digest_b (inflight_digests outside 5 running_b) || is_fresh 5 digest_b running_b in
    ((cancel_job outside 5 digest_b running_b).0.code
      ≡ (if mem digest_b running_b.done then 200 else 404))
    × (t.outputs ≡ running_b.outputs)
    × ((j : String)
        → (lookup j t.done ≡ (
            if mem digest_b running_b.done && not owned && str_eq digest_b j
            then none
            else lookup j running_b.done))
          × (lookup j t.cancel ≡ (
              if mem digest_b running_b.done && str_eq digest_b j
              then (if owned then some 5 else none)
              else lookup j running_b.cancel)))
unfolding lookup
cancel_job_running_example = cancel_job_running outside 5 digest_b running_b refl

owned_b :
    contains digest_b (inflight_digests outside 5 running_b) || is_fresh 5 digest_b running_b ≡ true
unfolding inflight_digests is_fresh lookup
owned_b = refl

cancel_is_listed_example :
    let t = (cancel_job outside 5 digest_b running_b).1 in
    let u = record t { cancel = (live_markers 6 t.cancel).1 } in
    (contains digest_b (live_markers 7 u.cancel).0 ≡ true)
    × (contains digest_b (live_markers 8 (store_artefact outside 8 digest_b [] u).cancel).0 ≡ false)
unfolding lookup
cancel_is_listed_example =
    cancel_is_listed outside 5 6 7 8 digest_b [] running_b (two_digests-is_digest (7 ∷ [])) refl
      refl owned_b (omega arith) (omega arith)

prune_stale_jobs_lem_example :
    let live = inflight_digests outside 99_000 running_b in
    ((j : String)
      → lookup j (prune_stale_jobs outside 99_000 running_b).1.done
        ≡ (elim (lookup j running_b.done) [
          | none ↦ none
          | some f ↦ if is_abandoned 99_000 live running_b.outputs j f then none else some f
        ]))
    × ((prune_stale_jobs outside 99_000 running_b).0
        ≡ count_abandoned 99_000 live running_b.outputs running_b.done)
unfolding lookup
prune_stale_jobs_lem_example = prune_stale_jobs_lem outside 99_000 running_b (refl, tt)

prune_after_slow_queue_example :
    let u = (prune_stale_jobs outside 99_000 running_b).1 in
    (mem digest_b u.done ≡ false) × (plan_present outside 99_000 digest_b u ≡ false)
unfolding lookup inflight_digests
prune_after_slow_queue_example =
    prune_after_slow_queue outside 99_000 digest_b queued_b claimed_b (omega arith)
      (two_digests-is_digest (7 ∷ [])) refl refl

description-IsKey : IsKey "description"
unfolding all_chars starts_solid is_newline is_space
description-IsKey = record { solid = refl; one_line = refl; no_equals = refl }

value-IsClean : IsClean "boot test = 3"
unfolding all_chars is_newline rstrip is_space
value-IsClean = record { one_line = refl; stripped = refl }

read_meta-format_example :
    read_meta (format_meta (("description", "boot test = 3") ∷ []))
    ≡ ("description", "boot test = 3") ∷ []
unfolding lookup
read_meta-format_example =
    read_meta-format (("description", "boot test = 3") ∷ [])
      ((description-IsKey, value-IsClean), tt) (refl, tt)

-- No text of Python's is read, and every tar is empty.
abbrev no_files : Files
no_files = record { members = λ tar. no_tar; decode = λ raw. none; decode_lossy = λ raw. "" }

abbrev no_text : PyText
no_text = record { is_alnum = λ c. false; is_alpha = λ c. false; int_of = λ base s. none }

submitted_b :
    submit_job outside no_files no_text (λ raw. raw) 5 false (bytes 1) (7 ∷ []) [] empty_state
    ≡ some (
      submit_reply digest_b queued,
      record empty_state { inputs = (digest_b, record { mtime = 5; body = 7 ∷ [] }) ∷ [] },
    )
unfolding submit_job extract_description parse_text parse_lines split_lines queue_job admission
    lookup inflight_digests drop_marker write_plan erase insert write_meta
submitted_b = refl

submit_job_lem_example :
    Submitted outside no_files no_text
      (λ raw. raw)
      5
      (7 ∷ [])
      empty_state
      (submit_reply digest_b queued)
      (record empty_state { inputs = (digest_b, record { mtime = 5; body = 7 ∷ [] }) ∷ [] })
submit_job_lem_example =
    submit_job_lem outside no_files no_text (λ raw. raw) 5 false (bytes 1) (7 ∷ []) [] empty_state
      submitted_b

collect_jobs-status_example :
    status_of (lookup digest_b (collect_jobs (λ d. none) finished_b)) ≡ phase digest_b finished_b
collect_jobs-status_example = collect_jobs-status (λ d. none) finished_b digest_b
