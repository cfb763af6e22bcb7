-- ===== src/Poller/Tests.antt =====
-- poller.py: concrete runs of the spool, the supervisor, the cancels and the transfers.
mod Jobs
use test_serv.Base.{
  ℕ, ◌+◌, ◌<◌, ◌≤◌, ◌≡◌, ◌⊎◌, ◌↔◌, inl, inr, refl, Bool, true, false, ◌&&◌, Option, none, some,
  List, [], ◌∷◌, String, arith, eq_iff, ltb, any, all, if◌then◌else◌,
}
use mathlib.Core.List.{◌++◌}
use test_serv.Base.Int.{ℤ, pos}
use test_serv.Base.Dict.{Dict, lookup, insert, erase, mem, contains}
use test_serv.Server.Digest.{is_hex}
use test_serv.Server.Store.{Bytes, File}
use test_serv.Poller.Spool.{
  Spool, Posted, accepted, http_error, Moment, refused_grace, refused_retry_backoff, retry_time,
  spool_digest, spool_name, spool_artefact, finish_post, drain_one, drain_pending_uploads,
}
use test_serv.Poller.Spool.Uploads.{Uploads, Step, Reach, no_uploads, start, next, spools}
use test_serv.Poller.Spool.Kept.{artefact_is_kept, body_of}
use test_serv.Poller.Spool.Drained.{drain_uploads_all, refusal_lem, is_spool_name, takes_all}
use test_serv.Poller.Supervisor.{Child, died, supervise, Tick, watch, heartbeat_stale_after}
use test_serv.Poller.Supervisor.FastFails.{supervise_goes_on, is_crash, five_fast}
use test_serv.Poller.Cancels.{Cancels, drain_cancels, only_active}
use test_serv.Poller.Cancels.Signalled.{drain_cancels_once, was_cancelled}
use test_serv.Poller.Cancels.Rerun.{rerun_not_signalled, drain_all}
use test_serv.Poller.Transfer.{got, get_chunks}
use test_serv.Poller.Transfer.Chunks.{concat, get_chunks_short}

abbrev pub job : String
job = "0123456789abcdef0123456789abcdef0123456789abcdef0123456789abcdef"

abbrev pub tar_name : String
tar_name = "0123456789abcdef0123456789abcdef0123456789abcdef0123456789abcdef.ab.tar"

abbrev pub tar_file : File
tar_file = record { mtime = 0; body = 7 ∷ [] }

abbrev pub one_spooled : Spool
one_spooled = record {
  pending = (tar_name, tar_file) ∷ [];
  refused = [];
  retry_after = [];
  circuit_until = 0;
}

abbrev after_one : Uploads
after_one = record no_uploads { spool = one_spooled; spooled = (tar_name, 7 ∷ []) ∷ [] }

one_reached : Reach after_one
unfolding spool_artefact spool_name insert lookup
one_reached = next start (spools 0 job "ab" (7 ∷ []) refl)

spooled_lookup : lookup tar_name after_one.spooled ≡ some (7 ∷ [])
unfolding lookup
spooled_lookup = refl

artefact_is_kept_example :
    (body_of (lookup tar_name one_spooled.pending) ≡ some (7 ∷ []))
    ⊎ ((body_of (lookup tar_name one_spooled.refused) ≡ some (7 ∷ []))
        ⊎ ((lookup tar_name after_one.acked ≡ some (7 ∷ []))
            ⊎ ((contains tar_name after_one.dropped ≡ true)
                ⊎ (contains tar_name after_one.expired ≡ true))))
artefact_is_kept_example = artefact_is_kept one_reached tar_name (7 ∷ []) spooled_lookup

abbrev noon : Moment
noon = record { wall = 1_000; mono = 1_000; can_park = true }

pub found_file : lookup tar_name one_spooled.pending ≡ some tar_file
unfolding lookup
found_file = refl

abbrev still : List String → List String
still ns = ns

drain_uploads_all_example :
    lookup tar_name (drain_pending_uploads still 5 (λ n. (5, noon)) takes_all one_spooled).pending
    ≡ (if is_spool_name tar_name then none else lookup tar_name one_spooled.pending)
unfolding lookup
drain_uploads_all_example =
    drain_uploads_all (λ n. (5, noon)) still 5 one_spooled (λ n ns. refl) refl (λ i m. refl)
      tar_name

refusal_lem_example :
    let t = (finish_post noon tar_name (http_error 409) one_spooled).1 in
    (1_000 < 0 + refused_grace
      → (t.pending ≡ one_spooled.pending)
        × (t.refused ≡ one_spooled.refused)
        × ((mono : ℕ) (later : Moment) (post : String → Bytes → Posted)
            → mono < 1_000 + refused_retry_backoff
            → drain_one mono later post tar_name t ≡ t))
    × (0 + refused_grace ≤ 1_000
        → true ≡ true
        → (lookup tar_name t.pending ≡ none) × (lookup tar_name t.refused ≡ some tar_file))
refusal_lem_example = refusal_lem noon tar_name tar_file one_spooled found_file

-- A worker that dies after a second, and a heartbeat that stops.
abbrev crash : Child
crash = died (record { rc = pos 1; elapsed = 1_000; stale = false })

abbrev crashes : List Child
crashes = crash ∷ crash ∷ crash ∷ crash ∷ crash ∷ []

supervise_goes_on_example :
    (supervise crashes 0 ≡ none) ↔ ((all is_crash crashes ≡ true) × (five_fast crashes ≡ false))
supervise_goes_on_example = supervise_goes_on crashes

gives_up : supervise crashes 0 ≡ some 1
unfolding supervise
gives_up = refl

abbrev one_active : Cancels
one_active = record { active = (job, 1) ∷ []; signaled = []; cancelled = []; resolved = [] }

abbrev one_signalled : Cancels
one_signalled = record one_active { signaled = job ∷ []; cancelled = 1 ∷ [] }

signals_one : drain_cancels (some (job ∷ [])) one_active ≡ one_signalled
unfolding drain_cancels lookup
signals_one = refl

drain_cancels_once_example :
    ((j : String)
      → contains j (job ∷ []) ≡ true
      → mem j one_active.active ≡ true
      → contains j (drain_cancels (some (job ∷ [])) one_active).signaled ≡ true)
    × ((j : String) (session : ℕ)
        → contains j (job ∷ []) ≡ true
        → lookup j one_active.active ≡ some session
        → contains j one_active.signaled ≡ false
        → was_cancelled session (drain_cancels (some (job ∷ [])) one_active) ≡ true)
    × ((drain_cancels (some (job ∷ [])) one_signalled).cancelled ≡ one_signalled.cancelled)
unfolding drain_cancels lookup
drain_cancels_once_example = drain_cancels_once (job ∷ []) one_active one_signalled refl refl

-- The plan runs again as session 2.
abbrev again : Dict ℕ
again = (job, 2) ∷ []

only_job : (j : String) → lookup j again ≡ some 2 → j ≡ job
unfolding lookup
only_job j h = ground (arith, eq_iff job j)

abbrev two_drains : List (Option (List String))
two_drains = some (job ∷ []) ∷ some (job ∷ []) ∷ []

rerun_not_signalled_example :
    let t = record (drain_cancels (some (job ∷ [])) one_active) { active = again } in
    was_cancelled 2 (drain_all two_drains t) ≡ was_cancelled 2 t
unfolding lookup
rerun_not_signalled_example =
    rerun_not_signalled job 1 2 (job ∷ []) one_active again two_drains refl refl refl only_job

get_chunks_short_example :
    get_chunks (λ n. 0) 0 9 5 (((1 ∷ 2 ∷ []) ∷ []) ++ ([] ∷ [])) []
    ≡ some (got ([] ++ concat ((1 ∷ 2 ∷ []) ∷ [])))
get_chunks_short_example =
    get_chunks_short (λ n. 0) 0 9 5 ((1 ∷ 2 ∷ []) ∷ []) [] (λ i. omega arith) (omega arith) refl
