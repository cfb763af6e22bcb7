-- ===== src/Server/Tests.antt =====
-- server.py: concrete states and requests.
mod Runs
use test_serv.Base.{
  ℕ, ◌<◌, ◌≡◌, ◌≢◌, ◌↔◌, refl, sym, true, false, none, some, [], ◌∷◌, String, arith, eq_iff, str_eq,
  length, if◌then◌else◌,
}
use test_serv.Base.Dict.{insert, erase, lookup, mem, contains}
use test_serv.Server.Digest.{is_digest, hex_digits, is_hex}
use test_serv.Server.Store.{
  Bytes, File, State, Externals, empty_state, inflight_digests, reply, plan, max_queued_plans,
}
use test_serv.Server.Queue.{queue_job, queued, admission, drop_marker, write_plan, write_meta}
use test_serv.Server.Queue.Admission.{
  queue_job_accepts, queue_job_refuses, queue_job_effect, meta_file,
}
use test_serv.Server.Pickup.{
  reply_sent, body_cut, Round, pickup_plan, choose, claim_plan, claim_meta, finish_claim,
}
use test_serv.Server.Pickup.Claims.{Between, pickup_plan_claims, pickup_plan_serves}
use test_serv.Server.Pickup.Rollback.{finish_claim_rolls_back}
use test_serv.Server.Steps.{Reach, start, next, submits}
use test_serv.Server.Workers.{
  WorkersReach, IsBounded, process_request, idle, moves, arrives, WorkersReach-IsBounded,
}
use test_serv.Server.Upload.{store_artefact, delete_outputs, plan_present}
use test_serv.Server.Lifecycle.{queue_job_again, claim_after_queue}
use test_serv.Server.Invariant.{IsValid}
use test_serv.Server.Invariant.Reachable.{Reach-IsValid}

abbrev pub digest_a : String
digest_a = "aaaaaaaaaaaaaaaaaaaaaaaaaaaaaaaaaaaaaaaaaaaaaaaaaaaaaaaaaaaaaaaa"

abbrev pub digest_b : String
digest_b = "0123456789abcdef0123456789abcdef0123456789abcdef0123456789abcdef"

-- A stand-in for sha256, with two digests, and a decoder that refuses everything.
abbrev pub two_digests : Bytes → String
two_digests [] = digest_a
two_digests (b ∷ bs) = digest_b

abbrev pub outside : Externals
outside = record { sha256 = two_digests; loads = λ raw. none }

pub two_digests-is_digest : (b : Bytes) → is_digest (two_digests b) ≡ true
unfolding is_digest hex_digits is_hex
two_digests-is_digest [] = refl
two_digests-is_digest (b ∷ bs) = refl

-- A state with one plan queued for a second, and what is left when it is claimed.
abbrev pub one_plan : File
one_plan = record { mtime = 1_000; body = 7 ∷ [] }

abbrev pub queued_b : State
queued_b = record empty_state { inputs = (digest_b, one_plan) ∷ [] }

abbrev pub running_b : State
running_b = record empty_state { done = (digest_b, one_plan) ∷ [] }

abbrev pub finished_b : State
finished_b = record running_b { outputs = (digest_b, one_plan) ∷ [] }

abbrev alone : ℕ → Round
alone n = record { choice = 0; meanwhile = λ s. s }

queued_b-Reach : Reach outside (queue_job outside 1_000 (7 ∷ []) [] empty_state).1
queued_b-Reach = next start (submits 1_000 (7 ∷ []) [])

Reach-IsValid_example : IsValid (queue_job outside 1_000 (7 ∷ []) [] empty_state).1
Reach-IsValid_example = Reach-IsValid outside two_digests-is_digest queued_b-Reach

queue_job_accepts_example : ((queue_job outside 5 [] [] queued_b).0.1 ≡ queued) ↔ (
    (length queued_b.inputs < max_queued_plans)
    × (mem digest_a queued_b.outputs ≡ false)
    × (mem digest_a queued_b.inputs ≡ false)
    × (mem digest_a queued_b.done ≡ false)
    × (contains digest_a (inflight_digests outside 5 queued_b) ≡ false))
queue_job_accepts_example = queue_job_accepts outside 5 queued_b [] []

not_queued : (queue_job outside 5 (7 ∷ []) [] queued_b).0.1 ≢ queued
unfolding queue_job admission inflight_digests lookup
not_queued e = absurd (ground arith)

pub queued_a : (queue_job outside 5 [] [] queued_b).0.1 ≡ queued
unfolding queue_job admission inflight_digests lookup
queued_a = refl

queue_job_effect_example :
    let t = (queue_job outside 5 [] [] queued_b).1 in
    ((j : String)
      → (lookup j t.inputs ≡ (
          if str_eq digest_a j
          then some (record { mtime = 5; body = [] })
          else lookup j queued_b.inputs))
        × (lookup j t.inputs_meta
            ≡ (if str_eq digest_a j then meta_file 5 [] else lookup j queued_b.inputs_meta))
        × (lookup j t.cancel ≡ (if str_eq digest_a j then none else lookup j queued_b.cancel)))
    × (t.done ≡ queued_b.done)
    × (t.outputs ≡ queued_b.outputs)
    × (t.done_meta ≡ queued_b.done_meta)
    × (t.status ≡ queued_b.status)
queue_job_effect_example = queue_job_effect outside 5 queued_b [] [] queued_a

picked_b : (pickup_plan 8 alone reply_sent queued_b).0 ≡ reply 200 (plan (7 ∷ []) [])
unfolding pickup_plan choose claim_plan claim_meta finish_claim lookup insert erase
picked_b = refl

pickup_plan_claims_example :
    let s' = (pickup_plan 8 alone reply_sent queued_b).1 in
    (k : String) × (f : File) × (t : State) × Between alone 8 queued_b t
    × (f.body ≡ 7 ∷ [])
    × (lookup k t.inputs ≡ some f)
    × ((j : String)
        → (lookup j s'.inputs ≡ (if str_eq k j then none else lookup j t.inputs))
          × (lookup j s'.done ≡ (if str_eq k j then some f else lookup j t.done)))
pickup_plan_claims_example = pickup_plan_claims 8 alone queued_b (7 ∷ []) [] picked_b

some_input : queued_b.inputs ≢ []
some_input e = absurd (ground arith)

pub claimed_b : claim_plan digest_b queued_b ≡ some (one_plan, running_b)
unfolding claim_plan lookup insert erase
claimed_b = refl

none-mem : {P : Type 0} (k : String) → mem {V = File} k [] ≡ true → P
unfolding lookup
none-mem k h = absurd (ground arith)

only_b : (k : String) → mem k queued_b.inputs ≡ true → is_digest k ≡ true
unfolding lookup
only_b k h = rw (sym ((eq_iff digest_b k).0 (ground arith))) (two_digests-is_digest (7 ∷ []))

queued_b-IsValid : IsValid queued_b
unfolding lookup
queued_b-IsValid = record {
  exclusive = λ k h. refl;
  safe_inputs = only_b;
  safe_done = λ k h. none-mem k h;
  safe_outputs = λ k h. none-mem k h;
}

finish_claim_rolls_back_example :
    let u = (finish_claim body_cut digest_b one_plan running_b).1 in
    (lookup digest_b u.inputs ≡ lookup digest_b queued_b.inputs)
    × (lookup digest_b u.inputs_meta ≡ lookup digest_b queued_b.inputs_meta)
    × (lookup digest_b u.done ≡ lookup digest_b queued_b.done)
finish_claim_rolls_back_example =
    finish_claim_rolls_back digest_b queued_b queued_b-IsValid claimed_b digest_b

one_worker : WorkersReach (record { active = 1; running = 1 })
unfolding process_request
one_worker = moves idle (arrives true)

abbrev file_a : File
file_a = record { mtime = 5; body = [] }

-- One plan is picked up while another waits.
abbrev claimed_a : State
claimed_a = record queued_b { done = (digest_a, file_a) ∷ [] }

claim_of_a : claim_plan digest_a (queue_job outside 5 [] [] queued_b).1 ≡ some (file_a, claimed_a)
unfolding queue_job admission inflight_digests lookup claim_plan erase insert drop_marker write_plan
    write_meta
claim_of_a = refl

queue_job_again_example :
    let finished = store_artefact outside 6 digest_a (9 ∷ []) claimed_a in
    let (removed, cleaned) = delete_outputs digest_a "" finished in
    (plan_present outside 6 digest_a claimed_a ≡ true)
    × (removed ≡ 1)
    × ((queue_job outside 7 [] [] claimed_a).0.1 ≢ queued)
    × ((queue_job outside 7 [] [] finished).0.1 ≢ queued)
    × (contains digest_a (inflight_digests outside 7 cleaned) ≡ false
        → length cleaned.inputs < max_queued_plans
        → (queue_job outside 7 [] [] cleaned).0.1 ≡ queued)
queue_job_again_example = queue_job_again outside 5 6 7 [] (9 ∷ []) [] queued_b queued_a claim_of_a
