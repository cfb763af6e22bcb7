-- ===== src/Server/Sweep/Prune.antt =====
-- server.py: which job records prune_stale_jobs removes, and which it must not.
use test_serv.Base.{
  ℕ, ◌+◌, ◌≤◌, ◌≡◌, ap, ◌∙◌, refl, Bool, true, false, not, ltb, Option-cases, ◌&&◌, ◌||◌, none,
  some, List, [], ◌∷◌, String, arith, str_eq, eq_iff, if◌then◌else◌, Bool-cases, inl, inr,
}
use test_serv.Base.Dict.{Dict, NodupKeys, lookup, mem, contains, lookup-erase}
use test_serv.Server.Digest.{is_digest}
use test_serv.Server.Store.{File, State, Externals, inflight_digests, prune_min_age}
use test_serv.Server.Pickup.{claim_plan}
use test_serv.Server.Pickup.Claims.{claim_plan_lem}
use test_serv.Server.Upload.{plan_present}
use test_serv.Server.Sweep.{is_stale, prune_loop, prune_stale_jobs}

module _ (now : ℕ) (live : List String) (outputs : Dict File) where
  -- Whether some entry of the listing has the name and is stale, and how many are.
  unfoldable stale_in : String → Dict File → Bool
  stale_in j [] = false
  stale_in j ((k, f) ∷ listing) =
      (str_eq k j && is_stale now live outputs k f) || stale_in j listing

  abbrev pub count_stale : Dict File → ℕ
  count_stale [] = 0
  count_stale ((k, f) ∷ listing) =
      let n = count_stale listing in if is_stale now live outputs k f then n + 1 else n

  lookup-prune_loop :
      (j : String) (listing : Dict File) (s : State)
      → lookup j (prune_loop now live outputs listing s).1.done
        ≡ (if stale_in j listing then none else lookup j s.done)
  unfolding prune_loop stale_in
  lookup-prune_loop j [] s = refl
  lookup-prune_loop j ((k, f) ∷ listing) s = elim (Bool-cases (is_stale now live outputs k f)) [
    | inl e ↦
        rw e (lookup-prune_loop j listing _ ∙ ground (arith, lookup-erase k j s.done, eq_iff k j))
    | inr e ↦ rw e (lookup-prune_loop j listing s ∙ ground (arith, eq_iff k j))
  ]

  count-prune_loop :
      (listing : Dict File) (s : State)
      → (prune_loop now live outputs listing s).0 ≡ count_stale listing
  unfolding prune_loop
  count-prune_loop [] s = refl
  count-prune_loop ((k, f) ∷ listing) s =
      ap (λ m. if is_stale now live outputs k f then m + 1 else m) (count-prune_loop listing _)

  -- In a listing with each name once, the stale names are those whose file is stale.
  stale_in-Nodup :
      (j : String) (d : Dict File)
      → NodupKeys d
      → stale_in j d ≡ (elim (lookup j d) [ none ↦ false | some f ↦ is_stale now live outputs j f ])
  unfolding stale_in lookup
  stale_in-Nodup j [] u = refl
  stale_in-Nodup j ((k, f) ∷ d) u = ground (arith, stale_in-Nodup j d u.1, eq_iff k j)

  stale_in-lookup :
      (j : String) (f : File) (d : Dict File)
      → lookup j d ≡ some f
      → is_stale now live outputs j f ≡ true
      → stale_in j d ≡ true
  unfolding stale_in lookup
  stale_in-lookup j f [] e h = absurd (ground arith)
  stale_in-lookup j f ((k, g) ∷ d) e h = ground (arith, stale_in-lookup j f d, eq_iff k j)

-- A record of a job with no artefact, in none of the poller's sessions, and at least thirty seconds
-- old at the time `now`, in milliseconds.
abbrev pub is_abandoned : ℕ → List String → Dict File → String → File → Bool
is_abandoned now live outputs k f =
    if is_digest k
    then not (mem k outputs || contains k live) && not (ltb now (f.mtime + 30_000))
    else false

pub count_abandoned : ℕ → List String → Dict File → Dict File → ℕ
count_abandoned now live outputs [] = 0
count_abandoned now live outputs ((k, f) ∷ d) =
    let rest = count_abandoned now live outputs d in
    if is_abandoned now live outputs k f then rest + 1 else rest

is_stale-abandoned :
    (now : ℕ) (live : List String) (outputs : Dict File) (k : String) (f : File)
    → is_stale now live outputs k f ≡ is_abandoned now live outputs k f
unfolding is_stale
is_stale-abandoned now live outputs k f = elim (Bool-cases (is_digest k)) [
  | inl e ↦ ground (arith, e)
  | inr e ↦ ground (arith, e)
]

count_stale-abandoned :
    (now : ℕ) (live : List String) (outputs d : Dict File)
    → count_stale now live outputs d ≡ count_abandoned now live outputs d
unfolding count_abandoned
count_stale-abandoned now live outputs [] = refl
count_stale-abandoned now live outputs ((k, f) ∷ d) = rw (is_stale-abandoned now live outputs k f) (
    ap (λ m. if is_abandoned now live outputs k f then m + 1 else m)
      (count_stale-abandoned now live outputs d))

-- prune_stale_jobs removes exactly the job records that are at least thirty seconds old and have
-- neither an artefact nor a fresh inflight entry, and reports how many those are.
pub prune_stale_jobs_lem :
    (ext : Externals) (now : ℕ) (s : State)
    → NodupKeys s.done
    → let live = inflight_digests ext now s in
      ((j : String)
        → lookup j (prune_stale_jobs ext now s).1.done ≡ (elim (lookup j s.done) [
          | none ↦ none
          | some f ↦ if is_abandoned now live s.outputs j f then none else some f
        ]))
      × ((prune_stale_jobs ext now s).0 ≡ count_abandoned now live s.outputs s.done)
unfolding prune_stale_jobs
prune_stale_jobs_lem ext now s u =
    let live = inflight_digests ext now s in
    (
      λ j.
          lookup-prune_loop now live s.outputs j s.done s ∙ (elim (Option-cases (lookup j s.done)) [
            | inl e ↦ ground (arith, stale_in-Nodup now live s.outputs j s.done u, e)
            | inr (f, e) ↦ ground (
              arith,
              stale_in-Nodup now live s.outputs j s.done u,
              e,
              is_stale-abandoned now live s.outputs j f,
            )
          ]),
      count-prune_loop now live s.outputs s.done s
          ∙ count_stale-abandoned now live s.outputs s.done,
    )

prune_loop_keeps :
    (now : ℕ) (live : List String) (outputs listing : Dict File) (s : State)
    → let t = (prune_loop now live outputs listing s).1 in
      (t.inputs ≡ s.inputs) × (t.status ≡ s.status)
unfolding prune_loop
prune_loop_keeps now live outputs [] s = (refl, refl)
prune_loop_keeps now live outputs ((k, f) ∷ listing) s =
    elim (Bool-cases (is_stale now live outputs k f)) [
      | inl e ↦ rw e (prune_loop_keeps now live outputs listing _)
      | inr e ↦ rw e (prune_loop_keeps now live outputs listing s)
    ]

claim_plan_keeps :
    (k : String) (s : State) {f : File} {t : State}
    → claim_plan k s ≡ some (f, t)
    → (t.outputs ≡ s.outputs)
unfolding claim_plan
claim_plan_keeps k s h = ground arith

old-is_stale :
    (now : ℕ) (live : List String) (outputs : Dict File) (k : String) (f : File)
    → f.mtime + prune_min_age ≤ now
    → is_digest k ≡ true
    → mem k outputs ≡ false
    → contains k live ≡ false
    → is_stale now live outputs k f ≡ true
unfolding is_stale
old-is_stale now live outputs k f old safe fresh unseen = ground arith

inflight_digests_of_status :
    (ext : Externals) (now : ℕ) (s t : State)
    → t.status ≡ s.status
    → inflight_digests ext now t ≡ inflight_digests ext now s
unfolding inflight_digests
inflight_digests_of_status ext now s t h = rw h refl

absent-plan_present :
    (ext : Externals) (now : ℕ) (k : String) (s : State)
    → mem k s.done ≡ false
    → mem k s.inputs ≡ false
    → contains k (inflight_digests ext now s) ≡ false
    → plan_present ext now k s ≡ false
unfolding plan_present
absent-plan_present ext now k s a b c = ground arith

-- A pickup keeps the time at which the plan was queued. So a prune after the pickup of a plan
-- queued at least thirty seconds before, with no artefact and no fresh inflight entry, removes its
-- job record, and an upload of its artefact then finds no matching job.
pub prune_after_slow_queue :
    (ext : Externals) (now : ℕ) (k : String) (s : State) {f : File} {t : State}
    → claim_plan k s ≡ some (f, t)
    → f.mtime + prune_min_age ≤ now
    → is_digest k ≡ true
    → mem k s.outputs ≡ false
    → contains k (inflight_digests ext now t) ≡ false
    → let u = (prune_stale_jobs ext now t).1 in
      (mem k u.done ≡ false) × (plan_present ext now k u ≡ false)
unfolding prune_stale_jobs
prune_after_slow_queue ext now k s {f} {t} won old safe fresh unseen =
    let live = inflight_digests ext now t in
    let moved = claim_plan_lem k s won in
    let stale =
      old-is_stale now live t.outputs k f old safe (rw (claim_plan_keeps k s won) fresh) unseen in
    let gone = lookup-prune_loop now live t.outputs k t.done t in
    let listed = stale_in-lookup now live t.outputs k f t.done (moved.2) stale in
    let none_left : mem k (prune_loop now live t.outputs t.done t).1.done ≡ false =
      rw (gone, listed) refl in
    let u = (prune_loop now live t.outputs t.done t).1 in
    let (inputs_kept, status_kept) = prune_loop_keeps now live t.outputs t.done t in
    let unqueued : mem k (prune_loop now live t.outputs t.done t).1.inputs ≡ false =
      rw inputs_kept (moved.1) in
    (
      none_left,
      absent-plan_present ext now k u none_left unqueued
          (rw (inflight_digests_of_status ext now t u status_kept) unseen),
    )
