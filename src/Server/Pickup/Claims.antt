-- ===== src/Server/Pickup/Claims.antt =====
-- server.py: what a pickup takes and answers, with other requests between its listing and rename.
use test_serv.Base.{
  ℕ, zero, suc, ◌≡◌, ◌≢◌, refl, true, false, none, some, List, [], ◌∷◌, inl, inr, String, arith,
  sym, ap, str_eq, if◌then◌else◌, ◌∙◌, Option-cases, eq_iff,
}
use test_serv.Base.Dict.{
  Dict, keys, contains, contains-keys, lookup, insert, erase, mem, lookup-erase, lookup-insert,
}
use test_serv.Server.Store.{Bytes, File, State, Reply, reply, nothing, plan}
use test_serv.Server.Pickup.{
  Delivery, reply_sent, Round, pick, choose, claim_plan, claim_meta, finish_claim, pickup_plan,
}

-- The state at the rename of one of the pickup's rounds: other requests acted in that round, and in
-- each round before it, whose renames changed nothing.
pub data Between (rounds : ℕ → Round) : ℕ → State → State → Type 0 where
  this_round : {n : ℕ} {s : State} → Between rounds (suc n) s ((rounds n).meanwhile s)
  later_round :
      {n : ℕ} {s t : State}
      → Between rounds n ((rounds n).meanwhile s) t
      → Between rounds (suc n) s t

-- How a pickup ends: with nothing to hand out, or with one claim.
pub data Outcome (n : ℕ) (rounds : ℕ → Round) (s : State) (delivered : Delivery) (o : Reply × State)
    : Type 0 where
  idle : (t : State) → o ≡ (reply 204 nothing, t) → Outcome n rounds s delivered o
  claimed :
      (k : String) (f : File) (t u : State)
      → Between rounds n s t
      → claim_plan k t ≡ some (f, u)
      → o ≡ finish_claim delivered k f u
      → Outcome n rounds s delivered o

one_more :
    {n : ℕ} {rounds : ℕ → Round} {s : State} {delivered : Delivery} {o : Reply × State}
    → Outcome n rounds ((rounds n).meanwhile s) delivered o
    → Outcome (suc n) rounds s delivered o
one_more (idle t e) = idle t e
one_more (claimed k f t u before won e) = claimed k f t u (later_round before) won e

pub pickup_plan-Outcome :
    (n : ℕ) (rounds : ℕ → Round) (delivered : Delivery) (s : State)
    → Outcome n rounds s delivered (pickup_plan n rounds delivered s)
unfolding pickup_plan
pickup_plan-Outcome zero rounds delivered s = idle s refl
pickup_plan-Outcome (suc n) rounds delivered s =
    elim (Option-cases (pick (rounds n) (keys s.inputs))) [
      | inl e ↦ idle s (rw (e, pickup_plan))
      | inr (k, e) ↦ elim (Option-cases (claim_plan k ((rounds n).meanwhile s))) [
        | inl lost ↦
            rw (e, lost, pickup_plan)
              (one_more (pickup_plan-Outcome n rounds delivered ((rounds n).meanwhile s)))
        | inr ((f, u), won) ↦
            claimed k f ((rounds n).meanwhile s) u this_round won (rw (e, won, pickup_plan))
      ]
    ]

pub finish_claim-delivered :
    (k : String) (f : File) (u : State)
    → let o = finish_claim reply_sent k f u in
      (o.0.code ≡ 200) × (o.1.inputs ≡ u.inputs) × (o.1.done ≡ u.done)
unfolding finish_claim claim_meta
finish_claim-delivered k f u = ground arith

finish_claim-body :
    (k : String) (f : File) (u : State) {body : Bytes} {headers : Dict String}
    → (finish_claim reply_sent k f u).0 ≡ reply 200 (plan body headers)
    → f.body ≡ body
unfolding finish_claim
finish_claim-body k f u h = ground arith

pub claim_plan_lem :
    (k : String) (t : State) {f : File} {u : State}
    → claim_plan k t ≡ some (f, u)
    → (lookup k t.inputs ≡ some f) × (mem k u.inputs ≡ false) × (lookup k u.done ≡ some f)
unfolding claim_plan
claim_plan_lem k t {f} {u} h =
    ground (arith, lookup-erase k k t.inputs, lookup-insert k k f t.done, eq_iff k k)

claim_plan-lookups :
    (k : String) (t : State) {f : File} {u : State}
    → claim_plan k t ≡ some (f, u)
    → (lookup k t.inputs ≡ some f)
      × ((j : String)
          → (lookup j u.inputs ≡ (if str_eq k j then none else lookup j t.inputs))
            × (lookup j u.done ≡ (if str_eq k j then some f else lookup j t.done)))
unfolding claim_plan
claim_plan-lookups k t {f} {u} h =
    (ground arith, λ j. ground (arith, h, lookup-erase k j t.inputs, lookup-insert k j f t.done))

-- Whatever other requests do between the listing and the rename of each round, the plan that a
-- delivered reply carries is the whole body of a file that stood in INPUTS right before the rename of
-- one of the rounds, and this rename moved it: the pickup leaves INPUTS as it was then without this
-- one file, and DONE with it added.
pub pickup_plan_claims :
    (n : ℕ) (rounds : ℕ → Round) (s : State) (body : Bytes) (headers : Dict String)
    → (pickup_plan n rounds reply_sent s).0 ≡ reply 200 (plan body headers)
    → let s' = (pickup_plan n rounds reply_sent s).1 in
      (k : String) × (f : File) × (t : State) × Between rounds n s t
      × (f.body ≡ body)
      × (lookup k t.inputs ≡ some f)
      × ((j : String)
          → (lookup j s'.inputs ≡ (if str_eq k j then none else lookup j t.inputs))
            × (lookup j s'.done ≡ (if str_eq k j then some f else lookup j t.done)))
pickup_plan_claims n rounds s body headers h = elim (pickup_plan-Outcome n rounds reply_sent s) [
  | idle t e ↦ absurd (ground arith)
  | claimed k f t u before won e ↦
      let sent = finish_claim-delivered k f u in
      let (here, moved) = claim_plan-lookups k t won in
      rw e (
        k,
        f,
        t,
        before,
        finish_claim-body k f u (rw e at h),
        here,
        λ j. (
          ap (λ d. lookup j d) (sent.1) ∙ (moved j).0,
          ap (λ d. lookup j d) (sent.2) ∙ (moved j).1,
        ),
      )
]

choose-contains : (i : ℕ) (x : String) (xs : List String) → contains (choose i x xs) (x ∷ xs) ≡ true
unfolding choose
choose-contains zero x xs = ground (arith, eq_iff x x)
choose-contains (suc i) x [] = ground (arith, eq_iff x x)
choose-contains (suc i) x (y ∷ ys) = ground (arith, choose-contains i y ys)

pick-contains :
    (r : Round) (xs : List String) {k : String} → pick r xs ≡ some k → contains k xs ≡ true
pick-contains r [] h = absurd (ground arith)
pick-contains r (x ∷ xs) {k} h = ground (arith, choose-contains r.choice x xs)

claim_plan-found :
    (k : String) (s : State)
    → mem k s.inputs ≡ true
    → (f : File) × (u : State) × (claim_plan k s ≡ some (f, u))
unfolding claim_plan
claim_plan-found k s h = elim (Option-cases (lookup k s.inputs)) [
  | inl e ↦ absurd (ground arith)
  | inr (f, e) ↦
      (f, record s { inputs = erase k s.inputs; done = insert k f s.done }, rw (e, claim_plan))
]

pick-none : (r : Round) (d : Dict File) → pick r (keys d) ≡ none → d ≡ []
pick-none r [] h = refl
pick-none r ((k, f) ∷ d) h = absurd (ground arith)

-- With plans queued and no request in between, a pickup hands one out at once, whichever of the
-- plans the random choice takes.
pub pickup_plan_serves :
    (n : ℕ) (rounds : ℕ → Round) (s : State)
    → s.inputs ≢ []
    → (rounds n).meanwhile s ≡ s
    → (pickup_plan (suc n) rounds reply_sent s).0.code ≡ 200
unfolding pickup_plan
pickup_plan_serves n rounds s some_plan quiet =
    elim (Option-cases (pick (rounds n) (keys s.inputs))) [
      | inl e ↦ absurd (some_plan (pick-none (rounds n) s.inputs e))
      | inr (k, e) ↦
          let listed = pick-contains (rounds n) (keys s.inputs) e in
          let (f, u, won) = claim_plan-found k s (sym (contains-keys k s.inputs) ∙ listed) in
          rw (e, quiet, won, pickup_plan) ((finish_claim-delivered k f u).0)
    ]
