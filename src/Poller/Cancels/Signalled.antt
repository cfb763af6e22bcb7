-- ===== src/Poller/Cancels/Signalled.antt =====
-- poller.py: which sessions a drain of the cancel markers signals.
use test_serv.Base.{
  ℕ, ◌≡◌, ◌∙◌, Bool, true, ◌&&◌, ◌||◌, any, ◌==◌, none, false, str_eq, refl, some, List, [], ◌∷◌,
  String, arith, eq_iff, keep, ap, Option-cases, Bool-cases, inl, inr,
}
use mathlib.Core.Path.{subst}
use test_serv.Base.Dict.{lookup, mem, contains}
use test_serv.Poller.Cancels.{Cancels, only_active, drain_digest, drain_digests, drain_cancels}

pub contains-keep :
    (d : String) (p : String → Bool) (xs : List String)
    → contains d (keep p xs) ≡ (contains d xs && p d)
contains-keep d p [] = refl
contains-keep d p (x ∷ xs) = ground (arith, contains-keep d p xs, eq_iff x d)

-- The digests that will have been signalled: those before, and the active ones of the list.
pub drain_digests-signaled :
    (ds : List String) (j : String) (s : Cancels)
    → let t = drain_digests ds s in
      (t.active ≡ s.active)
      × (contains j t.signaled ≡ (contains j s.signaled || (contains j ds && mem j s.active)))
unfolding drain_digests drain_digest
drain_digests-signaled [] j s = (refl, ground arith)
drain_digests-signaled (d ∷ ds) j s = elim (Bool-cases (contains d s.signaled)) [
  | inl e ↦ ground (arith, e, drain_digests-signaled ds j s, eq_iff d j)
  | inr e ↦ elim (Option-cases (lookup d s.active)) [
    | inl gone ↦ ground (
      arith,
      e,
      gone,
      drain_digests-signaled ds j (record s { resolved = d ∷ s.resolved }),
      eq_iff d j,
    )
    | inr (session, here) ↦ ground (
      arith,
      e,
      here,
      drain_digests-signaled ds j
          (record s { cancelled = session ∷ s.cancelled; signaled = d ∷ s.signaled }),
      eq_iff d j,
    )
  ]
]

-- A list whose active digests were all signalled before makes no signal.
drain_digests-quiet :
    (ds : List String) (s : Cancels)
    → ((j : String) → contains j ds ≡ true → mem j s.active ≡ true → contains j s.signaled ≡ true)
    → (drain_digests ds s).cancelled ≡ s.cancelled
unfolding drain_digests drain_digest
drain_digests-quiet [] s known = refl
drain_digests-quiet (d ∷ ds) s known =
    let rest : (j : String)
        → contains j ds ≡ true
        → mem j s.active ≡ true
        → contains j s.signaled ≡ true =
      λ j listed live. known j (ground arith) live in
    elim (Bool-cases (contains d s.signaled)) [
      | inl e ↦ ground (arith, e, drain_digests-quiet ds s rest)
      | inr e ↦ elim (Option-cases (lookup d s.active)) [
        | inl gone ↦
            ground
              (arith, e, gone, drain_digests-quiet ds (record s { resolved = d ∷ s.resolved }) rest)
        | inr (session, here) ↦ absurd (ground (arith, known d, e, here, eq_iff d d))
      ]
    ]

-- Whether signal_cancel was called for the session.
abbrev pub was_cancelled : ℕ → Cancels → Bool
was_cancelled session s = any (λ n. n == session) s.cancelled

-- What a drain does with one digest: one that is marked, one with no session, one with a session.
pub drain_digest-marked :
    (d : String) (s : Cancels) → contains d s.signaled ≡ true → drain_digest d s ≡ s
unfolding drain_digest
drain_digest-marked d s e = rw (e, drain_digest) refl

pub drain_digest-gone :
    (d : String) (s : Cancels)
    → contains d s.signaled ≡ false
    → lookup d s.active ≡ none
    → drain_digest d s ≡ record s { resolved = d ∷ s.resolved }
unfolding drain_digest
drain_digest-gone d s e gone = rw (e, gone, drain_digest) refl

abbrev pub signalled : String → ℕ → Cancels → Cancels
signalled d n s = record s { cancelled = n ∷ s.cancelled; signaled = d ∷ s.signaled }

pub drain_digest-live :
    (d : String) (n : ℕ) (s : Cancels)
    → contains d s.signaled ≡ false
    → lookup d s.active ≡ some n
    → drain_digest d s ≡ signalled d n s
unfolding drain_digest
drain_digest-live d n s e here = rw (e, here, drain_digest) refl

drain_digest_keeps :
    (d : String) (session : ℕ) (s : Cancels)
    → was_cancelled session s ≡ true
    → was_cancelled session (drain_digest d s) ≡ true
unfolding drain_digest
drain_digest_keeps d session s h = elim (Option-cases (lookup d s.active)) [
  | inl gone ↦ ground (arith, gone, h)
  | inr (n, here) ↦ ground (arith, here, h)
]

drain_digests_keeps :
    (ds : List String) (session : ℕ) (s : Cancels)
    → was_cancelled session s ≡ true
    → was_cancelled session (drain_digests ds s) ≡ true
unfolding drain_digests
drain_digests_keeps [] session s h = h
drain_digests_keeps (d ∷ ds) session s h =
    drain_digests_keeps ds session (drain_digest d s) (drain_digest_keeps d session s h)

-- A digest other than d keeps its session, and its mark if it has none.
drain_digest_others :
    (d j : String) (s : Cancels)
    → str_eq d j ≡ false
    → (lookup j (drain_digest d s).active ≡ lookup j s.active)
      × (contains j (drain_digest d s).signaled ≡ contains j s.signaled)
unfolding drain_digest
drain_digest_others d j s other = elim (Option-cases (lookup d s.active)) [
  | inl gone ↦ ground (arith, gone, other)
  | inr (n, here) ↦ ground (arith, here, other)
]

-- A listed digest that was not signalled before: its session is signalled.
drain_digests_signals :
    (ds : List String) (j : String) (session : ℕ) (s : Cancels)
    → contains j ds ≡ true
    → lookup j s.active ≡ some session
    → contains j s.signaled ≡ false
    → was_cancelled session (drain_digests ds s) ≡ true
unfolding drain_digests
drain_digests_signals [] j session s listed live new = absurd (ground arith)
drain_digests_signals (d ∷ ds) j session s listed live new = elim (Bool-cases (str_eq d j)) [
  | inl same ↦
      let eq : j ≡ d = ground (arith, same, eq_iff d j) in
      let fresh : contains d s.signaled ≡ false =
        subst (λ x. contains x s.signaled ≡ false) eq new in
      let here : lookup d s.active ≡ some session =
        subst (λ x. lookup x s.active ≡ some session) eq live in
      ap (λ t. was_cancelled session (drain_digests ds t))
        (drain_digest-live d session s fresh here)
      ∙ drain_digests_keeps ds session (signalled d session s) (ground arith)
  | inr other ↦
      let (same_active, same_marks) = drain_digest_others d j s other in
      drain_digests_signals ds j session (drain_digest d s) (ground (arith, listed, other))
        (same_active ∙ live) (same_marks ∙ new)
]

-- A drain signals the live session of every listed digest that was not signalled before, and every
-- listed digest with a live session then counts as signalled. A further drain with the same list,
-- while the same sessions live, signals no session.
pub drain_cancels_once :
    (ds : List String) (s t : Cancels)
    → t.active ≡ s.active
    → t.signaled ≡ (drain_cancels (some ds) s).signaled
    → ((j : String)
        → contains j ds ≡ true
        → mem j s.active ≡ true
        → contains j (drain_cancels (some ds) s).signaled ≡ true)
      × ((j : String) (session : ℕ)
          → contains j ds ≡ true
          → lookup j s.active ≡ some session
          → contains j s.signaled ≡ false
          → was_cancelled session (drain_cancels (some ds) s) ≡ true)
      × ((drain_cancels (some ds) t).cancelled ≡ t.cancelled)
unfolding drain_cancels
drain_cancels_once ds s t same kept =
    let first : (j : String)
        → contains j ds ≡ true
        → mem j s.active ≡ true
        → contains j (drain_digests ds (only_active s)).signaled ≡ true =
      λ j listed live. ground (arith, drain_digests-signaled ds j (only_active s)) in
    (
      first,
      λ j session listed live new.
          drain_digests_signals ds j session (only_active s) listed live
            (ground (arith, contains-keep j (λ d. mem d s.active) s.signaled, new)),
      drain_digests-quiet ds (only_active t) (λ j listed live.
          ground
            (arith, first j listed, same, kept, contains-keep j (λ d. mem d t.active) t.signaled)),
    )
