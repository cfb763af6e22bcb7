-- ===== src/Poller/Cancels/Rerun.antt =====
-- poller.py: a plan that runs again after its cancel was signalled.
use test_serv.Base.{
  ℕ, ◌≡◌, ◌∙◌, true, ◌==◌, Option, none, false, refl, some, List, [], ◌∷◌, String, arith, ap, sym,
  Option-cases, Bool-cases, inl, inr,
}
use mathlib.Core.Path.{subst}
use test_serv.Base.Dict.{Dict, lookup, mem, contains}
use test_serv.Poller.Cancels.{Cancels, only_active, drain_digest, drain_digests, drain_cancels}
use test_serv.Poller.Cancels.Signalled.{
  was_cancelled, contains-keep, drain_digests-signaled, drain_digest-marked, drain_digest-gone,
  drain_digest-live,
}

-- Drains one after the other, each with its reply.
abbrev pub drain_all : List (Option (List String)) → Cancels → Cancels
drain_all [] s = s
drain_all (reply ∷ replies) s = drain_all replies (drain_cancels reply s)

-- The marked digest d has the session, and no other digest has it.
record IsMarked (d : String) (session : ℕ) (s : Cancels) : Type 0 where
  marked : contains d s.signaled ≡ true
  live : lookup d s.active ≡ some session
  only : (j : String) → lookup j s.active ≡ some session → j ≡ d

abbrev Passed : String → ℕ → Cancels → Cancels → Type 0
Passed d session s t = IsMarked d session t × (was_cancelled session t ≡ was_cancelled session s)

drain_digest_passes :
    (e d : String) (session : ℕ) (s : Cancels)
    → IsMarked d session s
    → Passed d session s (drain_digest e s)
drain_digest_passes e d session s m = elim (Bool-cases (contains e s.signaled)) [
  | inl known ↦ subst (Passed d session s) (sym (drain_digest-marked e s known)) (m, refl)
  | inr new ↦ elim (Option-cases (lookup e s.active)) [
    | inl gone ↦
        subst (Passed d session s) (sym (drain_digest-gone e s new gone))
          (record { marked = m.marked; live = m.live; only = m.only }, refl)
    | inr (n, here) ↦
        let other : (n == session) ≡ false = elim (Bool-cases (n == session)) [
          | inl same ↦
              let eq : n ≡ session = ground (arith, same) in
              let is_d : e ≡ d = m.only e (here ∙ ap (λ k. some k) eq) in
              absurd (ground (arith, subst (λ x. contains x s.signaled ≡ false) is_d new, m.marked))
          | inr differs ↦ differs
        ] in
        subst (Passed d session s) (sym (drain_digest-live e n s new here)) (
          record { marked = ground (arith, m.marked); live = m.live; only = m.only },
          ground (arith, other),
        )
  ]
]

drain_digests_passes :
    (ds : List String) (d : String) (session : ℕ) (s : Cancels)
    → IsMarked d session s
    → Passed d session s (drain_digests ds s)
unfolding drain_digests
drain_digests_passes [] d session s m = (m, refl)
drain_digests_passes (e ∷ ds) d session s m =
    let (kept, same) = drain_digest_passes e d session s m in
    let (kept', same') = drain_digests_passes ds d session (drain_digest e s) kept in
    (kept', same' ∙ same)

drain_all_passes :
    (replies : List (Option (List String))) (d : String) (session : ℕ) (s : Cancels)
    → IsMarked d session s
    → was_cancelled session (drain_all replies s) ≡ was_cancelled session s
unfolding drain_cancels
drain_all_passes [] d session s m = refl
drain_all_passes (none ∷ replies) d session s m = drain_all_passes replies d session s m
drain_all_passes (some ds ∷ replies) d session s m =
    let (kept, same) = drain_digests_passes ds d session (only_active s) (record {
      marked = ground (arith, contains-keep d (λ j. mem j s.active) s.signaled, m.marked, m.live);
      live = m.live;
      only = m.only;
    }) in
    drain_all_passes replies d session (drain_digests ds (only_active s)) kept ∙ same

-- A drain meets the cancel marker of a digest with a live session. Then the plan's session ends and
-- its digest runs again in a new session, before another drain. However many drains follow while the
-- sessions stay as they are then, with whatever replies, also ones that list the digest, none of them
-- signals the new session.
pub rerun_not_signalled :
    (d : String) (old new : ℕ) (ds : List String) (s : Cancels) (active : Dict ℕ)
    (replies : List (Option (List String)))
    → contains d ds ≡ true
    → lookup d s.active ≡ some old
    → lookup d active ≡ some new
    → ((j : String) → lookup j active ≡ some new → j ≡ d)
    → let t = record (drain_cancels (some ds) s) { active = active } in
      was_cancelled new (drain_all replies t) ≡ was_cancelled new t
unfolding drain_cancels
rerun_not_signalled d old new ds s active replies listed before live only =
    let t : Cancels = record (drain_digests ds (only_active s)) { active = active } in
    drain_all_passes replies d new t (record {
      marked = ground (arith, drain_digests-signaled ds d (only_active s), listed, before);
      live = live;
      only = only;
    })
