-- ===== src/Poller/Supervisor/FastFails.antt =====
-- poller.py: when the supervisor goes on and when it gives up.
use test_serv.Base.{
  ℕ, zero, suc, ◌+◌, ◌≤◌, ◌≡◌, ◌↔◌, refl, Bool, true, false, not, ◌&&◌, ◌||◌, none, List, [], ◌∷◌,
  arith, ltb, all, Bool-cases, inl, inr,
}
use test_serv.Poller.Supervisor.{
  Child, spawn_failed, died, is_clean, run_budget, verdict, supervise,
}

-- A worker that crashed, and one that did so within ten seconds, not killed as stale.
abbrev pub is_crash : Child → Bool
is_crash spawn_failed = false
is_crash (died d) = not (is_clean d.rc)

abbrev pub is_fast : Child → Bool
is_fast spawn_failed = false
is_fast (died d) = not (is_clean d.rc) && not d.stale && ltb d.elapsed run_budget

-- The first n are there and are fast.
abbrev pub starts_fast : ℕ → List Child → Bool
starts_fast zero cs = true
starts_fast (suc n) [] = false
starts_fast (suc n) (c ∷ cs) = is_fast c && starts_fast n cs

-- Five fast ones in a row.
abbrev pub five_fast : List Child → Bool
five_fast [] = false
five_fast (c ∷ cs) = starts_fast 5 (c ∷ cs) || five_fast cs

starts_fast-le :
    (n m : ℕ) (cs : List Child) → n ≤ m → starts_fast m cs ≡ true → starts_fast n cs ≡ true
starts_fast-le zero m cs le h = refl
starts_fast-le (suc n) zero cs le h = absurd (omega arith)
starts_fast-le (suc n) (suc m) [] le h = h
starts_fast-le (suc n) (suc m) (c ∷ cs) le h = ground (arith, starts_fast-le n m cs (omega arith))

five_fast-starts : (cs : List Child) → five_fast cs ≡ false → starts_fast 5 cs ≡ false
five_fast-starts [] h = refl
five_fast-starts (c ∷ cs) h = ground arith

-- `r + 1` more fast fails are one too many.
supervise_from :
    (cs : List Child) (k r : ℕ)
    → k + suc r ≡ 5
    → (supervise cs k ≡ none)
      ↔ ((all is_crash cs ≡ true) × (starts_fast (suc r) cs ≡ false) × (five_fast cs ≡ false))
unfolding supervise verdict
supervise_from [] k r five = (λ h. (refl, refl, refl), λ h. refl)
supervise_from (spawn_failed ∷ cs) k r five =
    (λ h. absurd (ground arith), λ h. absurd (ground arith))
supervise_from (died d ∷ cs) k r five = elim (Bool-cases (is_clean d.rc)) [
  | inl clean ↦ (λ h. absurd (ground (arith, clean)), λ h. absurd (ground (arith, clean)))
  | inr crash ↦ elim (Bool-cases (is_fast (died d))) [
    | inr slow ↦
        let rest = supervise_from cs 0 4 refl in
        (
          λ h. ground (arith, crash, slow, rest.0),
          λ h. ground (arith, crash, slow, rest.1, five_fast-starts cs),
        )
    | inl fast ↦
        elim r
            as (λ r.
              k + suc r ≡ 5
              → (supervise (died d ∷ cs) k ≡ none) ↔ (
                  (all is_crash (died d ∷ cs) ≡ true)
                  × (starts_fast (suc r) (died d ∷ cs) ≡ false)
                  × (five_fast (died d ∷ cs) ≡ false))) [
                    | zero ↦ λ five. (
                      λ h. absurd (ground (arith, crash, fast)),
                      λ h. absurd (ground (arith, crash, fast)),
                    )
                    | suc r' ↦ λ five.
                        let rest = supervise_from cs (k + 1) r' (omega arith) in
                        let fewer = starts_fast-le (suc r') 4 cs (omega arith) in
                        (
                          λ h. ground (arith, crash, fast, rest.0, fewer),
                          λ h. ground (arith, crash, fast, rest.1),
                        )
                  ]
          five
  ]
]

-- The supervisor still respawns after a sequence of workers exactly when each of them was started
-- and crashed, and no five in a row died within ten seconds without being killed as stale. So five
-- such deaths in a row end it, and nothing but those, a clean end and a failed start does.
pub supervise_goes_on :
    (cs : List Child)
    → (supervise cs 0 ≡ none) ↔ ((all is_crash cs ≡ true) × (five_fast cs ≡ false))
supervise_goes_on cs =
    let whole = supervise_from cs 0 4 refl in
    (λ h. ((whole.0 h).0, (whole.0 h).2), λ h. whole.1 (h.0, five_fast-starts cs h.1, h.1))
