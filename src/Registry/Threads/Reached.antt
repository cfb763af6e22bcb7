-- ===== src/Registry/Threads/Reached.antt =====
-- registry.py: every reachable world of threads and devices keeps the invariant.
use test_serv.Base.{
  ℕ, ◌≤◌, ◌≡◌, ◌∙◌, ap, sym, refl, false, some, List, String, arith, eq_iff, Option-cases,
  Bool-cases, inl, inr,
}
use test_serv.Base.Int.{pos}
use test_serv.Base.Dict.{lookup}
use test_serv.Registry.{is_positive}
use test_serv.Registry.Specs.{release_now}
use test_serv.Registry.Specs.Keeps.{
  refs_of, owner, refresh-Keeps, refresh_plugin-Keeps, release_now-Keeps,
}
use test_serv.Registry.Lend.Balance.{depth}
use test_serv.Registry.Threads.{
  waiting, locked, held, ended, using, Acquire, World, Step, Reach, total, uses_key, at, added,
  phase_holds, enters,
}
use test_serv.Registry.Threads.Counts.{total-one}
use test_serv.Registry.Threads.Exclusive.{
  IsExclusive, handle_of, moved-IsExclusive, added-IsExclusive, Keeps-IsExclusive,
}
use test_serv.Registry.Threads.Moves.{
  Move-ends, Move-lends, Move-opens, Move-exits, Move-takes, Move-starts, drop_lock-cache,
}

Step-IsExclusive : {w w' : World} → Step w w' → IsExclusive w → IsExclusive w'
Step-IsExclusive {w} (Step.starts thread key none_in passed) v =
    let a : Acquire = record { thread = thread; key = key; phase = ended } in
    let v' = added-IsExclusive thread key v in
    let none_in' : total (enters thread) (added thread key ended w.registry w).acquires ≡ 0 =
      ground arith in
    moved-IsExclusive 0 a waiting refl v' (Move-starts 0 a refl v' refl none_in')
Step-IsExclusive (Step.locks i a here ph e) v = moved-IsExclusive i a locked here v (
    Move-takes i a here v locked e (ground (arith, ph)) (ground (arith, ph)) refl refl
      (λ same. ground arith) (ground (arith, ph)))
Step-IsExclusive (Step.lends i a here ph) v =
    moved-IsExclusive i a _ here v (Move-lends i a here v ph)
Step-IsExclusive (Step.opens outcome i a here ph) v =
    moved-IsExclusive i a _ here v (Move-opens i a here v outcome ph)
Step-IsExclusive (Step.exits i a here ph) v =
    moved-IsExclusive i a ended here v (Move-exits i a here v ph)
Step-IsExclusive {w} (Step.holds thread key e) v =
    let a : Acquire = record { thread = thread; key = key; phase = ended } in
    let v' = added-IsExclusive thread key v in
    moved-IsExclusive 0 a held refl v'
      (Move-takes 0 a refl v' held e refl refl refl refl (λ same. ground arith) (omega arith))
Step-IsExclusive {w} (Step.lets_go i a here ph) v = moved-IsExclusive i a ended here v (
    Move-ends i a here v refl (drop_lock-cache a.key w.registry) (ground (arith, ph))
      (ground (arith, ph)))
Step-IsExclusive {w} (Step.refreshes probes) v =
    Keeps-IsExclusive (refresh-Keeps probes w.registry) v
Step-IsExclusive {w} (Step.refreshes_plugin name probe) v =
    Keeps-IsExclusive (refresh_plugin-Keeps name probe w.registry) v
Step-IsExclusive {w} (Step.releases key) v = Keeps-IsExclusive (release_now-Keeps key w.registry) v

Reach-IsExclusive : {plugins : List String} {w : World} → Reach plugins w → IsExclusive w
unfolding depth lookup
Reach-IsExclusive Reach.start = record {
  depths = λ j. refl;
  owners = λ i a h held. absurd (ground arith);
  counts = λ j. refl;
  handles = λ i a h at_i used. absurd (ground arith);
  opens = λ i a at_i op. absurd (ground arith);
  single = λ thread. omega arith;
}
Reach-IsExclusive (Reach.next r step) = Step-IsExclusive step (Reach-IsExclusive r)

-- However threads acquire and release devices, run_all takes and drops locks, and the poller
-- refreshes and releases, the acquires that hold a device's lock at one time, those with its handle
-- included, are of one thread.
pub one_thread_per_device :
    {plugins : List String} {w : World}
    → Reach plugins w
    → (i j : ℕ) (a b : Acquire) → at w i ≡ some a
    → at w j ≡ some b
    → 1 ≤ phase_holds a.phase
    → 1 ≤ phase_holds b.phase
    → a.key ≡ b.key
    → a.thread ≡ b.thread
one_thread_per_device {plugins} {w} r i j a b at_i at_j held_a held_b same =
    let v = Reach-IsExclusive r in
    let first = v.owners i a at_i held_a in
    let second = v.owners j b at_j held_b in sym first ∙ ap (λ k. owner k w.registry) same ∙ second

-- In every reachable world an acquire that has been lent a handle finds it in the cache, the count
-- of the entry is the number of acquires that have the handle, and release_now on the device closes
-- nothing and changes nothing.
pub lent_handle_stays :
    {plugins : List String} {w : World}
    → Reach plugins w
    → (i : ℕ) (a : Acquire) (h : ℕ) → at w i ≡ some a
    → a.phase ≡ using h
    → (handle_of (lookup a.key w.registry.cache) ≡ some h)
      × (refs_of (lookup a.key w.registry.cache) ≡ pos (total (uses_key a.key) w.acquires))
      × (release_now a.key w.registry ≡ (false, w.registry))
unfolding release_now
lent_handle_stays {plugins} {w} r i a h at_i used =
    let v = Reach-IsExclusive r in
    let counted = total-one (uses_key a.key) i a w.acquires at_i in
    (
      v.handles i a h at_i used,
      v.counts a.key,
      elim (Option-cases (lookup a.key w.registry.cache)) [
        | inl e ↦ ground arith
        | inr (entry, e) ↦ elim (Bool-cases (is_positive entry.refs)) [
          | inl p ↦ rw (e, release_now, p) refl
          | inr p ↦ absurd (ground (arith, counted, v.counts a.key, eq_iff a.key a.key, used))
        ]
      ],
    )
