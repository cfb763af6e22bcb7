-- ===== src/Poller/Supervisor.antt =====
-- poller.py: _supervise, the watch on the worker's heartbeat and the verdict on its end. Times are
-- in milliseconds.
pub mod FastFails
pub mod Watched
use test_serv.Base.{
  ℕ, zero, suc, ◌+◌, Bool, true, false, ◌||◌, Option, none, some, List, [], ◌∷◌, ltb, leb, ◌==◌,
  if◌then◌else◌,
}
use test_serv.Base.Int.{ℤ, pos, negsuc}

abbrev pub run_budget : ℕ
run_budget = 10_000

abbrev pub max_fast_fails : ℕ
max_fast_fails = 5

abbrev pub heartbeat_stale_after : ℕ
heartbeat_stale_after = 120_000

-- How a worker ends: Popen's return code, its run time, and whether it was killed as stale.
pub record Death : Type 0 where
  pub rc : ℤ
  pub elapsed : ℕ
  pub stale : Bool

pub data Child : Type 0 where
  spawn_failed : Child
  died : Death → Child

pub data Verdict : Type 0 where
  stop : ℕ → Verdict
  respawn : ℕ → Verdict

-- A clean exit, SIGINT (130 or -2) or SIGTERM (143 or -15).
abbrev pub is_clean : ℤ → Bool
is_clean (pos n) = n == 0 || n == 130 || n == 143
is_clean (negsuc n) = n == 1 || n == 14

-- The end of one round, with the fast fails so far.
unfoldable pub verdict : Child → ℕ → Verdict
verdict spawn_failed fails = stop 1
verdict (died d) fails =
    if is_clean d.rc
    then stop 0
    else if d.stale
    then respawn 0
    else if ltb d.elapsed run_budget
    then (if leb max_fast_fails (fails + 1) then stop 1 else respawn (fails + 1))
    else respawn 0

abbrev pub resume_with {ℓ} : {A : Type ℓ} → (ℕ → Option A) → (ℕ → Option A) → Verdict → Option A
resume_with stopped next (stop code) = stopped code
resume_with stopped next (respawn fails) = next fails

-- The outer loop over the children; `none` while it still runs.
unfoldable pub supervise : List Child → ℕ → Option ℕ
unfolding verdict
supervise [] fails = none
supervise (c ∷ cs) fails = resume_with (λ code. some code) (supervise cs) (verdict c fails)

-- One round of the inner loop: what poll() gives, the clock if the pipe had data, and the clock.
pub record Tick : Type 0 where
  pub exited : Option ℤ
  pub beat : Option ℕ
  pub now : ℕ

-- _heartbeat_stale
abbrev pub heartbeat_stale : ℕ → ℕ → Bool
heartbeat_stale last now = ltb (last + heartbeat_stale_after) now

abbrev pub last_beat : ℕ → Option ℕ → ℕ
last_beat last none = last
last_beat last (some t) = t

-- The return code and whether the worker was killed as stale; `killed` is what p.wait() gives then.
unfoldable pub watch : ℤ → ℕ → List Tick → Option (ℤ × Bool)
watch killed last [] = none
watch killed last (t ∷ ts) =
    let rest = watch killed (last_beat last t.beat) ts in
    elim t.exited [
      | some rc ↦ some (rc, false)
      | none ↦ if heartbeat_stale (last_beat last t.beat) t.now then some (killed, true) else rest
    ]
