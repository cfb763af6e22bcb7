-- ===== src/Poller/Dispatch/Slots.antt =====
-- poller.py: the semaphore of the main loop. Each plan that is picked up takes a slot until its worker
-- ends.
use test_serv.Base.{ℕ, ◌+◌, ◌-◌, ◌≤◌, ◌≡◌, arith, ltb, ◌==◌, if◌then◌else◌}

-- The free slots and the workers that run.
pub record Slots : Type 0 where
  pub free : ℕ
  pub running : ℕ

-- What GET /plan gives: an exception, no plan, or a plan.
pub data Polled : Type 0 where
  get_failed no_plan picked_up : Polled

-- max_active = max(2, len(registry.specs))
abbrev pub max_active : ℕ → ℕ
max_active n_specs = if ltb 2 n_specs then n_specs else 2

abbrev after_get : Polled → Slots → Slots
after_get get_failed s = record s { free = s.free + 1 }
after_get no_plan s = record s { free = s.free + 1 }
after_get picked_up s = record s { running = s.running + 1 }

-- One round of the loop: without a free slot the acquire times out.
unfoldable pub poll_once : Polled → Slots → Slots
poll_once polled s = if s.free == 0 then s else after_get polled (record s { free = s.free - 1 })

-- The finally clause of _worker.
unfoldable pub release_slot : Slots → Slots
release_slot s = record { free = s.free + 1; running = s.running - 1 }

pub data SlotStep (s : Slots) : Slots → Type 0 where
  polls : (polled : Polled) → SlotStep s (poll_once polled s)
  ends : 1 ≤ s.running → SlotStep s (release_slot s)

pub data SlotReach (n_specs : ℕ) : Slots → Type 0 where
  start : SlotReach n_specs (record { free = max_active n_specs; running = 0 })
  next : {s t : Slots} → SlotReach n_specs s → SlotStep s t → SlotReach n_specs t

poll_once-sum :
    (polled : Polled) (s : Slots)
    → let t = poll_once polled s in t.free + t.running ≡ s.free + s.running
unfolding poll_once
poll_once-sum get_failed s = ground arith
poll_once-sum no_plan s = ground arith
poll_once-sum picked_up s = ground arith

-- However polls and workers follow each other, the free slots and the running workers are together
-- the larger of 2 and the number of devices, so no slot is lost, and no more workers run than that.
pub SlotReach-sum :
    {n_specs : ℕ} {s : Slots}
    → SlotReach n_specs s
    → (s.free + s.running ≡ max_active n_specs) × (s.running ≤ max_active n_specs)
unfolding release_slot
SlotReach-sum start = (omega arith, ground arith)
SlotReach-sum (next {s} r (polls polled)) =
    let before = SlotReach-sum r in
    let same = poll_once-sum polled s in
    (omega (arith, before.0, same), omega (arith, before.0, same))
SlotReach-sum (next r (ends some_running)) =
    let before = SlotReach-sum r in
    (omega (arith, before.0, some_running), omega (arith, before.0, some_running))
