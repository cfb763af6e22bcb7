-- ===== src/Server/Workers.antt =====
-- server.py: _BoundedThreadingServer, the count of its worker threads. Each operation is one
-- critical section of _worker_lock.
use test_serv.Base.{
  ℕ, ◌+◌, ◌-◌, ◌≤◌, ◌≡◌, refl, Bool, true, false, arith, leb, if◌then◌else◌, Bool-cases, inl, inr,
}

abbrev pub max_workers : ℕ
max_workers = 16

-- _active_workers, and the requests that have a thread.
pub record Workers : Type 0 where
  pub active : ℕ
  pub running : ℕ

-- What process_request does with a request: it answers 503, starts a thread, or fails to start one.
pub data Admitted : Type 0 where
  refused started not_started : Admitted

-- The count goes up before the thread starts, and down again if it does not.
unfoldable pub process_request : Bool → Workers → Admitted × Workers
process_request can_start s =
    if leb max_workers s.active
    then (refused, s)
    else if can_start
    then (started, record s { active = s.active + 1; running = s.running + 1 })
    else (not_started, record s { active = (s.active + 1) - 1 })

-- The finally clause of process_request_thread.
unfoldable pub finish_request : Workers → Workers
finish_request s = record s { active = s.active - 1; running = s.running - 1 }

-- A request arrives, or one that is running ends.
pub data WorkerStep (s : Workers) : Workers → Type 0 where
  arrives : (can_start : Bool) → WorkerStep s (process_request can_start s).1
  ends : 1 ≤ s.running → WorkerStep s (finish_request s)

pub data WorkersReach : Workers → Type 0 where
  idle : WorkersReach (record { active = 0; running = 0 })
  moves : {s t : Workers} → WorkersReach s → WorkerStep s t → WorkersReach t

-- The count is the number of running requests, and at most sixteen.
pub record IsBounded (s : Workers) : Type 0 where
  pub exact : s.active ≡ s.running
  pub bounded : s.active ≤ max_workers

WorkerStep-IsBounded : {s t : Workers} → WorkerStep s t → IsBounded s → IsBounded t
unfolding process_request finish_request
WorkerStep-IsBounded {s} (arrives true) b = elim (Bool-cases (leb max_workers s.active)) [
  | inl e ↦ rw (e, process_request) b
  | inr e ↦
      rw (e, process_request)
        (record { exact = ground (arith, b.exact); bounded = ground (arith, b.bounded) })
]
WorkerStep-IsBounded {s} (arrives false) b = elim (Bool-cases (leb max_workers s.active)) [
  | inl e ↦ rw (e, process_request) b
  | inr e ↦
      rw (e, process_request)
        (record { exact = ground (arith, b.exact); bounded = ground (arith, b.bounded) })
]
WorkerStep-IsBounded {s} (ends some_running) b = record {
  exact = ground (arith, b.exact);
  bounded = ground (arith, b.bounded);
}

-- Whatever requests arrive, start, fail to start and end, the server counts exactly the requests
-- that have a thread, and those are never more than sixteen.
pub WorkersReach-IsBounded : {s : Workers} → WorkersReach s → IsBounded s
WorkersReach-IsBounded idle = record { exact = refl; bounded = omega arith }
WorkersReach-IsBounded (moves r step) = WorkerStep-IsBounded step (WorkersReach-IsBounded r)
