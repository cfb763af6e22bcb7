-- ===== src/Registry/Threads.antt =====
-- registry.py: the threads of the poller on one registry. An acquire goes through __enter__ in
-- phases, and between two of them any other thread may move; run_all also takes device locks
-- directly, and the poller's own threads refresh and release devices.
pub mod Counts
pub mod Exclusive
pub mod Moves
pub mod Reached
use test_serv.Base.{
  ℕ, zero, suc, ◌+◌, ◌≡◌, Option, none, some, List, [], ◌∷◌, String, str_eq, ◌==◌, ◌&&◌, get_elem?,
  if◌then◌else◌,
}
use test_serv.Registry.{Registry, new_registry}
use test_serv.Registry.Specs.{Probe, with_lock, refresh, refresh_plugin, release_now}
use test_serv.Registry.Lend.{
  Opened, Lending, lent, to_open, raised, check_key, take_lock, drop_lock, begin_lend, finish_open,
  exit,
}

-- Where an acquire stands: before dev_lock.acquire(), with the lock, in pl.open, with its handle
-- lent, or over. `held` is a lock that run_all has taken itself.
pub data Phase : Type 0 where
  waiting locked opening held ended : Phase
  using : ℕ → Phase

pub record Acquire : Type 0 where
  pub thread : ℕ
  pub key : String
  pub phase : Phase

pub record World : Type 0 where
  pub registry : Registry
  pub acquires : List Acquire

abbrev pub after_enter : Lending → Phase
after_enter (lent h) = using h
after_enter (to_open pname spec) = opening
after_enter (raised e) = ended

-- How often an acquire holds the lock of a device, and how often it has its handle.
abbrev pub phase_holds : Phase → ℕ
phase_holds waiting = 0
phase_holds ended = 0
phase_holds locked = 1
phase_holds opening = 1
phase_holds held = 1
phase_holds (using h) = 1

abbrev pub phase_uses : Phase → ℕ
phase_uses waiting = 0
phase_uses ended = 0
phase_uses locked = 0
phase_uses opening = 0
phase_uses held = 0
phase_uses (using h) = 1

-- 1 while the acquire is inside __enter__.
abbrev pub phase_enters : Phase → ℕ
phase_enters waiting = 1
phase_enters ended = 0
phase_enters locked = 1
phase_enters opening = 1
phase_enters held = 0
phase_enters (using h) = 0

abbrev pub holds_key : String → Acquire → ℕ
holds_key key a = if str_eq key a.key then phase_holds a.phase else 0

abbrev pub uses_key : String → Acquire → ℕ
uses_key key a = if str_eq key a.key then phase_uses a.phase else 0

abbrev pub enters : ℕ → Acquire → ℕ
enters thread a = if thread == a.thread then phase_enters a.phase else 0

abbrev pub total {ℓ} : {A : Type ℓ} → (A → ℕ) → List A → ℕ
total f [] = 0
total f (x ∷ xs) = f x + total f xs

abbrev pub replace {ℓ} : {A : Type ℓ} → ℕ → A → List A → List A
replace i y [] = []
replace zero y (x ∷ xs) = y ∷ xs
replace (suc i) y (x ∷ xs) = x ∷ replace i y xs

abbrev pub at : World → ℕ → Option Acquire
at w i = get_elem? w.acquires i

abbrev pub moved : ℕ → Acquire → Phase → Registry → World → World
moved i a p t w = record { registry = t; acquires = replace i (record a { phase = p }) w.acquires }

abbrev pub added : ℕ → String → Phase → Registry → World → World
added thread key p t w = record {
  registry = t;
  acquires = record { thread = thread; key = key; phase = p } ∷ w.acquires;
}

-- One critical section of one thread. A thread inside __enter__ starts no other acquire.
pub data Step (w : World) : World → Type 0 where
  starts :
      (thread : ℕ) (key : String)
      → total (enters thread) w.acquires ≡ 0
      → check_key key w.registry ≡ none
      → Step w (
          added thread key waiting (record w.registry { locks = with_lock key w.registry.locks }) w)
  locks :
      {t : Registry} (i : ℕ) (a : Acquire)
      → at w i ≡ some a
      → a.phase ≡ waiting
      → take_lock a.thread a.key w.registry ≡ some t
      → Step w (moved i a locked t w)
  lends :
      (i : ℕ) (a : Acquire)
      → at w i ≡ some a
      → a.phase ≡ locked
      → Step w (
          moved i a (after_enter (begin_lend a.key w.registry).0) (begin_lend a.key w.registry).1 w)
  opens :
      (outcome : Opened) (i : ℕ) (a : Acquire)
      → at w i ≡ some a
      → a.phase ≡ opening
      → Step w (
          moved i a
            (after_enter (finish_open a.key outcome w.registry).0)
            (finish_open a.key outcome w.registry).1
            w)
  exits :
      {h : ℕ} (i : ℕ) (a : Acquire)
      → at w i ≡ some a
      → a.phase ≡ using h
      → Step w (moved i a ended (exit a.key w.registry) w)
  holds :
      {t : Registry} (thread : ℕ) (key : String)
      → take_lock thread key w.registry ≡ some t
      → Step w (added thread key held t w)
  lets_go :
      (i : ℕ) (a : Acquire)
      → at w i ≡ some a
      → a.phase ≡ held
      → Step w (moved i a ended (drop_lock a.key w.registry) w)
  refreshes :
      (probes : List (String × Probe)) → Step w (record w { registry = refresh probes w.registry })
  refreshes_plugin :
      (name : String) (probe : Probe)
      → Step w (record w { registry = refresh_plugin name probe w.registry })
  releases : (key : String) → Step w (record w { registry = (release_now key w.registry).1 })

-- The worlds that a poller gets to from a new registry of its plugins.
pub data Reach (plugins : List String) : World → Type 0 where
  start : Reach plugins (record { registry = new_registry plugins; acquires = [] })
  next : {w w' : World} → Reach plugins w → Step w w' → Reach plugins w'
