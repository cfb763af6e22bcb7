-- ===== src/Poller/Supervisor/Watched.antt =====
-- poller.py: which workers the supervisor kills.
use test_serv.Base.{
  ℕ, ◌+◌, ◌≡◌, Bool, true, false, not, ◌&&◌, none, some, List, [], ◌∷◌, arith, ltb, leb, all, any,
  is_some,
}
use test_serv.Base.Int.{ℤ}
use test_serv.Poller.Supervisor.{Tick, heartbeat_stale_after, last_beat, watch}

-- A round in which the worker is alive and sends nothing.
abbrev pub is_silent : Tick → Bool
is_silent t = not (is_some t.exited) && not (is_some t.beat)

-- A round whose beat was read at most two minutes before its clock.
abbrev pub is_live : Tick → Bool
is_live t = elim t.beat [ none ↦ false | some b ↦ leb t.now (b + heartbeat_stale_after) ]

watch-silent :
    (killed : ℤ) (last : ℕ) (ts : List Tick)
    → all is_silent ts ≡ true
    → any (λ t. ltb (last + heartbeat_stale_after) t.now) ts ≡ true
    → watch killed last ts ≡ some (killed, true)
unfolding watch
watch-silent killed last [] silent late = absurd (ground arith)
watch-silent killed last (t ∷ ts) silent late = ground (arith, watch-silent killed last ts)

watch-live :
    (killed : ℤ) (last : ℕ) (ts : List Tick) {rc : ℤ} {stale : Bool}
    → all is_live ts ≡ true
    → watch killed last ts ≡ some (rc, stale)
    → stale ≡ false
unfolding watch
watch-live killed last [] live h = absurd (ground arith)
watch-live killed last (t ∷ ts) {rc} {stale} live h =
    ground (arith, watch-live killed (last_beat last t.beat) ts {rc = rc} {stale = stale})

-- A worker that neither ends nor sends a beat is killed once two minutes have passed since the last
-- one, and a worker whose beats are read at most two minutes apart is never killed.
pub watch_lem :
    (killed : ℤ) (last : ℕ) (ts : List Tick)
    → (all is_silent ts ≡ true
        → any (λ t. ltb (last + heartbeat_stale_after) t.now) ts ≡ true
        → watch killed last ts ≡ some (killed, true))
      × ((rc : ℤ) (stale : Bool)
          → all is_live ts ≡ true
          → watch killed last ts ≡ some (rc, stale)
          → stale ≡ false)
watch_lem killed last ts =
    (watch-silent killed last ts, λ rc stale live h. watch-live killed last ts live h)
