-- ===== src/Session/Tests.antt =====
-- session.py: concrete streams, locks and runs.
mod Devices
use test_serv.Base.{
  ℕ, zero, suc, ◌+◌, ◌-◌, ◌≤◌, ◌≡◌, ◌⊎◌, inl, refl, true, false, ◌&&◌, none, some, List, [], ◌∷◌,
  arith, length, if◌then◌else◌,
}
use test_serv.Base.Dict.{insert, lookup, contains}
use test_serv.Plan.Text.{Op}
use test_serv.Registry.{Registry, new_registry}
use test_serv.Registry.Lend.{take_lock}
use test_serv.Registry.Lend.Balance.{depth}
use test_serv.Session.Stream.{
  Stream, new_stream, append, joined, tail_bytes, stream_max_bytes, new_cursor, contains_bytes,
  occurs, scan_records,
}
use test_serv.Session.Stream.Search.{IsRight, contains_bytes_lem, new_cursor-IsRight}
use test_serv.Session.Stream.Bytes.{total, end_of, append_lem, tail_bytes_lem}
use test_serv.Session.Locks.{lock_keys, release_session}
use test_serv.Session.Locks.Released.{occurrences, depth-release_session}
use test_serv.Session.Run.{done, Log, Runner, over_deadline, run_block, artefact_status}
use test_serv.Session.Run.Account.{run_ends, IsLogOf, run_block-IsLogOf, deadline_reports_ok}

abbrev two_records : Stream
two_records = record new_stream { records = (1, 1 ∷ 2 ∷ []) ∷ (2, 3 ∷ []) ∷ []; size = 3 }

-- A plan that names the device as `dsp` and as `dsp.A` lists its key twice.
abbrev twice_locked : Registry
twice_locked = record (new_registry ("dsp" ∷ [])) {
  locks = ("dsp.A", record { owner = 1; depth = 2 }) ∷ [];
}

locked_twice : lock_keys 1 ("dsp.A" ∷ "dsp.A" ∷ []) (new_registry ("dsp" ∷ [])) ≡ some twice_locked
unfolding lock_keys take_lock lookup insert
locked_twice = refl

depth-release_session_example :
    depth "dsp.A" (release_session ("dsp.A" ∷ []) ("dsp.A" ∷ "dsp.A" ∷ []) [] twice_locked) ≡ (
      if contains "dsp.A" ("dsp.A" ∷ []) && contains "dsp.A" ("dsp.A" ∷ "dsp.A" ∷ [])
      then depth "dsp.A" (new_registry ("dsp" ∷ []))
        + occurrences "dsp.A" ("dsp.A" ∷ "dsp.A" ∷ [])
        - 1
      else depth "dsp.A" (new_registry ("dsp" ∷ [])))
depth-release_session_example =
    depth-release_session 1 ("dsp.A" ∷ []) ("dsp.A" ∷ "dsp.A" ∷ []) [] "dsp.A"
      (new_registry ("dsp" ∷ [])) locked_twice (refl, tt)

abbrev mark : ℕ → Op
mark n = record { lineno = n; device = none; verb = "mark"; args = [] }

-- A clock of ticks: each op takes one, and the budget is two.
abbrev ticks : Runner ℕ
ticks = record {
  run_op = λ op n. (done, suc n);
  is_over = λ n. elim n [ zero ↦ false | suc m ↦ elim m [ zero ↦ false | suc k ↦ true ] ];
  is_canceled = λ n. false;
}

abbrev empty_log : Log
empty_log = record { ops_log = []; errors = [] }

run_block-IsLogOf_example :
    let (ending, (w', after)) = run_block ticks (mark 1 ∷ mark 2 ∷ mark 3 ∷ []) 0 empty_log in
    IsLogOf
      (mark 1 ∷ mark 2 ∷ mark 3 ∷ [])
      (run_ends ticks (mark 1 ∷ mark 2 ∷ mark 3 ∷ []) 0)
      empty_log
      ending
      after
run_block-IsLogOf_example = run_block-IsLogOf ticks (mark 1 ∷ mark 2 ∷ mark 3 ∷ []) 0 empty_log

abbrev split_ab : Stream
split_ab = record new_stream { records = (0, 97 ∷ []) ∷ (1, 98 ∷ []) ∷ []; size = 2 }

contains_bytes_lem_example :
    let o = contains_bytes (97 ∷ 98 ∷ []) new_cursor split_ab in
    (o.0 ≡ occurs (97 ∷ 98 ∷ []) (joined split_ab.records))
    × (o.0 ≡ false
        → (t : ℕ) (chunk : List ℕ) → IsRight (97 ∷ 98 ∷ []) o.1 (append t chunk split_ab))
contains_bytes_lem_example =
    contains_bytes_lem 97 (98 ∷ []) new_cursor split_ab (new_cursor-IsRight (97 ∷ 98 ∷ []) split_ab)

finds_ab : (contains_bytes (97 ∷ 98 ∷ []) new_cursor split_ab).0 ≡ true
unfolding contains_bytes scan_records occurs
finds_ab = refl
