-- ===== src/Session/Locks.antt =====
-- session.py: the device locks of run_all, from the first acquire to the last release.
pub mod Released
use test_serv.Base.{ℕ, ◌+◌, ◌-◌, Option, none, some, List, [], ◌∷◌, String, ltb, if◌then◌else◌}
use test_serv.Base.Dict.{lookup, insert, erase, contains}
use test_serv.Registry.{Registry}
use test_serv.Registry.Specs.{with_lock, release_now}
use test_serv.Registry.Lend.{take_lock, drop_lock}

-- The locks of the eager keys, in their order; `none` while one of them is another session's.
unfoldable pub lock_keys : ℕ → List String → Registry → Option Registry
lock_keys thread [] s = some s
lock_keys thread (key ∷ ks) s =
    elim (take_lock thread key (record s { locks = with_lock key s.locks })) [
      | none ↦ none
      | some t ↦ lock_keys thread ks t
    ]

-- registry.pinned_specs[k] += 1
unfoldable pub pin : String → Registry → Registry
pin key s = elim (lookup key s.pinned_specs) [
  | none ↦ record s { pinned_specs = insert key 1 s.pinned_specs }
  | some n ↦ record s { pinned_specs = insert key (n + 1) s.pinned_specs }
]

-- One less, and no entry at zero.
pub unpin : String → Registry → Registry
unpin key s = elim (lookup key s.pinned_specs) [
  | none ↦ s
  | some n ↦
      if ltb 1 n
      then record s { pinned_specs = insert key (n - 1) s.pinned_specs }
      else record s { pinned_specs = erase key s.pinned_specs }
]

unfoldable pub pin_all : List String → Registry → Registry
pin_all [] s = s
pin_all (key ∷ ks) s = pin_all ks (pin key s)

pub unpin_all : List String → Registry → Registry
unpin_all [] s = s
unpin_all (key ∷ ks) s = unpin_all ks (unpin key s)

-- The first loop of the finally block: each touched device is closed and then unlocked. `locked`
-- holds the keys of lock_by_key; the loop adds what it unlocks to `released`.
pub release_touched : List String → List String → List String → Registry → List String × Registry
release_touched [] locked released s = (released, s)
release_touched (key ∷ ks) locked released s =
    let t = (release_now key s).1 in
    release_touched ks locked (if contains key locked then key ∷ released else released)
      (if contains key locked then drop_lock key t else t)

-- The locks of devices that no op touched.
pub release_rest : List String → List String → Registry → Registry
release_rest [] released s = s
release_rest (key ∷ ks) released s =
    release_rest ks released (if contains key released then s else drop_lock key s)

abbrev pub finish : List String → List String → List String × Registry → Registry
finish locked pinned (released, s) = release_rest locked released (unpin_all pinned s)

abbrev pub backwards : List String → List String → List String
backwards [] out = out
backwards (key ∷ ks) out = backwards ks (key ∷ out)

-- The finally block, once the handles that `open` ops had acquired are given back. `acquired` lists every lock the session holds, in the order of acquisition:
-- the eager ones and then the deferred ones. They are released in the reverse order.
pub release_session : List String → List String → List String → Registry → Registry
unfolding release_touched release_rest unpin_all
release_session touched acquired pinned s =
    let locked = backwards acquired [] in finish locked pinned (release_touched touched locked [] s)
