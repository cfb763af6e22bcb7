-- ===== src/Poller/Cancels.antt =====
-- poller.py: _drain_cancels. A session is named by a number, since a digest can run again.
pub mod Signalled
pub mod Rerun
use test_serv.Base.{ℕ, Option, none, some, List, [], ◌∷◌, String, if◌then◌else◌, keep}
use test_serv.Base.Dict.{Dict, lookup, mem, contains}

-- _active_sessions and _signaled_cancels, with what was sent: the sessions whose signal_cancel was
-- called and the digests posted to /cancels/<digest>/stale, each with the newest first.
pub record Cancels : Type 0 where
  pub active : Dict ℕ
  pub signaled : List String
  pub cancelled : List ℕ
  pub resolved : List String

-- _signaled_cancels.intersection_update(_active_sessions)
abbrev pub only_active : Cancels → Cancels
only_active s = record s { signaled = keep (λ d. mem d s.active) s.signaled }

-- One digest of the reply.
unfoldable pub drain_digest : String → Cancels → Cancels
drain_digest d s = if contains d s.signaled then s else elim (lookup d s.active) [
  | none ↦ record s { resolved = d ∷ s.resolved }
  | some session ↦ record s { cancelled = session ∷ s.cancelled; signaled = d ∷ s.signaled }
]

unfoldable pub drain_digests : List String → Cancels → Cancels
unfolding drain_digest
drain_digests [] s = s
drain_digests (d ∷ ds) s = drain_digests ds (drain_digest d s)

-- `none` where the GET fails or its reply is not a list.
unfoldable pub drain_cancels : Option (List String) → Cancels → Cancels
unfolding drain_digests
drain_cancels none s = s
drain_cancels (some ds) s = drain_digests ds (only_active s)
