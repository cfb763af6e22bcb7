-- ===== src/Poller/Dispatch.antt =====
-- poller.py: _dispatch, the checks before a session, and the worker's slot. tarfile, hashlib and the
-- session are parameters.
pub mod Spooled
pub mod Slots
use test_serv.Base.{
  ℕ, ◌+◌, ◌-◌, Bool, true, false, not, ◌||◌, Option, none, some, List, [], ◌∷◌, String, str_eq,
  ◌==◌, if◌then◌else◌, keep,
}
use test_serv.Base.Dict.{Dict, lookup, mem, contains}
use test_serv.Server.Store.{Bytes}
use test_serv.Plan.Value.{Error, unicode_error, tar_error, Result, ok, err, PyText}
use test_serv.Plan.Text.{Op}
use test_serv.Plan.Tar.{Plan, Files, load_tar}
use test_serv.Plan.Devices.{split_device_ref}
use test_serv.Poller.Spool.{Spool, spool_artefact}

-- The ValueErrors of _validate_against_plugins, with the line of the op.
pub data Invalid : Type 0 where
  unknown_device unknown_op : ℕ → Invalid

-- The names of the plugins and of their ops.
abbrev pub Plugins : Type 0
Plugins = Dict (List String)

abbrev check_verb : Op → Option (List String) → Option Invalid
check_verb op none = some (unknown_device op.lineno)
check_verb op (some verbs) =
    if str_eq op.verb "open" || str_eq op.verb "close"
    then none
    else if contains op.verb verbs
    then none
    else some (unknown_op op.lineno)

-- One op: a control verb passes.
pub check_op : Plugins → Op → Option Invalid
check_op plugins op = elim op.device [
  | none ↦ none
  | some d ↦ check_verb op (lookup (split_device_ref d).0 plugins)
]

unfoldable pub validate_against_plugins : Plugins → List Op → Option Invalid
unfolding check_op
validate_against_plugins plugins [] = none
validate_against_plugins plugins (op ∷ ops) = elim (check_op plugins op) [
  | none ↦ validate_against_plugins plugins ops
  | some e ↦ some e
]

-- The digests of _active_sessions, PENDING, and the free slots of the semaphore.
pub record Bench : Type 0 where
  pub active : List String
  pub spool : Spool
  pub slots : ℕ

-- A UnicodeDecodeError is no PlanError, and neither is a TarError.
abbrev pub is_plan_error : Error → Bool
is_plan_error unicode_error = false
is_plan_error tar_error = false
is_plan_error _ = true

-- Why a plan is not run: it does not parse, or it names what no plugin has.
pub data Failure : Type 0 where
  parse_failed : Error → Failure
  invalid : Invalid → Failure

-- `during` is the run of the session and its packing, and all that other threads do meanwhile; it
-- gives no tar where that raises. `wall` and `uuid` are read when the artefact is spooled.
pub record World : Type 0 where
  pub sha256 : Bytes → String
  pub files : Files
  pub text : PyText
  pub failure_artefact : String → Failure → Bytes
  pub during : String → Plan → Bench → Option Bytes × Bench
  pub wall : ℕ
  pub uuid : String

module _ (x : World) where
  -- The name of the spooled artefact.
  unfoldable pub post_artefact : String → Bytes → Bench → Option String × Bench
  post_artefact job_id tar s =
      let (name, spool) = spool_artefact x.wall job_id x.uuid tar s.spool in
      (some name, record s { spool = spool })

  -- pop of _active_sessions, and then the artefact, if there is one.
  abbrev pub finish_session : String → Option Bytes × Bench → Option String × Bench
  finish_session job_id (none, s) =
      (none, record s { active = keep (λ d. not (str_eq d job_id)) s.active })
  finish_session job_id (some tar, s) =
      post_artefact job_id tar (record s { active = keep (λ d. not (str_eq d job_id)) s.active })

  unfoldable pub run_session : String → Plan → Bench → Option String × Bench
  unfolding post_artefact
  run_session job_id plan s =
      finish_session job_id (x.during job_id plan (record s { active = job_id ∷ s.active }))

  abbrev pub dispatch_loaded : Plugins → String → Result Plan → Bench → Option String × Bench
  dispatch_loaded plugins job_id (err e) s =
      if is_plan_error e
      then post_artefact job_id (x.failure_artefact job_id (parse_failed e)) s
      else (none, s)
  dispatch_loaded plugins job_id (ok plan) s = elim (validate_against_plugins plugins plan.ops) [
    | some e ↦ post_artefact job_id (x.failure_artefact job_id (invalid e)) s
    | none ↦ run_session job_id plan s
  ]

  -- The spooled name, or none where an exception leaves _dispatch.
  unfoldable pub dispatch : Plugins → Bytes → Bench → Option String × Bench
  unfolding post_artefact run_session
  dispatch plugins payload s =
      dispatch_loaded plugins (x.sha256 payload) (load_tar x.files x.text payload) s

  -- _worker: the slot is released also after an exception.
  unfoldable pub worker : Plugins → Bytes → Bench → Option String × Bench
  unfolding dispatch
  worker plugins payload s =
      let (name, s') = dispatch plugins payload s in (name, record s' { slots = s'.slots + 1 })
