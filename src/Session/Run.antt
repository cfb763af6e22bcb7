-- ===== src/Session/Run.antt =====
-- session.py: _run_block, _run_one and the status that pack_artefact gives a run.
pub mod Account
use test_serv.Base.{ℕ, zero, suc, Bool, true, false, Option, List, [], ◌∷◌, String}
use mathlib.Core.List.{◌++◌}
use test_serv.Plan.Text.{Op}

-- How one op ends: its code returns, raises, raises StopSession, or raises HardFail.
pub data OpEnd : Type 0 where
  done failed stopped hard_failed : OpEnd

-- A record of ops.jsonl. `is_ok` is status == "ok".
pub record Rec : Type 0 where
  pub line : ℕ
  pub device : Option String
  pub verb : String
  pub is_ok : Bool

-- ops_log, and errors with the line of the op at which each arose.
pub record Log : Type 0 where
  pub ops_log : List Rec
  pub errors : List ℕ

-- What surrounds the loop: the code of the ops, the clock and the cancel flag, on a state of W.
pub record Runner (W : Type 0) : Type 0 where
  pub run_op : Op → W → OpEnd × W
  pub is_over : W → Bool
  pub is_canceled : W → Bool

pub data Ending : Type 0 where
  completed over_deadline canceled early_done aborted : Ending

abbrev pub rec_of : Op → Bool → Rec
rec_of op ok = record { line = op.lineno; device = op.device; verb = op.verb; is_ok = ok }

-- What _run_one records.
pub record_op : Op → OpEnd → Log → Log
record_op op done log = record log { ops_log = log.ops_log ++ (rec_of op true ∷ []) }
record_op op stopped log = record log { ops_log = log.ops_log ++ (rec_of op true ∷ []) }
record_op op failed log = record {
  ops_log = log.ops_log ++ (rec_of op false ∷ []);
  errors = log.errors ++ (op.lineno ∷ []);
}
record_op op hard_failed log = record {
  ops_log = log.ops_log ++ (rec_of op false ∷ []);
  errors = log.errors ++ (op.lineno ∷ []);
}

module _ {W : Type 0} (runner : Runner W) where
  -- The deadline is tested before the cancel flag; only a cancel adds to errors.
  pub run_block : List Op → W → Log → Ending × (W × Log)
  unfolding record_op
  run_block [] w log = (completed, (w, log))
  run_block (op ∷ ops) w log = elim (runner.is_over w) [
    | true ↦ (over_deadline, (w, log))
    | false ↦ elim (runner.is_canceled w) [
      | true ↦ (canceled, (w, record log { errors = log.errors ++ (op.lineno ∷ []) }))
      | false ↦
          let (e, w') = runner.run_op op w in
          elim e [
            | done ↦ run_block ops w' (record_op op done log)
            | failed ↦ run_block ops w' (record_op op failed log)
            | stopped ↦ (early_done, (w', record_op op stopped log))
            | hard_failed ↦ (aborted, (w', record_op op hard_failed log))
          ]
    ]
  ]

-- pack_artefact's discriminator, from session.canceled, the errors and the number of checks.
pub artefact_status : Bool → List ℕ → ℕ → String
artefact_status true errors checks = "canceled"
artefact_status false (e ∷ errors) checks = "errors"
artefact_status false [] zero = "inert"
artefact_status false [] (suc n) = "ok"
