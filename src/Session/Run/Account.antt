-- ===== src/Session/Run/Account.antt =====
-- session.py: what the log of a run tells of the plan.
use test_serv.Base.{
  ℕ, suc, Bool, ◌||◌, ◌≡◌, ◌∙◌, sym, ap, refl, true, false, List, [], ◌∷◌, arith, length,
  if◌then◌else◌, Bool-cases, inl, inr, ◌⊎◌,
}
use mathlib.Core.List.{◌++◌, append-nil, append_assoc}
use test_serv.Plan.Text.{Op}
use test_serv.Session.Run.{
  OpEnd, done, failed, stopped, hard_failed, Rec, Log, Runner, Ending, completed, over_deadline,
  canceled, early_done, aborted, record_op, run_block, artefact_status,
}

-- Whether the log calls an end "ok": an op that returned, or a StopSession.
abbrev pub is_fine : OpEnd → Bool
is_fine done = true
is_fine stopped = true
is_fine failed = false
is_fine hard_failed = false

-- How the ops that a run got to ended, by the runner alone: a run goes on after an op that returned
-- or raised, until the budget is used up, a cancel, a StopSession or a HardFail.
abbrev pub goes_on : OpEnd → Bool
goes_on done = true
goes_on failed = true
goes_on stopped = false
goes_on hard_failed = false

pub run_ends : {W : Type 0} → Runner W → List Op → W → List OpEnd
run_ends runner [] w = []
run_ends runner (op ∷ ops) w =
    let (e, w') = runner.run_op op w in
    let rest = run_ends runner ops w' in
    if runner.is_over w || runner.is_canceled w then [] else if goes_on e then e ∷ rest else e ∷ []

-- The records of ops that ended so, in order, and the lines of those that failed.
abbrev pub records : List Op → List OpEnd → List Rec
records [] es = []
records (op ∷ ops) [] = []
records (op ∷ ops) (e ∷ es) =
    record { line = op.lineno; device = op.device; verb = op.verb; is_ok = is_fine e }
    ∷ records ops es

abbrev pub failed_lines : List Op → List OpEnd → List ℕ
failed_lines [] es = []
failed_lines (op ∷ ops) [] = []
failed_lines (op ∷ ops) (e ∷ es) =
    let rest = failed_lines ops es in if is_fine e then rest else op.lineno ∷ rest

-- The line of the op before which a cancel was seen: the first that did not run.
abbrev pub cancel_line : Ending → List Op → List OpEnd → List ℕ
cancel_line ending [] es = []
cancel_line canceled (op ∷ ops) [] = op.lineno ∷ []
cancel_line completed (op ∷ ops) [] = []
cancel_line over_deadline (op ∷ ops) [] = []
cancel_line early_done (op ∷ ops) [] = []
cancel_line aborted (op ∷ ops) [] = []
cancel_line ending (op ∷ ops) (e ∷ es) = cancel_line ending ops es

-- The log `after` extends `before` by a record for each of the ops that ended as in `es`, which is
-- all of them if the run completed, and by an error for each that failed and for a cancel.
pub record IsLogOf (ops : List Op) (es : List OpEnd) (before : Log) (ending : Ending) (after : Log)
    : Type 0 where
  pub logged : after.ops_log ≡ before.ops_log ++ records ops es
  pub whole : ending ≡ completed → length (records ops es) ≡ length ops
  pub errors : after.errors ≡ before.errors ++ (failed_lines ops es ++ cancel_line ending ops es)

record_op-logged :
    (op : Op) (e : OpEnd) (log : Log)
    → (record_op op e log).ops_log ≡ log.ops_log ++ records (op ∷ []) (e ∷ [])
unfolding record_op
record_op-logged op done log = refl
record_op-logged op failed log = refl
record_op-logged op stopped log = refl
record_op-logged op hard_failed log = refl

record_op-errors :
    (op : Op) (e : OpEnd) (log : Log)
    → (record_op op e log).errors ≡ log.errors ++ failed_lines (op ∷ []) (e ∷ [])
unfolding record_op
record_op-errors op done log = sym (append-nil log.errors)
record_op-errors op failed log = refl
record_op-errors op stopped log = sym (append-nil log.errors)
record_op-errors op hard_failed log = refl

failed_lines-cons :
    (op : Op) (ops : List Op) (e : OpEnd) (es : List OpEnd)
    → failed_lines (op ∷ ops) (e ∷ es) ≡ failed_lines (op ∷ []) (e ∷ []) ++ failed_lines ops es
failed_lines-cons op ops done es = refl
failed_lines-cons op ops failed es = refl
failed_lines-cons op ops stopped es = refl
failed_lines-cons op ops hard_failed es = refl

-- An op with the rest of the run after it.
next_op :
    (op : Op) (ops : List Op) (e : OpEnd) (es : List OpEnd) (log after : Log) (ending : Ending)
    → IsLogOf ops es (record_op op e log) ending after
    → IsLogOf (op ∷ ops) (e ∷ es) log ending after
next_op op ops e es log after ending rest =
    let one = records (op ∷ []) (e ∷ []) in
    let fails = failed_lines (op ∷ []) (e ∷ []) in
    let later = failed_lines ops es in
    let last = cancel_line ending ops es in
    record {
      logged =
          rest.logged
          ∙ ap (λ rs. rs ++ records ops es) (record_op-logged op e log)
          ∙ append_assoc log.ops_log one (records ops es);
      whole = λ h. ap suc (rest.whole h);
      errors =
          rest.errors
          ∙ ap (λ ls. ls ++ (later ++ last)) (record_op-errors op e log)
          ∙ append_assoc log.errors fails (later ++ last)
          ∙ ap (λ ls. log.errors ++ ls)
              (sym (append_assoc fails later last)
                ∙ ap (λ ls. ls ++ last) (sym (failed_lines-cons op ops e es)));
    }

no_op :
    (ops : List Op) (log : Log) (ending : Ending)
    → cancel_line ending ops [] ≡ []
    → (ending ≡ completed → [] ≡ ops)
    → failed_lines ops [] ≡ []
    → records ops [] ≡ []
    → IsLogOf ops [] log ending log
no_op ops log ending quiet whole no_fail no_rec = record {
  logged = rw no_rec (sym (append-nil log.ops_log));
  whole = λ h. ap length no_rec ∙ ap length (whole h);
  errors = rw (no_fail, quiet) (sym (append-nil log.errors));
}

-- An op that ends the run.
last_op :
    (op : Op) (ops : List Op) (e : OpEnd) (log : Log) (ending : Ending)
    → cancel_line ending ops [] ≡ []
    → (ending ≡ completed → [] ≡ ops)
    → failed_lines ops [] ≡ []
    → records ops [] ≡ []
    → IsLogOf (op ∷ ops) (e ∷ []) log ending (record_op op e log)
last_op op ops e log ending quiet whole no_fail no_rec =
    next_op op ops e [] log (record_op op e log) ending
      (no_op ops (record_op op e log) ending quiet whole no_fail no_rec)

no_records : (ops : List Op) → (failed_lines ops [] ≡ []) × (records ops [] ≡ [])
no_records [] = (refl, refl)
no_records (op ∷ ops) = (refl, refl)

early_quiet : (ops : List Op) → cancel_line early_done ops [] ≡ []
early_quiet [] = refl
early_quiet (op ∷ ops) = refl

aborted_quiet : (ops : List Op) → cancel_line aborted ops [] ≡ []
aborted_quiet [] = refl
aborted_quiet (op ∷ ops) = refl

module _ {W : Type 0} (runner : Runner W) where
  OpEnd-cases : (e : OpEnd) → (e ≡ done ⊎ e ≡ failed) ⊎ (e ≡ stopped ⊎ e ≡ hard_failed)
  OpEnd-cases done = inl (inl refl)
  OpEnd-cases failed = inl (inr refl)
  OpEnd-cases stopped = inr (inl refl)
  OpEnd-cases hard_failed = inr (inr refl)

  -- A run logs, in order, each op that it got to with how that op ended, all of the plan if it
  -- completes, and adds to errors the line of each op that raised or failed hard and, if it was
  -- canceled, the line of the next op, and nothing else.
  pub run_block-IsLogOf :
      (ops : List Op) (w : W) (log : Log)
      → let (ending, (w', after)) = run_block runner ops w log in
        IsLogOf ops (run_ends runner ops w) log ending after
  unfolding run_block run_ends
  run_block-IsLogOf [] w log = no_op [] log completed refl (λ h. refl) refl refl
  run_block-IsLogOf (op ∷ ops) w log = elim (Bool-cases (runner.is_over w)) [
    | inl e ↦
        rw (e, run_block)
          (no_op (op ∷ ops) log over_deadline refl (λ h. absurd (ground arith)) refl refl)
    | inr e ↦ elim (Bool-cases (runner.is_canceled w)) [
      | inl c ↦
          rw (e, c, run_block)
            (record {
              logged = sym (append-nil log.ops_log);
              whole = λ h. absurd (ground arith);
              errors = refl;
            })
      | inr c ↦
          let w' = (runner.run_op op w).1 in
          let es = run_ends runner ops w' in
          elim (OpEnd-cases (runner.run_op op w).0) [
            | inl (inl d) ↦
                rw (e, c, d, run_block)
                  (next_op op ops done es log (run_block runner ops w' (record_op op done log)).1.1
                    (run_block runner ops w' (record_op op done log)).0
                    (run_block-IsLogOf ops w' (record_op op done log)))
            | inl (inr d) ↦
                rw (e, c, d, run_block)
                  (next_op op ops failed es log
                    (run_block runner ops w' (record_op op failed log)).1.1
                    (run_block runner ops w' (record_op op failed log)).0
                    (run_block-IsLogOf ops w' (record_op op failed log)))
            | inr (inl d) ↦
                let (no_fail, no_rec) = no_records ops in
                rw (e, c, d, run_block)
                  (last_op op ops stopped log early_done (early_quiet ops)
                    (λ h. absurd (ground arith)) no_fail no_rec)
            | inr (inr d) ↦
                let (no_fail, no_rec) = no_records ops in
                rw (e, c, d, run_block)
                  (last_op op ops hard_failed log aborted (aborted_quiet ops)
                    (λ h. absurd (ground arith)) no_fail no_rec)
          ]
    ]
  ]

  -- A run whose budget is used up before its first op ends with its log as it was, and if checks
  -- were recorded before without an error, the artefact's status is "ok".
  pub deadline_reports_ok :
      (op : Op) (ops : List Op) (w : W) (log : Log) (checks : ℕ)
      → runner.is_over w ≡ true
      → log.errors ≡ []
      → let o = run_block runner (op ∷ ops) w log in
        (o.0 ≡ over_deadline)
        × (o.1.1 ≡ log)
        × (artefact_status false o.1.1.errors (suc checks) ≡ "ok")
  unfolding run_block artefact_status
  deadline_reports_ok op ops w log checks over clean =
      rw (over, run_block) (refl, refl, rw clean refl)
