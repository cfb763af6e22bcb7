-- ===== src/Server/Jobs/Rows.antt =====
-- server.py: the status that the job list gives each digest.
use test_serv.Base.{
  ℕ, ◌≡◌, refl, Bool, true, false, not, ◌&&◌, ◌||◌, Option, none, some, List, [], ◌∷◌, String,
  str_eq, eq_iff, arith, ltb, if◌then◌else◌, is_some, Option-cases, Bool-cases, inl, inr,
}
use test_serv.Base.Dict.{Dict, lookup, insert, mem, keys, lookup-insert}
use test_serv.Server.Digest.{is_digest}
use test_serv.Server.Store.{File, MetaFile, State}
use test_serv.Server.Jobs.{
  Status, queued, running, done, Job, queued_job, running_job, add_queued, add_running, seen_time,
  see_outputs, job_or_bare, if_text, add_done, mark_cancels, collect_jobs,
}

abbrev pub status_of : Option Job → Option Status
status_of none = none
status_of (some j) = some j.status

add_queued-status :
    (files : Dict File) (metas : Dict MetaFile) (jobs : Dict Job) (d : String)
    → status_of (lookup d (add_queued files metas jobs))
      ≡ (if is_digest d && mem d files then some queued else status_of (lookup d jobs))
unfolding add_queued lookup
add_queued-status [] metas jobs d = ground arith
add_queued-status ((k, f) ∷ files) metas jobs d = elim (Bool-cases (is_digest k)) [
  | inl safe ↦ ground (
    arith,
    safe,
    add_queued-status files metas (insert k (queued_job k f metas) jobs) d,
    lookup-insert k d (queued_job k f metas) jobs,
    eq_iff k d,
  )
  | inr bad ↦ ground (arith, bad, add_queued-status files metas jobs d, eq_iff k d)
]

add_running-status :
    (files : Dict File) (metas : Dict MetaFile) (jobs : Dict Job) (d : String)
    → status_of (lookup d (add_running files metas jobs)) ≡ (
        if is_digest d && mem d files && not (mem d jobs)
        then some running
        else status_of (lookup d jobs))
unfolding add_running lookup
add_running-status [] metas jobs d = ground arith
add_running-status ((k, f) ∷ files) metas jobs d =
    elim (Bool-cases (not (is_digest k) || mem k jobs)) [
      | inl skip ↦ ground (arith, skip, add_running-status files metas jobs d, eq_iff k d)
      | inr new ↦ ground (
        arith,
        new,
        add_running-status files metas (insert k (running_job k f metas) jobs) d,
        lookup-insert k d (running_job k f metas) jobs,
        eq_iff k d,
      )
    ]

-- An output of the digest with a time above 0.
abbrev pub has_output : String → Dict File → Bool
has_output d [] = false
has_output d ((k, f) ∷ files) = (str_eq k d && ltb 0 f.mtime) || has_output d files

see_outputs-mem :
    (files : Dict File) (seen : Dict ℕ) (d : String)
    → mem d (see_outputs files seen) ≡ (mem d seen || (is_digest d && has_output d files))
unfolding see_outputs lookup
see_outputs-mem [] seen d = ground arith
see_outputs-mem ((k, f) ∷ files) seen d =
    elim (Bool-cases (is_digest k && ltb (seen_time k seen) f.mtime)) [
      | inl newer ↦ elim (Option-cases (lookup k seen)) [
        | inl gone ↦ ground (
          arith,
          newer,
          gone,
          see_outputs-mem files (insert k f.mtime seen) d,
          lookup-insert k d f.mtime seen,
          eq_iff k d,
        )
        | inr (t, there) ↦ ground (
          arith,
          newer,
          there,
          see_outputs-mem files (insert k f.mtime seen) d,
          lookup-insert k d f.mtime seen,
          eq_iff k d,
        )
      ]
      | inr older ↦ elim (Option-cases (lookup k seen)) [
        | inl gone ↦ ground (arith, older, gone, see_outputs-mem files seen d, eq_iff k d)
        | inr (t, there) ↦ ground (arith, older, there, see_outputs-mem files seen d, eq_iff k d)
      ]
    ]

add_done-status :
    (manifest : String → Option String) (seen : Dict ℕ) (jobs : Dict Job) (d : String)
    → status_of (lookup d (add_done manifest seen jobs))
      ≡ (if mem d seen then some done else status_of (lookup d jobs))
unfolding add_done lookup
add_done-status manifest [] jobs d = refl
add_done-status manifest ((k, t) ∷ seen) jobs d =
    let new : Job = record (job_or_bare k (lookup k jobs)) {
      status = done;
      completed_at = some t;
      manifest_status = if_text (manifest k);
    } in
    ground (
      arith,
      add_done-status manifest seen (insert k new jobs) d,
      lookup-insert k d new jobs,
      eq_iff k d,
    )

mark_cancels-status :
    (ds : List String) (jobs : Dict Job) (d : String)
    → status_of (lookup d (mark_cancels ds jobs)) ≡ status_of (lookup d jobs)
unfolding mark_cancels
mark_cancels-status [] jobs d = refl
mark_cancels-status (k ∷ ds) jobs d = elim (Option-cases (lookup k jobs)) [
  | inl gone ↦ ground (arith, gone, mark_cancels-status ds jobs d)
  | inr (j, here) ↦ ground (
    arith,
    here,
    mark_cancels-status ds jobs d,
    mark_cancels-status ds (insert k (record j { cancel_pending = true }) jobs) d,
    lookup-insert k d (record j { cancel_pending = true }) jobs,
    eq_iff k d,
  )
]

-- A job listed before the cancels are marked.
mem-status : (j : Option Job) → is_some (status_of j) ≡ is_some j
mem-status none = refl
mem-status (some j) = refl

-- Where a job stands, by the directories: an output with a time above 0, a queued plan, a record.
pub phase : String → State → Option Status
phase d s =
    if not (is_digest d)
    then none
    else if has_output d s.outputs
    then some done
    else if mem d s.inputs
    then some queued
    else if mem d s.done
    then some running
    else none

-- The job list has a row for a digest exactly when the directories know it, with the status that
-- they give: done before queued, queued before running; no other name has a row.
pub collect_jobs-status :
    (manifest : String → Option String) (s : State) (d : String)
    → status_of (lookup d (collect_jobs manifest s)) ≡ phase d s
unfolding collect_jobs lookup phase
collect_jobs-status manifest s d =
    let one = add_queued s.inputs s.inputs_meta [] in
    let two = add_running s.done s.done_meta one in
    let seen = see_outputs s.outputs [] in
    let three = add_done manifest seen two in
    ground (
      arith,
      mark_cancels-status (keys s.cancel) three d,
      add_done-status manifest seen two d,
      see_outputs-mem s.outputs [] d,
      add_running-status s.done s.done_meta one d,
      add_queued-status s.inputs s.inputs_meta [] d,
      mem-status (lookup d one),
    )
