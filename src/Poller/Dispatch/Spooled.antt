-- ===== src/Poller/Dispatch/Spooled.antt =====
-- poller.py: what a worker leaves behind, on every path of _dispatch.
use Prim.Native.String.{◌++◌}
use Prim.Native.String.append
use test_serv.Base.{
  ◌≡◌, ◌+◌, if◌then◌else◌, ◌⊎◌, ap, refl, true, false, not, Option, none, some, List, [], ◌∷◌,
  String, arith, str_eq, eq_iff, ◌==◌, keep, Option-cases, Bool-cases, inl, inr, code,
}
use test_serv.Base.Text.{all_chars, text_length, is_empty, partition}
use test_serv.Base.Dict.{lookup, contains, lookup-insert}
use test_serv.Server.Digest.{is_hex}
use test_serv.Server.Store.{Bytes, File}
use test_serv.Plan.Value.{Error, Result, unicode_error, tar_error, ok, err}
use test_serv.Plan.Tar.{Plan, load_tar}
use test_serv.Registry.Resolve.{ends_with}
use test_serv.Poller.Spool.{spool_name, spool_digest, spool_artefact}
use test_serv.Poller.Spool.Drained.{is_spool_name}
use test_serv.Poller.Spool.Kept.{body_of}
use test_serv.Poller.Dispatch.{
  Plugins, Bench, World, is_plan_error, finish_session, dispatch_loaded, validate_against_plugins,
  parse_failed, invalid, post_artefact, run_session, dispatch, worker,
}

-- A hexadecimal text before the first dot.
partition-hex :
    (d rest : String)
    → all_chars is_hex d ≡ true
    → partition b'.' (d ++ ("." ++ rest)) ≡ (d, some rest)
unfolding partition all_chars is_hex
partition-hex String.[] rest h =
    rw (append.nil ("." ++ rest)) (rw (append.cons "." "" rest) (rw (append.nil rest) refl))
partition-hex (String.◌∷◌ c d) rest h =
    let tail : all_chars is_hex d ≡ true = ground arith in
    let dotless : (code c == b'.') ≡ false = ground arith in
    rw (append.cons c d ("." ++ rest)) (rw (partition-hex d rest tail, partition, dotless) refl)

ends_with-append :
    (suffix s t : String) → ends_with suffix t ≡ true → ends_with suffix (s ++ t) ≡ true
unfolding ends_with
ends_with-append suffix String.[] t h = rw (append.nil t) h
ends_with-append suffix (String.◌∷◌ c s) t h =
    rw (append.cons c s t) (ground (arith, ends_with-append suffix s t h))

tar_ends : ends_with ".tar" ".tar" ≡ true
unfolding ends_with
tar_ends = refl

-- The name under which an artefact is spooled is one that a drain posts, to the job's digest.
pub spool_name-is_spool_name :
    (job_id run : String)
    → all_chars is_hex job_id ≡ true
    → text_length job_id ≡ 64
    → all_chars is_hex run ≡ true
    → is_empty run ≡ false
    → (spool_digest (spool_name job_id run) ≡ some job_id)
      × (is_spool_name (spool_name job_id run) ≡ true)
unfolding spool_name spool_digest
spool_name-is_spool_name job_id run hex long run_hex some_run =
    let first = partition-hex job_id (run ++ ".tar") hex in
    let second : partition b'.' (run ++ ".tar") ≡ (run, some "tar") =
      partition-hex run "tar" run_hex in
    let digest : spool_digest (job_id ++ ("." ++ (run ++ ".tar"))) ≡ some job_id =
      rw (first, spool_digest, hex, long, second, run_hex, some_run) refl in
    let ending =
      ends_with-append ".tar" job_id ("." ++ (run ++ ".tar")) (
        ends_with-append ".tar" "." (run ++ ".tar")
          (ends_with-append ".tar" run ".tar" tar_ends)) in
    (digest, rw (ending, digest) refl)

contains-removed :
    (d : String) (xs : List String) → contains d (keep (λ e. not (str_eq e d)) xs) ≡ false
contains-removed d [] = refl
contains-removed d (e ∷ xs) = ground (arith, contains-removed d xs, eq_iff e d)

only_escaped : (e : Error) → is_plan_error e ≡ false → (e ≡ unicode_error) ⊎ (e ≡ tar_error)
only_escaped e h = ground arith

module _ (x : World) where
  -- The artefact of a job: the failure's, the one of the session, or none where an exception leaves
  -- _dispatch.
  abbrev pub artefact_of : Plugins → String → Result Plan → Bench → Option Bytes
  artefact_of plugins job_id (err e) s =
      if is_plan_error e then some (x.failure_artefact job_id (parse_failed e)) else none
  artefact_of plugins job_id (ok plan) s = elim (validate_against_plugins plugins plan.ops) [
    | some e ↦ some (x.failure_artefact job_id (invalid e))
    | none ↦ (x.during job_id plan (record s { active = job_id ∷ s.active })).0
  ]

  -- What a worker leaves: whether the digest is still active, and the artefact under its name.
  pub record IsSpooled (job_id : String) (want : Option Bytes) (before : Bench)
      (o : Option String × Bench) : Type 0 where
    pub named :
        (name : String)
        → o.0 ≡ some name
        → (name ≡ spool_name job_id x.uuid)
          × ((tar : Bytes) × (want ≡ some tar)
              × (body_of (lookup name o.1.spool.pending) ≡ some tar))
    pub inactive : contains job_id before.active ≡ false → contains job_id o.1.active ≡ false

  post_artefact-IsSpooled :
      (job_id : String) (tar : Bytes) (before s : Bench)
      → (contains job_id before.active ≡ false → contains job_id s.active ≡ false)
      → IsSpooled job_id (some tar) before (post_artefact x job_id tar s)
  unfolding post_artefact spool_artefact
  post_artefact-IsSpooled job_id tar before s gone =
      let name = spool_name job_id x.uuid in
      let file : File = record { mtime = x.wall; body = tar } in
      record {
        named = λ n e. (
          ground arith,
          (tar, refl, ground (arith, lookup-insert name n file s.spool.pending, eq_iff name n)),
        );
        inactive = gone;
      }

  finish_session-IsSpooled :
      (job_id : String) (before : Bench) (o : Option Bytes × Bench)
      → IsSpooled job_id o.0 before (finish_session x job_id o)
  finish_session-IsSpooled job_id before (none, s) = record {
    named = λ n e. absurd (ground arith);
    inactive = λ h. contains-removed job_id s.active;
  }
  finish_session-IsSpooled job_id before (some tar, s) =
      post_artefact-IsSpooled job_id tar before _ (λ h. contains-removed job_id s.active)

  loaded-IsSpooled :
      (plugins : Plugins) (job_id : String) (loaded : Result Plan) (s : Bench)
      → IsSpooled job_id
          (artefact_of plugins job_id loaded s)
          s
          (dispatch_loaded x plugins job_id loaded s)
  unfolding run_session
  loaded-IsSpooled plugins job_id (err e) s = elim (Bool-cases (is_plan_error e)) [
    | inl p ↦ rw p (post_artefact-IsSpooled job_id _ s s (λ h. h))
    | inr p ↦ rw p (record { named = λ n e. absurd (ground arith); inactive = λ h. h })
  ]
  loaded-IsSpooled plugins job_id (ok plan) s =
      elim (Option-cases (validate_against_plugins plugins plan.ops)) [
        | inr (e, p) ↦
            rw (p, dispatch_loaded, artefact_of) (post_artefact-IsSpooled job_id _ s s (λ h. h))
        | inl p ↦ rw (p, dispatch_loaded, artefact_of) (finish_session-IsSpooled job_id s _)
      ]

  -- Why a dispatch ends with an exception.
  loaded-raises :
      (plugins : Plugins) (job_id : String) (loaded : Result Plan) (s : Bench)
      → (dispatch_loaded x plugins job_id loaded s).0 ≡ none
      → (loaded ≡ err unicode_error)
        ⊎ (loaded ≡ err tar_error)
        ⊎ ((plan : Plan) × (loaded ≡ ok plan)
            × (validate_against_plugins plugins plan.ops ≡ none)
            × ((x.during job_id plan (record s { active = job_id ∷ s.active })).0 ≡ none))
  unfolding run_session post_artefact
  loaded-raises plugins job_id (err e) s raised = elim (Bool-cases (is_plan_error e)) [
    | inl p ↦ absurd (ground (arith, p))
    | inr p ↦ elim (only_escaped e p) [
      | inl u ↦ inl (ap (λ e. err e) u)
      | inr t ↦ inr (inl (ap (λ e. err e) t))
    ]
  ]
  loaded-raises plugins job_id (ok plan) s raised =
      elim (Option-cases (validate_against_plugins plugins plan.ops)) [
        | inr (e, p) ↦ absurd (ground (arith, p))
        | inl p ↦
            let o = x.during job_id plan (record s { active = job_id ∷ s.active }) in
            elim (Option-cases o.0) [
              | inl quiet ↦ inr (inr (plan, refl, p, quiet))
              | inr (tar, e) ↦ absurd (ground (arith, p, e))
            ]
      ]

  -- A worker spools an artefact under the job's name, in PENDING, unless plan.txt is not UTF-8, the
  -- tar breaks after it was opened, or the session or the packing of a valid plan raises. The bytes
  -- are those of the failure artefact of a plan that does not parse or validate, and else those that
  -- the session packed. In each case one slot is released after the dispatch, and the job, if it was
  -- not active before, is not active after.
  pub worker_lem :
      (plugins : Plugins) (payload : Bytes) (s : Bench)
      → let job_id = x.sha256 payload in
        let loaded = load_tar x.files x.text payload in
        let o = worker x plugins payload s in
        ((o.0 ≡ none)
          → (loaded ≡ err unicode_error)
            ⊎ (loaded ≡ err tar_error)
            ⊎ ((plan : Plan) × (loaded ≡ ok plan)
                × (validate_against_plugins plugins plan.ops ≡ none)
                × ((x.during job_id plan (record s { active = job_id ∷ s.active })).0 ≡ none)))
        × ((name : String)
            → o.0 ≡ some name
            → (name ≡ spool_name job_id x.uuid)
              × ((tar : Bytes) × (artefact_of plugins job_id loaded s ≡ some tar)
                  × (body_of (lookup name o.1.spool.pending) ≡ some tar)))
        × (o.1.slots ≡ (dispatch x plugins payload s).1.slots + 1)
        × (contains job_id s.active ≡ false → contains job_id o.1.active ≡ false)
  unfolding worker dispatch
  worker_lem plugins payload s =
      let job_id = x.sha256 payload in
      let loaded = load_tar x.files x.text payload in
      let v = loaded-IsSpooled plugins job_id loaded s in
      (loaded-raises plugins job_id loaded s, v.named, refl, v.inactive)
