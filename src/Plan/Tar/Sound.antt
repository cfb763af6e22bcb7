-- ===== src/Plan/Tar/Sound.antt =====
-- plan.py: what holds of a plan that load_tar has loaded.
use test_serv.Base.{
  ℕ, ◌≤◌, ◌≡◌, true, false, inl, inr, some, List, [], ◌∷◌, String, arith, length, All, Option-cases,
  eq_iff,
}
use test_serv.Base.Dict.{Dict, lookup, mem, lookup-insert, length-insert-le}
use test_serv.Base.Result.{>>=-eq-ok, Fallible-cases}
use test_serv.Plan.Value.{ok, Value, int, str, bool, ident, blob, PyText}
use test_serv.Plan.Text.{Op, parse_text}
use test_serv.Plan.Tar.{
  Member, TarFile, no_tar, broken_tar, opened, load_opened, Files, Plan, Loaded, no_members,
  is_unsafe, check_args, check_blob_refs, load_member, load_members, finish_load, load_tar,
  max_blobs, max_blob_bytes,
}

-- The argument, if it is a blob reference, names a blob that is there.
abbrev pub Resolves : Dict (List ℕ) → Value → Type 0
Resolves blobs (blob name) = mem name blobs ≡ true
Resolves blobs _ = Unit {0}

abbrev pub ArgsResolve : Dict (List ℕ) → Dict Value → Type 0
ArgsResolve blobs = All (λ (k, v). Resolves blobs v)

abbrev pub OpsResolve : Dict (List ℕ) → List Op → Type 0
OpsResolve blobs = All (λ op. ArgsResolve blobs op.args)

check_args-Resolve :
    (lineno : ℕ) (args : Dict Value) (blobs : Dict (List ℕ))
    → check_args lineno args blobs ≡ ok tt
    → ArgsResolve blobs args
unfolding check_args
check_args-Resolve lineno [] blobs h = tt
check_args-Resolve lineno ((k, blob name) ∷ args) blobs h =
    (ground arith, check_args-Resolve lineno args blobs (ground arith))
check_args-Resolve lineno ((k, int n) ∷ args) blobs h = (tt, check_args-Resolve lineno args blobs h)
check_args-Resolve lineno ((k, str s) ∷ args) blobs h = (tt, check_args-Resolve lineno args blobs h)
check_args-Resolve lineno ((k, bool b) ∷ args) blobs h =
    (tt, check_args-Resolve lineno args blobs h)
check_args-Resolve lineno ((k, ident s) ∷ args) blobs h =
    (tt, check_args-Resolve lineno args blobs h)

check_blob_refs-Resolve :
    (ops : List Op) (blobs : Dict (List ℕ))
    → check_blob_refs ops blobs ≡ ok tt
    → OpsResolve blobs ops
unfolding check_blob_refs
check_blob_refs-Resolve [] blobs h = tt
check_blob_refs-Resolve (op ∷ ops) blobs h =
    let (u, e, h') = >>=-eq-ok (check_args op.lineno op.args blobs) _ h in
    (check_args-Resolve op.lineno op.args blobs e, check_blob_refs-Resolve ops blobs h')

-- The blobs of a loaded tar: at most 64, each under a safe name and within the size limit.
pub record BlobsSafe (blobs : Dict (List ℕ)) : Type 0 where
  pub few : length blobs ≤ max_blobs
  pub safe :
      (k : String) (b : List ℕ)
      → lookup k blobs ≡ some b
      → (is_unsafe k ≡ false) × (length b ≤ max_blob_bytes)

record Inv (st : Loaded) : Type 0 where
  counted : length st.blobs ≤ st.n_blobs
  capped : st.n_blobs ≤ max_blobs
  safe :
      (k : String) (b : List ℕ)
      → lookup k st.blobs ≡ some b
      → (is_unsafe k ≡ false) × (length b ≤ max_blob_bytes)

module _ (files : Files) where
  load_member-Inv :
      (st : Loaded) (m : Member) {st' : Loaded} → load_member files st m ≡ ok st' → Inv st → Inv st'
  unfolding load_member
  load_member-Inv st m {st'} h v = record {
    counted = ground (arith, length-insert-le m.name m.body st.blobs);
    capped = ground arith;
    safe = λ k b e.
        ground (arith, lookup-insert m.name k m.body st.blobs, eq_iff m.name k, v.safe k b);
  }

  load_members-Inv :
      (st : Loaded) (ms : List Member) {st' : Loaded}
      → load_members files st ms ≡ ok st'
      → Inv st
      → Inv st'
  unfolding load_members
  load_members-Inv st [] {st'} h v = let same : st' ≡ st = ground arith in rw same v
  load_members-Inv st (m ∷ ms) h v =
      let (st1, e, h') = >>=-eq-ok (load_member files st m) _ h in
      load_members-Inv st1 ms h' (load_member-Inv st m e v)

no_members-Inv : Inv no_members
unfolding lookup
no_members-Inv = record {
  counted = omega arith;
  capped = omega arith;
  safe = λ k b e. absurd (ground arith);
}

finish_load_lem :
    (files : Files) (py : PyText) (st : Loaded) {p : Plan}
    → Inv st
    → finish_load files py st ≡ ok p
    → (parse_text py p.text ≡ ok p.ops) × OpsResolve p.blobs p.ops × BlobsSafe p.blobs
unfolding finish_load
finish_load_lem files py st {p} v h = elim (Option-cases st.plan_text) [
  | inl e ↦ absurd (ground arith)
  | inr (text, e) ↦ elim (Fallible-cases (parse_text py text)) [
    | inr (error, bad) ↦ absurd (ground arith)
    | inl (ops, parsed) ↦ elim (Fallible-cases (check_blob_refs ops st.blobs)) [
      | inr (error, bad) ↦ absurd (ground arith)
      | inl (u, checked) ↦
          let made : p ≡ record { ops = ops; blobs = st.blobs; text = text } = ground arith in
          rw made (
            parsed,
            check_blob_refs-Resolve ops st.blobs checked,
            record { few = omega (arith, v.counted, v.capped); safe = v.safe },
          )
    ]
  ]
]

load_opened_lem :
    (files : Files) (py : PyText) (o : TarFile) {p : Plan}
    → load_opened files py o ≡ ok p
    → (parse_text py p.text ≡ ok p.ops) × OpsResolve p.blobs p.ops × BlobsSafe p.blobs
load_opened_lem files py no_tar h = absurd (ground arith)
load_opened_lem files py broken_tar h = absurd (ground arith)
load_opened_lem files py (opened ms) h =
    let (st, loaded, finished) = >>=-eq-ok (load_members files no_members ms) _ h in
    finish_load_lem files py st (load_members-Inv files no_members ms loaded no_members-Inv)
      finished

-- A plan that loads passes every check: its text parses to its ops, every blob that an op names
-- is in the tar, and there are at most 64 blobs, each under a safe name and within 512 MiB.
pub load_tar_lem :
    (files : Files) (py : PyText) (tar : List ℕ) {p : Plan}
    → load_tar files py tar ≡ ok p
    → (parse_text py p.text ≡ ok p.ops) × OpsResolve p.blobs p.ops × BlobsSafe p.blobs
unfolding load_tar
load_tar_lem files py tar {p} h =
    let loads : load_opened files py (files.members tar) ≡ ok p = ground arith in
    load_opened_lem files py (files.members tar) loads
