-- ===== src/Server/Upload/Gate.antt =====
-- server.py: when an artefact upload is taken, what it changes, and what deleting it leaves.
use test_serv.Base.{
  ℕ, ◌+◌, ◌&&◌, ◌||◌, leb, ltb, none, Option-cases, Bool-cases, inl, inr, ◌≡◌, ◌≢◌, ◌↔◌, refl, Bool,
  true, false, some, [], String, arith, ◌∙◌, str_eq, eq_iff,
}
use test_serv.Base.Dict.{mem, contains, lookup, insert, lookup-insert, lookup-erase}
use test_serv.Server.Digest.{is_digest, is_safe_name, lstrip_dots, split_name}
use test_serv.Server.Store.{
  Bytes, File, State, Externals, ContentLength, out_of_range, read_body, reply, plan,
  max_artefact_bytes, snapshot_digests, inflight_digests,
}
use test_serv.Server.Upload.{
  artefact, artefact_ext, plan_present, store_artefact, output_names, delete_outputs, fetch_output,
  head_output, parse_output_name,
}

-- A record in DONE, a plan in INPUTS, or an entry of an inflight.json of the last five minutes.
abbrev pub has_job : Externals → ℕ → String → State → Bool
has_job ext now d s = mem d s.done || mem d s.inputs || (elim (lookup "inflight.json" s.status) [
  | none ↦ false
  | some f ↦ leb now (f.mtime + 300_000) && contains d (snapshot_digests ext f.body)
])

plan_present-has_job :
    (ext : Externals) (now : ℕ) (d : String) (s : State)
    → plan_present ext now d s ≡ has_job ext now d s
unfolding plan_present inflight_digests
plan_present-has_job ext now d s = elim (Option-cases (lookup "inflight.json" s.status)) [
  | inl e ↦ ground (arith, e)
  | inr (f, e) ↦ elim (Bool-cases (ltb (f.mtime + 300_000) now)) [
    | inl old ↦ ground (arith, e, old)
    | inr young ↦ ground (arith, e, young)
  ]
]

module _ (ext : Externals) (now : ℕ) (full : Bool) (n : ContentLength) (stream : Bytes)
    (path : String) (s : State) where
  -- An upload is stored exactly when its name is a digest with the extension "tar" or none, its
  -- length is in range, the disk has room, and a job record, a queued plan or an entry of an
  -- inflight.json of the last five minutes matches the digest.
  pub artefact_accepts :
      let (d, url_ext) = split_name path in
      ((artefact ext now full n stream path s).0.code ≡ 200) ↔ (
        (is_digest d ≡ true)
        × (str_eq (artefact_ext url_ext) "tar" ≡ true)
        × (out_of_range max_artefact_bytes n ≡ false)
        × (full ≡ false)
        × (has_job ext now d s ≡ true))
  unfolding artefact
  artefact_accepts =
      let known = plan_present-has_job ext now (split_name path).0 s in
      (λ h. ground (arith, known), λ h. ground (arith, known))

  -- A refused upload changes nothing on disk.
  pub artefact_refuses :
      (artefact ext now full n stream path s).0.code ≢ 200
      → (artefact ext now full n stream path s).1 ≡ s
  unfolding artefact
  artefact_refuses h = ground arith

  pub artefact_stores :
      (artefact ext now full n stream path s).0.code ≡ 200
      → (artefact ext now full n stream path s).1
        ≡ store_artefact ext now (split_name path).0 (read_body n stream) s
  unfolding artefact
  artefact_stores h = ground arith

-- Once the outputs of a digest were deleted, deleting them again, in any state with the same
-- outputs, removes nothing and changes nothing, so a job record that appeared meanwhile stays.
pub delete_outputs_twice :
    (d ext ext' : String) (s t : State)
    → (delete_outputs d ext s).0 ≡ 1
    → t.outputs ≡ (delete_outputs d ext s).1.outputs
    → delete_outputs d ext' t ≡ (0, t)
unfolding delete_outputs output_names
delete_outputs_twice d ext ext' s t h e = ground (arith, lookup-erase d d s.outputs, eq_iff d d)

parse_tar :
    (name : String)
    → (split_name name).1 ≡ ".tar"
    → is_digest (split_name name).0 ≡ true
    → parse_output_name name ≡ some ((split_name name).0, ".tar")
unfolding parse_output_name is_safe_name lstrip_dots
parse_tar name tar safe = rw (safe, tar) refl

-- What a fetch returns after an accepted upload of the same name is what was uploaded, and HEAD
-- finds it.
pub fetch-artefact :
    (ext : Externals) (now : ℕ) (n : ContentLength) (stream : Bytes) (path : String) (s : State)
    → (split_name path).1 ≡ ".tar"
    → (artefact ext now false n stream path s).0.code ≡ 200
    → let t = (artefact ext now false n stream path s).1 in
      (fetch_output path t ≡ reply 200 (plan (read_body n stream) []))
      × ((head_output (split_name path).0 t).code ≡ 200)
unfolding fetch_output head_output store_artefact
fetch-artefact ext now n stream path s tar h =
    let d = (split_name path).0 in
    let safe = ((artefact_accepts ext now false n stream path s).0 h).0 in
    let file : File = record { mtime = now; body = read_body n stream } in
    let found : lookup d (insert d file s.outputs) ≡ some file =
      lookup-insert d d file s.outputs ∙ ground (arith, eq_iff d d) in
    rw (artefact_stores ext now false n stream path s h)
      (rw (parse_tar path tar safe, fetch_output, found) refl, rw (found, head_output) refl)
