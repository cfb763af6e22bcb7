-- ===== src/Poller/Spool/Delivered.antt =====
-- poller.py and server.py: an artefact from the spool of the bench to a fetch from the server.
use Prim.Native.String.{◌++◌}
use test_serv.Base.{
  ℕ, ◌≡◌, ◌≢◌, ◌⊎◌, ◌∙◌, ap, sym, refl, Bool, true, false, none, some, [], ◌∷◌, String, arith, ltb,
  leb, ◌&&◌, length, take, eq_iff, if◌then◌else◌, Option-cases, inl, inr,
}
use test_serv.Base.Dict.{lookup, lookup-erase}
use test_serv.Base.Text.{all_chars, text_length, is_empty, partition}
use test_serv.Server.Digest.{is_hex, split_name, split_name-hex}
use test_serv.Server.Store.{Bytes, File, State, Externals, ContentLength, Reply, reply, plan}
use test_serv.Server.Upload.{artefact, fetch_output}
use test_serv.Server.Upload.Gate.{artefact_accepts, artefact_refuses, fetch-artefact}
use test_serv.Poller.Spool.{
  Spool, Posted, accepted, http_error, Moment, spool_digest, finish_post, post_spooled,
}

-- How urllib ends a request by the status of the reply.
abbrev pub posted_of : Reply → Posted
posted_of r = if ltb r.code 400 then accepted else http_error r.code

-- The upload of a body under a digest: what the server replies, and its state after that.
pub answer : Externals → ℕ → Bool → String → Bytes → State → Reply × State
answer ext now full digest body srv =
    artefact ext now full (ContentLength.bytes (length body)) body (digest ++ ".tar") srv

take-length : (xs : Bytes) → take (length xs) xs ≡ xs
take-length [] = refl
take-length (x ∷ xs) = ap (λ (r : Bytes). x ∷ r) (take-length xs)

-- The name that matches is a digest with the ending of an artefact.
spool_digest-hex :
    (name : String) {d : String}
    → spool_digest name ≡ some d
    → (all_chars is_hex d ≡ true) × (text_length d ≡ 64)
unfolding spool_digest
spool_digest-hex name {d} h = elim (Option-cases (partition b'.' name).1) [
  | inl e ↦ absurd (ground arith)
  | inr (rest, e) ↦ (ground arith, ground arith)
]

not_empty : (d : String) → text_length d ≡ 64 → is_empty d ≡ false
not_empty String.[] h = absurd (omega arith)
not_empty (String.◌∷◌ c d) h = refl

artefact_status :
    (ext : Externals) (now : ℕ) (full : Bool) (digest : String) (body : Bytes) (srv : State)
    → let r = (answer ext now full digest body srv).0 in (r.code ≡ 200) ⊎ (leb 400 r.code ≡ true)
unfolding answer artefact
artefact_status ext now full digest body srv = ground arith

fetched :
    (ext : Externals) (now : ℕ) (full : Bool) (d : String) (body : Bytes) (srv : State)
    → split_name (d ++ ".tar") ≡ (d, ".tar")
    → (answer ext now full d body srv).0.code ≡ 200
    → fetch_output (d ++ ".tar") (answer ext now full d body srv).1 ≡ reply 200 (plan body [])
unfolding answer
fetched ext now full d body srv split ok200 =
    let n = ContentLength.bytes (length body) in
    let path = d ++ ".tar" in
    let room = ((artefact_accepts ext now full n body path srv).0 ok200).3 in
    let tar : (split_name path).1 ≡ ".tar" = ap (λ (p : String × String). p.1) split in
    rw room (
      (fetch-artefact ext now n body path srv tar (rw (sym room) ok200)).0
      ∙ ap (λ b. reply 200 (plan b [])) (take-length body))

refused :
    (ext : Externals) (now : ℕ) (full : Bool) (d : String) (body : Bytes) (srv : State)
    → (answer ext now full d body srv).0.code ≢ 200
    → (answer ext now full d body srv).1 ≡ srv
unfolding answer
refused ext now full d body srv h =
    artefact_refuses ext now full (ContentLength.bytes (length body)) body (d ++ ".tar") srv h

-- One post of a spooled file whose post nobody disturbs. If it succeeds, a fetch of the digest from
-- the server returns exactly the spooled bytes, and the file is gone from the bench. If it fails, the
-- server is as it was, and the file is still in PENDING unless the status was 400 to 499.
pub delivered :
    (ext : Externals) (now : ℕ) (full : Bool) (at : Moment) (name d : String) (f : File) (s : Spool)
    (srv : State)
    → spool_digest name ≡ some d
    → lookup name s.pending ≡ some f
    → let a = answer ext now full d f.body srv in
      let o =
        post_spooled at (λ digest body. posted_of (answer ext now full digest body srv).0) name s in
      (o.0 ≡ true
        → (fetch_output (d ++ ".tar") a.1 ≡ reply 200 (plan f.body []))
          × (lookup name o.1.pending ≡ none))
      × (o.0 ≡ false
          → (a.1 ≡ srv)
            × ((leb 400 a.0.code && ltb a.0.code 500) ≡ false → lookup name o.1.pending ≡ some f))
unfolding post_spooled finish_post
delivered ext now full at name d f s srv named hit =
    let a = answer ext now full d f.body srv in
    let (hex, long) = spool_digest-hex name named in
    let split = split_name-hex d hex (not_empty d long) in
    elim (artefact_status ext now full d f.body srv) [
      | inl ok200 ↦ (
        λ done. (
          fetched ext now full d f.body srv split ok200,
          ground (arith, named, hit, ok200, lookup-erase name name s.pending, eq_iff name name),
        ),
        λ failed. absurd (ground (arith, named, hit, ok200)),
      )
      | inr bad ↦ (
        λ done. absurd (ground (arith, named, hit, bad)),
        λ failed. (
          refused ext now full d f.body srv (ground (arith, bad)),
          λ other. ground (arith, named, hit, bad, other),
        ),
      )
    ]
