-- ===== src/Poller/Spool/Drained.antt =====
-- poller.py: what a drain uploads, what it leaves, and when a refused artefact is tried again.
use test_serv.Base.{
  ℕ, ◌+◌, ◌<◌, ◌≤◌, ◌≡◌, inl, inr, refl, Bool, true, false, ◌&&◌, none, some, List, [], ◌∷◌, String,
  arith, str_eq, eq_iff, ltb, if◌then◌else◌, Option-cases, Bool-cases, is_some,
}
use test_serv.Base.Dict.{lookup, contains, keys, lookup-erase, lookup-insert, contains-keys}
use test_serv.Server.Store.{Bytes, File}
use test_serv.Registry.Resolve.{ends_with}
use test_serv.Poller.Spool.{
  Spool, Posted, accepted, http_error, Moment, refused_grace, refused_retry_backoff, spool_digest,
  refuse, finish_post, post_spooled, retry_time, drain_one, drain_names, drain_pending_uploads,
}

-- A name that the drain posts.
abbrev pub is_spool_name : String → Bool
is_spool_name name = ends_with ".tar" name && is_some (spool_digest name)

-- A server that takes everything.
abbrev pub takes_all : String → Bytes → Posted
takes_all digest body = accepted

drain_one-takes_all :
    (mono : ℕ) (at : Moment) (name n : String) (s : Spool)
    → ltb mono (retry_time name s) ≡ false
    → lookup n (drain_one mono at takes_all name s).pending
      ≡ (if str_eq name n && is_spool_name name then none else lookup n s.pending)
unfolding drain_one post_spooled finish_post
drain_one-takes_all mono at name n s r = elim (Bool-cases (ends_with ".tar" name)) [
  | inr e ↦ ground (arith, e)
  | inl e ↦ elim (Option-cases (spool_digest name)) [
    | inl e' ↦ ground (arith, e, e', r)
    | inr (d, e') ↦ elim (Option-cases (lookup name s.pending)) [
      | inl gone ↦ ground (arith, e, e', gone, r, eq_iff name n)
      | inr (f, hit) ↦ ground (arith, e, e', hit, r, lookup-erase name n s.pending)
    ]
  ]
]

drain_one-retry :
    (mono : ℕ) (at : Moment) (name : String) (s : Spool)
    → (drain_one mono at takes_all name s).retry_after ≡ s.retry_after
unfolding drain_one post_spooled finish_post
drain_one-retry mono at name s = elim (Option-cases (spool_digest name)) [
  | inl e' ↦ ground (arith, e')
  | inr (d, e') ↦ elim (Option-cases (lookup name s.pending)) [
    | inl gone ↦ ground (arith, e', gone)
    | inr (f, hit) ↦ ground (arith, e', hit)
  ]
]

module _ (clock : ℕ → ℕ × Moment) where
  drain_names-takes_all :
      (k : ℕ) (names : List String) (n : String) (s : Spool)
      → ((i : ℕ) (m : String) → ltb (clock i).0 (retry_time m s) ≡ false)
      → lookup n (drain_names clock k takes_all names s).pending
        ≡ (if contains n names && is_spool_name n then none else lookup n s.pending)
  unfolding drain_names
  drain_names-takes_all k [] n s over = refl
  drain_names-takes_all k (name ∷ names) n s over =
      let s' = drain_one (clock k).0 (clock k).1 takes_all name s in
      let same = drain_one-retry (clock k).0 (clock k).1 name s in
      let over' : (i : ℕ) (m : String) → ltb (clock i).0 (retry_time m s') ≡ false =
        λ i m. ground (arith, same, over i m) in
      ground (
        arith,
        drain_names-takes_all (k + 1) names n s' over',
        drain_one-takes_all (clock k).0 (clock k).1 name n s (over k name),
        eq_iff name n,
      )

  -- A drain that finds the circuit closed, every retry time over and a server that takes all posts
  -- empties PENDING of the files with a spool name and the ending ".tar", and leaves every other
  -- one. `sorted` is any function that keeps the elements of a list.
  pub drain_uploads_all :
      (sorted : List String → List String) (mono : ℕ) (s : Spool)
      → ((n : String) (ns : List String) → contains n (sorted ns) ≡ contains n ns)
      → ltb mono s.circuit_until ≡ false
      → ((i : ℕ) (m : String) → ltb (clock i).0 (retry_time m s) ≡ false)
      → (n : String)
      → lookup n (drain_pending_uploads sorted mono clock takes_all s).pending
        ≡ (if is_spool_name n then none else lookup n s.pending)
  unfolding drain_pending_uploads
  drain_uploads_all sorted mono s same closed over n = ground (
    arith,
    drain_names-takes_all 0 (sorted (keys s.pending)) n s over,
    same n (keys s.pending),
    contains-keys n s.pending,
  )

-- After a 409 the file is untouched and no drain posts it for five minutes, while it is less than
-- six hours old; from then on it is moved as it is to refused/, if the move works.
pub refusal_lem :
    (at : Moment) (name : String) (f : File) (s : Spool)
    → lookup name s.pending ≡ some f
    → let t = (finish_post at name (http_error 409) s).1 in
      (at.wall < f.mtime + refused_grace
        → (t.pending ≡ s.pending)
          × (t.refused ≡ s.refused)
          × ((mono : ℕ) (later : Moment) (post : String → Bytes → Posted)
              → mono < at.mono + refused_retry_backoff
              → drain_one mono later post name t ≡ t))
      × (f.mtime + refused_grace ≤ at.wall
          → at.can_park ≡ true
          → (lookup name t.pending ≡ none) × (lookup name t.refused ≡ some f))
unfolding finish_post refuse drain_one
refusal_lem at name f s hit = (
  λ young. (
    ground (arith, hit),
    ground (arith, hit),
    λ mono later post soon. ground (
      arith,
      hit,
      lookup-insert name name (at.mono + refused_retry_backoff) s.retry_after,
      eq_iff name name,
    ),
  ),
  λ old can. (
    ground (arith, hit, lookup-erase name name s.pending, eq_iff name name),
    ground (arith, hit, lookup-insert name name f s.refused, eq_iff name name),
  ),
)
