-- ===== src/Poller/Spool/Moves.antt =====
-- poller.py: each move of the spool accounts for every artefact.
use test_serv.Base.{
  ℕ, ◌+◌, ◌-◌, ◌≡◌, ◌⊎◌, ◌∙◌, sym, ap, inl, inr, refl, true, false, ◌&&◌, ◌||◌, none, some, List,
  [], ◌∷◌, String, arith, str_eq, eq_iff, ltb, leb, ◌==◌, Option-cases, Bool-cases,
}
use test_serv.Base.Dict.{
  Dict, lookup, insert, erase, mem, contains, keys, lookup-insert, lookup-erase,
}
use test_serv.Server.Store.{Bytes, File}
use test_serv.Poller.Spool.{
  Spool, Posted, accepted, lost, http_error, Moment, refused_grace, refused_retention, spool_name,
  spool_artefact, refuse, finish_post, gc_refused, gc_refused_spools,
}
use test_serv.Poller.Spool.Uploads.{Uploads, note_reply, joined}

-- Each spooled name is accounted for, and what stands under it is what was spooled.
pub record IsKept (w : Uploads) : Type 0 where
  pub kept :
      (n : String)
      → mem n w.spooled ≡ true
      → (mem n w.spool.pending
          || mem n w.spool.refused
          || mem n w.acked
          || contains n w.dropped
          || contains n w.expired)
        ≡ true
  pub pending_body :
      (n : String) (f : File) → lookup n w.spool.pending ≡ some f → lookup n w.spooled ≡ some f.body
  pub refused_body :
      (n : String) (f : File) → lookup n w.spool.refused ≡ some f → lookup n w.spooled ≡ some f.body
  pub post_body :
      (n : String) (b : Bytes) → lookup n w.under_way ≡ some b → lookup n w.spooled ≡ some b
  pub acked_body :
      (n : String) (b : Bytes) → lookup n w.acked ≡ some b → lookup n w.spooled ≡ some b

-- A collection leaves a file or lists it among those that go.
gc_refused_cases :
    (now : ℕ) (names : List String) (d : Dict File) (n : String)
    → let o = gc_refused now names d in
      (lookup n o.1 ≡ lookup n d) ⊎ ((lookup n o.1 ≡ none) × (contains n o.0 ≡ true))
unfolding gc_refused
gc_refused_cases now [] d n = inl refl
gc_refused_cases now (name ∷ names) d n = elim (Option-cases (lookup name d)) [
  | inl e ↦ rw (e, gc_refused) (gc_refused_cases now names d n)
  | inr (f, e) ↦ elim (Bool-cases (ltb (f.mtime + refused_retention) now)) [
    | inr young ↦ rw (e, gc_refused, young) (gc_refused_cases now names d n)
    | inl old ↦ elim (gc_refused_cases now names (erase name d) n) [
      | inl same ↦ elim (Bool-cases (str_eq name n)) [
        | inl m ↦
            inr (ground (arith, e, old, same, m, lookup-erase name n d), ground (arith, e, old, m))
        | inr m ↦ inl (ground (arith, e, old, same, m, lookup-erase name n d))
      ]
      | inr (gone, listed) ↦ inr (ground (arith, e, old, gone), ground (arith, e, old, listed))
    ]
  ]
]

contains-joined :
    (n : String) (xs ys : List String)
    → contains n (joined xs ys) ≡ (contains n xs || contains n ys)
contains-joined n [] ys = refl
contains-joined n (x ∷ xs) ys = ground (arith, contains-joined n xs ys)

-- Where a file of the spool is after a refusal: it stays, or it moves to refused/ as it is.
refuse_cases :
    (at : Moment) (name : String) (s : Spool)
    → ((refuse at name s).pending ≡ s.pending) × ((refuse at name s).refused ≡ s.refused)
      ⊎ ((f : File) × (lookup name s.pending ≡ some f)
          × ((refuse at name s).pending ≡ erase name s.pending)
          × ((refuse at name s).refused ≡ insert name f s.refused))
unfolding refuse
refuse_cases at name s = elim (Option-cases (lookup name s.pending)) [
  | inl e ↦ elim (Bool-cases at.can_park) [
    | inl p ↦ inl (ground (arith, e, p), ground (arith, e, p))
    | inr p ↦ inl (ground (arith, e, p), ground (arith, e, p))
  ]
  | inr (f, e) ↦ elim (Bool-cases (ltb (at.wall - f.mtime) refused_grace)) [
    | inl young ↦ inl (ground (arith, e, young), ground (arith, e, young))
    | inr old ↦ elim (Bool-cases at.can_park) [
      | inr p ↦ inl (ground (arith, e, old, p), ground (arith, e, old, p))
      | inl p ↦ inr (f, e, ground (arith, e, old, p), ground (arith, e, old, p))
    ]
  ]
]

-- A change of the spool that leaves the ledgers.
module _ {w : Uploads} (v : IsKept w) where
  pub stays-IsKept :
      {s : Spool}
      → s.pending ≡ w.spool.pending
      → s.refused ≡ w.spool.refused
      → IsKept (record w { spool = s })
  stays-IsKept p q = record {
    kept = λ n h. rw (p, q) (v.kept n h);
    pending_body = λ n f h. v.pending_body n f (ap (λ (d : Dict File). lookup n d) (sym p) ∙ h);
    refused_body = λ n f h. v.refused_body n f (ap (λ (d : Dict File). lookup n d) (sym q) ∙ h);
    post_body = v.post_body;
    acked_body = v.acked_body;
  }

  pub spools-IsKept :
      (wall : ℕ) (job_id run : String) (tar : Bytes)
      → mem (spool_name job_id run) w.spooled ≡ false
      → IsKept (record w {
        spool = (spool_artefact wall job_id run tar w.spool).1;
        spooled = insert (spool_name job_id run) tar w.spooled;
      })
  unfolding spool_artefact
  spools-IsKept wall job_id run tar fresh =
      let name = spool_name job_id run in
      let file : File = record { mtime = wall; body = tar } in
      record {
        kept = λ n h. ground (
          arith,
          v.kept n,
          lookup-insert name n tar w.spooled,
          lookup-insert name n file w.spool.pending,
        );
        pending_body = λ n f h. ground (
          arith,
          v.pending_body n f,
          lookup-insert name n tar w.spooled,
          lookup-insert name n file w.spool.pending,
        );
        refused_body = λ n f h.
            ground (
              arith,
              v.refused_body n f h,
              lookup-insert name n tar w.spooled,
              fresh,
              eq_iff name n,
            );
        post_body = λ n b h.
            ground
              (arith, v.post_body n b h, lookup-insert name n tar w.spooled, fresh, eq_iff name n);
        acked_body = λ n b h.
            ground
              (arith, v.acked_body n b h, lookup-insert name n tar w.spooled, fresh, eq_iff name n);
      }

  pub reads-IsKept :
      (name : String) (f : File)
      → lookup name w.spool.pending ≡ some f
      → IsKept (record w { under_way = insert name f.body w.under_way })
  reads-IsKept name f e = record {
    kept = v.kept;
    pending_body = v.pending_body;
    refused_body = v.refused_body;
    post_body = λ n b h. ground (
      arith,
      v.post_body n b,
      v.pending_body name f e,
      lookup-insert name n f.body w.under_way,
      eq_iff name n,
    );
    acked_body = v.acked_body;
  }

  -- A file goes from PENDING, and its name into a ledger.
  acked-IsKept :
      {body : Bytes} (name : String)
      → lookup name w.under_way ≡ some body
      → IsKept (record w {
        spool = record w.spool { pending = erase name w.spool.pending };
        acked = insert name body w.acked;
      })
  acked-IsKept {body} name e = record {
    kept = λ n h.
        ground (
          arith,
          v.kept n h,
          lookup-insert name n body w.acked,
          lookup-erase name n w.spool.pending,
        );
    pending_body = λ n f h. ground (arith, v.pending_body n f, lookup-erase name n w.spool.pending);
    refused_body = v.refused_body;
    post_body = v.post_body;
    acked_body = λ n b h. ground (
      arith,
      v.acked_body n b,
      v.post_body name body e,
      lookup-insert name n body w.acked,
      eq_iff name n,
    );
  }

  dropped-IsKept :
      (name : String)
      → IsKept (record w {
        spool = record w.spool { pending = erase name w.spool.pending };
        dropped = name ∷ w.dropped;
      })
  dropped-IsKept name = record {
    kept = λ n h. ground (arith, v.kept n h, lookup-erase name n w.spool.pending);
    pending_body = λ n f h. ground (arith, v.pending_body n f, lookup-erase name n w.spool.pending);
    refused_body = v.refused_body;
    post_body = v.post_body;
    acked_body = v.acked_body;
  }

  parked-IsKept :
      {s : Spool} (name : String) (f : File)
      → lookup name w.spool.pending ≡ some f
      → s.pending ≡ erase name w.spool.pending
      → s.refused ≡ insert name f w.spool.refused
      → IsKept (record w { spool = s })
  parked-IsKept name f e p q = record {
    kept = λ n h. ground (
      arith,
      v.kept n h,
      p,
      q,
      lookup-erase name n w.spool.pending,
      lookup-insert name n f w.spool.refused,
    );
    pending_body =
        λ n g h. ground (arith, v.pending_body n g, p, lookup-erase name n w.spool.pending);
    refused_body = λ n g h. ground (
      arith,
      v.refused_body n g,
      v.pending_body name f e,
      q,
      lookup-insert name n f w.spool.refused,
      eq_iff name n,
    );
    post_body = v.post_body;
    acked_body = v.acked_body;
  }

  pub collects-IsKept :
      (now : ℕ)
      → IsKept (record w {
        spool = (gc_refused_spools now w.spool).1;
        expired = joined (gc_refused_spools now w.spool).0 w.expired;
      })
  unfolding gc_refused_spools
  collects-IsKept now =
      let gone = (gc_refused now (keys w.spool.refused) w.spool.refused).0 in
      record {
        kept = λ n h. elim (gc_refused_cases now (keys w.spool.refused) w.spool.refused n) [
          | inl same ↦ ground (arith, v.kept n h, same, contains-joined n gone w.expired)
          | inr (out, listed) ↦ ground (arith, listed, contains-joined n gone w.expired)
        ];
        pending_body = v.pending_body;
        refused_body = λ n f h.
            elim (gc_refused_cases now (keys w.spool.refused) w.spool.refused n) [
              | inl same ↦ v.refused_body n f (sym same ∙ h)
              | inr (out, listed) ↦ absurd (ground arith)
            ];
        post_body = v.post_body;
        acked_body = v.acked_body;
      }

  pub ends-IsKept :
      {body : Bytes} (at : Moment) (name : String) (posted : Posted)
      → lookup name w.under_way ≡ some body
      → IsKept (
          note_reply posted name body (record w { spool = (finish_post at name posted w.spool).1 }))
  unfolding finish_post
  ends-IsKept at name accepted e = acked-IsKept name e
  ends-IsKept at name lost e = stays-IsKept refl refl
  ends-IsKept at name (http_error code) e = elim (Bool-cases (code == 409)) [
    | inl conflict ↦ elim (refuse_cases at name w.spool) [
      | inl (p, q) ↦ rw (conflict, finish_post) (stays-IsKept p q)
      | inr (f, hit, p, q) ↦ rw (conflict, finish_post) (parked-IsKept name f hit p q)
    ]
    | inr other ↦ elim (Bool-cases (leb 400 code && ltb code 500)) [
      | inl final ↦ rw (other, final, finish_post) (dropped-IsKept name)
      | inr again ↦ rw (other, again, finish_post) (stays-IsKept refl refl)
    ]
  ]
