-- ===== src/Registry/Threads/Moves.antt =====
-- registry.py: each phase of an acquire as a move that the invariant allows.
use test_serv.Base.{
  ℕ, ◌+◌, ◌-◌, ◌≤◌, ◌≡◌, ◌⊎◌, inl, inr, refl, false, true, some, none, String, arith, str_eq,
  eq_iff, Option-cases, Bool-cases,
}
use test_serv.Base.Int.{pos}
use test_serv.Base.Dict.{lookup, insert, contains, lookup-insert}
use test_serv.Registry.{Entry, Lock, Registry, succ, pred}
use test_serv.Registry.Specs.{with_lock}
use test_serv.Registry.Specs.Keeps.{owner, owner-with_lock}
use test_serv.Registry.Lend.{
  Opened, timed_out, failed, opened, take_lock, drop_lock, begin_lend, finish_open, exit,
}
use test_serv.Registry.Lend.Balance.{depth, depth-drop_lock, depth-take_lock, depth-with_lock}
use test_serv.Registry.Threads.{
  Phase, waiting, locked, opening, ended, using, Acquire, World, total, holds_key, at, enters,
  after_enter, phase_holds, phase_uses, phase_enters,
}
use test_serv.Registry.Threads.Counts.{total-one}
use test_serv.Registry.Threads.Exclusive.{IsExclusive, Move}

pub owner-drop_lock : (key j : String) (s : Registry) → owner j (drop_lock key s) ≡ owner j s
unfolding owner drop_lock
owner-drop_lock key j s = elim (Option-cases (lookup key s.locks)) [
  | inl e ↦ ground arith
  | inr (l, e) ↦
      ground (arith, lookup-insert key j (record l { depth = l.depth - 1 }) s.locks, eq_iff key j)
]

-- The thread that takes a lock owns it, and no held lock of another device changes its owner.
pub owner-take_lock :
    (thread : ℕ) (key j : String) (s : Registry) {t : Registry}
    → take_lock thread key s ≡ some t
    → (owner key t ≡ thread) × (1 ≤ depth j s → owner j t ≡ owner j s)
unfolding owner depth take_lock
owner-take_lock thread key j s h = elim (Option-cases (lookup key s.locks)) [
  | inl e ↦
      let new : Lock = record { owner = thread; depth = 1 } in
      (
        ground (arith, lookup-insert key key new s.locks, eq_iff key key),
        λ some_held. ground (arith, lookup-insert key j new s.locks, eq_iff key j),
      )
  | inr (l, e) ↦
      let new : Lock = record { owner = thread; depth = 1 } in
      let more : Lock = record l { depth = l.depth + 1 } in
      (
        ground (
          arith,
          lookup-insert key key new s.locks,
          lookup-insert key key more s.locks,
          eq_iff key key,
        ),
        λ some_held. ground (
          arith,
          lookup-insert key j new s.locks,
          lookup-insert key j more s.locks,
          eq_iff key j,
        ),
      )
]

pub take_lock-cache :
    (thread : ℕ) (key : String) (s : Registry) {t : Registry}
    → take_lock thread key s ≡ some t
    → t.cache ≡ s.cache
take_lock-cache thread key s h = (depth-take_lock thread key key s h).1

-- What begin_lend comes to, with what it tells of the cache.
begin_lend_cases :
    (key : String) (s : Registry)
    → let o = begin_lend key s in
      ((after_enter o.0 ≡ ended) × (o.1 ≡ drop_lock key s))
      ⊎ (((entry : Entry) × (lookup key s.cache ≡ some entry)
            × (after_enter o.0 ≡ using entry.handle)
            × (o.1 ≡ record s {
              cache = insert key (record entry { refs = succ entry.refs }) s.cache;
            }))
          ⊎ ((after_enter o.0 ≡ opening) × (o.1 ≡ s) × (lookup key s.cache ≡ none)))
unfolding begin_lend
begin_lend_cases key s = elim (Bool-cases (contains key s.quarantined)) [
  | inl q ↦ inl (ground arith, ground arith)
  | inr q ↦ elim (Option-cases (lookup key s.cache)) [
    | inr (entry, e) ↦ inr (inl (entry, e, ground arith, ground arith))
    | inl e ↦ elim (Option-cases (lookup key s.specs)) [
      | inl e' ↦ inl (ground arith, ground arith)
      | inr ((pname, spec), e') ↦ elim (Bool-cases (contains pname s.plugins)) [
        | inl known ↦ inr (inr (ground arith, ground arith, e))
        | inr unknown ↦ inl (ground arith, ground arith)
      ]
    ]
  ]
]

pub drop_lock-cache : (key : String) (s : Registry) → (drop_lock key s).cache ≡ s.cache
unfolding drop_lock
drop_lock-cache key s = ground arith

-- A hung open: the quarantine, and the lock as after any other failure.
timed_out-locks :
    (key : String) (s : Registry) → (finish_open key timed_out s).1.locks ≡ (drop_lock key s).locks
unfolding finish_open drop_lock
timed_out-locks key s = ground arith

timed_out-cache : (key : String) (s : Registry) → (finish_open key timed_out s).1.cache ≡ s.cache
unfolding finish_open drop_lock
timed_out-cache key s = ground arith

module _ {w : World} (i : ℕ) (a : Acquire) (here : at w i ≡ some a) (v : IsExclusive w) where
  -- The lock goes, and the cache is as before.
  pub Move-ends :
      {t : Registry}
      → t.locks ≡ (drop_lock a.key w.registry).locks
      → t.cache ≡ w.registry.cache
      → phase_holds a.phase ≡ 1
      → phase_uses a.phase ≡ 0
      → Move a ended w t
  unfolding depth owner
  Move-ends {t} p q one no_use = record {
    depths = λ j. ground (
      arith,
      p,
      depth-drop_lock a.key j w.registry,
      v.depths j,
      total-one (holds_key j) i a w.acquires here,
      eq_iff a.key j,
      eq_iff j a.key,
    );
    owner_own = λ h. absurd (omega arith);
    owner_rest = λ j h. ground (arith, p, owner-drop_lock a.key j w.registry);
    counts = λ j n h. ground (arith, q, h, no_use);
    handle_own = λ h e. absurd (ground arith);
    handle_rest = λ j h e n. rw q e;
    opens_own = λ e. absurd (ground arith);
    opens_rest = λ j e. inl (rw q e);
    enters_less = inl (omega arith);
  }

  -- The handle is handed out: one more user of the entry.
  Move-lends-cached :
      {t : Registry} (entry : Entry)
      → lookup a.key w.registry.cache ≡ some entry
      → t ≡ record w.registry {
        cache = insert a.key (record entry { refs = succ entry.refs }) w.registry.cache;
      }
      → a.phase ≡ locked
      → Move a (using entry.handle) w t
  unfolding depth owner
  Move-lends-cached {t} entry hit e ph = record {
    depths = λ j. ground (arith, e, ph);
    owner_own = λ h. ground (arith, e, v.owners i a here (ground (arith, ph)));
    owner_rest = λ j h. ground (arith, e);
    counts = λ j n h. ground (
      arith,
      e,
      ph,
      hit,
      lookup-insert a.key j (record entry { refs = succ entry.refs }) w.registry.cache,
      eq_iff a.key j,
      eq_iff j a.key,
    );
    handle_own = λ h same. ground (
      arith,
      e,
      lookup-insert a.key a.key (record entry { refs = succ entry.refs }) w.registry.cache,
      eq_iff a.key a.key,
    );
    handle_rest = λ j h same n. ground (
      arith,
      e,
      hit,
      lookup-insert a.key j (record entry { refs = succ entry.refs }) w.registry.cache,
      eq_iff a.key j,
    );
    opens_own = λ same. absurd (ground arith);
    opens_rest = λ j gone. inl (
        ground (
          arith,
          e,
          hit,
          lookup-insert a.key j (record entry { refs = succ entry.refs }) w.registry.cache,
          eq_iff a.key j,
        ));
    enters_less = inl (ground (arith, ph));
  }

  -- Nothing is cached, and the plugin's open begins.
  Move-to_open :
      lookup a.key w.registry.cache ≡ none → a.phase ≡ locked → Move a opening w w.registry
  Move-to_open gone ph = record {
    depths = λ j. ground (arith, ph);
    owner_own = λ h. v.owners i a here (ground (arith, ph));
    owner_rest = λ j h. refl;
    counts = λ j n h. ground (arith, ph, h);
    handle_own = λ h e. absurd (ground arith);
    handle_rest = λ j h e n. e;
    opens_own = λ e. gone;
    opens_rest = λ j e. inl e;
    enters_less = inl (ground (arith, ph));
  }

  pub Move-lends :
      a.phase ≡ locked → let o = begin_lend a.key w.registry in Move a (after_enter o.0) w o.1
  Move-lends ph = elim (begin_lend_cases a.key w.registry) [
    | inl (p, e) ↦
        rw (p, e)
          (Move-ends refl (drop_lock-cache a.key w.registry) (ground (arith, ph))
            (ground (arith, ph)))
    | inr (inl (entry, hit, p, e)) ↦ rw (p, e) (Move-lends-cached entry hit refl ph)
    | inr (inr (p, e, gone)) ↦ rw (p, e) (Move-to_open gone ph)
  ]

  pub Move-opens :
      (outcome : Opened)
      → a.phase ≡ opening
      → let o = finish_open a.key outcome w.registry in Move a (after_enter o.0) w o.1
  unfolding finish_open depth owner
  Move-opens timed_out ph =
      Move-ends (timed_out-locks a.key w.registry) (timed_out-cache a.key w.registry)
        (ground (arith, ph)) (ground (arith, ph))
  Move-opens failed ph =
      Move-ends refl (drop_lock-cache a.key w.registry) (ground (arith, ph)) (ground (arith, ph))
  Move-opens (opened h) ph =
      let gone = v.opens i a here ph in
      let new : Entry = record { handle = h; refs = pos 1 } in
      record {
        depths = λ j. ground (arith, ph);
        owner_own = λ h. v.owners i a here (ground (arith, ph));
        owner_rest = λ j h. refl;
        counts = λ j n h. ground (
          arith,
          ph,
          h,
          gone,
          lookup-insert a.key j new w.registry.cache,
          eq_iff a.key j,
          eq_iff j a.key,
        );
        handle_own = λ h e.
            ground (arith, lookup-insert a.key a.key new w.registry.cache, eq_iff a.key a.key);
        handle_rest = λ j h e n.
            ground (arith, gone, lookup-insert a.key j new w.registry.cache, eq_iff a.key j);
        opens_own = λ e. absurd (ground arith);
        opens_rest = λ j e. elim (Bool-cases (str_eq a.key j)) [
          | inl same ↦ inr (ph, ground (arith, eq_iff a.key j))
          | inr other ↦ inl (ground (arith, lookup-insert a.key j new w.registry.cache))
        ];
        enters_less = inl (ground (arith, ph));
      }

  -- The count of the entry goes down and the lock goes.
  pub Move-exits : {h : ℕ} → a.phase ≡ using h → Move a ended w (exit a.key w.registry)
  unfolding depth owner exit
  Move-exits {h} ph = elim (Option-cases (lookup a.key w.registry.cache)) [
    | inl e ↦ absurd (ground (arith, v.handles i a h here ph))
    | inr (entry, hit) ↦
        let less : Entry = record entry { refs = pred entry.refs } in
        let s' = record w.registry { cache = insert a.key less w.registry.cache } in
        let cached = drop_lock-cache a.key s' in
        rw (hit, exit)
          (record {
            depths = λ j. ground (
              arith,
              ph,
              depth-drop_lock a.key j s',
              v.depths j,
              total-one (holds_key j) i a w.acquires here,
              eq_iff a.key j,
              eq_iff j a.key,
            );
            owner_own = λ h. absurd (omega arith);
            owner_rest = λ j h. owner-drop_lock a.key j s';
            counts = λ j n h. ground (
              arith,
              ph,
              hit,
              h,
              cached,
              lookup-insert a.key j less w.registry.cache,
              eq_iff a.key j,
              eq_iff j a.key,
            );
            handle_own = λ h e. absurd (ground arith);
            handle_rest = λ j h e n.
                ground
                  (arith, cached, hit, lookup-insert a.key j less w.registry.cache, eq_iff a.key j);
            opens_own = λ e. absurd (ground arith);
            opens_rest = λ j gone. inl (
                ground (
                  arith,
                  cached,
                  hit,
                  lookup-insert a.key j less w.registry.cache,
                  eq_iff a.key j,
                ));
            enters_less = inl (ground (arith, ph));
          })
  ]

  -- Taking the lock of the device, inside __enter__ or by run_all.
  pub Move-takes :
      {t : Registry} (p : Phase)
      → take_lock a.thread a.key w.registry ≡ some t
      → phase_holds a.phase ≡ 0
      → phase_uses a.phase ≡ 0
      → phase_holds p ≡ 1
      → phase_uses p ≡ 0
      → (p ≡ opening → false ≡ true)
      → phase_enters p ≤ phase_enters a.phase
      → Move a p w t
  Move-takes {t} p e free no_use one no_use' not_opening less =
      let cached = take_lock-cache a.thread a.key w.registry e in
      record {
        depths = λ j. ground (
          arith,
          free,
          one,
          depth-take_lock a.thread a.key j w.registry e,
          eq_iff a.key j,
          eq_iff j a.key,
        );
        owner_own = λ h. (owner-take_lock a.thread a.key a.key w.registry e).0;
        owner_rest = λ j h. (owner-take_lock a.thread a.key j w.registry e).1 h;
        counts = λ j n h. ground (arith, cached, no_use, no_use', h);
        handle_own = λ h used. absurd (ground (arith, used));
        handle_rest = λ j h same n. rw cached same;
        opens_own = λ op. let never = not_opening op in absurd (ground arith);
        opens_rest = λ j gone. inl (rw cached gone);
        enters_less = inl less;
      }

  -- An acquire that passes the checks makes the lock object and waits for it.
  pub Move-starts :
      a.phase ≡ ended
      → total (enters a.thread) w.acquires ≡ 0
      → Move a waiting w (record w.registry { locks = with_lock a.key w.registry.locks })
  Move-starts ph none_in = record {
    depths = λ j. ground (arith, ph, depth-with_lock a.key j w.registry);
    owner_own = λ h. absurd (omega arith);
    owner_rest = λ j h. owner-with_lock a.key j w.registry;
    counts = λ j n h. ground (arith, ph, h);
    handle_own = λ h e. absurd (ground arith);
    handle_rest = λ j h e n. e;
    opens_own = λ e. absurd (ground arith);
    opens_rest = λ j e. inl e;
    enters_less = inr none_in;
  }
