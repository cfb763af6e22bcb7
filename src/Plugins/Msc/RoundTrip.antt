-- ===== src/Plugins/Msc/RoundTrip.antt =====
-- plugins/msc.py: a pattern that was written is found by the verify of the same pattern.
use test_serv.Base.{
  ℕ, zero, suc, ◌+◌, ◌-◌, ◌*◌, ◌≤◌, ◌<◌, ◌≡◌, ◌∙◌, sym, ap, refl, true, if◌then◌else◌, none, some,
  List, [], ◌∷◌, arith, min, length, ◌==◌,
}
use mathlib.Core.List.{◌++◌}
use mathlib.Core.Path.{subst}
use test_serv.Base.Int.{pos}
use test_serv.Plugins.Prbs
use test_serv.Plugins.Prbs.{new_prbs}
use test_serv.Plugins.Msc.{
  Disk, put, get, Os, Target, Pace, is_mounted, is_too_slow, paced, paced_verify, slow_write,
  refused, slow_verify, wrote, write_chunks, checked, Found, compare_bytes, verify_chunks, Chunker,
  chunk_bytes, prbs_chunker, op_write_prbs, op_verify_prbs,
}
use test_serv.Plugins.Msc.Device.{IsWilling, write_chunk_lem, read_chunk_lem, put-append, get-put}

-- Equal bytes leave what was found.
compare-same : (i : ℕ) (bs : List ℕ) (f : Found) → compare_bytes i bs bs f ≡ f
unfolding compare_bytes
compare-same i [] f = refl
compare-same i (b ∷ bs) f =
    let same : (b == b) ≡ true = ground arith in rw same (compare-same (i + 1) bs f)

-- The whole pattern that the chunks make up.
pub pattern_of : {S : Type 0} → Chunker S → ℕ → ℕ → ℕ → S → List ℕ
pattern_of make size zero left s = []
pattern_of make size (suc fuel) zero s = []
pattern_of make size (suc fuel) (suc left) s =
    let (chunk, s') = make s (min size (suc left)) in
    chunk ++ pattern_of make size fuel (suc left - min size (suc left)) s'

-- The device holds the bytes from an address on.
abbrev pub Holds : ℕ → List ℕ → Disk → Type 0
Holds at [] d = Unit
Holds at (b ∷ bs) d = (d at ≡ b) × Holds (at + 1) bs d

get-Holds : (at : ℕ) (bs : List ℕ) (d : Disk) → get at (length bs) d ≡ bs → Holds at bs d
unfolding get
get-Holds at [] d h = tt
get-Holds at (b ∷ bs) d h = (ground (arith, h), get-Holds (at + 1) bs d (ground (arith, h)))

Holds-get : (at : ℕ) (bs : List ℕ) (d : Disk) → Holds at bs d → get at (length bs) d ≡ bs
unfolding get
Holds-get at [] d h = refl
Holds-get at (b ∷ bs) d h =
    ap (λ x. x ∷ get (at + 1) (length bs) d) h.0 ∙ ap (λ r. b ∷ r) (Holds-get (at + 1) bs d h.1)

Holds-append :
    (at : ℕ) (xs ys : List ℕ) (d : Disk)
    → Holds at (xs ++ ys) d
    → Holds at xs d × Holds (at + length xs) ys d
Holds-append at [] ys d h =
    let same : at ≡ at + 0 = omega arith in (tt, subst (λ a. Holds a ys d) same h)
Holds-append at (x ∷ xs) ys d h =
    let (first, rest) = Holds-append (at + 1) xs ys d h.1 in
    let same : at + 1 + length xs ≡ at + suc (length xs) = omega arith in
    ((h.0, first), subst (λ a. Holds a ys d) same rest)

module _ {S : Type 0} (make : Chunker S) (sized : (s : S) (n : ℕ) → length (make s n).0 ≡ n)
    (size : ℕ) (some_size : 1 ≤ size) (os : Os) (willing : IsWilling os) where
  write_chunks_lem :
      (fuel left k at : ℕ) (s : S) (d : Disk)
      → left < fuel
      → (k' : ℕ) × (write_chunks os make size fuel left k s at d
          ≡ some (wrote k' (put at (pattern_of make size fuel left s) d)))
  unfolding write_chunks pattern_of put
  write_chunks_lem zero left k at s d h = absurd (omega arith)
  write_chunks_lem (suc fuel) zero k at s d h = (k, refl)
  write_chunks_lem (suc fuel) (suc left) k at s d h =
      let want = min size (suc left) in
      let chunk = (make s want).0 in
      let s' = (make s want).1 in
      let long : length chunk ≡ want = sized s want in
      let (k1, e1) =
        write_chunk_lem os willing (length chunk + 1) (k + 2) at chunk d (omega arith) in
      let less : suc left - want < fuel = omega (arith, some_size, h) in
      let (k2, e2) =
        write_chunks_lem fuel (suc left - want) k1 (at + length chunk) s' (put at chunk d) less in
      let later = pattern_of make size fuel (suc left - want) s' in
      (
        k2,
        rw (willing.goes_on k, willing.goes_on (k + 1), e1)
            (ap
                (λ n.
                  write_chunks os make size fuel (suc left - n) k1 s' (at + length chunk)
                    (put at chunk d))
                long
              ∙ e2
              ∙ ap (λ x. some (wrote k2 x)) (sym (put-append at chunk later d))),
      )

  verify_chunks_lem :
      (fuel left k i at : ℕ) (s : S) (f : Found) (d : Disk)
      → left < fuel
      → Holds at (pattern_of make size fuel left s) d
      → (k' : ℕ) × (verify_chunks os make size fuel left k s i at f d ≡ some (checked k' f))
  unfolding verify_chunks pattern_of
  verify_chunks_lem zero left k i at s f d h holds = absurd (omega arith)
  verify_chunks_lem (suc fuel) zero k i at s f d h holds = (k, refl)
  verify_chunks_lem (suc fuel) (suc left) k i at s f d h holds =
      let want = min size (suc left) in
      let chunk = (make s want).0 in
      let s' = (make s want).1 in
      let long : length chunk ≡ want = sized s want in
      let later = pattern_of make size fuel (suc left - want) s' in
      let (here, rest) = Holds-append at chunk later d holds in
      let (k1, e1) = read_chunk_lem os willing (want + 1) (k + 1) at want d (omega arith) in
      let same : get at want d ≡ chunk =
        ap (λ n. get at n d) (sym long) ∙ Holds-get at chunk d here in
      let next : Holds (at + want) later d = subst (λ n. Holds (at + n) later d) long rest in
      let less : suc left - want < fuel = omega (arith, some_size, h) in
      let (k2, e2) =
        verify_chunks_lem fuel (suc left - want) k1 (i + want) (at + want) s' f d less next in
      (k2, rw (willing.goes_on k, e1) (rw (same, compare-same i chunk f) e2))

-- A write of a PRBS pattern is refused if the device or a partition of it is mounted. Else, through
-- calls that each take at least one byte and with no cancel, it ends with the device written, however
-- the calls split the chunks, and with an error exactly if it was slower than the minimum rate. Then a verify with the same seed,
-- length and position, through calls that each give at least one byte, ends and finds no mismatch,
-- with an error exactly if it was too slow.
pub verify-write_prbs :
    (os os' : Os) (t : Target) (pace pace' : Pace) (seed n offset_lba : ℕ) (d : Disk)
    → IsWilling os
    → IsWilling os'
    → let found : Found = record { mism = 0; first = none } in
      (k : ℕ) × (k' : ℕ) × (d' : Disk) × (op_write_prbs os t pace seed (pos n) offset_lba d
        ≡ some (
            if is_mounted t
            then refused
            else if is_too_slow pace n
            then slow_write k d'
            else wrote k d'))
      × (op_verify_prbs os' t pace' seed (pos n) offset_lba d'
          ≡ some (if is_too_slow pace' n then slow_verify k' found else checked k' found))
unfolding op_write_prbs op_verify_prbs
verify-write_prbs os os' t pace pace' seed n offset_lba d willing willing' =
    let at = offset_lba * t.block_size in
    let x = new_prbs seed in
    let sized : (s m : ℕ) → length (prbs_chunker s m).0 ≡ m = λ s m. Prbs.length-read m s in
    let bs = pattern_of prbs_chunker chunk_bytes (n + 1) n x in
    let (k, e) =
      write_chunks_lem prbs_chunker sized chunk_bytes (omega arith) os willing (n + 1) n 0 at x d
        (omega arith) in
    let d' = put at bs d in
    let (k', e') =
      verify_chunks_lem prbs_chunker sized chunk_bytes (omega arith) os' willing' (n + 1) n 0 0 at x
        (record { mism = 0; first = none }) d' (omega arith)
        (get-Holds at bs d' (get-put at bs d)) in
    (
      k,
      k',
      d',
      ap (λ w. if is_mounted t then some refused else w) (ap (paced os pace n) e) ∙ ground arith,
      ap (paced_verify os' pace' n) e',
    )
