-- ===== src/Plugins/Fpga/ReadBack.antt =====
-- plugins/fpga.py: what a read-back of the flash returns and when it is accepted.
use test_serv.Base.{
  ℕ, zero, suc, ◌+◌, ◌-◌, ◌≤◌, ◌<◌, ◌≡◌, ◌∙◌, ◌↔◌, sym, ap, refl, false, some, List, [], ◌∷◌, arith,
  min, length, ◌==◌, Bool-cases, inl, inr,
}
use mathlib.Core.List.{◌++◌}
use test_serv.Plugins.Fpga.{
  Port, xfer_command, Chip, clocked, chunk_sizes, mpsse_read_chunk, got, prepend, read_part,
  read_parts, xfer, verify, compare, verdict, good,
}
use test_serv.Plugins.Fpga.Mpsse.{mpsse, exchange, total, chunk_sizes_lem, mpsse-xfer_command}

pub record IsWilling (chip : Chip) : Type 0 where
  pub gives_some : (k : ℕ) → 1 ≤ chip.gives k
  pub goes_on : (k : ℕ) → chip.canceled k ≡ false

clocked-add :
    (at m n : ℕ) (s : ℕ → ℕ) → clocked at (m + n) s ≡ clocked at m s ++ clocked (at + m) n s
unfolding clocked
clocked-add at zero n s =
    let same : 0 + n ≡ n = omega arith in
    let there : at ≡ at + 0 = omega arith in
    ap (λ k. clocked at k s) same ∙ ap (λ a. clocked a n s) there
clocked-add at (suc m) n s =
    let next : suc m + n ≡ suc (m + n) = omega arith in
    let there : at + 1 + m ≡ at + suc m = omega arith in
    ap (λ k. clocked at k s) next
    ∙ ap (λ r. s at ∷ r)
        (clocked-add (at + 1) m n s ∙ ap (λ a. clocked (at + 1) m s ++ clocked a n s) there)

module _ (chip : Chip) (willing : IsWilling chip) where
  read_part_lem :
      (fuel k at n : ℕ)
      → n < fuel
      → (k' : ℕ) × (read_part chip fuel k at n ≡ some (got k' (clocked at n chip.stream)))
  unfolding read_part clocked
  read_part_lem zero k at n enough = absurd (omega arith)
  read_part_lem (suc fuel) k at zero enough = (k, refl)
  read_part_lem (suc fuel) k at (suc r) enough =
      let n = min (chip.gives k) (suc r) in
      let some_n : 1 ≤ n = omega (arith, willing.gives_some k) in
      let (k', e) = read_part_lem fuel (k + 1) (at + n) (suc r - n) (omega (arith, some_n)) in
      let all_of : n + (suc r - n) ≡ suc r = omega arith in
      let whole : clocked at n chip.stream ++ clocked (at + n) (suc r - n) chip.stream
          ≡ clocked at (suc r) chip.stream =
        sym (clocked-add at n (suc r - n) chip.stream)
        ∙ ap (λ m. clocked at m chip.stream) all_of in
      let moves : (n == 0) ≡ false = ground arith in
      (
        k',
        rw (willing.goes_on k, moves)
            (ap (prepend (clocked at n chip.stream)) e ∙ ap (λ x. some (got k' x)) whole),
      )

  read_parts_lem :
      (fuel k at n : ℕ)
      → n ≤ fuel
      → (k' : ℕ) × (read_parts chip k at (chunk_sizes fuel n)
          ≡ some (got k' (clocked at n chip.stream)))
  unfolding read_parts chunk_sizes clocked
  read_parts_lem zero k at zero enough = (k, refl)
  read_parts_lem zero k at (suc r) enough = absurd (omega arith)
  read_parts_lem (suc fuel) k at zero enough = (k, refl)
  read_parts_lem (suc fuel) k at (suc r) enough =
      let n = min (suc r) mpsse_read_chunk in
      let (k1, first) = read_part_lem (n + 1) k at n (omega arith) in
      let (k2, rest) = read_parts_lem fuel k1 (at + n) (suc r - n) (omega arith) in
      let all_of : n + (suc r - n) ≡ suc r = omega arith in
      let whole : clocked at n chip.stream ++ clocked (at + n) (suc r - n) chip.stream
          ≡ clocked at (suc r) chip.stream =
        sym (clocked-add at n (suc r - n) chip.stream)
        ∙ ap (λ m. clocked at m chip.stream) all_of in
      (
        k2,
        rw (first) (ap (prepend (clocked at n chip.stream)) rest ∙ ap (λ x. some (got k2 x)) whole),
      )

-- A device whose flash holds the image: after the bytes of an exchange that writes the flash's read
-- command, 3, with address 0, it gives back the image from its start, as many bytes as the exchange
-- reads.
abbrev pub IsFlash : Port → (ℕ → ℕ) → Type 0
IsFlash port image =
    (cmd : List ℕ) (fuel : ℕ) (ns : List ℕ)
    → mpsse fuel cmd ≡ some (exchange (3 ∷ 0 ∷ 0 ∷ 0 ∷ []) ns)
    → (i : ℕ) → i < total ns
    → (port cmd).stream i ≡ image i

clocked-same :
    (at n : ℕ) (s t : ℕ → ℕ) → ((i : ℕ) → i < at + n → s i ≡ t i) → clocked at n s ≡ clocked at n t
unfolding clocked
clocked-same at zero s t same = refl
clocked-same at (suc n) s t same =
    ap (λ b. b ∷ clocked (at + 1) n s) (same at (omega arith))
    ∙ ap (λ bs. t at ∷ bs) (clocked-same (at + 1) n s t (λ i h. same i (omega arith)))

-- A read at address 0 gives exactly the first bytes of the flash.
pub xfer_lem :
    (port : Port) (image : ℕ → ℕ) (rdlen : ℕ)
    → IsFlash port image
    → ((cmd : List ℕ) → IsWilling (port cmd))
    → (k : ℕ) × ((xfer port (3 ∷ 0 ∷ 0 ∷ 0 ∷ []) rdlen).1 ≡ some (got k (clocked 0 rdlen image)))
unfolding xfer
xfer_lem port image rdlen flash willing =
    let cmd = xfer_command (3 ∷ 0 ∷ 0 ∷ 0 ∷ []) rdlen in
    let (fuel, meant) = mpsse-xfer_command rdlen in
    let (fit, sum) = chunk_sizes_lem rdlen rdlen (omega arith) in
    let same : (i : ℕ) → i < 0 + rdlen → (port cmd).stream i ≡ image i =
      λ i h. flash cmd fuel (chunk_sizes rdlen rdlen) meant i (omega (arith, sum)) in
    let (k, e) = read_parts_lem (port cmd) (willing cmd) rdlen 0 0 rdlen (omega arith) in
    (k, e ∙ ap (λ bs. some (got k bs)) (clocked-same 0 rdlen (port cmd).stream image same))

compare-good :
    (i at : ℕ) (buf : List ℕ) (s : ℕ → ℕ)
    → (compare i buf (clocked at (length buf) s) ≡ good) ↔ (clocked at (length buf) s ≡ buf)
unfolding compare clocked
compare-good i at [] s = ((λ h. refl), (λ h. refl))
compare-good i at (a ∷ buf) s = elim (Bool-cases (a == s at)) [
  | inl same ↦
      let eq : s at ≡ a = ground (arith, same) in
      let (there, back) = compare-good (i + 1) (at + 1) buf s in
      (
        (λ h. ground (arith, same, eq, there (ground (arith, same, h)))),
        (λ h. ground (arith, same, back (ground (arith, h)))),
      )
  | inr other ↦ ((λ h. absurd (ground (arith, other, h))), (λ h. absurd (ground (arith, other, h))))
]

-- The read-back of a session that is not canceled, over a driver that gives at least one byte per
-- call, is accepted exactly when the flash holds the bitstream from address 0: the bytes written are
-- a read command for just that, also when the bitstream takes several reads of 64 KiB.
pub verify_lem :
    (port : Port) (image : ℕ → ℕ) (buf : List ℕ)
    → IsFlash port image
    → ((cmd : List ℕ) → IsWilling (port cmd))
    → (verify false port buf ≡ good) ↔ (clocked 0 (length buf) image ≡ buf)
unfolding verify
verify_lem port image buf flash willing =
    let (k, e) = xfer_lem port image (length buf) flash willing in
    let (there, back) = compare-good 0 0 buf image in
    ((λ h. there (sym (ap (verdict buf) e) ∙ h)), (λ h. ap (verdict buf) e ∙ back h))
