-- ===== src/Plugins/Fpga/Mpsse.antt =====
-- plugins/fpga.py: what the FT2232H makes of the bytes that _xfer writes, by the commands of its MPSSE.
use test_serv.Base.{
  ℕ, zero, suc, ◌+◌, ◌-◌, ◌*◌, ◌≤◌, ◌≡◌, ◌∙◌, ap, refl, Option, none, some, List, [], ◌∷◌, arith,
  min, take, drop, ◌==◌, if◌then◌else◌,
}
use mathlib.Core.List.{◌++◌}
use Prim.Native.Nat.{◌/◌, ◌%◌}
use test_serv.Plugins.Fpga.{chunk_sizes, read_commands, mpsse_read_chunk, closing, xfer_command}

-- Setting the pins, of which the chip select is low for 0; a write to the flash; a read of some
-- bytes from it; and the flush of what was read.
pub data Act : Type 0 where
  set_pins : ℕ → Act
  shift_out : List ℕ → Act
  clock_in : ℕ → Act
  flush : Act

abbrev after : Act → Option (List Act) → Option (List Act)
after act none = none
after act (some acts) = some (act ∷ acts)

-- The number of bytes, less one, in two bytes with the low one first.
abbrev count : ℕ → ℕ → ℕ
count low high = low + 256 * high + 1

-- The acts of at most `fuel` commands.
unfoldable pub mpsse : ℕ → List ℕ → Option (List Act)
mpsse fuel [] = some []
mpsse zero (b ∷ bs) = none
mpsse (suc fuel) (b ∷ []) = if b == 135 then some (flush ∷ []) else none
mpsse (suc fuel) (b ∷ c ∷ []) = none
mpsse (suc fuel) (b ∷ low ∷ high ∷ bs) =
    let rest = mpsse fuel bs in
    let after_data = mpsse fuel (drop (count low high) bs) in
    if b == 128
    then after (set_pins low) rest
    else if b == 32
    then after (clock_in (count low high)) rest
    else if b == 17
    then after (shift_out (take (count low high) bs)) after_data
    else none

abbrev pub reads : List ℕ → List Act
reads [] = set_pins 16 ∷ flush ∷ []
reads (n ∷ ns) = clock_in n ∷ reads ns

-- The acts of one exchange: select, write, read, deselect.
abbrev pub exchange : List ℕ → List ℕ → List Act
exchange out ns = set_pins 0 ∷ shift_out out ∷ reads ns

abbrev pub total : List ℕ → ℕ
total [] = 0
total (n ∷ ns) = n + total ns

abbrev Fit : List ℕ → Type 0
Fit [] = Unit
Fit (n ∷ ns) = (1 ≤ n) × (n ≤ 65_536) × Fit ns

pub chunk_sizes_lem :
    (fuel n : ℕ) → n ≤ fuel → Fit (chunk_sizes fuel n) × (total (chunk_sizes fuel n) ≡ n)
unfolding chunk_sizes
chunk_sizes_lem zero zero enough = (tt, refl)
chunk_sizes_lem zero (suc r) enough = absurd (omega arith)
chunk_sizes_lem (suc fuel) zero enough = (tt, refl)
chunk_sizes_lem (suc fuel) (suc r) enough =
    let n = min (suc r) mpsse_read_chunk in
    let (fit, sum) = chunk_sizes_lem fuel (suc r - n) (omega arith) in
    ((omega arith, omega arith, fit), omega (arith, sum))

count-low_high : (n : ℕ) → 1 ≤ n → n ≤ 65_536 → count ((n - 1) % 256) (((n - 1) / 256) % 256) ≡ n
count-low_high n some_n small = omega arith

-- The number of commands for the reads and after them.
abbrev commands : List ℕ → ℕ
commands [] = suc (suc zero)
commands (n ∷ ns) = suc (commands ns)

mpsse-read_commands :
    (ns : List ℕ) → Fit ns → mpsse (commands ns) (read_commands ns ++ closing) ≡ some (reads ns)
unfolding mpsse read_commands
mpsse-read_commands [] fit = refl
mpsse-read_commands (n ∷ ns) (some_n, small, fit) =
    ap (after (clock_in (count ((n - 1) % 256) (((n - 1) / 256) % 256))))
      (mpsse-read_commands ns fit)
    ∙ ap (λ k. some (clock_in k ∷ reads ns)) (count-low_high n some_n small)

-- The bytes of an exchange that writes a read command at address 0 mean just that.
pub mpsse-xfer_command :
    (rdlen : ℕ)
    → (fuel : ℕ) × (mpsse fuel (xfer_command (3 ∷ 0 ∷ 0 ∷ 0 ∷ []) rdlen)
        ≡ some (exchange (3 ∷ 0 ∷ 0 ∷ 0 ∷ []) (chunk_sizes rdlen rdlen)))
unfolding mpsse xfer_command
mpsse-xfer_command rdlen =
    let ns = chunk_sizes rdlen rdlen in
    let (fit, sum) = chunk_sizes_lem rdlen rdlen (omega arith) in
    (
      suc (suc (commands ns)),
      ap (λ acts. after (set_pins 0) (after (shift_out (3 ∷ 0 ∷ 0 ∷ 0 ∷ [])) acts))
          (mpsse-read_commands ns fit),
    )
