-- ===== src/Plugins/Fpga.antt =====
-- plugins/fpga.py: the exchange with the flash over the FTDI chip, and the read-back of a bitstream.
-- The driver's read may return fewer bytes than it is asked for.
pub mod Mpsse
pub mod ReadBack
mod Tests
use Prim.Native.Nat.{◌/◌, ◌%◌}
use test_serv.Base.{
  ℕ, zero, suc, ◌+◌, ◌-◌, Bool, true, false, Option, none, some, List, [], ◌∷◌, ◌++◌, min, length,
  ◌==◌, if◌then◌else◌,
}

abbrev pub dir_low : ℕ
dir_low = 147

abbrev pub idle_reset : ℕ
idle_reset = 16

abbrev pub active_reset : ℕ
active_reset = 0

abbrev pub mpsse_read_chunk : ℕ
mpsse_read_chunk = 65_536

-- `n & 0xff` and `(n >> 8) & 0xff`
abbrev pub low_high : ℕ → List ℕ
low_high n = n % 256 ∷ (n / 256) % 256 ∷ []

-- The counts in `chunks`, on fuel.
unfoldable pub chunk_sizes : ℕ → ℕ → List ℕ
chunk_sizes zero remaining = []
chunk_sizes (suc fuel) zero = []
chunk_sizes (suc fuel) (suc r) =
    let n = min (suc r) mpsse_read_chunk in n ∷ chunk_sizes fuel (suc r - n)

unfoldable pub read_commands : List ℕ → List ℕ
read_commands [] = []
read_commands (n ∷ ns) = 32 ∷ low_high (n - 1) ++ read_commands ns

-- The frame before `out`, which is not empty, and the one after the reads.
abbrev pub opening : List ℕ → List ℕ
opening out = 128 ∷ active_reset ∷ dir_low ∷ 17 ∷ low_high (length out - 1)

abbrev pub closing : List ℕ
closing = 128 ∷ idle_reset ∷ dir_low ∷ 135 ∷ []

-- The bytes that _xfer writes.
unfoldable pub xfer_command : List ℕ → ℕ → List ℕ
xfer_command out rdlen =
    opening out ++ (out ++ (read_commands (chunk_sizes rdlen rdlen) ++ closing))

-- What the driver gives back after a write: the bytes that the flash clocks out, by position; and by
-- the number of the call to read so far, how many bytes it gives at most, and whether the session is
-- canceled before it.
pub record Chip : Type 0 where
  pub stream : ℕ → ℕ
  pub gives : ℕ → ℕ
  pub canceled : ℕ → Bool

-- The device, by the bytes that are written to it.
abbrev pub Port : Type 0
Port = List ℕ → Chip

unfoldable pub clocked : ℕ → ℕ → (ℕ → ℕ) → List ℕ
clocked at zero stream = []
clocked at (suc n) stream = stream at ∷ clocked (at + 1) n stream

-- A read ends with the StopSession of a cancel, the RuntimeError of a short read, or bytes.
pub data Got : Type 0 where
  stopped short_read : Got
  got : ℕ → List ℕ → Got

abbrev pub prepend : List ℕ → Option Got → Option Got
prepend bytes none = none
prepend bytes (some stopped) = some stopped
prepend bytes (some short_read) = some short_read
prepend bytes (some (got k more)) = some (got k (bytes ++ more))

abbrev pub bind_got : Option Got → (ℕ → List ℕ → Option Got) → Option Got
bind_got none next = none
bind_got (some stopped) next = some stopped
bind_got (some short_read) next = some short_read
bind_got (some (got k bytes)) next = next k bytes

-- The inner loop of _xfer with `n` bytes to go, on fuel.
unfoldable pub read_part : Chip → ℕ → ℕ → ℕ → ℕ → Option Got
read_part chip zero k at n = none
read_part chip (suc fuel) k at zero = some (got k [])
read_part chip (suc fuel) k at (suc r) =
    let n = min (chip.gives k) (suc r) in
    let rest =
      prepend (clocked at n chip.stream) (read_part chip fuel (k + 1) (at + n) (suc r - n)) in
    if chip.canceled k then some stopped else if n == 0 then some short_read else rest

-- `for n in chunks`
unfoldable pub read_parts : Chip → ℕ → ℕ → List ℕ → Option Got
read_parts chip k at [] = some (got k [])
read_parts chip k at (n ∷ ns) =
    bind_got (read_part chip (n + 1) k at n)
      (λ k' bytes. prepend bytes (read_parts chip k' (at + n) ns))

-- The bytes written and the outcome.
unfoldable pub xfer : Port → List ℕ → ℕ → List ℕ × Option Got
xfer port out rdlen =
    let cmd = xfer_command out rdlen in (cmd, read_parts (port cmd) 0 0 (chunk_sizes rdlen rdlen))

pub data Verified : Type 0 where
  canceled_before canceled_reading too_short no_fuel good : Verified
  mismatch : ℕ → ℕ → ℕ → Verified

-- The loop over enumerate(zip(buf, got)).
unfoldable pub compare : ℕ → List ℕ → List ℕ → Verified
compare i [] bytes = good
compare i (a ∷ buf) [] = good
compare i (a ∷ buf) (b ∷ bytes) =
    let rest = compare (i + 1) buf bytes in if a == b then rest else mismatch i a b

abbrev pub verdict : List ℕ → Option Got → Verified
verdict buf none = no_fuel
verdict buf (some stopped) = canceled_reading
verdict buf (some short_read) = too_short
verdict buf (some (got k bytes)) = compare 0 buf bytes

-- _verify; `canceled` is the flag at its start.
unfoldable pub verify : Bool → Port → List ℕ → Verified
verify canceled port buf =
    if canceled
    then canceled_before
    else verdict buf ((xfer port (3 ∷ 0 ∷ 0 ∷ 0 ∷ []) (length buf)).1)
