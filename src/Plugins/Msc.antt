-- ===== src/Plugins/Msc.antt =====
-- plugins/msc.py: the ops that write a generated pattern to a block device and verify it. The calls
-- of os.write and os.read may transfer fewer bytes than they are asked for.
pub mod Device
pub mod RoundTrip
mod Tests
use test_serv.Base.{
  String, Char, code, str_eq, any, ltb, ◌&&◌, ◌||◌, ℕ, zero, suc, ◌+◌, ◌-◌, ◌*◌, Bool, true, false,
  Option, none, some, List, [], ◌∷◌, ◌++◌, min, length, take, drop, ◌==◌, if◌then◌else◌,
}
use test_serv.Base.Text.{all_chars}
use test_serv.Base.Int.{ℤ, pos, negsuc}
use test_serv.Plugins.Prbs
use test_serv.Plugins.Prbs.{new_prbs}

abbrev pub chunk_bytes : ℕ
chunk_bytes = 1_048_576

-- The bytes of the device by address, and a write and a read of several.
abbrev pub Disk : Type 0
Disk = ℕ → ℕ

unfoldable pub put : ℕ → List ℕ → Disk → Disk
put at [] d = d
put at (b ∷ bs) d = put (at + 1) bs (λ a. if a == at then b else d a)

unfoldable pub get : ℕ → ℕ → Disk → List ℕ
get at zero d = []
get at (suc n) d = d at ∷ get (at + 1) n d

-- By the number of the call or test so far: how many bytes os.write and os.read would transfer at
-- most, 0 for none, and whether the session is canceled.
pub record Os : Type 0 where
  pub accepts : ℕ → ℕ
  pub gives : ℕ → ℕ
  pub canceled : ℕ → Bool

-- The device with the mounted ones, the first words of /proc/mounts: `none` if it cannot be read.
-- str.isdigit is a parameter.
pub record Target : Type 0 where
  pub device : String
  pub block_size : ℕ
  pub mounts : Option (List String)
  pub is_digit : Char → Bool

-- m[len(device):].isdigit() of a name that starts with the device's
unfoldable pub is_partition : (Char → Bool) → String → String → Bool
is_partition is_digit String.[] String.[] = false
is_partition is_digit String.[] (String.◌∷◌ c m) = all_chars is_digit (String.◌∷◌ c m)
is_partition is_digit (String.◌∷◌ d device) String.[] = false
is_partition is_digit (String.◌∷◌ d device) (String.◌∷◌ c m) =
    let rest = is_partition is_digit device m in code d == code c && rest

-- Whether _refuse_if_mounted raises.
unfoldable pub is_mounted : Target → Bool
is_mounted t = elim t.mounts [
  | none ↦ false
  | some ms ↦ any (λ m. str_eq m t.device || is_partition t.is_digit t.device m) ms
]

-- The minimum rate in bytes per second, and the time that the op took, in milliseconds.
pub record Pace : Type 0 where
  pub min_rate : Option ℕ
  pub elapsed : ℕ

-- Whether _check_min_rate raises: the quotient of the source, multiplied out.
unfoldable pub is_too_slow : Pace → ℕ → Bool
is_too_slow pace total = elim pace.min_rate [
  | none ↦ false
  | some least ↦
      if least == 0 || pace.elapsed == 0 then false else ltb (total * 1000) (least * pace.elapsed)
]

-- How a write ends: StopSession, the IOError of a stall, the ValueError of n < 0, the refusal of a
-- mounted device, the TimeoutError of a slow write, or the device.
pub data Written : Type 0 where
  stopped stalled bad_length refused : Written
  slow_write wrote : ℕ → Disk → Written

-- A chunk generator on a state of its own.
abbrev pub Chunker : Type 0 → Type 0
Chunker S = S → ℕ → List ℕ × S

abbrev pub zeroes : ℕ → List ℕ
zeroes zero = []
zeroes (suc n) = 0 ∷ zeroes n

abbrev pub zero_chunker : Chunker (Unit {0})
zero_chunker s want = (zeroes want, s)

abbrev pub prbs_chunker : Chunker ℕ
prbs_chunker x want = Prbs.read want x

abbrev pub then_write : Written → (ℕ → Disk → Option Written) → Option Written
then_write (wrote k d) next = next k d
then_write stopped next = some stopped
then_write stalled next = some stalled
then_write bad_length next = some bad_length
then_write refused next = some refused
then_write (slow_write k d) next = some (slow_write k d)

abbrev pub bind_write : Option Written → (ℕ → Disk → Option Written) → Option Written
bind_write none next = none
bind_write (some w) next = then_write w next

module _ (os : Os) where
  -- The inner loop: what is left of a chunk, on fuel.
  unfoldable pub write_chunk : ℕ → ℕ → ℕ → List ℕ → Disk → Option Written
  write_chunk zero k at chunk d = none
  write_chunk (suc fuel) k at [] d = some (wrote k d)
  write_chunk (suc fuel) k at (b ∷ bs) d =
      let n = min (os.accepts k) (length (b ∷ bs)) in
      let rest = write_chunk fuel (k + 1) (at + n) (drop n (b ∷ bs)) (put at (take n (b ∷ bs)) d) in
      if os.canceled k then some stopped else if n == 0 then some stalled else rest

  -- The outer loop of _write_generated with `left` bytes to go, on fuel. Chunks have `size` bytes.
  unfoldable pub write_chunks :
      {S : Type 0} → Chunker S → ℕ → ℕ → ℕ → ℕ → S → ℕ → Disk → Option Written
  write_chunks make size zero left k s at d = none
  write_chunks make size (suc fuel) zero k s at d = some (wrote k d)
  write_chunks make size (suc fuel) (suc left) k s at d =
      let want = min size (suc left) in
      let (chunk, s') = make s want in
      let rest = bind_write (write_chunk (length chunk + 1) (k + 2) at chunk d) (λ k' d'.
        write_chunks make size fuel (suc left - length chunk) k' s' (at + length chunk) d') in
      if os.canceled k then some stopped else if os.canceled (k + 1) then some stopped else rest

  abbrev pub paced : Pace → ℕ → Option Written → Option Written
  paced pace total none = none
  paced pace total (some (wrote k d)) =
      some (if is_too_slow pace total then slow_write k d else wrote k d)
  paced pace total (some stopped) = some stopped
  paced pace total (some stalled) = some stalled
  paced pace total (some bad_length) = some bad_length
  paced pace total (some refused) = some refused
  paced pace total (some (slow_write k d)) = some (slow_write k d)

  abbrev pub write_total : {S : Type 0} → Chunker S → S → Pace → ℤ → ℕ → Disk → Option Written
  write_total make s pace (pos total) offset d =
      paced pace total (write_chunks make chunk_bytes (total + 1) total 0 s offset d)
  write_total make s pace (negsuc n) offset d = some bad_length

  abbrev pub write_generated :
      {S : Type 0} → Chunker S → S → Target → Pace → ℤ → ℕ → Disk → Option Written
  write_generated make s t pace n offset_lba d =
      if is_mounted t then some refused else write_total make s pace n (offset_lba * t.block_size) d

-- mism and first.
pub record Found : Type 0 where
  pub mism : ℕ
  pub first : Option ℕ

abbrev note_first : ℕ → Option ℕ → Option ℕ
note_first i none = some i
note_first i (some j) = some j

-- The loop over zip(expected, got), from the index `i` in the whole pattern.
unfoldable pub compare_bytes : ℕ → List ℕ → List ℕ → Found → Found
compare_bytes i [] got f = f
compare_bytes i (a ∷ expected) [] f = f
compare_bytes i (a ∷ expected) (b ∷ got) f =
    compare_bytes (i + 1) expected got
      (if a == b then f else record { mism = f.mism + 1; first = note_first i f.first })

-- How a read of a chunk ends, and how a verify does: StopSession, an IOError on an early end, the
-- ValueError of n < 0, the TimeoutError of a slow verify, or what was found.
pub data Chunk : Type 0 where
  chunk_stopped chunk_short : Chunk
  gave : ℕ → List ℕ → Chunk

pub data Checked : Type 0 where
  halted short_read negative_length : Checked
  slow_verify checked : ℕ → Found → Checked

abbrev pub prepend : List ℕ → Option Chunk → Option Chunk
prepend got none = none
prepend got (some chunk_stopped) = some chunk_stopped
prepend got (some chunk_short) = some chunk_short
prepend got (some (gave k more)) = some (gave k (got ++ more))

abbrev pub bind_chunk : Option Chunk → (ℕ → List ℕ → Option Checked) → Option Checked
bind_chunk none next = none
bind_chunk (some chunk_stopped) next = some halted
bind_chunk (some chunk_short) next = some short_read
bind_chunk (some (gave k got)) next = next k got

module _ (os : Os) where
  -- The inner loop of _verify_generated with `want` bytes to go, on fuel.
  unfoldable pub read_chunk : ℕ → ℕ → ℕ → ℕ → Disk → Option Chunk
  read_chunk zero k at want d = none
  read_chunk (suc fuel) k at zero d = some (gave k [])
  read_chunk (suc fuel) k at (suc want) d =
      let n = min (os.gives k) (suc want) in
      let rest = prepend (get at n d) (read_chunk fuel (k + 1) (at + n) (suc want - n) d) in
      if os.canceled k then some chunk_stopped else if n == 0 then some chunk_short else rest

  -- The outer loop, with the index `i` in the pattern, on fuel.
  unfoldable pub verify_chunks :
      {S : Type 0} → Chunker S → ℕ → ℕ → ℕ → ℕ → S → ℕ → ℕ → Found → Disk → Option Checked
  verify_chunks make size zero left k s i at f d = none
  verify_chunks make size (suc fuel) zero k s i at f d = some (checked k f)
  verify_chunks make size (suc fuel) (suc left) k s i at f d =
      let want = min size (suc left) in
      let (expected, s') = make s want in
      let rest = bind_chunk (read_chunk (want + 1) (k + 1) at want d) (λ k' got.
        verify_chunks make size fuel (suc left - want) k' s' (i + want) (at + want)
          (compare_bytes i expected got f) d) in
      if os.canceled k then some halted else rest

  -- The rate is checked if nothing differs; a difference raises.
  abbrev pub paced_verify : Pace → ℕ → Option Checked → Option Checked
  paced_verify pace total none = none
  paced_verify pace total (some halted) = some halted
  paced_verify pace total (some short_read) = some short_read
  paced_verify pace total (some negative_length) = some negative_length
  paced_verify pace total (some (slow_verify k f)) = some (slow_verify k f)
  paced_verify pace total (some (checked k f)) =
      some (if f.mism == 0 && is_too_slow pace total then slow_verify k f else checked k f)

  abbrev pub verify_generated :
      {S : Type 0} → Chunker S → S → Target → Pace → ℤ → ℕ → Disk → Option Checked
  verify_generated make s t pace (pos total) offset_lba d = paced_verify pace total (
      verify_chunks make chunk_bytes (total + 1) total 0 s 0 (offset_lba * t.block_size)
        (record { mism = 0; first = none }) d)
  verify_generated make s t pace (negsuc n) offset_lba d = some negative_length

-- The ops.
pub op_write_prbs : Os → Target → Pace → ℕ → ℤ → ℕ → Disk → Option Written
op_write_prbs os t pace seed n offset_lba d =
    write_generated os prbs_chunker (new_prbs seed) t pace n offset_lba d

pub op_verify_prbs : Os → Target → Pace → ℕ → ℤ → ℕ → Disk → Option Checked
op_verify_prbs os t pace seed n offset_lba d =
    verify_generated os prbs_chunker (new_prbs seed) t pace n offset_lba d

pub op_write_zeroes : Os → Target → Pace → ℤ → ℕ → Disk → Option Written
op_write_zeroes os t pace n offset_lba d = write_generated os zero_chunker tt t pace n offset_lba d

pub op_verify_zeroes : Os → Target → Pace → ℤ → ℕ → Disk → Option Checked
op_verify_zeroes os t pace n offset_lba d =
    verify_generated os zero_chunker tt t pace n offset_lba d
