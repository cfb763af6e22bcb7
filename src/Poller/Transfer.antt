-- ===== src/Poller/Transfer.antt =====
-- poller.py: the transfers over HTTP in chunks, their deadlines and their progress line. Times are
-- in milliseconds; `now n` is the clock at its nth reading.
pub mod Progress
pub mod Chunks
use test_serv.Base.{
  ℕ, zero, suc, ◌+◌, ◌-◌, ◌*◌, Bool, true, false, not, ◌||◌, Option, none, some, List, [], ◌∷◌,
  ◌++◌, ltb, leb, ◌==◌, min, length, take, drop, if◌then◌else◌,
}
use Prim.Native.Nat.{◌/◌, ◌%◌}
use test_serv.Base.Int.{ℤ, pos, negsuc}

-- PROGRESS_BYTES_PER_DOT and PROGRESS_THRESHOLD are the same.
abbrev pub progress_threshold : ℕ
progress_threshold = 1_048_576

abbrev pub http_chunk : ℕ
http_chunk = 64 * 1024

-- ProgressLine, with the number of dots written.
pub record ProgressLine : Type 0 where
  pub active : Bool
  pub bytes_done : ℕ
  pub tally : ℕ
  pub dots : ℕ

abbrev pub new_line : Option ℕ → ProgressLine
new_line none = record { active = false; bytes_done = 0; tally = 0; dots = 0 }
new_line (some total) = record {
  active = leb progress_threshold total;
  bytes_done = 0;
  tally = 0;
  dots = 0;
}

unfoldable pub advance : ℕ → ProgressLine → ProgressLine
advance n p =
    if not p.active || n == 0
    then p
    else if leb progress_threshold (p.tally + n)
    then record p {
      bytes_done = p.bytes_done + n;
      tally = (p.tally + n) % progress_threshold;
      dots = p.dots + (p.tally + n) / progress_threshold;
    }
    else record p { bytes_done = p.bytes_done + n; tally = p.tally + n }

-- A difference below 0 changes nothing, as advance does with n <= 0.
unfoldable pub advance_to : ℕ → ProgressLine → ProgressLine
unfolding advance
advance_to done_bytes p = advance (done_bytes - p.bytes_done) p

-- _timeout_left: none where TimeoutError is raised.
abbrev pub timeout_left : ℕ → ℕ → Option ℕ
timeout_left deadline now = if leb deadline now then none else some (min 5000 (deadline - now))

-- How the loop that sends a body ends: the chunks sent, and whether the deadline cut it.
pub record Sent : Type 0 where
  pub chunks : List (List ℕ)
  pub timed_out : Bool

-- The while loop of _post_streamed, on fuel, with what is left to send in chunks of `size`.
unfoldable pub send_chunks : ℕ → (ℕ → ℕ) → ℕ → ℕ → ℕ → List ℕ → Option Sent
send_chunks size now k deadline zero left = none
send_chunks size now k deadline (suc fuel) [] = some (record { chunks = []; timed_out = false })
send_chunks size now k deadline (suc fuel) (b ∷ bs) =
    let rest = send_chunks size now (k + 1) deadline fuel (drop size (b ∷ bs)) in
    elim (timeout_left deadline (now k)) [
      | none ↦ some (record { chunks = []; timed_out = true })
      | some t ↦ elim rest [
        | none ↦ none
        | some r ↦ some (record r { chunks = take size (b ∷ bs) ∷ r.chunks })
      ]
    ]

abbrev pub post_streamed : (ℕ → ℕ) → ℕ → List ℕ → Option Sent
post_streamed now deadline body = send_chunks http_chunk now 0 deadline (length body + 1) body

-- How the loop that reads a body of known length ends: with what was read, or with TimeoutError.
pub data Got : Type 0 where
  got : List ℕ → Got
  too_late : Got

abbrev is_nil : List ℕ → Bool
is_nil [] = true
is_nil (b ∷ bs) = false

-- The while loop of _get for a Content-Length: `reads` are what r.read gives, [] at the end of the
-- stream; `none` while it waits for another.
unfoldable pub get_chunks : (ℕ → ℕ) → ℕ → ℕ → ℕ → List (List ℕ) → List ℕ → Option Got
get_chunks now k deadline wanted [] buf = if leb wanted (length buf) then some (got buf) else none
get_chunks now k deadline wanted (c ∷ cs) buf =
    let rest = get_chunks now (k + 1) deadline wanted cs (buf ++ c) in
    if leb wanted (length buf) then some (got buf) else elim (timeout_left deadline (now k)) [
      | none ↦ some too_late
      | some t ↦ if is_nil c then some (got buf) else rest
    ]

-- _meta_float on a header's text that float() has read, in thousandths: `none` is no header or no
-- finite number.
pub meta_float : Option ℤ → ℕ → ℕ → ℕ
meta_float none default hard_max = default
meta_float (some (negsuc n)) default hard_max = 1000
meta_float (some (pos n)) default hard_max =
    if ltb (min n hard_max) 1000 then 1000 else min n hard_max
