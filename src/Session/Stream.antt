-- ===== src/Session/Stream.antt =====
-- session.py: Stream, a capped log of timestamped bytes. Each method runs under the stream's lock.
pub mod Bytes
pub mod Log
pub mod Overlap
pub mod Search
use test_serv.Base.{
  ℕ, ◌+◌, ◌-◌, ◌*◌, Bool, true, false, ◌&&◌, List, [], ◌∷◌, ltb, leb, ◌==◌, length, drop,
  if◌then◌else◌,
}
use mathlib.Core.List.{◌++◌}

abbrev pub stream_max_bytes : ℕ
stream_max_bytes = 64 * 1024 * 1024

-- A record `(t, bytes)`, with t in ticks of the monotonic clock.
abbrev pub Record : Type 0
Record = ℕ × List ℕ

pub record Stream : Type 0 where
  pub records : List Record
  pub closed : Bool
  pub size : ℕ
  pub dropped : ℕ
  pub truncate_gen : ℕ

abbrev pub new_stream : Stream
new_stream = record { records = []; closed = false; size = 0; dropped = 0; truncate_gen = 0 }

-- The while loop of append: `self._size > STREAM_MAX_BYTES and len(self.records) > 1`.
pub evict : List Record → ℕ → ℕ → ℕ → List Record × (ℕ × (ℕ × ℕ))
evict [] size dropped gen = ([], (size, (dropped, gen)))
evict (r ∷ []) size dropped gen = (r ∷ [], (size, (dropped, gen)))
evict ((t, chunk) ∷ r ∷ rs) size dropped gen =
    let rest = evict (r ∷ rs) (size - length chunk) (dropped + length chunk) (gen + 1) in
    if ltb stream_max_bytes size then rest else ((t, chunk) ∷ r ∷ rs, (size, (dropped, gen)))

abbrev settle : Stream → List Record × (ℕ × (ℕ × ℕ)) → Stream
settle s (records, (size, (dropped, gen))) = record s {
  records = records;
  size = size;
  dropped = dropped;
  truncate_gen = gen;
}

-- `if not data: return` comes before the lock.
pub append : ℕ → List ℕ → Stream → Stream
unfolding evict
append t [] s = s
append t (b ∷ bs) s =
    if s.closed
    then s
    else settle s (
        evict (s.records ++ ((t, b ∷ bs) ∷ [])) (s.size + length (b ∷ bs)) s.dropped s.truncate_gen)

unfoldable pub close : Stream → Stream
close s = record s { closed = true }

-- b"".join(d for _, d in self.records)
unfoldable pub joined : List Record → List ℕ
joined [] = []
joined ((t, chunk) ∷ rs) = chunk ++ joined rs

-- snapshot_bytes, with the text of the truncation marker as a parameter.
unfoldable pub snapshot_bytes : (ℕ → List ℕ) → Stream → List ℕ
unfolding joined
snapshot_bytes marker s =
    if s.dropped == 0 then joined s.records else marker s.dropped ++ joined s.records

unfoldable pub snapshot_timestamped : (ℕ → List ℕ) → Stream → List Record
snapshot_timestamped marker s =
    if s.dropped == 0 then s.records else (0, marker s.dropped) ∷ s.records

-- The loop of tail_bytes over reversed(self.records), with `remaining` bytes to go; the chunks come
-- out in the stream's order.
pub tail_chunks : ℕ → List Record → List ℕ → List ℕ
tail_chunks remaining [] out = out
tail_chunks remaining ((t, chunk) ∷ rs) out =
    let more = tail_chunks (remaining - length chunk) rs (chunk ++ out) in
    if remaining == 0
    then out
    else if leb remaining (length chunk)
    then drop (length chunk - remaining) chunk ++ out
    else more

abbrev pub reversed : List Record → List Record → List Record
reversed [] out = out
reversed (r ∷ rs) out = reversed rs (r ∷ out)

pub tail_bytes : ℕ → Stream → List ℕ
unfolding tail_chunks
tail_bytes n s = tail_chunks n (reversed s.records []) []

-- The cursor dict of contains_bytes; `gen` is none in an empty dict.
pub record Cursor : Type 0 where
  pub index : ℕ
  pub tail : List ℕ
  pub known : Bool
  pub gen : ℕ

abbrev pub new_cursor : Cursor
new_cursor = record { index = 0; tail = []; known = false; gen = 0 }

abbrev pub starts_with : List ℕ → List ℕ → Bool
starts_with [] xs = true
starts_with (n ∷ ns) [] = false
starts_with (n ∷ ns) (x ∷ xs) = n == x && starts_with ns xs

-- needle in xs
unfoldable pub occurs : List ℕ → List ℕ → Bool
occurs needle [] = starts_with needle []
occurs needle (x ∷ xs) =
    let later = occurs needle xs in if starts_with needle (x ∷ xs) then true else later

-- window[-n:] if n else b""
abbrev pub last_bytes : ℕ → List ℕ → List ℕ
last_bytes n xs = drop (length xs - n) xs

-- The scan over the new records: whether the needle was found, and the overlap that is kept.
unfoldable pub scan_records : List ℕ → List ℕ → List Record → Bool × List ℕ
unfolding occurs
scan_records needle tail [] = (false, tail)
scan_records needle tail ((t, chunk) ∷ rs) =
    let window = tail ++ chunk in
    let kept = last_bytes (length needle - 1) window in
    let more = scan_records needle kept rs in if occurs needle window then (true, kept) else more

abbrev resume : Cursor → Stream → ℕ × List ℕ
resume c s =
    if c.known && c.gen == s.truncate_gen
    then (if ltb (length s.records) c.index then (0, []) else (c.index, c.tail))
    else (0, [])

unfoldable pub contains_bytes : List ℕ → Cursor → Stream → Bool × Cursor
unfolding scan_records
contains_bytes [] c s = (true, c)
contains_bytes (b ∷ bs) c s =
    let (start, tail) = resume c s in
    let (found, kept) = scan_records (b ∷ bs) tail (drop start s.records) in
    (found, record { index = length s.records; tail = kept; known = true; gen = s.truncate_gen })
