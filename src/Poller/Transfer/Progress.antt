-- ===== src/Poller/Transfer/Progress.antt =====
-- poller.py: the progress line counts the bytes and writes one dot for each MiB.
use Prim.Native.Nat.{◌/◌}
use test_serv.Base.{
  ℕ, ◌+◌, ◌-◌, ◌*◌, ◌≤◌, ◌<◌, ◌≡◌, ◌∙◌, ap, refl, true, some, List, [], ◌∷◌, arith, leb,
  if◌then◌else◌,
}
use test_serv.Poller.Transfer.{ProgressLine, progress_threshold, new_line, advance, advance_to}

-- A report of a number of bytes, or of the total so far.
pub data Report : Type 0 where
  more : ℕ → Report
  upto : ℕ → Report

abbrev pub report : Report → ProgressLine → ProgressLine
report (more n) p = advance n p
report (upto n) p = advance_to n p

abbrev pub reports : List Report → ProgressLine → ProgressLine
reports [] p = p
reports (r ∷ rs) p = reports rs (report r p)

-- The bytes that a list of reports stands for.
abbrev pub reported : List Report → ℕ → ℕ
reported [] n = n
reported (more k ∷ rs) n = reported rs (n + k)
reported (upto k ∷ rs) n = reported rs (if leb n k then k else n)

record IsExact (p : ProgressLine) : Type 0 where
  sum : p.bytes_done ≡ p.dots * progress_threshold + p.tally
  small : p.tally < progress_threshold

advance-IsExact : (n : ℕ) (p : ProgressLine) → IsExact p → IsExact (advance n p)
unfolding advance
advance-IsExact n p v = record {
  sum = ground (arith, v.sum, v.small);
  small = ground (arith, v.small);
}

bytes_done-advance :
    (n : ℕ) (p : ProgressLine)
    → p.active ≡ true
    → ((advance n p).bytes_done ≡ p.bytes_done + n) × ((advance n p).active ≡ true)
unfolding advance
bytes_done-advance n p on = (ground arith, ground arith)

reports_from :
    (rs : List Report) (p : ProgressLine)
    → p.active ≡ true
    → IsExact p
    → ((reports rs p).bytes_done ≡ reported rs p.bytes_done) × IsExact (reports rs p)
unfolding advance_to
reports_from [] p on v = (refl, v)
reports_from (more n ∷ rs) p on v =
    let (sum, on') = bytes_done-advance n p on in
    let rest = reports_from rs (advance n p) on' (advance-IsExact n p v) in
    (rest.0 ∙ ap (reported rs) sum, rest.1)
reports_from (upto n ∷ rs) p on v =
    let k = n - p.bytes_done in
    let (sum, on') = bytes_done-advance k p on in
    let most : p.bytes_done + k ≡ (if leb p.bytes_done n then n else p.bytes_done) = ground arith in
    let rest = reports_from rs (advance k p) on' (advance-IsExact k p v) in
    (rest.0 ∙ ap (reported rs) (sum ∙ most), rest.1)

-- A progress line of a transfer of at least one MiB has, after any reports of chunks and of totals,
-- the number of bytes that these stand for, where a total never takes it back, and it has written
-- one dot for each whole MiB of them.
pub reports_lem :
    (total : ℕ) (rs : List Report)
    → progress_threshold ≤ total
    → let p = reports rs (new_line (some total)) in
      (p.bytes_done ≡ reported rs 0) × (p.dots ≡ reported rs 0 / progress_threshold)
reports_lem total rs large =
    let fresh : IsExact (new_line (some total)) = record { sum = refl; small = omega arith } in
    let (sum, exact) = reports_from rs (new_line (some total)) (ground arith) fresh in
    (sum, omega (arith, sum, exact.sum, exact.small))
