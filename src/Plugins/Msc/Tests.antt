-- ===== src/Plugins/Msc/Tests.antt =====
-- plugins/msc.py: a write and a verify of nine bytes through short calls.
use test_serv.Base.{
  ℕ, ◌≡◌, refl, false, true, ◌&&◌, [], ◌∷◌, leb, code, if◌then◌else◌, none, some, arith,
}
use test_serv.Base.Int.{pos}
use test_serv.Base.Text.{all_chars}
use test_serv.Plugins.Msc.{
  Disk, Os, Target, Pace, Found, is_mounted, is_partition, is_too_slow, slow_write, refused,
  slow_verify, wrote, checked, op_write_prbs, op_verify_prbs,
}
use test_serv.Plugins.Msc.Device.{IsWilling}
use test_serv.Plugins.Msc.RoundTrip.{verify-write_prbs}

abbrev slow : Os
slow = record { accepts = λ k. 4; gives = λ k. 2; canceled = λ k. false }

slow-IsWilling : IsWilling slow
slow-IsWilling = record {
  accepts_some = λ k. omega arith;
  gives_some = λ k. omega arith;
  goes_on = λ k. refl;
}

abbrev blank : Disk
blank = λ a. 0

-- A stick whose neighbour is mounted.
abbrev stick : Target
stick = record {
  device = "/dev/sdb";
  block_size = 512;
  mounts = some ("/dev/sda1" ∷ []);
  is_digit = λ c. leb 48 (code c) && leb (code c) 57;
}

stick-free : is_mounted stick ≡ false
unfolding is_mounted is_partition
stick-free = refl

-- Its own partition, too.
stick-refused : is_mounted (record stick { mounts = some ("/dev/sdb1" ∷ []) }) ≡ true
unfolding is_mounted is_partition all_chars
stick-refused = refl

abbrev second : Pace
second = record { min_rate = some 5; elapsed = 1000 }

verify-write_prbs_example :
    let found : Found = record { mism = 0; first = none } in
    (k : ℕ) × (k' : ℕ) × (d' : Disk) × (op_write_prbs slow stick second 7 (pos 9) 2 blank
      ≡ some (
          if is_mounted stick
          then refused
          else if is_too_slow second 9
          then slow_write k d'
          else wrote k d'))
    × (op_verify_prbs slow stick second 7 (pos 9) 2 d'
        ≡ some (if is_too_slow second 9 then slow_verify k' found else checked k' found))
verify-write_prbs_example =
    verify-write_prbs slow slow stick second second 7 9 2 blank slow-IsWilling slow-IsWilling
