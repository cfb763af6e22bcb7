-- ===== src/Plugins/Fpga/Tests.antt =====
-- plugins/fpga.py: a flash that counts, read two bytes at a time.
use test_serv.Base.{ℕ, ◌≡◌, ◌↔◌, refl, false, List, [], ◌∷◌, length, arith}
use test_serv.Plugins.Fpga.{Chip, clocked, verify, good}
use test_serv.Plugins.Fpga.ReadBack.{IsWilling, IsFlash, verify_lem}

abbrev counting : Chip
counting = record { stream = λ i. i; gives = λ k. 2; canceled = λ k. false }

counting-IsWilling : IsWilling counting
counting-IsWilling = record { gives_some = λ k. omega arith; goes_on = λ k. refl }

abbrev image : List ℕ
image = 0 ∷ 1 ∷ 2 ∷ []

counting-IsFlash : IsFlash (λ cmd. counting) (λ i. i)
counting-IsFlash cmd fuel ns meant i h = refl

verify_lem_example :
    (verify false (λ cmd. counting) image ≡ good) ↔ (clocked 0 (length image) (λ i. i) ≡ image)
verify_lem_example =
    verify_lem (λ cmd. counting) (λ i. i) image counting-IsFlash (λ cmd. counting-IsWilling)
