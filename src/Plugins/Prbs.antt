-- ===== src/Plugins/Prbs.antt =====
-- plugins/_prbs.py: XorShift32Bytes.
use Prim.Native.Nat.{bit_xor, ◌/◌, ◌%◌}
use test_serv.Base.{
  ℕ, zero, suc, ◌+◌, ◌*◌, ◌^◌, ◌≡◌, ◌∙◌, ap, refl, List, [], ◌∷◌, length, ◌==◌, if◌then◌else◌,
  arith,
}
use mathlib.Core.List.{◌++◌}

-- seed & 0xFFFFFFFF, and 1 for 0.
abbrev pub new_prbs : ℕ → ℕ
new_prbs seed = if seed % 2 ^ 32 == 0 then 1 else seed % 2 ^ 32

-- One round of the loop on x.
unfoldable pub xorshift : ℕ → ℕ
xorshift x =
    let a = bit_xor x ((x * 2 ^ 13) % 2 ^ 32) in
    let b = bit_xor a ((a / 2 ^ 17) % 2 ^ 32) in bit_xor b ((b * 2 ^ 5) % 2 ^ 32)

-- The bytes and the state after them.
unfoldable pub read : ℕ → ℕ → List ℕ × ℕ
read zero x = ([], x)
read (suc n) x = let (rest, x') = read n (xorshift x) in ((xorshift x % 256) ∷ rest, x')

-- A read gives as many bytes as it is asked for.
pub length-read : (n x : ℕ) → length (read n x).0 ≡ n
unfolding read
length-read zero x = refl
length-read (suc n) x = ap suc (length-read n (xorshift x))

-- Two reads give the bytes and the state of one read of both lengths.
pub read-add :
    (m n x : ℕ)
    → let first = read m x in
      let second = read n first.1 in read (m + n) x ≡ (first.0 ++ second.0, second.1)
unfolding read
read-add zero n x = let same : 0 + n ≡ n = omega arith in ap (λ k. read k x) same
read-add (suc m) n x =
    let next : suc m + n ≡ suc (m + n) = omega arith in
    ap (λ k. read k x) next
    ∙ ap (λ (o : List ℕ × ℕ). ((xorshift x % 256) ∷ o.0, o.1)) (read-add m n (xorshift x))

prbs_of_1 : (read 3 (new_prbs 0)).0 ≡ 33 ∷ 1 ∷ 197 ∷ []
unfolding read xorshift
prbs_of_1 = refl
