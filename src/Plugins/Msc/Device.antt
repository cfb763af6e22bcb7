-- ===== src/Plugins/Msc/Device.antt =====
-- plugins/msc.py: what a device holds after a write, and the loops on one chunk.
use test_serv.Base.{
  ℕ, zero, suc, ◌+◌, ◌-◌, ◌≤◌, ◌<◌, ◌≡◌, ◌∙◌, sym, ap, refl, false, some, List, [], ◌∷◌, arith, min,
  length, length-take, take, drop, ◌==◌, if◌then◌else◌,
}
use mathlib.Core.List.{◌++◌}
use test_serv.Plugins.Msc.{Disk, put, get, Os, wrote, write_chunk, read_chunk, gave, prepend}

-- Every call transfers something, and the session is not canceled.
pub record IsWilling (os : Os) : Type 0 where
  pub accepts_some : (k : ℕ) → 1 ≤ os.accepts k
  pub gives_some : (k : ℕ) → 1 ≤ os.gives k
  pub goes_on : (k : ℕ) → os.canceled k ≡ false

put-before : (at : ℕ) (bs : List ℕ) (d : Disk) (a : ℕ) → a < at → put at bs d a ≡ d a
unfolding put
put-before at [] d a h = refl
put-before at (b ∷ bs) d a h =
    put-before (at + 1) bs (λ x. if x == at then b else d x) a (omega arith) ∙ ground arith

pub put-append :
    (at : ℕ) (xs ys : List ℕ) (d : Disk)
    → put at (xs ++ ys) d ≡ put (at + length xs) ys (put at xs d)
unfolding put
put-append at [] ys d = let same : at ≡ at + 0 = omega arith in ap (λ a. put a ys d) same
put-append at (x ∷ xs) ys d =
    let e : Disk = λ a. if a == at then x else d a in
    let same : at + 1 + length xs ≡ at + suc (length xs) = omega arith in
    put-append (at + 1) xs ys e ∙ ap (λ a. put a ys (put (at + 1) xs e)) same

pub get-put : (at : ℕ) (bs : List ℕ) (d : Disk) → get at (length bs) (put at bs d) ≡ bs
unfolding put get
get-put at [] d = refl
get-put at (b ∷ bs) d =
    let e : Disk = λ a. if a == at then b else d a in
    let head : put (at + 1) bs e at ≡ b =
      put-before (at + 1) bs e at (omega arith) ∙ ground arith in
    ap (λ x. x ∷ get (at + 1) (length bs) (put (at + 1) bs e)) head
    ∙ ap (λ r. b ∷ r) (get-put (at + 1) bs e)

pub get-add : (at m n : ℕ) (d : Disk) → get at (m + n) d ≡ get at m d ++ get (at + m) n d
unfolding get
get-add at zero n d =
    let same : 0 + n ≡ n = omega arith in
    let there : at ≡ at + 0 = omega arith in ap (λ k. get at k d) same ∙ ap (λ a. get a n d) there
get-add at (suc m) n d =
    let next : suc m + n ≡ suc (m + n) = omega arith in
    let there : at + 1 + m ≡ at + suc m = omega arith in
    ap (λ k. get at k d) next
    ∙ ap (λ r. d at ∷ r) (get-add (at + 1) m n d ∙ ap (λ a. get (at + 1) m d ++ get a n d) there)

take-drop : (n : ℕ) (xs : List ℕ) → take n xs ++ drop n xs ≡ xs
take-drop zero xs = refl
take-drop (suc n) [] = refl
take-drop (suc n) (x ∷ xs) = ap (λ r. x ∷ r) (take-drop n xs)

length-drop : (n : ℕ) (xs : List ℕ) → length (drop n xs) ≡ length xs - n
length-drop zero xs = omega arith
length-drop (suc n) [] = omega arith
length-drop (suc n) (x ∷ xs) = omega (arith, length-drop n xs)

module _ (os : Os) (willing : IsWilling os) where
  -- A chunk is written whole, whatever parts the calls take.
  pub write_chunk_lem :
      (fuel k at : ℕ) (chunk : List ℕ) (d : Disk)
      → length chunk < fuel
      → (k' : ℕ) × (write_chunk os fuel k at chunk d ≡ some (wrote k' (put at chunk d)))
  unfolding write_chunk put
  write_chunk_lem zero k at chunk d enough = absurd (omega arith)
  write_chunk_lem (suc fuel) k at [] d enough = (k, refl)
  write_chunk_lem (suc fuel) k at (b ∷ bs) d enough =
      let n = min (os.accepts k) (length (b ∷ bs)) in
      let some_n : 1 ≤ n = omega (arith, willing.accepts_some k) in
      let part = take n (b ∷ bs) in
      let left = drop n (b ∷ bs) in
      let less : length left < fuel = omega (arith, length-drop n (b ∷ bs), some_n, enough) in
      let size : length part ≡ n = length-take n (b ∷ bs) ∙ omega arith in
      let (k', e) = write_chunk_lem fuel (k + 1) (at + n) left (put at part d) less in
      let whole : put (at + n) left (put at part d) ≡ put at (b ∷ bs) d =
        ap (λ m. put (at + m) left (put at part d)) (sym size)
        ∙ sym (put-append at part left d)
        ∙ ap (λ c. put at c d) (take-drop n (b ∷ bs)) in
      let moves : (n == 0) ≡ false = ground arith in
      (k', rw (willing.goes_on k, moves) (e ∙ ap (λ x. some (wrote k' x)) whole))

  -- A chunk is read whole.
  pub read_chunk_lem :
      (fuel k at want : ℕ) (d : Disk)
      → want < fuel
      → (k' : ℕ) × (read_chunk os fuel k at want d ≡ some (gave k' (get at want d)))
  unfolding read_chunk get
  read_chunk_lem zero k at want d enough = absurd (omega arith)
  read_chunk_lem (suc fuel) k at zero d enough = (k, refl)
  read_chunk_lem (suc fuel) k at (suc want) d enough =
      let n = min (os.gives k) (suc want) in
      let some_n : 1 ≤ n = omega (arith, willing.gives_some k) in
      let (k', e) = read_chunk_lem fuel (k + 1) (at + n) (suc want - n) d (omega (arith, some_n)) in
      let all_of : n + (suc want - n) ≡ suc want = omega arith in
      let whole : get at n d ++ get (at + n) (suc want - n) d ≡ get at (suc want) d =
        sym (get-add at n (suc want - n) d) ∙ ap (λ m. get at m d) all_of in
      let moves : (n == 0) ≡ false = ground arith in
      (
        k',
        rw (willing.goes_on k, moves)
            (ap (prepend (get at n d)) e ∙ ap (λ x. some (gave k' x)) whole),
      )
