-- ===== src/Poller/Transfer/Chunks.antt =====
-- poller.py: the loop that sends a body ends, and sends it whole or up to its deadline.
use test_serv.Base.{
  ℕ, suc, ◌+◌, ◌≤◌, ◌<◌, ◌≡◌, true, false, some, List, [], ◌∷◌, arith, length-append, leb, length,
  all,
}
use mathlib.Core.List.{◌++◌, append-nil, append_assoc}
use test_serv.Poller.Transfer.{Sent, got, get_chunks}

abbrev pub concat : List (List ℕ) → List ℕ
concat [] = []
concat (c ∷ cs) = c ++ concat cs

abbrev pub count : List (List ℕ) → ℕ
count [] = 0
count (c ∷ cs) = suc (count cs)

-- What a send comes to, with the clock read before each chunk, from its kth reading on: all of the body, or a first part of it if the deadline is over.
pub record IsSent (size : ℕ) (now : ℕ → ℕ) (k deadline : ℕ) (body : List ℕ) (r : Sent)
    : Type 0 where
  pub whole : r.timed_out ≡ false → concat r.chunks ≡ body
  pub first : (rest : List ℕ) × (concat r.chunks ++ rest ≡ body)
  pub small : all (λ c. leb (length c) size) r.chunks ≡ true
  pub late : r.timed_out ≡ true → deadline ≤ now (k + count r.chunks)
  pub early : (i : ℕ) → i < count r.chunks → now (k + i) < deadline

-- A GET of a body with a Content-Length returns whatever chunks arrived before the end of the stream
-- as its result, if they are no more than announced and the deadline is never over: also when they
-- are fewer bytes than announced.
pub get_chunks_short :
    (now : ℕ → ℕ) (k deadline wanted : ℕ) (cs : List (List ℕ)) (buf : List ℕ)
    → ((i : ℕ) → now i < deadline)
    → length buf + length (concat cs) < wanted
    → all (λ c. leb 1 (length c)) cs ≡ true
    → get_chunks now k deadline wanted (cs ++ ([] ∷ [])) buf ≡ some (got (buf ++ concat cs))
unfolding get_chunks
get_chunks_short now k deadline wanted [] buf early short some_bytes =
    ground (arith, early k, append-nil buf)
get_chunks_short now k deadline wanted ([] ∷ cs) buf early short some_bytes = absurd (ground arith)
get_chunks_short now k deadline wanted ((b ∷ c) ∷ cs) buf early short some_bytes =
    let parts = length-append (b ∷ c) (concat cs) in
    let added = length-append buf (b ∷ c) in
    let rest =
      get_chunks_short now (k + 1) deadline wanted cs (buf ++ (b ∷ c)) early
        (omega (arith, parts, added, short)) (ground arith) in
    let joined = append_assoc buf (b ∷ c) (concat cs) in
    ground (arith, early k, rest, joined, parts, added)
