-- ===== src/Server/Invariant.antt =====
-- server.py: what holds of the state directory between requests.
pub mod Moves
pub mod Requests
pub mod Reachable
use test_serv.Base.{true, false, ◌≡◌, String, arith, Bool-cases, inl, inr}
use test_serv.Base.Dict.{Dict, erase, mem, lookup-erase}
use test_serv.Server.Digest.{is_digest}
use test_serv.Server.Store.{File, State}

-- No digest is both queued and picked up, and every name in INPUTS, DONE and OUTPUTS is a digest.
pub record IsValid (s : State) : Type 0 where
  pub exclusive : (k : String) → mem k s.inputs ≡ true → mem k s.done ≡ false
  pub safe_inputs : (k : String) → mem k s.inputs ≡ true → is_digest k ≡ true
  pub safe_done : (k : String) → mem k s.done ≡ true → is_digest k ≡ true
  pub safe_outputs : (k : String) → mem k s.outputs ≡ true → is_digest k ≡ true

abbrev pub Shrinks : Dict File → Dict File → Type 0
Shrinks d e = (k : String) → mem k e ≡ true → mem k d ≡ true

pub erase-Shrinks : (k : String) (d : Dict File) → Shrinks d (erase k d)
erase-Shrinks k d j h = ground (arith, lookup-erase k j d)

-- An operation that only removes files keeps the invariant.
pub Shrinks-IsValid :
    {s t : State}
    → IsValid s
    → Shrinks s.inputs t.inputs
    → Shrinks s.done t.done
    → Shrinks s.outputs t.outputs
    → IsValid t
Shrinks-IsValid {s} {t} v hi hd ho = record {
  exclusive = λ k h. elim (Bool-cases (mem k t.done)) [
    | inl e ↦ ground (arith, v.exclusive k (hi k h), hd k e)
    | inr e ↦ e
  ];
  safe_inputs = λ k h. v.safe_inputs k (hi k h);
  safe_done = λ k h. v.safe_done k (hd k h);
  safe_outputs = λ k h. v.safe_outputs k (ho k h);
}

pub Shrinks-refl : (d : Dict File) → Shrinks d d
Shrinks-refl d k h = h
