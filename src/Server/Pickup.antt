-- ===== src/Server/Pickup.antt =====
-- server.py: _pickup and _rollback_pickup, GET /<ext>.
pub mod Claims
pub mod Rollback
use test_serv.Base.{
  ℕ, zero, suc, Bool, true, false, Option, none, some, List, [], ◌∷◌, String, str_eq, if◌then◌else◌,
}
use test_serv.Base.Dict.{keys, lookup, insert, erase}
use test_serv.Server.Digest.{is_alnum_text}
use test_serv.Server.Meta.{read_meta}
use test_serv.Server.Store.{File, MetaFile, State, Payload, Reply, reply, nothing, plan}

-- Which name random.choice takes in a round, and what other requests do to the state directory
-- between this round's listing and its rename.
pub record Round : Type 0 where
  pub choice : ℕ
  pub meanwhile : State → State

-- random.choice of the list `x ∷ xs`
unfoldable pub choose : ℕ → String → List String → String
choose zero x xs = x
choose (suc i) x [] = x
choose (suc i) x (y ∷ ys) = choose i y ys

-- os.rename of a plan and of its meta file, from INPUTS to DONE and back. `none` is
-- FileNotFoundError. A rename keeps the file's modification time.
unfoldable pub claim_plan : String → State → Option (File × State)
claim_plan k s = elim (lookup k s.inputs) [
  | none ↦ none
  | some f ↦ some (f, record s { inputs = erase k s.inputs; done = insert k f s.done })
]

unfoldable pub claim_meta : String → State → Option (MetaFile × State)
claim_meta k s = elim (lookup k s.inputs_meta) [
  | none ↦ none
  | some m ↦
      some (m, record s { inputs_meta = erase k s.inputs_meta; done_meta = insert k m s.done_meta })
]

unfoldable pub return_plan : String → State → State
return_plan k s = elim (lookup k s.done) [
  | none ↦ s
  | some f ↦ record s { done = erase k s.done; inputs = insert k f s.inputs }
]

unfoldable pub return_meta : String → State → State
return_meta k s = elim (lookup k s.done_meta) [
  | none ↦ s
  | some m ↦ record s { done_meta = erase k s.done_meta; inputs_meta = insert k m s.inputs_meta }
]

-- `has_meta` tells whether the claim moved a meta file.
pub rollback_pickup : String → Bool → State → State
rollback_pickup k has_meta s = return_plan k (if has_meta then return_meta k s else s)

-- How the reply gets through: whole; cut by an OSError of wfile.write(data), which the handler
-- catches; or not at all, where send_header (a header that is no Latin-1) or end_headers raises, which
-- it does not catch.
pub data Delivery : Type 0 where
  reply_sent body_cut headers_failed : Delivery

-- After the plan's rename: the meta file's, the reads, and the reply.
abbrev pub send_claimed : Delivery → Reply → State → State → Reply × State
send_claimed reply_sent r claimed rolled_back = (r, claimed)
send_claimed body_cut r claimed rolled_back = (r, rolled_back)
send_claimed headers_failed r claimed rolled_back = (r, claimed)

unfoldable pub finish_claim : Delivery → String → File → State → Reply × State
finish_claim delivered k f s = elim (claim_meta k s) [
  | none ↦ send_claimed delivered (reply 200 (plan f.body [])) s (rollback_pickup k false s)
  | some (m, s') ↦
      send_claimed delivered (reply 200 (plan f.body (read_meta m.content))) s'
        (rollback_pickup k true s')
]

-- `rounds n` is the round with `n` more to come. One round: the listing, the choice, the interference, the rename. `none` is a lost race.
abbrev pub pick : Round → List String → Option String
pick r [] = none
pick r (x ∷ xs) = some (choose r.choice x xs)

unfoldable pub pickup_plan : ℕ → (ℕ → Round) → Delivery → State → Reply × State
pickup_plan zero rounds delivered s = (reply 204 nothing, s)
pickup_plan (suc n) rounds delivered s = elim (pick (rounds n) (keys s.inputs)) [
  | none ↦ (reply 204 nothing, s)
  | some k ↦ elim (claim_plan k ((rounds n).meanwhile s)) [
    | none ↦ pickup_plan n rounds delivered ((rounds n).meanwhile s)
    | some (f, s') ↦ finish_claim delivered k f s'
  ]
]

-- GET /meta: the suffix ".meta" matches the meta files, and the claim moves one of those.
unfoldable pub finish_meta_claim : Delivery → String → MetaFile → State → Reply × State
finish_meta_claim delivered k m s =
    send_claimed delivered (reply 200 (Payload.text m.content)) s (return_meta k s)

unfoldable pub pickup_meta : ℕ → (ℕ → Round) → Delivery → State → Reply × State
pickup_meta zero rounds delivered s = (reply 204 nothing, s)
pickup_meta (suc n) rounds delivered s = elim (pick (rounds n) (keys s.inputs_meta)) [
  | none ↦ (reply 204 nothing, s)
  | some k ↦ elim (claim_meta k ((rounds n).meanwhile s)) [
    | none ↦ pickup_meta n rounds delivered ((rounds n).meanwhile s)
    | some (m, s') ↦ finish_meta_claim delivered k m s'
  ]
]

-- The whole handler, with the retry budget of eight rounds. `none` is GET /tmp: its suffix matches
-- INPUTS/.tmp, the directory in which write_atomic stages its files, which the state leaves out. The
-- handler moves that directory to DONE and fails when it opens it.
unfoldable pub pickup : String → (ℕ → Round) → Delivery → State → Option (Reply × State)
pickup ext rounds delivery s =
    if is_alnum_text ext
    then if str_eq ext "plan"
      then some (pickup_plan 8 rounds delivery s)
      else if str_eq ext "meta"
      then some (pickup_meta 8 rounds delivery s)
      else if str_eq ext "tmp"
      then none
      else some (reply 204 nothing, s)
    else some (reply 400 nothing, s)
