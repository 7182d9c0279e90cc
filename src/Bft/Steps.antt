-- ===== src/Bft/Steps.antt =====
-- The life of a node of the bft policy as steps of its core: the handlers, in any order, and the rounds
-- of waitResponse between them.
pub mod Recording
pub mod Signers
pub mod Surplus
pub mod Vouching
use galaxy.Base.{
  ℕ, ◌≡◌, refl, sym, ◌⊎◌, inl, inr, Bool, true, false, Bool-cases, Option-cases, List, [], ◌∷◌,
  Option, none, some, In, arith, lookup, length, ◌==◌, if◌then◌else◌, not,
}
use galaxy.Account.{Account, Account-discrete, no_account, Signature, Block}
use galaxy.External.{Env}
use galaxy.Messages.{Request, Proposal, Response, Commit}
use galaxy.Utils.{get_account_by_id}
use galaxy.Utils.Choice.{get_account_by_id-In}
use galaxy.Fbft.State.{encodes}
use galaxy.Bft.State.{
  BftCore, SignData, add_signature, initialization, record_payload, sign_data_verify,
  verify_payload, sign_payload,
}
use galaxy.Bft.Rounds.{
  receive_request, receive_response, wait_response, collect, propose, proposal_of,
}
use galaxy.Bft.Commits.{receive_proposal, receive_commit, answer}

-- One that may sign: this node, a peer, or the empty account that stands for an id that is none of the
-- peers'.
abbrev pub MaySign : BftCore → Account → Type 0
MaySign core a = (a ≡ core.local) ⊎ (In a core.peers ⊎ (a ≡ no_account))

-- What a step leaves of the nodes and the signatures: at most one signature more, of an account that
-- may sign.
abbrev pub Moves : BftCore → BftCore → Type 0
Moves core core' =
    (core'.local ≡ core.local)
    × (core'.peers ≡ core.peers)
    × (core'.tolerance ≡ core.tolerance)
    × ((core'.signature ≡ core.signature)
        ⊎ ((a : Account) × (s : Signature) × MaySign core a
            × (core'.signature ≡ add_signature core.signature a s)))

get_account_by_id-MaySign :
    (core : BftCore) (id : ℕ) → MaySign core (get_account_by_id core.peers id)
get_account_by_id-MaySign core id = elim (get_account_by_id-In core.peers id) [
  | inl e ↦ inr (inr e)
  | inr i ↦ inr (inl i)
]

module _ {World : Type 0} (env : Env World) where
  pub data Step : BftCore → BftCore → Type 0 where
    requested :
        (w : World) (core : BftCore) (x : Request) → Step core (receive_request env w core x).0
    proposed :
        (w : World) (core : BftCore) (x : Proposal) → Step core (receive_proposal env w core x).0
    responded : (core : BftCore) (x : Response) → Step core (receive_response env core x).0
    committed :
        (w : World) (core : BftCore) (x : Commit) → Step core (receive_commit env w core x).1
    waited :
        (core : BftCore) (order : List (Account × Signature)) (timeout : Bool)
        → Step core (wait_response env core order timeout).0

  -- Any number of steps.
  pub data Later : BftCore → BftCore → Type 0 where
    now : (core : BftCore) → Later core core
    after : {c d e : BftCore} → Later c d → Step d e → Later c e

  -- The signature that a response adds is one of an account that may sign.
  collect-Moves :
      (core : BftCore) (peer : Account) (s : Signature)
      → MaySign core peer
      → Moves core (collect env core peer s).0
  unfolding collect
  collect-Moves core peer s may = elim (Bool-cases (sign_data_verify env peer s core.digest)) [
    | inl e ↦ elim (Option-cases (lookup Account-discrete peer core.signature.sign_map)) [
      | inl f ↦ rw (e, f) (refl, refl, refl, inr (peer, s, may, refl))
      | inr (t, f) ↦ rw (e, f) (refl, refl, refl, inl refl)
    ]
    | inr e ↦ rw e (refl, refl, refl, inl refl)
  ]

  receive_response-Moves :
      (core : BftCore) (x : Response) → Moves core (receive_response env core x).0
  unfolding receive_response
  receive_response-Moves core x = ground (
    arith,
    collect-Moves core (get_account_by_id core.peers x.account.extension.id) x.signature
        (get_account_by_id-MaySign core x.account.extension.id),
  )

  propose-Moves :
      (core : BftCore) (x : Request) (receipts : ℕ) (s : Signature)
      → Moves core (propose env core x receipts s).0
  unfolding propose record_payload
  propose-Moves core x receipts s = elim (Bool-cases (encodes env (proposal_of env core x s))) [
    | inl e ↦ rw e (refl, refl, refl, inr (core.local, s, inl refl, refl))
    | inr e ↦ rw e (refl, refl, refl, inl refl)
  ]

  receive_request-Moves :
      (w : World) (core : BftCore) (x : Request) → Moves core (receive_request env w core x).0
  unfolding receive_request
  receive_request-Moves w core x = elim (Option-cases (verify_payload env w x.payload)) [
    | inl e ↦ ground arith
    | inr (r, e) ↦ elim (Option-cases (sign_payload env core x.payload.header.mix_digest)) [
      | inl f ↦ ground arith
      | inr (s, f) ↦ ground (arith, propose-Moves core x r s)
    ]
  ]

  receive_proposal-Moves :
      (w : World) (core : BftCore) (x : Proposal) → Moves core (receive_proposal env w core x).0
  unfolding receive_proposal answer record_payload
  receive_proposal-Moves w core x = ground arith

  receive_commit-Moves :
      (w : World) (core : BftCore) (x : Commit) → Moves core (receive_commit env w core x).1
  unfolding receive_commit
  receive_commit-Moves w core x = ground arith

  wait_response-Moves :
      (core : BftCore) (order : List (Account × Signature)) (timeout : Bool)
      → Moves core (wait_response env core order timeout).0
  unfolding wait_response
  wait_response-Moves core order timeout = ground arith

  pub Step-Moves : {core core' : BftCore} → Step core core' → Moves core core'
  Step-Moves (requested w core x) = receive_request-Moves w core x
  Step-Moves (proposed w core x) = receive_proposal-Moves w core x
  Step-Moves (responded core x) = receive_response-Moves core x
  Step-Moves (committed w core x) = receive_commit-Moves w core x
  Step-Moves (waited core order timeout) = wait_response-Moves core order timeout
