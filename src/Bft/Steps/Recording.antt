-- ===== src/Bft/Steps/Recording.antt =====
-- What the handlers do to the map `validator`: they record a block only once it is verified and signed,
-- and a commit changes no more of it than the signatures and the hash that it carries.
use galaxy.Base.{ℕ, ◌≡◌, ◌⊎◌, inl, inr, Bool, Option-cases, List, some, arith}
use galaxy.Account.{Account, Block, Signature}
use galaxy.External.{Env}
use galaxy.Messages.{Request, Proposal, Response, Commit}
use galaxy.Bft.State.{BftCore, PayloadSets, record_payload, verify_payload, sign_payload}
use galaxy.Bft.Rounds.{receive_request, receive_response, wait_response, collect, propose}
use galaxy.Bft.Commits.{receive_proposal, answer, finish}

-- Two blocks that differ in their signatures and the hash that they carry at most.
abbrev pub SameBody : Block → Block → Type 0
SameBody b c =
    (b.header.height ≡ c.header.height)
    × (b.header.mix_digest ≡ c.header.mix_digest)
    × (b.header.prev_block_hash ≡ c.header.prev_block_hash)
    × (b.transactions ≡ c.transactions)

module _ {World : Type 0} (env : Env World) where
  pub finish-SameBody :
      (w : World) (entry : PayloadSets) (commit : Commit)
      → SameBody (finish env w entry commit).1 entry.block
  unfolding finish
  finish-SameBody w entry commit = ground arith

  -- What a handler comes to that records a block only once it has verified and signed it.
  abbrev pub Comes : World → BftCore → Block → BftCore → Type 0
  Comes w core block out =
      (out ≡ core)
      ⊎ ((receipts : ℕ) × (s : Signature) × (verify_payload env w block ≡ some receipts)
          × (env.sign core.local block.header.mix_digest ≡ some s)
          × (out.validator ≡ (record_payload core block receipts).validator))

  pub receive_request-Comes :
      (w : World) (core : BftCore) (x : Request)
      → Comes w core x.payload (receive_request env w core x).0
  unfolding receive_request sign_payload propose record_payload
  receive_request-Comes w core x = elim (Option-cases (verify_payload env w x.payload)) [
    | inl e ↦ inl (ground arith)
    | inr (r, e) ↦ elim (Option-cases (env.sign core.local x.payload.header.mix_digest)) [
      | inl f ↦ inl (ground arith)
      | inr (s, f) ↦ ground (arith, e, f)
    ]
  ]

  pub receive_proposal-Comes :
      (w : World) (core : BftCore) (x : Proposal)
      → Comes w core x.payload (receive_proposal env w core x).0
  unfolding receive_proposal answer sign_payload record_payload
  receive_proposal-Comes w core x = elim (Option-cases (verify_payload env w x.payload)) [
    | inl e ↦ inl (ground arith)
    | inr (r, e) ↦ elim (Option-cases (env.sign core.local x.payload.header.mix_digest)) [
      | inl f ↦ inl (ground arith)
      | inr (s, f) ↦ ground (arith, e, f)
    ]
  ]

  pub receive_response_keeps_validator :
      (core : BftCore) (x : Response) → (receive_response env core x).0.validator ≡ core.validator
  unfolding receive_response collect
  receive_response_keeps_validator core x = ground arith

  pub wait_response_keeps_validator :
      (core : BftCore) (order : List (Account × Signature)) (timeout : Bool)
      → (wait_response env core order timeout).0.validator ≡ core.validator
  unfolding wait_response
  wait_response_keeps_validator core order timeout = ground arith
