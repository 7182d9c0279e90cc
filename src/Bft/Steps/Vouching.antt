-- ===== src/Bft/Steps/Vouching.antt =====
-- What stands in the map `validator`: the blocks that the node has verified and signed, with the
-- signatures that commits have left in them.
use galaxy.Base.{ℕ, ◌≡◌, Bool, List, [], ◌∷◌, some, In, lookup, ℕ_discrete}
use galaxy.Account.{Account, Block, Signature}
use galaxy.External.{Env}
use galaxy.Messages.{Request, Proposal, Response, Commit}
use galaxy.Bft.State.{BftCore, PayloadSets, new_bft_core, initialization, verify_payload}
use galaxy.Bft.Rounds.{receive_request, receive_response, wait_response}
use galaxy.Bft.Commits.{receive_proposal, receive_commit}
use galaxy.Bft.Steps.Recording.{SameBody}

module _ {World : Type 0} (env : Env World) where
  -- The requests and proposals that a node has handled: the store of the moment, the account that the node
  -- had then, and the block.
  abbrev pub History : Type 0
  History = List (World × Account × Block)

  -- A block for a digest that a node was handed in a request or a proposal, that verified on the store of
  -- that moment, and whose digest the account that the node had then has signed.
  abbrev pub Verified : History → ℕ → Block → Type 0
  Verified past digest block =
      (block.header.mix_digest ≡ digest)
      × ((w : World) × (local : Account) × (receipts : ℕ) × (s : Signature) × In (w, local, block)
            past
          × (verify_payload env w block ≡ some receipts)
          × (env.sign local digest ≡ some s))

  -- An entry whose block is such a block, but for its signatures and the hash that it carries.
  abbrev pub Vouched : History → ℕ → PayloadSets → Type 0
  Vouched past digest entry =
      (block : Block) × SameBody entry.block block × Verified past digest block

  abbrev AllVouched : History → BftCore → Type 0
  AllVouched past core =
      (k : ℕ) (entry : PayloadSets)
      → lookup ℕ_discrete k core.validator ≡ some entry
      → Vouched past k entry

  -- The life of a node: its core is made, Initialization begins a round, and the handlers and the rounds of
  -- waitResponse run, in any order and on any store.
  pub data Lived : History → BftCore → Type 0 where
    made : Lived [] new_bft_core
    begun :
        {past : History} {core : BftCore} (local master : Account) (peers : List Account)
        → Lived past core
        → Lived past (initialization core local master peers)
    handled_request :
        {past : History} {core : BftCore} (w : World) (x : Request)
        → Lived past core
        → Lived ((w, core.local, x.payload) ∷ past) (receive_request env w core x).0
    handled_proposal :
        {past : History} {core : BftCore} (w : World) (x : Proposal)
        → Lived past core
        → Lived ((w, core.local, x.payload) ∷ past) (receive_proposal env w core x).0
    handled_response :
        {past : History} {core : BftCore} (x : Response)
        → Lived past core
        → Lived past (receive_response env core x).0
    handled_commit :
        {past : History} {core : BftCore} (w : World) (x : Commit)
        → Lived past core
        → Lived past (receive_commit env w core x).1
    waited_round :
        {past : History} {core : BftCore} (order : List (Account × Signature)) (timeout : Bool)
        → Lived past core
        → Lived past (wait_response env core order timeout).0
