-- ===== src/Bft/State.antt =====
-- bft-core.go: the state of the core, and how Initialization of bft.go starts a round.
use galaxy.Base.{
  ℕ, ◌-◌, ◌/◌, Bool, true, false, List, [], ◌∷◌, ◌++◌, Option, none, some, ite, length, ◌==◌,
  lookup, insert, ℕ_discrete,
}
use galaxy.Base.Words.{u8}
use galaxy.Account.{Account, Account-discrete, no_account, Block, Signature}
use galaxy.External.{Env}
use galaxy.Messages.{Message, SyncBlockResp}
use galaxy.Fbft.State.{ConsensusResult, Event}

pub record SignData : Type 0 where
  pub signatures : List Signature
  pub sign_map : List (Account × Signature)

pub record PayloadSets : Type 0 where
  pub block : Block
  pub receipts : ℕ

-- bftCore, without its channels, its lock and the map `payloads`, which no code reads.
pub record BftCore : Type 0 where
  pub local : Account
  pub master : Account
  pub peers : List Account
  pub signature : SignData
  pub tolerance : ℕ  -- uint8
  pub commit : Bool
  pub digest : ℕ
  pub validator : List (ℕ × PayloadSets)

-- What a handler does to its surroundings.
pub data Action : Type 0 where
  -- A message to several accounts in order, or to one.
  send_all : List Account → Message → Action
  send : Account → Message → Action
  -- A SyncBlockResp of dbft to one account, which it sends without the struct of its message.
  send_bare : Account → SyncBlockResp → Action
  -- `go instance.waitResponse()`.
  start_waiting : Action
  -- `instance.tunnel <- 1`, which blocks until a waitResponse takes it.
  tunnel : Action
  -- `instance.result <-`.
  give_result : ConsensusResult → Action
  notify : Event → Action

-- addSignature: the signature is appended whether or not the account has signed before.
unfoldable pub add_signature : SignData → Account → Signature → SignData
add_signature s account sign = record {
  signatures = s.signatures ++ sign ∷ [];
  sign_map = insert Account-discrete account sign s.sign_map;
}

abbrev pub no_signatures : SignData
no_signatures = record { signatures = []; sign_map = [] }

-- NewBFTCore
unfoldable pub new_bft_core : BftCore
new_bft_core = record {
  local = no_account;
  master = no_account;
  peers = [];
  signature = no_signatures;
  tolerance = 0;
  commit = false;
  digest = 0;
  validator = [];
}

-- Initialization of BFTPolicy, on the core.
unfoldable pub initialization : BftCore → Account → Account → List Account → BftCore
initialization core local master peers = record core {
  local = local;
  master = master;
  commit = false;
  peers = peers;
  tolerance = u8 ((length peers - 1) / 3);
  signature = no_signatures;
}

-- `instance.local == instance.master`
unfoldable pub leads : BftCore → Bool
leads core = ite (Account-discrete core.local core.master) true false

-- The entry that receiveRequest and receiveProposal write for a verified block: a known block keeps
-- its pointer and gets new receipts.
unfoldable pub record_payload : BftCore → Block → ℕ → BftCore
record_payload core block receipts =
    let digest = block.header.mix_digest in
    let entry : PayloadSets = elim (lookup ℕ_discrete digest core.validator) [
      | none ↦ record { block = block; receipts = receipts }
      | some values ↦ record values { receipts = receipts }
    ] in
    record core { validator = insert ℕ_discrete digest entry core.validator }

module _ {World : Type 0} (env : Env World) where
  -- verifyPayload
  unfoldable pub verify_payload : World → Block → Option ℕ
  verify_payload w payload = elim (env.repository_by_block_hash w payload.header.prev_block_hash) [
    | none ↦ none
    | some block_store ↦ env.verify_block w block_store payload true
  ]

  -- signPayload
  unfoldable pub sign_payload : BftCore → ℕ → Option Signature
  sign_payload core digest = env.sign core.local digest

  -- signDataVerify: the error of Verify is logged only.
  unfoldable pub sign_data_verify : Account → Signature → ℕ → Bool
  sign_data_verify account sign digest = account.address == env.verify digest sign
