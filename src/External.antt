-- ===== src/External.antt =====
-- The code of other repositories that the consensus calls, as it relies on it: craft, repository,
-- validator and the json library. Every definition that uses it takes it as a parameter.
use galaxy.Base.{ℕ, Bool, List, Option}
use galaxy.Account.{Account, Block, Header, Signature}
use galaxy.Messages.{Payload, SyncBlockResp}

-- `World` is what the repository has stored; a number stands for a handle on one of its states.
pub record Env (World : Type 0) : Type 0 where
  -- NewLatestStateRepository and NewRepositoryByBlockHash; `none` is an error.
  pub latest_state_repository : World → Option ℕ
  pub repository_by_block_hash : World → ℕ → Option ℕ
  -- GetCurrentBlock, GetCurrentBlockHeight and GetBlockByHeight.
  pub current_block : World → ℕ → Option Block
  pub current_block_height : World → ℕ → ℕ
  pub block_by_height : World → ℕ → ℕ → Option Block
  -- NewWorker with VerifyBlock and GetReceipts, the flag for the check of signatures.
  pub verify_block : World → ℕ → Block → Bool → Option ℕ
  -- WriteBlockWithReceipts
  pub write_block_with_receipts : World → ℕ → Block → ℕ → Option World
  -- EventWriteBlockWithReceipts, the flag for its events.
  pub event_write_block_with_receipts : World → ℕ → Block → ℕ → Bool → Option World
  -- signature.Sign; and signature.Verify, of which only the address is used.
  pub sign : Account → ℕ → Option Signature
  pub verify : ℕ → Signature → ℕ
  -- The rlp encoding under the hash that the configuration names.
  pub rlp_hash : Header → ℕ
  -- json.Marshal of a message's payload, and of a SyncBlockResp on its own.
  pub marshal : Payload → Option (List ℕ)
  pub marshal_blocks : SyncBlockResp → Option (List ℕ)
  -- time.Now().Unix()
  pub now : ℕ
