-- ===== src/Dbft/Blocks.antt =====
-- dbft-core.go: receiveSyncBlockReq and receiveSyncBlockResp. The loop over heights gives `none` where its
-- fuel ends.
pub mod Gathering
pub mod Receiving
use galaxy.Base.{
  ℕ, zero, suc, Bool, true, false, not, List, [], ◌∷◌, Option, none, some, leb, if◌then◌else◌,
}
use galaxy.Base.Words.{add64}
use galaxy.Base.Outcome.{Outcome, returns, panics, ◌>>=◌, deref}
use galaxy.Account.{Account, Block}
use galaxy.External.{Env}
use galaxy.Messages.{SyncBlockReq, SyncBlockResp, Message, sync_block_resp_message, encode_message}
use galaxy.Bft.State.{Action, send_bare}
use galaxy.Bft.State as Bft

-- The message that is sent: its payload is the SyncBlockResp itself.
abbrev pub bare_message : Message
bare_message = record { message_type = 6; payload = sync_block_resp_message none }

module _ {World : Type 0} (env : Env World) where
  -- EncodeMessage of that message.
  unfoldable pub encode_bare : SyncBlockResp → Option (List ℕ)
  encode_bare resp = encode_message (λ p. env.marshal_blocks resp) bare_message

  -- The loop of receiveSyncBlockReq from one height to another, both included; the index wraps.
  unfoldable pub blocks_between : ℕ → World → ℕ → ℕ → ℕ → Outcome (Option (List Block))
  blocks_between zero w chain index last = returns none
  blocks_between (suc fuel) w chain index last =
      if not (leb index last) then returns (some []) else do
        block ← deref (env.block_by_height w chain index)
        rest ← blocks_between fuel w chain (add64 index 1) last
        returns (elim rest [ none ↦ none | some blocks ↦ some (block ∷ blocks) ])

  -- receiveSyncBlockReq: every error is a panic.
  unfoldable pub receive_sync_block_req : ℕ → World → SyncBlockReq → Outcome (Option (List Action))
  receive_sync_block_req fuel w req = do
    chain ← deref (env.latest_state_repository w)
    sync_blocks ← blocks_between fuel w chain req.block_start req.block_end
    elim sync_blocks [
      | none ↦ returns none
      | some blocks ↦ do
        raw ← deref (encode_bare (record { blocks = blocks }))
        returns (some (send_bare req.account (record { blocks = blocks }) ∷ []))
    ]

  -- One turn of the loop of receiveSyncBlockResp; `none` ends it.
  unfoldable pub write_block : World → Block → Option World
  write_block w block = elim (env.repository_by_block_hash w block.header.prev_block_hash) [
    | none ↦ none
    | some chain ↦ elim (env.verify_block w chain block true) [
      | none ↦ none
      | some receipts ↦ env.event_write_block_with_receipts w chain block receipts false
    ]
  ]

  -- receiveSyncBlockResp: it stops at the first block that fails.
  unfoldable pub receive_sync_block_resp : World → List Block → World
  receive_sync_block_resp w [] = w
  receive_sync_block_resp w (block ∷ blocks) = elim (write_block w block) [
    | none ↦ w
    | some w' ↦ receive_sync_block_resp w' blocks
  ]
