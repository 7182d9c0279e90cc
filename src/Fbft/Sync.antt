-- ===== src/Fbft/Sync.antt =====
-- fbft-core.go, how a node that fell behind gets its blocks: sendSyncBlockMsg,
-- receiveSyncBlockRequest, receiveSyncBlockResponse, doSyncBlock and pushOrReplace. A loop over heights
-- wraps around as its uint64 does and runs on fuel; without an end in sight it gives `none`.
mod Examples
pub mod Queue
pub mod Ranges
pub mod Growth
use galaxy.Base.{
  ℕ, zero, suc, ◌+◌, ◌-◌, ◌≤◌, Bool, true, false, List, [], ◌∷◌, ◌++◌, Option, none, some, ltb, leb,
  not, if◌then◌else◌, length,
}
use galaxy.Base.Words.{add64}
use galaxy.Base.Outcome.{Outcome, returns, panics, ◌>>=◌, deref}
use galaxy.Account.{Account, Block}
use galaxy.External.{Env}
use galaxy.Payloads.{verify_payload_use_existed_repository}
use galaxy.Messages.{
  SyncBlockReq, SyncBlockResp, Message, sync_block_req_message, sync_block_resp_message,
}
use galaxy.Fbft.State.{Core, BlockSyncRequest, Effect, unicast, encodes}

-- blockSyncReqCacheLimit
abbrev pub block_sync_req_cache_limit : ℕ
block_sync_req_cache_limit = 40

-- pushOrReplace: while the queue is full, its oldest request is dropped.
unfoldable pub push_or_replace : List BlockSyncRequest → BlockSyncRequest → List BlockSyncRequest
push_or_replace [] req = req ∷ []
push_or_replace (oldest ∷ queue) req =
    let replaced = push_or_replace queue req in
    if ltb (length (oldest ∷ queue)) block_sync_req_cache_limit
    then (oldest ∷ queue) ++ req ∷ []
    else replaced

module _ {World : Type 0} (env : Env World) where
  -- The request for the blocks from `start` to `last`.
  abbrev pub blocks_wanted : Core → ℕ → ℕ → Message
  blocks_wanted core start last = record {
    message_type = 5;
    payload = sync_block_req_message (
        some (record {
          account = core.nodes.local;
          timestamp = env.now;
          block_start = start;
          block_end = last;
        }));
  }

  -- sendSyncBlockMsg, in at most `fuel` tests of its loop.
  unfoldable pub send_sync_block_msg : ℕ → Core → ℕ → ℕ → Account → Option (List Effect)
  send_sync_block_msg zero core index last target = none
  send_sync_block_msg (suc fuel) core index last target =
      let rest = send_sync_block_msg fuel core (add64 index 1) last target in
      if ltb last index
      then some []
      else if not (encodes env (blocks_wanted core index index))
      then some []
      else elim rest [
        | none ↦ none
        | some sent ↦ some (unicast target (blocks_wanted core index index) ∷ sent)
      ]

  -- The loop of receiveSyncBlockRequest: a height without a block is passed over.
  unfoldable pub sync_blocks : ℕ → World → ℕ → ℕ → ℕ → Option (List Block)
  sync_blocks zero w chain index last = none
  sync_blocks (suc fuel) w chain index last =
      let rest = sync_blocks fuel w chain (add64 index 1) last in
      if ltb last index then some [] else elim rest [
        | none ↦ none
        | some blocks ↦ elim (env.block_by_height w chain index) [
          | none ↦ some blocks
          | some block ↦ some (block ∷ blocks)
        ]
      ]

  -- The answer of receiveSyncBlockRequest.
  answer : SyncBlockReq → List Block → List Effect
  answer request blocks =
      let msg : Message = record {
        message_type = 6;
        payload = sync_block_resp_message (some (record { blocks = blocks }));
      } in
      if encodes env msg then unicast request.account msg ∷ [] else []

  -- receiveSyncBlockRequest; `none` where the loop takes more than `fuel` tests.
  unfoldable pub receive_sync_block_request :
      ℕ → World → SyncBlockReq → Outcome (Option (List Effect))
  unfolding answer
  receive_sync_block_request fuel w request = do
    chain ← deref (env.latest_state_repository w)
    returns (elim (sync_blocks fuel w chain request.block_start request.block_end) [
      | none ↦ none
      | some blocks ↦ some (answer request blocks)
    ])

  -- A block of a response whose height is not there yet: verified, then written.
  write_verified : World → ℕ → Block → Bool → World
  write_verified w chain block sync_verify =
      elim (verify_payload_use_existed_repository env w chain block sync_verify) [
        | none ↦ w
        | some receipt ↦ elim (env.write_block_with_receipts w chain block receipt) [
          | none ↦ w
          | some w' ↦ w'
        ]
      ]

  -- One turn of the loop of receiveSyncBlockResponse.
  receive_block : World → Block → Bool → Outcome World
  unfolding write_verified
  receive_block w block sync_verify = do
    chain ← deref (env.latest_state_repository w)
    returns (
        if ltb (env.current_block_height w chain) block.header.height
        then write_verified w chain block sync_verify
        else w)

  receive_blocks : World → List Block → Bool → Outcome World
  unfolding receive_block
  receive_blocks w [] sync_verify = returns w
  receive_blocks w (block ∷ blocks) sync_verify = do
    w' ← receive_block w block sync_verify
    receive_blocks w' blocks sync_verify

  -- receiveSyncBlockResponse
  unfoldable pub receive_sync_block_response : World → Core → SyncBlockResp → Outcome World
  unfolding receive_blocks
  receive_sync_block_response w core response =
      receive_blocks w response.blocks core.enable_sync_verify_signature

  -- The head of a round of doSyncBlock: what it sends for the next height, and whether it goes on.
  sync_turn : World → Core → ℕ → BlockSyncRequest → Option (List Effect × Bool)
  sync_turn w core chain req = elim (env.current_block w chain) [
    | none ↦ some ([], false)
    | some block ↦
        if leb req.last block.header.height
        then some ([], false)
        else let next = add64 block.header.height 1 in
          elim (send_sync_block_msg 2 core next next req.target) [
            | none ↦ none
            | some sent ↦ some (sent, true)
          ]
  ]

  -- doSyncBlock on the handle `chain`. What ends its rounds is a list: what is stored after a block
  -- was committed, or `none` for the timeout. The last result tells whether it has returned.
  unfoldable pub do_sync_block :
      World → Core → ℕ → BlockSyncRequest → List (Option World) → Option (List Effect × Bool)
  unfolding sync_turn
  do_sync_block w core chain req [] = elim (sync_turn w core chain req) [
    | none ↦ none
    | some turn ↦ some (turn.0, not turn.1)
  ]
  do_sync_block w core chain req (none ∷ rounds) = elim (sync_turn w core chain req) [
    | none ↦ none
    | some turn ↦ some (turn.0, true)
  ]
  do_sync_block w core chain req (some w' ∷ rounds) =
      let rest = do_sync_block w' core chain req rounds in
      elim (sync_turn w core chain req) [
        | none ↦ none
        | some turn ↦
            if turn.1
            then elim rest [ none ↦ none | some more ↦ some (turn.0 ++ more.0, more.1) ]
            else some (turn.0, true)
      ]
