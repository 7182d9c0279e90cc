-- ===== src/Fbft/Leader.antt =====
-- fbft-core.go, the side of the master: receiveRequest, waitResponse, receiveResponse, tryToCommit,
-- sendCommit and commitBlock.
mod Examples
pub mod Collecting
pub mod Committing
pub mod Proposing
pub mod Signatures
pub mod Signers
use galaxy.Base.{
  ℕ, ◌≤◌, Bool, true, false, not, ◌&&◌, ◌||◌, List, [], ◌∷◌, Option, none, some, leb, ◌==◌,
  if◌then◌else◌,
}
use galaxy.Account.{Account, Account-discrete, Block, Signature}
use galaxy.External.{Env}
use galaxy.Payloads.{verify_payload, sign_payload, signature_verify}
use galaxy.Content.{Content, ContentState, in_consensus, to_consensus, set_state, add_signature}
use galaxy.Plugin.{
  ConsensusPlugin, add, remove, get_content_by_hash, set_latest_block_height, update,
}
use galaxy.Messages.{
  Request, Response, Commit, Message, proposal_message, commit_message, broadcast_peers_filter,
}
use galaxy.Fbft.State.{
  Core, NodesInfo, Effect, Event, stop_change_view_timer, wait_response, signal, result, broadcast,
  notify, block_switch, is_master, encodes,
}
use galaxy.Fbft.Quorum.{maybe_commit}

-- The peers that a broadcast of this node goes to.
abbrev pub others : Core → List Account
others core = broadcast_peers_filter core.nodes.peers core.nodes.local

abbrev pub no_transactions : Block → Bool
no_transactions block = elim block.transactions [ [] ↦ true | _ ∷ _ ↦ false ]

-- The state with another plugin, and with a content written through its pointer.
abbrev pub with_plugin : Core → ConsensusPlugin → Core
with_plugin core p = record core { consensus_plugin = p }

abbrev pub with_content : Core → ℕ → Content → Core
with_content core r c = with_plugin core (update core.consensus_plugin r c)

-- The change that waitResponse makes once enough have signed: `r` is the content that it got when
-- it started, and an error of SetState is ignored.
agree : Core → ℕ → Core
agree core r =
    let c = core.consensus_plugin.heap r in
    let core' = with_content core r (set_state c to_consensus).0 in
    if core.enable_empty_block || not (no_transactions c.payload)
    then with_plugin core' (set_latest_block_height core'.consensus_plugin c.payload.header.height)
    else core'

-- One round of waitResponse for a digest: on the timeout it always ends with a result, on a signal
-- only if enough have signed. The last result tells whether it has ended.
unfoldable pub wait_response_round : Core → ℕ → ℕ → Bool → Core × List Effect × Bool
unfolding agree
wait_response_round core digest r timeout =
    let (signatures, enough) = maybe_commit core digest in
    if enough
    then (agree core r, result (record { signatures = signatures; ok = true }) ∷ [], true)
    else if timeout
    then (core, result (record { signatures = signatures; ok = false }) ∷ [], true)
    else (core, [], false)

-- commitBlock
unfoldable pub commit_block : Core → Block → Core × List Effect
commit_block core block =
    let core' = with_plugin core (remove core.consensus_plugin block.header.mix_digest) in
    if not core.enable_empty_block && no_transactions block
    then (core', notify Event.block_without_txs ∷ [])
    else (core', block_switch block ∷ [])

abbrev pub commit_of : Commit → Message
commit_of commit = record { message_type = 4; payload = commit_message (some commit) }

module _ {World : Type 0} (env : Env World) where
  -- The proposal that receiveRequest broadcasts.
  abbrev pub proposal_for : Core → Request → Signature → Message
  proposal_for core request sign = record {
    message_type = 2;
    payload = proposal_message (
        some (record {
          account = core.nodes.local;
          timestamp = request.timestamp;
          payload = request.payload;
          signature = sign;
        }));
  }

  -- The end of receiveRequest: the content is signed and under consensus, and goes out.
  announce : Core → Request → Signature → List Effect
  announce core request sign =
      if encodes env (proposal_for core request sign)
      then broadcast (others core) (proposal_for core request sign)
        ∷ wait_response request.payload.header.mix_digest
        ∷ []
      else []

  -- receiveRequest from the local signature on: `r` is the content that Add returned.
  sign_with : Core → ℕ → Request → Signature → Core × List Effect
  unfolding announce
  sign_with core r request sign =
      let (c, first) = add_signature (core.consensus_plugin.heap r) core.nodes.local sign in
      let (c', moved) = set_state c in_consensus in
      if not first
      then (core, [])
      else if not moved
      then (with_content core r c, [])
      else (with_content core r c', announce core request sign)

  -- receiveRequest from SignPayload on.
  sign_request : Core → ℕ → Request → Core × List Effect
  unfolding sign_with
  sign_request core r request =
      elim (sign_payload env core.nodes.local request.payload.header.mix_digest) [
        | none ↦ (core, [])
        | some sign ↦ sign_with core r request sign
      ]

  -- The check of a request that another account sent.
  foreign_and_bad : World → Core → Request → Bool
  foreign_and_bad w core request =
      not (request.account.address == core.nodes.local.address)
      && elim (verify_payload env w request.payload core.enable_local_verify_signature) [
        | none ↦ true
        | some _ ↦ false
      ]

  -- receiveRequest
  unfoldable pub receive_request : World → Core → Request → Core × List Effect
  unfolding sign_request foreign_and_bad
  receive_request w core request =
      if not (is_master core.nodes)
      then (core, [])
      else if elim request.payload.header.sig_data [ [] ↦ true | _ ∷ _ ↦ false ]
      then (core, stop_change_view_timer ∷ [])
      else if foreign_and_bad w core request
      then (core, stop_change_view_timer ∷ [])
      else let (p, r) =
          add core.consensus_plugin request.payload.header.mix_digest request.payload in
        let (core', effects) = sign_request (with_plugin core p) r request in
        (core', stop_change_view_timer ∷ effects)

  -- receiveResponse from the content `r` on.
  collect : Core → ℕ → Response → Core × List Effect
  collect core r response = elim (core.consensus_plugin.heap r).state [
    | to_consensus ↦ (core, [])
    | _ ↦
        if not (is_master core.nodes)
        then (core, [])
        else if not (signature_verify env response.account response.signature response.digest)
        then (core, [])
        else (
          with_content core r
              (add_signature (core.consensus_plugin.heap r) response.account response.signature).0,
          signal ∷ [],
        )
  ]

  -- receiveResponse
  unfoldable pub receive_response : Core → Response → Core × List Effect
  unfolding collect
  receive_response core response =
      if leb response.block_height core.consensus_plugin.latest_block_height
      then (core, [])
      else elim (get_content_by_hash core.consensus_plugin response.digest) [
        | none ↦ (core, [])
        | some r ↦ collect core r response
      ]

  -- sendCommit
  send_commit : Core → Commit → Block → Core × List Effect
  send_commit core commit block =
      if not (encodes env (commit_of commit))
      then (core, [])
      else if not commit.result
      then (core, broadcast (others core) (commit_of commit) ∷ notify Event.consensus_failed ∷ [])
      else let (core', effects) = commit_block core block in
        (core', broadcast (others core) (commit_of commit) ∷ effects)

  -- tryToCommit
  unfoldable pub try_to_commit : Core → Block → Bool → Core × List Effect
  unfolding send_commit
  try_to_commit core block outcome =
      send_commit core
        (record {
          account = core.nodes.local;
          timestamp = env.now;
          block_hash = block.header_hash;
          digest = block.header.mix_digest;
          signatures = block.header.sig_data;
          result = outcome;
        })
        block
