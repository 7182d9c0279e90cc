-- ===== src/Fbft/Replica.antt =====
-- fbft-core.go, the side of a replica: receiveProposal and receiveCommit.
mod Examples
pub mod Switching
pub mod Keeping
use galaxy.Base.{
  ℕ, ◌+◌, ◌-◌, Bool, true, false, not, ◌&&◌, ◌||◌, List, [], ◌∷◌, Option, none, some, ite, ltb, leb,
  ◌==◌, if◌then◌else◌,
}
use galaxy.Base.Words.{add64}
use galaxy.Base.Outcome.{Outcome, returns, panics, ◌>>=◌, deref}
use galaxy.Account.{Account, Account-discrete, Block, Signature}
use galaxy.External.{Env}
use galaxy.Payloads.{verify_payload, sign_payload, signature_verify, header_hash}
use galaxy.Content.{Content}
use galaxy.Plugin.{add, get_content_by_hash}
use galaxy.Messages.{Proposal, Commit, Message, response_message}
use galaxy.Fbft.State.{
  Core, NodesInfo, Effect, Event, BlockSyncRequest, stop_change_view_timer, wait_master_timeout,
  unicast, notify, is_master, encodes,
}
use galaxy.Fbft.Leader.{with_plugin, with_content, commit_block}
use galaxy.Fbft.Sync.{push_or_replace}

-- A clone of the nodes with another master, stored.
unfoldable pub with_master : Core → Account → Core
with_master core account =
    let nodes = core.nodes in record core { nodes = record nodes { master = account } }

-- receiveProposal for a node that fell behind: the sender becomes the master, and its blocks are
-- asked for.
fall_behind : Core → ℕ → Proposal → Core
unfolding with_master
fall_behind core current proposal = record (with_master core proposal.account) {
  block_sync_chan = push_or_replace core.block_sync_chan (record {
    start = add64 current 1;
    last = proposal.payload.header.height;
    target = proposal.account;
  });
}

-- The content of a commit: its block takes the signatures, then the hash, through the pointer.
unfoldable pub sealed : {World : Type 0} → Env World → Content → Commit → Block
sealed env content commit =
    let block = content.payload in
    let header = block.header in
    let signed = record block { header = record header { sig_data = commit.signatures } } in
    record signed { header_hash = header_hash env signed }

module _ {World : Type 0} (env : Env World) where
  abbrev pub response_for : Core → Proposal → Signature → Message
  response_for core proposal sign = record {
    message_type = 3;
    payload = response_message (
        some (record {
          account = core.nodes.local;
          timestamp = proposal.timestamp;
          digest = proposal.payload.header.mix_digest;
          signature = sign;
          block_height = proposal.payload.header.height;
        }));
  }

  -- receiveProposal from VerifyPayload on.
  respond : World → Core → Proposal → List Effect
  respond w core proposal =
      elim (verify_payload env w proposal.payload core.enable_local_verify_signature) [
        | none ↦ []
        | some _ ↦ elim (sign_payload env core.nodes.local proposal.payload.header.mix_digest) [
          | none ↦ []
          | some sign ↦
              if encodes env (response_for core proposal sign)
              then unicast core.nodes.master (response_for core proposal sign) ∷ []
              else []
        ]
      ]

  -- receiveProposal from the master on.
  follow : World → Core → Proposal → Core × List Effect
  unfolding respond
  follow w core proposal =
      let block = proposal.payload in
      if not (ite (Account-discrete core.nodes.master proposal.account) true false)
      then (core, [])
      else if is_master core.nodes
      then (core, [])
      else let waiting = wait_master_timeout core.core_timer.time_to_wait_commit_msg in
        if not (signature_verify env core.nodes.master proposal.signature block.header.mix_digest)
        then (core, waiting ∷ [])
        else (
          with_plugin core (add core.consensus_plugin block.header.mix_digest block).0,
          waiting ∷ respond w core proposal,
        )

  -- receiveProposal at the height `current`.
  consider : World → ℕ → Core → Proposal → Core × List Effect
  unfolding fall_behind follow
  consider w current core proposal =
      let height = proposal.payload.header.height in
      if leb height current
      then (core, [])
      else if not (height == 0) && ltb current (height - 1)
      then (fall_behind core current proposal, stop_change_view_timer ∷ stop_change_view_timer ∷ [])
      else let (core', effects) = follow w core proposal in
        (core', stop_change_view_timer ∷ effects)

  -- receiveProposal
  unfoldable pub receive_proposal : World → Core → Proposal → Outcome (Core × List Effect)
  unfolding consider
  receive_proposal w core proposal = do
    chain ← deref (env.latest_state_repository w)
    returns (consider w (env.current_block_height w chain) core proposal)

  -- receiveCommit from the content `r` on.
  finish : Core → ℕ → Commit → Core × List Effect
  unfolding sealed
  finish core r commit =
      let content = core.consensus_plugin.heap r in
      let block = sealed env content commit in
      let core' = with_content core r (record content { payload = block }) in
      if not (block.header_hash == commit.block_hash) then (core', []) else commit_block core' block

  -- receiveCommit
  unfoldable pub receive_commit : Core → Commit → Core × List Effect
  unfolding with_master finish
  receive_commit core commit =
      if not commit.result
      then (
        with_master core commit.account,
        stop_change_view_timer ∷ notify Event.consensus_failed ∷ [],
      )
      else elim (get_content_by_hash core.consensus_plugin commit.digest) [
        | none ↦ (core, stop_change_view_timer ∷ [])
        | some r ↦
            let (core', effects) = finish core r commit in (core', stop_change_view_timer ∷ effects)
      ]
