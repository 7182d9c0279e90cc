-- ===== src/Bft/Policy.antt =====
-- consensus/policy/bft/bft.go: ToConsensus in its two halves around the wait, and GetConsensusResult.
mod Examples
pub mod Deciding
use galaxy.Base.{ℕ, Bool, true, false, List, Option, none, some, if◌then◌else◌}
use galaxy.Base.Outcome.{Outcome}
use galaxy.Account.{Account, Block, no_account}
use galaxy.External.{Env}
use galaxy.Payloads.{header_hash}
use galaxy.Messages.{Request}
use galaxy.Fbft.State.{ConsensusResult}
use galaxy.Fbft.Policy.{Agreement}
use galaxy.Bft.State.{BftCore, Action}
use galaxy.Bft.Rounds.{receive_request}
use galaxy.Bft.Commits.{send_commit, with_signatures}

-- BFTPolicy, without its name, its timeout and its channel.
pub record BftPolicy : Type 0 where
  pub account : Account
  pub core : BftCore

-- Prepare
unfoldable pub prepare : BftPolicy → Account → BftPolicy
prepare policy account = record policy { account = account }

-- GetConsensusResult: there are no views.
unfoldable pub get_consensus_result : BftPolicy → Agreement
get_consensus_result policy = record {
  view = 0;
  participate = policy.core.peers;
  master = policy.core.master;
}

module _ {World : Type 0} (env : Env World) where
  -- ToConsensus until it waits: the event that its goroutine sends.
  unfoldable pub begin_consensus : World → BftPolicy → Block → ℕ → BftPolicy × List Action
  begin_consensus w policy block timestamp =
      let request : Request = record {
        timestamp = timestamp;
        account = no_account;
        payload = block;
      } in
      let (core, effects) = receive_request env w policy.core request in
      (record policy { core = core }, effects)

  -- The block that ToConsensus commits for a result, and whether its error is nil.
  unfoldable pub outcome_of : Block → Option ConsensusResult → Block × Bool
  outcome_of block none = (block, false)
  outcome_of block (some result) =
      let signed = with_signatures block result.signatures in
      if result.ok
      then (record signed { header_hash = header_hash env signed }, true)
      else (block, false)

  -- commit
  unfoldable pub commit : World → BftPolicy → Block → Bool → Outcome (World × Block × List Action)
  commit w policy block result =
      send_commit env w policy.core
        (record {
          account = policy.account;
          timestamp = env.now;
          block_hash = block.header_hash;
          digest = block.header.mix_digest;
          signatures = block.header.sig_data;
          result = result;
        })
        block

  -- The rest of ToConsensus: a result of the core, or `none` for the timeout.
  unfoldable pub end_consensus :
      World → BftPolicy → Block → Option ConsensusResult → Outcome (World × Block × List Action)
  end_consensus w policy block outcome =
      let (block', succeeded) = outcome_of block outcome in commit w policy block' succeeded
