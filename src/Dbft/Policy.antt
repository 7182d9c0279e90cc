-- ===== src/Dbft/Policy.antt =====
-- consensus/policy/dbft/dbft.go: ToConsensus in its two halves around the wait, waitMasterTimeOut and
-- GetConsensusResult.
use galaxy.Base.{ℕ, Bool, List, [], ◌∷◌, Option, if◌then◌else◌}
use galaxy.Base.Words.{add64}
use galaxy.Base.Outcome.{Outcome, returns, ◌>>=◌}
use galaxy.Account.{Account, Block, no_account}
use galaxy.External.{Env}
use galaxy.Messages.{Request}
use galaxy.Fbft.State.{ConsensusResult, encodes}
use galaxy.Fbft.Policy.{Agreement}
use galaxy.Bft.State.{Action, send_all}
use galaxy.Bft.Policy as Bft
use galaxy.Dbft.State.{DbftCore}
use galaxy.Dbft.Handlers.{receive_request, send_commit}
use galaxy.Dbft.ChangingView.{change_view_req}

-- DBFTPolicy, without its name, its timeout and its channel.
pub record DbftPolicy : Type 0 where
  pub account : Account
  pub core : DbftCore

-- Prepare
unfoldable pub prepare : DbftPolicy → Account → DbftPolicy
prepare policy account = record policy { account = account }

-- GetConsensusResult
unfoldable pub get_consensus_result : DbftPolicy → Agreement
get_consensus_result policy = record {
  view = policy.core.views.view_num;
  participate = policy.core.base.peers;
  master = policy.core.base.master;
}

module _ {World : Type 0} (env : Env World) where
  -- waitMasterTimeOut of the policy where its timer fires, which no code starts.
  unfoldable pub wait_master_time_out : DbftPolicy → List Action
  wait_master_time_out policy =
      let core = policy.core in
      let msg =
        change_view_req env no_account (core.base.local ∷ []) (add64 core.views.view_num 1) in
      if encodes env msg then send_all core.base.peers msg ∷ [] else []

  -- ToConsensus until it waits: the event that its goroutine sends.
  unfoldable pub begin_consensus :
      World → DbftPolicy → Block → ℕ → Outcome (DbftPolicy × List Action)
  begin_consensus w policy block timestamp = do
    let request : Request = record { timestamp = timestamp; account = no_account; payload = block }
    out ← receive_request env w policy.core request
    returns (record policy { core = out.0 }, out.1)

  -- commit
  unfoldable pub commit : World → DbftPolicy → Block → Bool → Outcome (World × Block × List Action)
  commit w policy block result =
      send_commit env w policy.core
        (record {
          account = policy.account;
          timestamp = env.now;
          block_hash = block.header_hash;
          digest = block.header.mix_digest;
          signatures = block.header.sig_data;
          result = result;
        })
        block

  -- The rest of ToConsensus: a result of the core, or `none` for the timeout.
  unfoldable pub end_consensus :
      World → DbftPolicy → Block → Option ConsensusResult → Outcome (World × Block × List Action)
  end_consensus w policy block outcome =
      let (block', succeeded) = Bft.outcome_of env block outcome in commit w policy block' succeeded
