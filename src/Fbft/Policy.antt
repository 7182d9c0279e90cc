-- ===== src/Fbft/Policy.antt =====
-- consensus/policy/fbft/fbft.go: ToConsensus, in its two halves around the wait, Prepare and
-- GetConsensusResult.
pub mod Rounds
use galaxy.Base.{ℕ, Bool, true, false, List, [], ◌∷◌, ◌++◌, Option, none, some, if◌then◌else◌}
use galaxy.Account.{Account, Block}
use galaxy.External.{Env}
use galaxy.Payloads.{header_hash}
use galaxy.Messages.{Request}
use galaxy.Fbft.State.{Core, NodesInfo, Effect, ConsensusResult}
use galaxy.Fbft.Leader.{receive_request, try_to_commit}

-- FBFTPolicy, without its name and its timeouts.
pub record FbftPolicy : Type 0 where
  pub local : Account
  pub is_processing : Bool
  pub core : Core

-- Prepare
unfoldable pub prepare : FbftPolicy → Account → FbftPolicy
prepare policy account =
    let core = policy.core in
    let nodes = core.nodes in
    record policy {
      local = account;
      core = record core { nodes = record nodes { local = account } };
    }

-- common.ConsensusResult, and GetConsensusResult, which gives it.
pub record Agreement : Type 0 where
  pub view : ℕ
  pub participate : List Account
  pub master : Account

unfoldable pub get_consensus_result : FbftPolicy → Agreement
get_consensus_result policy = record {
  view = policy.core.view_change.current_view;
  participate = policy.core.nodes.peers;
  master = policy.core.nodes.master;
}

-- The block that a consensus with a result commits: its signatures, then its hash.
unfoldable pub agreed_block : {World : Type 0} → Env World → Block → ConsensusResult → Block
agreed_block env block result =
    let header = block.header in
    let signed = record block { header = record header { sig_data = result.signatures } } in
    record signed { header_hash = header_hash env signed }

module _ {World : Type 0} (env : Env World) where
  -- ToConsensus until it waits; `none` is the error of a round under way.
  unfoldable pub begin_consensus :
      World → FbftPolicy → Block → ℕ → Option (FbftPolicy × List Effect)
  begin_consensus w policy block timestamp =
      if policy.is_processing
      then none
      else let request : Request = record {
        timestamp = timestamp;
        account = policy.local;
        payload = block;
      } in
        let (core, effects) = receive_request env w policy.core request in
        some (record policy { is_processing = true; core = core }, effects)

  -- The rest of ToConsensus: a result of the core, or `none` for the timeout. The last result tells a
  -- nil error.
  unfoldable pub end_consensus :
      FbftPolicy → Block → Option ConsensusResult → FbftPolicy × List Effect × Bool
  unfolding agreed_block
  end_consensus policy block outcome =
      let succeeded : Bool = elim outcome [ none ↦ false | some result ↦ result.ok ] in
      let block' : Block = elim outcome [
        | none ↦ block
        | some result ↦ if result.ok then agreed_block env block result else block
      ] in
      let (core, effects) = try_to_commit env policy.core block' succeeded in
      (record policy { is_processing = false; core = core }, effects, succeeded)
