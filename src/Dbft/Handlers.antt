-- ===== src/Dbft/Handlers.antt =====
-- dbft-core.go: receiveRequest, receiveProposal, and the functions that bft-core.go has as well.
pub mod Heights
use galaxy.Base.{
  ℕ, Bool, true, false, not, List, [], ◌∷◌, Option, none, some, ltb, leb, ◌==◌, if◌then◌else◌,
  length,
}
use galaxy.Base.Words.{add64, sub64}
use galaxy.Base.Outcome.{Outcome, returns, ◌>>=◌}
use galaxy.Account.{Account, Block, Signature}
use galaxy.External.{Env}
use galaxy.Messages.{
  Request, Proposal, Response, Commit, Message, proposal_message, sync_block_req_message,
}
use galaxy.Utils.{account_filter}
use galaxy.Fbft.State.{encodes}
use galaxy.Bft.State.{
  BftCore, Action, send_all, send, start_waiting, add_signature, leads, record_payload,
}
use galaxy.Bft.State as Bft
use galaxy.Bft.Rounds as Rounds
use galaxy.Bft.Commits as Commits
use galaxy.Dbft.State.{DbftCore, stop_timer, with_base}

module _ {World : Type 0} (env : Env World) where
  -- verifyPayload, signPayload and signDataVerify
  unfoldable pub verify_payload : World → Block → Option ℕ
  verify_payload w payload = Bft.verify_payload env w payload

  unfoldable pub sign_payload : DbftCore → ℕ → Option Signature
  sign_payload core digest = Bft.sign_payload env core.base digest

  unfoldable pub sign_data_verify : Account → Signature → ℕ → Bool
  sign_data_verify account sign digest = Bft.sign_data_verify env account sign digest

  abbrev pub proposal_of : BftCore → Request → Signature → Message
  proposal_of core request sign = record {
    message_type = 2;
    payload = proposal_message (
        some (record {
          account = core.local;
          timestamp = request.timestamp;
          payload = request.payload;
          signature = sign;
        }));
  }

  -- receiveRequest from the verified and signed block on: the proposal goes to all peers, this node
  -- among them, and then to the others again.
  propose : BftCore → Request → ℕ → Signature → BftCore × List Action
  propose core request receipts sign =
      let core' = record_payload core request.payload receipts in
      let msg = proposal_of core request sign in
      if encodes env msg
      then (
        record core' {
          digest = request.payload.header.mix_digest;
          signature = add_signature core'.signature core'.local sign;
        },
        send_all core.peers msg
            ∷ send_all (account_filter (core.local ∷ []) core.peers) msg
            ∷ start_waiting
            ∷ [],
      )
      else (core', [])

  -- receiveRequest past the timer.
  take_request : World → DbftCore → Request → BftCore × List Action
  unfolding propose
  take_request w core request =
      if not (leads core.base)
      then (core.base, [])
      else if not (length request.payload.header.sig_data == 1)
      then (core.base, [])
      else elim (verify_payload w request.payload) [
        | none ↦ (core.base, [])
        | some receipts ↦ elim (sign_payload core request.payload.header.mix_digest) [
          | none ↦ (core.base, [])
          | some sign ↦ propose core.base request receipts sign
        ]
      ]

  -- receiveRequest
  unfoldable pub receive_request : World → DbftCore → Request → Outcome (DbftCore × List Action)
  unfolding take_request
  receive_request w core request = do
    core' ← stop_timer core
    returns (with_base core' (take_request w core' request))

  -- The request that receiveProposal sends for the blocks before a proposal.
  abbrev pub missing_blocks : DbftCore → ℕ → ℕ → Message
  missing_blocks core current_height height = record {
    message_type = 5;
    payload = sync_block_req_message (
        some (record {
          account = core.base.local;
          timestamp = env.now;
          block_start = add64 current_height 1;
          block_end = sub64 height 1;
        }));
  }

  -- receiveProposal on a proposal of the master: one that is too far on asks for blocks, one of a height
  -- that is reached is dropped.
  unfoldable pub follow : World → DbftCore → Proposal → BftCore × List Action
  follow w core proposal = elim (env.latest_state_repository w) [
    | none ↦ (core.base, [])
    | some chain ↦
        let current = env.current_block_height w chain in
        let height = proposal.payload.header.height in
        if ltb (add64 current 1) height
        then (
          core.base,
          if encodes env (missing_blocks core current height)
              then send core.base.master (missing_blocks core current height) ∷ []
              else [],
        )
        else if leb height current
        then (core.base, [])
        else Commits.answer env w core.base proposal
  ]

  -- receiveProposal
  unfoldable pub receive_proposal : World → DbftCore → Proposal → Outcome (DbftCore × List Action)
  receive_proposal w core proposal = do
    core' ← stop_timer core
    returns (
        with_base core' (
          if Commits.acceptable env core'.base proposal
          then follow w core' proposal
          else (core'.base, [])))

  -- maybeCommit, waitResponse and receiveResponse
  unfoldable pub maybe_commit : DbftCore → List (Account × Signature) → List Signature × Bool
  maybe_commit core order = Rounds.maybe_commit env core.base order

  unfoldable pub wait_response :
      DbftCore → List (Account × Signature) → Bool → DbftCore × List Action × Bool
  wait_response core order timeout =
      let (base, effects, ended) = Rounds.wait_response env core.base order timeout in
      (record core { base = base }, effects, ended)

  unfoldable pub receive_response : DbftCore → Response → DbftCore × List Action
  receive_response core response = with_base core (Rounds.receive_response env core.base response)

  -- commitBlock, SendCommit and receiveCommit
  unfoldable pub commit_block : World → DbftCore → Block → Outcome (World × Block)
  commit_block w core block = Commits.commit_block env w core.base block

  unfoldable pub send_commit :
      World → DbftCore → Commit → Block → Outcome (World × Block × List Action)
  send_commit w core commit block = Commits.send_commit env w core.base commit block

  unfoldable pub receive_commit : World → DbftCore → Commit → World × DbftCore × List Action
  receive_commit w core commit =
      let (w', base, effects) = Commits.receive_commit env w core.base commit in
      (w', record core { base = base }, effects)

-- getCommitOrder and commitFilter
unfoldable pub get_commit_order : DbftCore → Bool → ℕ → Outcome (List Account)
get_commit_order core ok current_master = Commits.get_commit_order core.base ok current_master

unfoldable pub commit_filter : DbftCore → Account → List Account
commit_filter core blacklist = Commits.commit_filter core.base blacklist
