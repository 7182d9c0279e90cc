-- ===== src/Fbft/Replica/Examples.antt =====
-- A replica, node 2 of three, with a proposal and with commits.
use galaxy.Base.{ℕ, ◌≡◌, refl, inl, inr, true, [], ◌∷◌, some, In, lookup, ℕ_discrete}
use galaxy.Base.Outcome.{returns}
use galaxy.Account.{Account-discrete, Block}
use galaxy.Payloads.{
  signature_verify, sign_payload, verify_payload, verify_payload_use_existed_repository,
  header_hash,
}
use galaxy.Plugin.{get_content_by_hash, add}
use galaxy.Messages.{Proposal, Commit, encode_message}
use galaxy.Fbft.State.{
  Core, unicast, block_switch, stop_change_view_timer, wait_master_timeout, encodes, is_master,
}
use galaxy.Fbft.Fixture.{node, three_env, block_at, content_of, unsigned}
use galaxy.Fbft.Leader.{commit_block}
use galaxy.Fbft.Replica.{receive_proposal, receive_commit, sealed, response_for}
use galaxy.Fbft.Replica.Switching.{Answered, receive_proposal_answers}

abbrev proposal_12 : Proposal
proposal_12 = record { account = node 1; timestamp = 0; payload = block_at 12; signature = 1 ∷ [] }

abbrev after_proposal : Core
after_proposal =
    let core = unsigned 2 in
    record core { consensus_plugin = (add core.consensus_plugin 12 (block_at 12)).0 }

answered :
    receive_proposal three_env 11 (unsigned 2) proposal_12
    ≡ returns (
      after_proposal,
      stop_change_view_timer
          ∷ wait_master_timeout 2
          ∷ unicast (node 1) (response_for three_env (unsigned 2) proposal_12 (2 ∷ []))
          ∷ [],
    )
unfolding receive_proposal Account-discrete is_master signature_verify verify_payload
    verify_payload_use_existed_repository sign_payload encodes encode_message
answered = refl

receive_proposal_answers_example :
    Answered three_env 11 11
      (unsigned 2)
      proposal_12
      (node 1)
      (response_for three_env (unsigned 2) proposal_12 (2 ∷ []))
receive_proposal_answers_example =
    receive_proposal_answers three_env 11 0 (unsigned 2) after_proposal proposal_12 _ (node 1)
      (response_for three_env (unsigned 2) proposal_12 (2 ∷ [])) refl answered
      (inr (inr (inl refl)))

-- A commit for block 12, with the hash that the environment gives it, or another.
abbrev commit_for : ℕ → Commit
commit_for hash = record {
  account = node 1;
  timestamp = 0;
  block_hash = hash;
  digest = 12;
  signatures = (1 ∷ []) ∷ (3 ∷ []) ∷ [];
  result = true;
}

known : get_content_by_hash (unsigned 2).consensus_plugin 12 ≡ some 0
unfolding get_content_by_hash lookup ℕ_discrete
known = refl

abbrev sealed_12 : Block
sealed_12 = sealed three_env (content_of [] []) (commit_for 112)

switched : In (block_switch sealed_12) (receive_commit three_env (unsigned 2) (commit_for 112)).1
unfolding receive_commit get_content_by_hash lookup ℕ_discrete sealed header_hash commit_block
switched = inr (inl refl)
