-- ===== src/Fbft/Examples.antt =====
-- Three nodes of which the first is the master: a change of view, the end of a round,
-- and the threshold.
use galaxy.Base.{
  ◌+◌, ◌-◌, ◌≤◌, ◌<◌, ◌≡◌, refl, ◌⊎◌, ◌↔◌, true, false, List, [], ◌∷◌, some, arith, In, lookup,
  ℕ_discrete,
}
use galaxy.Base.Outcome.{returns}
use galaxy.Account.{Block}
use galaxy.Payloads.{header_hash}
use galaxy.Plugin.{get_content_by_hash}
use galaxy.Messages.{ViewChangeReq, encode_message}
use galaxy.Fbft.State.{Core, Effect, ConsensusResult, block_switch, encodes, tolerance_of}
use galaxy.Fbft.Quorum.{maybe_commit, faulty, maybe_commit_quorum}
use galaxy.Fbft.Fixture.{node, three, three_env, block_at, content_of, core_of, unsigned}
use galaxy.Fbft.ViewChanging.{receive_change_view_req, view_change_for}
use galaxy.Fbft.ViewChanging.Outcomes.{Voting, Kept, Elected}
use galaxy.Fbft.ViewChanging.Agreement.{receive_change_view_req_agrees}
use galaxy.Fbft.Policy.{FbftPolicy, end_consensus}
use galaxy.Fbft.Policy.Rounds.{signed_by, end_consensus_switches}

-- A request for view 1 from all three nodes.
abbrev request_1 : ViewChangeReq
request_1 = record { account = node 2; nodes = three; timestamp = 0; view_num = 1 }

no_votes : Voting (unsigned 2) 3
unfolding lookup
no_votes = record { short = omega arith; votes = λ v r e. cc }

notice_encodes : encodes three_env (view_change_for three_env (unsigned 2) [] 1) ≡ true
unfolding encodes encode_message
notice_encodes = refl

receive_change_view_req_agrees_example :
    (out : Core × List Effect) × (receive_change_view_req three_env (unsigned 2) request_1
      ≡ returns out)
    × (Kept (unsigned 2) out ⊎ Elected three_env (unsigned 2) request_1 out)
receive_change_view_req_agrees_example =
    receive_change_view_req_agrees three_env (unsigned 2) request_1 no_votes notice_encodes

-- A result with the signatures of two nodes.
abbrev good_result : ConsensusResult
good_result = record { signatures = (1 ∷ []) ∷ (2 ∷ []) ∷ []; ok = true }

abbrev policy_12 : FbftPolicy
policy_12 = record { local = node 1; is_processing = true; core = unsigned 1 }

-- Block 12 with these signatures and its hash.
abbrev agreed_12 : Block
agreed_12 = record {
  header = record {
    height = 12;
    mix_digest = 12;
    prev_block_hash = 0;
    sig_data = good_result.signatures;
  };
  header_hash = 112;
  transactions = 1 ∷ [];
}

end_consensus_switches_example :
    let out = end_consensus three_env policy_12 (block_at 12) (some good_result) in
    (In (block_switch agreed_12) out.1
      → (result : ConsensusResult) × (some good_result ≡ some result)
        × (result.ok ≡ true)
        × (agreed_12.header.sig_data ≡ result.signatures)
        × (agreed_12.header_hash
            ≡ header_hash three_env (signed_by (block_at 12) result.signatures))
        × (agreed_12 ≡ record (signed_by (block_at 12) result.signatures) {
          header_hash = header_hash three_env (signed_by (block_at 12) result.signatures);
        }))
    × (out.0.is_processing ≡ false)
    × ((out.2 ≡ true)
        ↔ ((result : ConsensusResult) × (some good_result ≡ some result) × (result.ok ≡ true)))
end_consensus_switches_example =
    end_consensus_switches three_env policy_12 (block_at 12) agreed_12 (some good_result)

abbrev signed_3 : Core
signed_3 = core_of 1 three (
    content_of ((node 1, 1 ∷ []) ∷ (node 2, 2 ∷ []) ∷ (node 3, 3 ∷ []) ∷ [])
      ((1 ∷ []) ∷ (2 ∷ []) ∷ (3 ∷ []) ∷ []))

known_1 : get_content_by_hash signed_3.consensus_plugin 12 ≡ some 0
unfolding get_content_by_hash lookup ℕ_discrete
known_1 = refl

-- Three signatures, which the three nodes ask for.
maybe_commit_quorum_example :
    (((maybe_commit signed_3 12).1 ≡ true) ↔ (3 - faulty 3 ≤ 3))
    × (3 + faulty 3 < (3 - faulty 3) + (3 - faulty 3))
unfolding tolerance_of
maybe_commit_quorum_example =
    maybe_commit_quorum signed_3 12 0 (omega arith) (omega arith) refl known_1 (omega arith)
