-- ===== src/Bft/Policy/Examples.antt =====
-- Four nodes, of which node 1 is the master and node 2 takes its commit.
use galaxy.Base.{ℕ, ◌≡◌, refl, true, false, List, [], ◌∷◌, none, some, lookup, ℕ_discrete}
use galaxy.Base.Outcome.{returns}
use galaxy.Account.{Signature}
use galaxy.Messages.{Message, Commit, encode_message}
use galaxy.Fbft.State.{Event, encodes}
use galaxy.Fbft.Leader.{commit_of}
use galaxy.Fbft.Fixture.{node, three_env, block_at}
use galaxy.Bft.State.{BftCore, send_all, notify}
use galaxy.Bft.Commits.{at, indexed, commit_receivers, receive_commit}
use galaxy.Bft.Policy.{BftPolicy, end_consensus}
use galaxy.Bft.Policy.Deciding.{sealed, commit_for, failed_with, decision_carried_out}

-- The core of a node that has verified block 12.
abbrev core_at : ℕ → BftCore
core_at n = record {
  local = node n;
  master = node 1;
  peers = node 0 ∷ node 1 ∷ node 2 ∷ node 3 ∷ [];
  signature = record { signatures = []; sign_map = [] };
  tolerance = 1;
  commit = false;
  digest = 12;
  validator = (12, record { block = block_at 12; receipts = 7 }) ∷ [];
}

abbrev leader : BftPolicy
leader = record { account = node 1; core = core_at 1 }

abbrev agreed : List Signature
agreed = (1 ∷ []) ∷ (2 ∷ []) ∷ (3 ∷ []) ∷ []

in_order : commit_receivers leader.core ≡ returns (node 0 ∷ node 3 ∷ node 2 ∷ [])
unfolding commit_receivers at indexed
in_order = refl

has_twelve :
    (n : ℕ)
    → lookup ℕ_discrete 12 (core_at n).validator
      ≡ some (record { block = block_at 12; receipts = 7 })
unfolding lookup ℕ_discrete
has_twelve n = refl

encodes_all : (msg : Message) → encodes three_env msg ≡ true
unfolding encodes encode_message
encodes_all msg = refl

decision_carried_out_example :
    ((good : Commit) × (end_consensus three_env 11 leader
          (block_at 12)
          (some (record { signatures = agreed; ok = true }))
        ≡ returns (
          12,
          sealed three_env (block_at 12) agreed,
          send_all (node 0 ∷ node 3 ∷ node 2 ∷ []) (commit_of good) ∷ [],
        ))
      × ((receive_commit three_env 11 (core_at 2) good).0 ≡ 12))
    × (end_consensus three_env 11 leader
          (block_at 12)
          (some (record { signatures = agreed; ok = false }))
        ≡ failed_with three_env 11 leader (block_at 12))
    × (end_consensus three_env 11 leader (block_at 12) none
        ≡ failed_with three_env 11 leader (block_at 12))
    × (receive_commit three_env 11 (core_at 2) (commit_for three_env leader (block_at 12) false)
        ≡ (11, core_at 2, notify Event.consensus_failed ∷ []))
decision_carried_out_example =
    decision_carried_out three_env 11 12 11 12 leader (core_at 2) (block_at 12) agreed
      (node 0 ∷ node 3 ∷ node 2 ∷ []) (record { block = block_at 12; receipts = 7 }) 7 0 0
      encodes_all in_order (has_twelve 1) (has_twelve 2) refl refl refl refl
