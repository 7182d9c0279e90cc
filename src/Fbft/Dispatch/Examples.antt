-- ===== src/Fbft/Dispatch/Examples.antt =====
-- A node that is its own only peer: with its own signature its block is committed.
use galaxy.Base.{
  ℕ, ◌≤◌, ◌<◌, ◌≡◌, refl, true, List, [], ◌∷◌, some, arith, In, Distinct, length, lookup, insert,
  ℕ_discrete,
}
use galaxy.Base.Outcome.{returns}
use galaxy.Account.{Account, Account-discrete, Signature}
use galaxy.Content.{new_content, add_signature, get_sign_by_account, set_state}
use galaxy.Payloads.{sign_payload}
use galaxy.Plugin.{get_content_by_hash, add, new_consensus_plugin}
use galaxy.Messages.{Request}
use galaxy.Fbft.State.{Core, NodesInfo, new_fbft_core, initialization, tolerance_of, is_master}
use galaxy.Fbft.Quorum.{maybe_commit, threshold}
use galaxy.Fbft.Leader.{receive_request}
use galaxy.Fbft.Leader.Signatures.{SignVerifies}
use galaxy.Fbft.Fixture.{node, three_env, timer, block_at}
use galaxy.Fbft.Dispatch.{Turn, process_event, request}
use galaxy.Fbft.Dispatch.Steps.{Reached, start, next, event, Reached-backed}

abbrev nodes : NodesInfo
nodes = record { local = node 1; master = node 1; peers = [] }

abbrev first : Core
first =
    (initialization (new_fbft_core nodes timer true true true) (node 1) (node 1) (node 1 ∷ []) true
      0).0

abbrev request_12 : Request
request_12 = record { timestamp = 0; account = node 1; payload = block_at 12 }

abbrev second : Core
second = (receive_request three_env 0 first request_12).0

abbrev turn_12 : Turn ℕ
turn_12 = record {
  world = 0;
  core = second;
  effects = (receive_request three_env 0 first request_12).1;
}

processed : process_event three_env 0 0 first (request request_12) ≡ returns (some turn_12)
unfolding process_event
processed = refl

reached : Reached three_env second
reached =
    next (start timer nodes true true true (node 1) (node 1) (node 1 ∷ []) true 0)
      (event 0 0 (request request_12) turn_12 processed)

verifies : SignVerifies three_env
verifies a d s e = ground (arith, e)

found : get_content_by_hash second.consensus_plugin 12 ≡ some 0
unfolding receive_request initialization new_fbft_core new_consensus_plugin add get_content_by_hash
    lookup insert ℕ_discrete is_master Account-discrete new_content sign_payload add_signature
    set_state
found = refl

few : length (second.consensus_plugin.heap 0).signatures < 256
unfolding receive_request initialization new_fbft_core new_consensus_plugin add lookup insert
    ℕ_discrete is_master Account-discrete new_content sign_payload add_signature set_state
few = omega arith

committed : (maybe_commit second 12).1 ≡ true
unfolding receive_request initialization new_fbft_core new_consensus_plugin add get_content_by_hash
    lookup insert ℕ_discrete is_master Account-discrete new_content sign_payload add_signature
    set_state maybe_commit threshold tolerance_of
committed = refl

Reached-backed_example :
    (signers : List Account) × Distinct signers
    × (threshold second ≤ length signers)
    × (length signers ≡ length (maybe_commit second 12).0)
    × ((a : Account)
        → In a signers
        → (s : Signature) × (get_sign_by_account (second.consensus_plugin.heap 0) a ≡ some s)
          × In s (maybe_commit second 12).0
          × (three_env.verify 12 s ≡ a.address))
Reached-backed_example = Reached-backed three_env second 12 0 verifies reached found few committed
