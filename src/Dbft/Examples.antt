-- ===== src/Dbft/Examples.antt =====
-- Three nodes of the dbft policy, on which the theorems of its handlers apply.
use galaxy.Base.{
  ℕ, ◌^◌, length, ◌≤◌, ◌<◌, ◌≡◌, refl, ◌⊎◌, ◌↔◌, true, false, List, [], ◌∷◌, ◌++◌, Option, none,
  some, In, Distinct, arith, lookup, ℕ_discrete,
}
use galaxy.Base.Outcome.{returns, panics, OnReturn}
use galaxy.Account.{Account, Block, Signature}
use galaxy.Messages.{
  Request, Proposal, Commit, ViewChangeReq, SyncBlockReq, SyncBlockResp, Message, Payload, Kind,
  sync_block_resp_message, read_message, encode_message,
}
use galaxy.Utils.{get_account_with_min_id}
use galaxy.Fbft.State.{Event, encodes}
use galaxy.Fbft.Fixture.{node, three, three_env, block_at}
use galaxy.Bft.State.{BftCore, verify_payload, send, send_bare, notify}
use galaxy.Bft.Commits as Bft
use galaxy.Dbft.State.{DbftCore, view_normal, new_dbft_core, initialization}
use galaxy.Dbft.Handlers.{receive_proposal, receive_commit}
use galaxy.Dbft.Handlers.Heights.{
  Accepted, HasReceipts, stopped_core, asks_for, response_to, receive_proposal_by_height,
}
use galaxy.Dbft.Blocks.{encode_bare, write_block, receive_sync_block_req, receive_sync_block_resp}
use galaxy.Dbft.Blocks.Gathering.{Standing, Lacks, receive_sync_block_req_ends}
use galaxy.Dbft.Blocks.Receiving.{Written, receive_sync_block_resp-Written, bare_response_panics}
use galaxy.Dbft.ChangingView.{min_node, view_set, receive_change_view_req}
use galaxy.Dbft.ChangingView.Least.{min_node-get_account_with_min_id}
use galaxy.Dbft.ChangingView.Voters.{voters}
use galaxy.Dbft.ChangingView.Electing.{Changed, Elected, receive_change_view_req_elects}
use galaxy.Dbft.ChangingView.Deciding.{one_request_elects}
use galaxy.Dbft.Dispatch.{
  DbftTurn, handle_client, process_event, request, proposal, commit, view_change_req,
}
use galaxy.Dbft.Dispatch.Online.{begun, served, on_line_panics}

-- Node 2 of three, whose master is node 1, with its timer running.
abbrev second : DbftCore
second = record {
  base = record {
    local = node 2;
    master = node 1;
    peers = three;
    signature = record { signatures = []; sign_map = [] };
    tolerance = 0;
    commit = false;
    digest = 0;
    validator = [];
  };
  views = record { status = view_normal; view_num = 0; view_sets = [] };
  master_timeout = some true;
}

-- A request for view 1 with two nodes that are no peers.
abbrev forged : ViewChangeReq
forged = record { account = node 9; nodes = node 8 ∷ node 0 ∷ []; timestamp = 0; view_num = 1 }

abbrev proposal_13 : Proposal
proposal_13 = record { account = node 1; timestamp = 0; payload = block_at 13; signature = 1 ∷ [] }

abbrev asked : Request
asked = record { timestamp = 0; account = node 2; payload = block_at 13 }

encodable : (msg : Message) → encodes three_env msg ≡ true
unfolding encodes encode_message
encodable msg = refl

min_node-get_account_with_min_id_example :
    (m : Account) × (get_account_with_min_id three ≡ some m)
    × (min_node three ≡ returns m.extension.id)
min_node-get_account_with_min_id_example =
    min_node-get_account_with_min_id (node 1) (node 2 ∷ node 3 ∷ []) small
  where
    small : (b : Account) → In b three → b.extension.id < 2 ^ 63
    small b i = ground arith

receive_sync_block_resp-Written_example :
    let blocks = block_at 12 ∷ block_at 13 ∷ [] in
    (ok : List Block) × (rest : List Block) × (blocks ≡ ok ++ rest)
    × Written three_env 11 ok (receive_sync_block_resp three_env 11 blocks)
    × ((rest ≡ [])
        ⊎ ((bad : Block) × (later : List Block) × (rest ≡ bad ∷ later)
            × (write_block three_env (receive_sync_block_resp three_env 11 blocks) bad ≡ none)))
receive_sync_block_resp-Written_example =
    receive_sync_block_resp-Written three_env 11 (block_at 12 ∷ block_at 13 ∷ [])

-- A json that finds no field of the message.
abbrev unmarshal_nil : Kind → List ℕ → Option Payload
unmarshal_nil kind body = some (sync_block_resp_message none)

abbrev response : SyncBlockResp
response = record { blocks = block_at 12 ∷ [] }

encoded :
    encode_bare three_env response ≡ some (0 ∷ 0 ∷ 0 ∷ 0 ∷ 6 ∷ 0 ∷ 0 ∷ 0 ∷ 1 ∷ 0 ∷ 0 ∷ 0 ∷ 1 ∷ [])
unfolding encode_bare encode_message
encoded = refl

bare_response_panics_example :
    handle_client three_env 0 11 second
      (read_message unmarshal_nil ((0 ∷ 0 ∷ 0 ∷ 0 ∷ 6 ∷ 0 ∷ 0 ∷ 0 ∷ 1 ∷ 0 ∷ 0 ∷ 0 ∷ 1 ∷ []) ++ []))
    ≡ panics
bare_response_panics_example =
    bare_response_panics three_env unmarshal_nil response
      (0 ∷ 0 ∷ 0 ∷ 0 ∷ 6 ∷ 0 ∷ 0 ∷ 0 ∷ 1 ∷ 0 ∷ 0 ∷ 0 ∷ 1 ∷ []) [] 0 11 second (λ body e. refl)
      encoded (omega arith)

receive_change_view_req_elects_example :
    OnReturn
      (λ out. Changed three_env second 1 (voters second forged) out.0)
      (receive_change_view_req three_env second forged)
    × ((b : Account)
        → In b (voters second forged) ↔ (
            In b (view_set second.views 1).request_nodes
            ⊎ ((b ≡ node 2) ⊎ In b (node 8 ∷ node 0 ∷ []))))
    × (Distinct (view_set second.views 1).request_nodes → Distinct (voters second forged))
receive_change_view_req_elects_example = receive_change_view_req_elects three_env second forged

forged-Distinct : Distinct (node 2 ∷ node 8 ∷ node 0 ∷ [])
forged-Distinct = ((λ i. ground arith), ((λ i. ground arith), ((λ n. n), tt)))

unasked : lookup ℕ_discrete 1 second.views.view_sets ≡ none
unfolding lookup
unasked = refl

one_request_elects_example :
    (out : DbftCore × List _) × (receive_change_view_req three_env second forged ≡ returns out)
    × Elected second 1 (node 2 ∷ node 8 ∷ node 0 ∷ []) out.0
one_request_elects_example =
    one_request_elects three_env second forged true refl encodable (omega arith) unasked
      forged-Distinct (omega arith)

receive_proposal_by_height_example :
    let out = receive_proposal three_env 11 second proposal_13 in
    let quiet = stopped_core three_env second in
    (¬ Accepted three_env second proposal_13 → out ≡ returns (quiet, []))
    × (Accepted three_env second proposal_13
        → (proposal_13.payload.header.height ≤ 11 → out ≡ returns (quiet, []))
          × (12 < proposal_13.payload.header.height
              → out
                ≡ returns (
                  stopped_core three_env second,
                  send (node 1) (asks_for three_env second 12 12) ∷ [],
                ))
          × (proposal_13.payload.header.height ≡ 12
              → ((receipts : ℕ) (s : Signature)
                  → verify_payload three_env 11 (block_at 13) ≡ some receipts
                  → three_env.sign (node 2) 13 ≡ some s
                  → (base : BftCore) × (out
                      ≡ returns (
                        record second { base = base; master_timeout = some false },
                        send (node 1) (response_to three_env second proposal_13 s) ∷ [],
                      ))
                    × HasReceipts three_env base 13 receipts)
                × ((verify_payload three_env 11 (block_at 13) ≡ none)
                      ⊎ (three_env.sign (node 2) 13 ≡ none)
                    → out ≡ returns (quiet, []))))
receive_proposal_by_height_example =
    receive_proposal_by_height three_env 11 second proposal_13 true 0 refl refl (omega arith)
      (omega arith) encodable

-- Node 2 comes online and takes a commit before anything else.
abbrev fresh : DbftCore
fresh = (initialization new_dbft_core (node 2) (node 1) three true).0

abbrev failed_commit : Commit
failed_commit = record {
  account = node 1;
  timestamp = 0;
  block_hash = 0;
  digest = 12;
  signatures = [];
  result = false;
}

abbrev after_commit : DbftTurn ℕ
after_commit = record { world = 11; core = fresh; effects = notify Event.consensus_failed ∷ [] }

took_commit :
    process_event three_env 0 11 fresh (commit failed_commit) ≡ returns (some after_commit)
unfolding process_event receive_commit Bft.receive_commit
took_commit = refl

on_line_panics_example :
    (process_event three_env 0 11 fresh (request none) ≡ panics)
    × (process_event three_env 0 11 fresh (proposal proposal_13) ≡ panics)
    × (process_event three_env 0 11 fresh (view_change_req forged) ≡ panics)
on_line_panics_example =
    on_line_panics three_env 0 11 (node 2) (node 1) three fresh none proposal_13 forged
      (served 0 11 (commit failed_commit) after_commit (begun fresh) took_commit)

-- A request for two blocks, which are there.
abbrev two_blocks : SyncBlockReq
two_blocks = record { account = node 2; timestamp = 0; block_start = 11; block_end = 12 }

encodes_bare : (resp : SyncBlockResp) → (bytes : List ℕ) × (encode_bare three_env resp ≡ some bytes)
unfolding encode_bare encode_message
encodes_bare resp = (_, refl)

receive_sync_block_req_ends_example :
    (Lacks three_env 12 0 11 12 × (receive_sync_block_req three_env 3 12 two_blocks ≡ panics))
    ⊎ ((blocks : List Block) × (receive_sync_block_req three_env 3 12 two_blocks
          ≡ returns (some (send_bare (node 2) (record { blocks = blocks }) ∷ [])))
        × Standing three_env 12 0 11 blocks
        × (length blocks ≡ 2))
receive_sync_block_req_ends_example =
    receive_sync_block_req_ends three_env 2 3 12 0 two_blocks (omega arith) (omega arith)
      (omega arith) refl encodes_bare
