-- ===== src/Fbft/Leader/Examples.antt =====
-- The master, node 1 of three, with its content for block 12.
use galaxy.Base.{
  List, inl, inr, subst, sym, In, Distinct, ◌<◌, ℕ, ◌≡◌, refl, ◌≢◌, ◌⊎◌, ◌↔◌, true, false, [], ◌∷◌,
  some, none, arith, lookup, ℕ_discrete,
}
use galaxy.Account.{Account, Account-discrete, Signature}
use galaxy.Content.{add_signature, get_sign_by_account, initial, set_state, new_content}
use galaxy.Payloads.{signature_verify, sign_payload, verify_payload}
use galaxy.Plugin.{get_content_by_hash, add}
use galaxy.Messages.{Request, Response, broadcast_peers_filter, encode_message}
use galaxy.Fbft.State.{Core, broadcast, wait_response, stop_change_view_timer, is_master, encodes}
use galaxy.Fbft.Quorum.{maybe_commit, threshold}
use galaxy.Fbft.Leader.{
  proposal_for, receive_request, sign_request, sign_with, announce, foreign_and_bad,
  wait_response_round, receive_response,
}
use galaxy.Fbft.Leader.Collecting.{
  Collecting, Countable, receive_responses, receive_responses_commit,
}
use galaxy.Fbft.Leader.Proposing.{receive_request-broadcast, wait_response_round_closes}
use galaxy.Fbft.Leader.Signers.{one_signer_twice}
use galaxy.Fbft.Fixture.{node, three, three_env, block_at, content_of, core_of, unsigned}

abbrev response_of : ℕ → Response
response_of n = record {
  account = node n;
  timestamp = 0;
  digest = 12;
  signature = n ∷ [];
  block_height = 12;
}

-- Alone among its peers, the master has signatures enough with its own.
abbrev alone : Core
alone = core_of 1 (node 1 ∷ []) (content_of ((node 1, 1 ∷ []) ∷ []) ((1 ∷ []) ∷ []))

-- A request of the master for the block of height 13, which no content is for yet.
abbrev request_13 : Request
request_13 = record { timestamp = 0; account = node 1; payload = block_at 13 }

alone_known : get_content_by_hash alone.consensus_plugin 12 ≡ some 0
unfolding get_content_by_hash lookup ℕ_discrete
alone_known = refl

enough : (maybe_commit alone 12).1 ≡ true
unfolding maybe_commit get_content_by_hash lookup threshold ℕ_discrete
enough = refl

known : get_content_by_hash (unsigned 1).consensus_plugin 12 ≡ some 0
unfolding get_content_by_hash lookup ℕ_discrete
known = refl

few : (maybe_commit (unsigned 1) 12).1 ≡ false
unfolding maybe_commit get_content_by_hash lookup threshold ℕ_discrete
few = refl

master : is_master (unsigned 1).nodes ≡ true
unfolding is_master Account-discrete
master = refl

verified : signature_verify three_env (node 2) (2 ∷ []) 12 ≡ true
unfolding signature_verify
verified = refl

fresh : (a : Account) → get_sign_by_account ((unsigned 1).consensus_plugin.heap 0) a ≡ none
unfolding get_sign_by_account lookup ℕ_discrete
fresh a = refl

proposed :
    (receive_request three_env 12 (unsigned 1) request_13).1
    ≡ stop_change_view_timer
      ∷ broadcast (node 2 ∷ node 3 ∷ []) (proposal_for three_env (unsigned 1) request_13 (1 ∷ []))
      ∷ wait_response 13
      ∷ []
unfolding receive_request is_master Account-discrete add lookup new_content sign_request
    sign_payload sign_with add_signature set_state announce encodes encode_message
    broadcast_peers_filter foreign_and_bad ℕ_discrete
proposed = refl

wait_response_round_closes_example :
    let out = wait_response_round alone 12 0 false in
    (out.2 ≡ true) × (receive_response three_env out.0 (response_of 2) ≡ (out.0, []))
wait_response_round_closes_example =
    wait_response_round_closes three_env alone 12 0 false (response_of 2) alone_known refl enough
      refl

-- Node 2 under a second name.
abbrev renamed : Account
renamed = record { address = 2; extension = record { id = 9; url = [] } }

one_signer_twice_example :
    let first = receive_response three_env (unsigned 1) (response_of 2) in
    let second =
      receive_response three_env first.0 (record (response_of 2) { account = renamed }) in
    (second.0.consensus_plugin.heap 0).signatures ≡ (2 ∷ []) ∷ (2 ∷ []) ∷ []
one_signer_twice_example =
    one_signer_twice three_env (unsigned 1) 0 (response_of 2) renamed known refl (omega arith)
      master verified (λ e. ground (arith, e)) refl (fresh (node 2)) (fresh renamed)

-- So does the proposal go out among its effects.
proposed_in :
    In
      (broadcast (node 2 ∷ node 3 ∷ []) (proposal_for three_env (unsigned 1) request_13 (1 ∷ [])))
      (receive_request three_env 12 (unsigned 1) request_13).1
proposed_in = subst (In _) (sym proposed) (inr (inl refl))

receive_request-broadcast_example :
    let added = add (unsigned 1).consensus_plugin 13 (block_at 13) in
    let sent = proposal_for three_env (unsigned 1) request_13 (1 ∷ []) in
    (is_master (unsigned 1).nodes ≡ true)
    × (request_13.payload.header.sig_data ≢ [])
    × ((request_13.account.address ≡ (unsigned 1).nodes.local.address)
        ⊎ (verify_payload three_env 12 (block_at 13) true ≢ none))
    × ((b : Account) → In b (node 2 ∷ node 3 ∷ []) ↔ (In b three × (b ≢ node 1)))
    × ((s : Signature) × (three_env.sign (node 1) 13 ≡ some s)
        × (get_sign_by_account (added.0.heap added.1) (node 1) ≡ none)
        × ((added.0.heap added.1).state ≡ initial)
        × (sent ≡ proposal_for three_env (unsigned 1) request_13 s)
        × ((receive_request three_env 12 (unsigned 1) request_13).1
            ≡ stop_change_view_timer
              ∷ broadcast (node 2 ∷ node 3 ∷ []) sent
              ∷ wait_response 13
              ∷ []))
receive_request-broadcast_example =
    receive_request-broadcast three_env 12 (unsigned 1) request_13 (node 2 ∷ node 3 ∷ [])
      (proposal_for three_env (unsigned 1) request_13 (1 ∷ [])) proposed_in

-- The responses of all three nodes.
abbrev three_responses : List Response
three_responses = response_of 1 ∷ response_of 2 ∷ response_of 3 ∷ []

collecting : Collecting three_env (unsigned 1) 12 0
collecting = record { found = known; under_way = refl; master = master }

-- What `Countable` asks of a response.
abbrev IsGood : Response → Type 0
IsGood x =
    (x.digest ≡ 12)
    × (11 < x.block_height)
    × (signature_verify three_env x.account x.signature x.digest ≡ true)
    × (get_sign_by_account ((unsigned 1).consensus_plugin.heap 0) x.account ≡ none)

IsGood-response_of : (n : ℕ) → IsGood (response_of n)
unfolding signature_verify
IsGood-response_of n = (refl, omega arith, ground arith, fresh (node n))

countable : Countable three_env (unsigned 1) 12 0 three_responses
countable = record { good = good; once = once }
  where
    good : (x : Response) → In x three_responses → IsGood x
    good x (inl e) = subst IsGood (sym e) (IsGood-response_of 1)
    good x (inr (inl e)) = subst IsGood (sym e) (IsGood-response_of 2)
    good x (inr (inr (inl e))) = subst IsGood (sym e) (IsGood-response_of 3)
    good x (inr (inr (inr i))) = absurd i

    once : Distinct (node 1 ∷ node 2 ∷ node 3 ∷ [])
    once = ((λ i. ground (arith, i)), ((λ i. ground (arith, i)), ((λ i. i), tt)))

threshold_3 : threshold (unsigned 1) ≡ 3
unfolding threshold
threshold_3 = refl

receive_responses_commit_example :
    (maybe_commit (receive_responses three_env (unsigned 1) three_responses) 12).1 ≡ true
receive_responses_commit_example =
    receive_responses_commit three_env three_responses (unsigned 1) 12 0 collecting countable
      (omega arith) (omega (arith, threshold_3))
