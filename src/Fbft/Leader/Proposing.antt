-- ===== src/Fbft/Leader/Proposing.antt =====
-- When the master proposes, when it stops collecting, and what a response does after that.
use galaxy.Base.{
  ℕ, ◌-◌, ◌^◌, ◌<◌, ◌≡◌, ◌≢◌, refl, sym, ap, subst, ◌⊎◌, ◌↔◌, inl, inr, Bool, true, false, List, [],
  ◌∷◌, none, some, arith, In, lookup, Option-cases,
}
use galaxy.Account.{Account, Block, Signature}
use galaxy.External.{Env}
use galaxy.Payloads.{sign_payload, signature_verify, verify_payload}
use galaxy.Content.{
  initial, in_consensus, new_content, set_state, add_signature, get_sign_by_account,
}
use galaxy.Plugin.{add, entry_height, get_content_by_hash, set_latest_block_height}
use galaxy.Plugin.Retention.{add_low_clears}
use galaxy.Messages.{Message, Request, Response, broadcast_peers_filter}
use galaxy.Fbft.State.{
  Core, Effect, stop_change_view_timer, wait_response, signal, broadcast, is_master, encodes,
}
use galaxy.Fbft.Quorum.{maybe_commit}
use galaxy.Fbft.Leader.{
  others, proposal_for, announce, receive_request, sign_with, sign_request, foreign_and_bad,
  wait_response_round, receive_response, collect, with_plugin,
}

module _ {World : Type 0} (env : Env World) where
  -- All that a request sends on where its proposal goes out.
  abbrev pub proposing : Core → Request → Signature → List Effect
  proposing core request s =
      broadcast (others core) (proposal_for env core request s)
      ∷ wait_response request.payload.header.mix_digest
      ∷ []

  -- What a proposal that goes out says of the content it is for.
  sign_with-broadcast :
      (core : Core) (r : ℕ) (request : Request) (s : Signature) (to : List Account) (msg : Message)
      → In (broadcast to msg) (sign_with env core r request s).1
      → (get_sign_by_account (core.consensus_plugin.heap r) core.nodes.local ≡ none)
        × ((core.consensus_plugin.heap r).state ≡ initial)
        × (to ≡ others core)
        × (msg ≡ proposal_for env core request s)
        × ((sign_with env core r request s).1 ≡ proposing core request s)
  unfolding sign_with add_signature set_state get_sign_by_account announce
  sign_with-broadcast core r request s to msg e = ground arith

  sign_request-broadcast :
      (core : Core) (r : ℕ) (request : Request) (to : List Account) (msg : Message)
      → In (broadcast to msg) (sign_request env core r request).1
      → (s : Signature) × (env.sign core.nodes.local request.payload.header.mix_digest ≡ some s)
        × (get_sign_by_account (core.consensus_plugin.heap r) core.nodes.local ≡ none)
        × ((core.consensus_plugin.heap r).state ≡ initial)
        × (to ≡ others core)
        × (msg ≡ proposal_for env core request s)
        × ((sign_request env core r request).1 ≡ proposing core request s)
  unfolding sign_request sign_payload
  sign_request-broadcast core r request to msg e =
      elim (Option-cases (env.sign core.nodes.local request.payload.header.mix_digest)) [
        | inl failed ↦ absurd (none_sent failed)
        | inr (s, signed) ↦
            let (fresh, untouched, dest, sent, all) =
              sign_with-broadcast core r request s to msg (rw (signed, sign_request) at e) in
            (s, signed, fresh, untouched, dest, sent, rw (signed, sign_request) all)
      ]
    where
      none_sent : env.sign core.nodes.local request.payload.header.mix_digest ≡ none → ⊥
      none_sent failed = ground arith

  others_lem :
      (peers : List Account) (black b : Account)
      → In b (broadcast_peers_filter peers black) ↔ (In b peers × (b ≢ black))
  unfolding broadcast_peers_filter
  others_lem [] black b = ((λ i. absurd i), (λ h. h.0))
  others_lem (p ∷ peers) black b = ground (arith, others_lem peers black b)

  -- A proposal goes out only from the master, for a block that carries a signature and either comes
  -- from an account of the master's address or passes VerifyPayload, under the master's own signature,
  -- to exactly the peers but itself; only if the content for it was untouched: initial, and not yet signed by the master; and then it
  -- goes out once, between the stop of the timer and the start of waitResponse, and nothing else does.
  pub receive_request-broadcast :
      (w : World) (core : Core) (request : Request) (to : List Account) (msg : Message)
      → In (broadcast to msg) (receive_request env w core request).1
      → let added = add core.consensus_plugin request.payload.header.mix_digest request.payload in
        (is_master core.nodes ≡ true)
        × (request.payload.header.sig_data ≢ [])
        × ((request.account.address ≡ core.nodes.local.address)
            ⊎ (verify_payload env w request.payload core.enable_local_verify_signature ≢ none))
        × ((b : Account) → In b to ↔ (In b core.nodes.peers × (b ≢ core.nodes.local)))
        × ((s : Signature) × (env.sign core.nodes.local request.payload.header.mix_digest ≡ some s)
            × (get_sign_by_account (added.0.heap added.1) core.nodes.local ≡ none)
            × ((added.0.heap added.1).state ≡ initial)
            × (msg ≡ proposal_for env core request s)
            × ((receive_request env w core request).1
                ≡ stop_change_view_timer
                  ∷ broadcast to msg
                  ∷ wait_response request.payload.header.mix_digest
                  ∷ []))
  unfolding receive_request
  receive_request-broadcast w core request to msg e =
      let p = (add core.consensus_plugin request.payload.header.mix_digest request.payload).0 in
      let r = (add core.consensus_plugin request.payload.header.mix_digest request.payload).1 in
      let (s, signed, fresh, untouched, dest, sent, all) =
        sign_request-broadcast (with_plugin core p) r request to msg (ground arith) in
      (
        ground arith,
        ground arith,
        ground arith,
        (λ b.
            subst (λ (l : List Account). In b l ↔ (In b core.nodes.peers × (b ≢ core.nodes.local)))
              (sym dest) (others_lem core.nodes.peers core.nodes.local b)),
        (s, signed, fresh, untouched, sent, ground (arith, all, dest, sent)),
      )

  sign_with-announce :
      (core : Core) (r : ℕ) (request : Request) (s : Signature) (digest : ℕ) (block : Block)
      → core.consensus_plugin.heap r ≡ new_content digest block
      → (sign_with env core r request s).1 ≡ announce env core request s
  unfolding sign_with add_signature set_state new_content lookup
  sign_with-announce core r request s digest block e =
      let unsigned : (core.consensus_plugin.heap r).sign_map ≡ [] = ground arith in
      let start : (core.consensus_plugin.heap r).state ≡ initial = ground arith in
      rw (unsigned, start) refl

  -- Below block ten a request is proposed each time it comes: Add clears the cache, and with it the
  -- mark that the block was proposed before.
  pub receive_request_low :
      (w : World) (core : Core) (request : Request) (s : Signature)
      → is_master core.nodes ≡ true
      → request.payload.header.sig_data ≢ []
      → request.account.address ≡ core.nodes.local.address
      → env.sign core.nodes.local request.payload.header.mix_digest ≡ some s
      → encodes env (proposal_for env core request s) ≡ true
      → request.payload.header.height < 10
      → ((e : ℕ × ℕ)
          → In e core.consensus_plugin.content
          → entry_height core.consensus_plugin.heap e < 2 ^ 64 - 10)
      → (receive_request env w core request).1
        ≡ stop_change_view_timer
          ∷ broadcast (others core) (proposal_for env core request s)
          ∷ wait_response request.payload.header.mix_digest
          ∷ []
  unfolding receive_request sign_request sign_payload foreign_and_bad announce
  receive_request_low w core request s master signed own sign enc low below =
      let digest = request.payload.header.mix_digest in
      let cleared = add_low_clears core.consensus_plugin digest request.payload low below in
      let p = (add core.consensus_plugin digest request.payload).0 in
      let r = (add core.consensus_plugin digest request.payload).1 in
      let sent =
        sign_with-announce (with_plugin core p) r request s digest request.payload cleared.2 in
      ground (arith, sent)

  -- A round of waitResponse for a content under consensus that finds enough signatures ends it and
  -- closes the content: a response for the digest that comes next is dropped, with no effect and no
  -- change.
  pub wait_response_round_closes :
      (core : Core) (digest r : ℕ) (timeout : Bool) (response : Response)
      → get_content_by_hash core.consensus_plugin digest ≡ some r
      → (core.consensus_plugin.heap r).state ≡ in_consensus
      → (maybe_commit core digest).1 ≡ true
      → response.digest ≡ digest
      → let out = wait_response_round core digest r timeout in
        (out.2 ≡ true) × (receive_response env out.0 response ≡ (out.0, []))
  unfolding wait_response_round receive_response collect set_state get_content_by_hash
      set_latest_block_height
  wait_response_round_closes core digest r timeout response found state enough same = ground arith

  -- Where the timeout finds too few signatures for a content under consensus, waitResponse ends and
  -- the content stays open: a response to the master that is in time and verifies still sends a
  -- signal after that.
  wait_response_round_strands :
      (core : Core) (digest r : ℕ) (response : Response)
      → get_content_by_hash core.consensus_plugin digest ≡ some r
      → (core.consensus_plugin.heap r).state ≡ in_consensus
      → (maybe_commit core digest).1 ≡ false
      → response.digest ≡ digest
      → core.consensus_plugin.latest_block_height < response.block_height
      → is_master core.nodes ≡ true
      → signature_verify env response.account response.signature response.digest ≡ true
      → let out = wait_response_round core digest r true in
        (out.2 ≡ true) × ((receive_response env out.0 response).1 ≡ signal ∷ [])
  unfolding wait_response_round receive_response collect
  wait_response_round_strands core digest r response found state few same late master ok =
      ground (arith, ap (get_content_by_hash core.consensus_plugin) same)
