-- ===== src/Fbft/Leader/Signatures.antt =====
-- The contents of the master hold genuine signatures only, and a commit rests on enough of them.
use galaxy.Base.{
  ℕ, ◌≤◌, ◌<◌, ◌≡◌, ap, sym, ◌∙◌, subst, inl, inr, Bool, true, List, some, arith, In, Distinct,
  length, length-keys, keys, lookup, lookup-absent, lookup-In_vals, Option-cases, Bool-cases, leb,
}
use galaxy.Account.{Account, Account-discrete, Block, Signature}
use galaxy.External.{Env}
use galaxy.Payloads.{sign_payload, signature_verify}
use galaxy.Content.{Content, to_consensus, in_consensus, set_state, get_sign_by_account}
use galaxy.Plugin.{add, get_content_by_hash, update}
use galaxy.Plugin.Heap.{add-pointer}
use galaxy.Messages.{Request, Response}
use galaxy.Fbft.State.{Core}
use galaxy.Fbft.Quorum.{maybe_commit, threshold}
use galaxy.Fbft.Genuine.{
  Genuine, GenuineContent, update_signed-Genuine, update_moved-Genuine, update_signed_moved-Genuine,
  Genuine-digest, height-Genuine, add-Genuine, remove-Genuine,
}
use galaxy.Fbft.Leader.{
  receive_request, sign_with, sign_request, wait_response_round, receive_response, collect,
  commit_block, try_to_commit, with_plugin,
}

module _ {World : Type 0} (env : Env World) where
  abbrev pub AllGenuine : Core → Type 0
  AllGenuine core = Genuine env core.consensus_plugin

  -- What is known of the content that a response is for.
  collect-Genuine :
      (core : Core) (r : ℕ) (response : Response)
      → (core.consensus_plugin.heap r).digest ≡ response.digest
      → AllGenuine core
      → AllGenuine (collect env core r response).0
  unfolding collect signature_verify
  collect-Genuine core r response d g =
      ground (
        arith,
        update_signed-Genuine env core.consensus_plugin r response.account response.signature,
      )

  -- A response leaves all signatures genuine.
  pub receive_response-Genuine :
      (core : Core) (response : Response)
      → AllGenuine core
      → AllGenuine (receive_response env core response).0
  unfolding receive_response
  receive_response-Genuine core response g =
      elim (Bool-cases (leb response.block_height core.consensus_plugin.latest_block_height)) [
        | inl old ↦ rw old g
        | inr new ↦
            rw new
              (elim (Option-cases (get_content_by_hash core.consensus_plugin response.digest)) [
                | inl e ↦ rw e g
                | inr (r, e) ↦ rw e (
                    collect-Genuine core r response
                      (Genuine-digest env core.consensus_plugin response.digest r g e) g)
              ])
      ]

  sign_with-Genuine :
      (core : Core) (r : ℕ) (request : Request) (s : Signature)
      → env.verify (core.consensus_plugin.heap r).digest s ≡ core.nodes.local.address
      → AllGenuine core
      → AllGenuine (sign_with env core r request s).0
  unfolding sign_with
  sign_with-Genuine core r request s v g = ground (
    arith,
    update_signed-Genuine env core.consensus_plugin r core.nodes.local s,
    update_signed_moved-Genuine env core.consensus_plugin r core.nodes.local s in_consensus,
  )

  -- What the local account signs is assumed to verify as its own.
  abbrev pub SignVerifies : Type 0
  SignVerifies =
      (a : Account) (d : ℕ) (s : Signature) → env.sign a d ≡ some s → env.verify d s ≡ a.address

  sign_request-Genuine :
      (core : Core) (r : ℕ) (request : Request)
      → SignVerifies
      → (core.consensus_plugin.heap r).digest ≡ request.payload.header.mix_digest
      → AllGenuine core
      → AllGenuine (sign_request env core r request).0
  unfolding sign_request sign_payload
  sign_request-Genuine core r request law d g =
      elim (Option-cases (env.sign core.nodes.local request.payload.header.mix_digest)) [
        | inl e ↦ rw (e, sign_request) g
        | inr (s, e) ↦
            let v : env.verify (core.consensus_plugin.heap r).digest s ≡ core.nodes.local.address =
              rw d (law core.nodes.local request.payload.header.mix_digest s e) in
            rw (e, sign_request) (sign_with-Genuine core r request s v g)
      ]

  -- So does a request, if what the local account signs verifies as its own.
  pub receive_request-Genuine :
      (w : World) (core : Core) (request : Request)
      → SignVerifies
      → AllGenuine core
      → AllGenuine (receive_request env w core request).0
  unfolding receive_request
  receive_request-Genuine w core request law g =
      let digest = request.payload.header.mix_digest in
      let p = (add core.consensus_plugin digest request.payload).0 in
      let r = (add core.consensus_plugin digest request.payload).1 in
      let added = add-Genuine env core.consensus_plugin digest request.payload g in
      ground (
        arith,
        sign_request-Genuine (with_plugin core p) r request law
            (Genuine-digest env p digest r added
              (add-pointer core.consensus_plugin digest request.payload))
            added,
      )

  -- So does a round of waitResponse.
  pub wait_response_round-Genuine :
      (core : Core) (digest r : ℕ) (timeout : Bool)
      → AllGenuine core
      → AllGenuine (wait_response_round core digest r timeout).0
  unfolding wait_response_round
  wait_response_round-Genuine core digest r timeout g =
      let p = core.consensus_plugin in
      let moved = update_moved-Genuine env p r to_consensus g in
      ground (
        arith,
        moved,
        height-Genuine env (update p r (set_state (p.heap r) to_consensus).0)
            (p.heap r).payload.header.height moved,
      )

  -- So does a commit.
  pub try_to_commit-Genuine :
      (core : Core) (block : Block) (outcome : Bool)
      → AllGenuine core
      → AllGenuine (try_to_commit env core block outcome).0
  unfolding try_to_commit commit_block
  try_to_commit-Genuine core block outcome g =
      ground (arith, remove-Genuine env core.consensus_plugin block.header.mix_digest g)

  -- What an account has to do with a commit: its signature is the one that the content keeps for it and
  -- one of those that maybeCommit gives, and it verifies for the digest as the account's own.
  abbrev pub Backs : Core → ℕ → ℕ → Account → Type 0
  Backs core digest r a =
      (s : Signature) × (get_sign_by_account (core.consensus_plugin.heap r) a ≡ some s)
      × In s (maybe_commit core digest).0
      × (env.verify digest s ≡ a.address)

  -- A digest that is found committed has behind it as many distinct accounts as the threshold asks
  -- for, one for each signature that maybeCommit gives.
  pub maybe_commit_backed :
      (core : Core) (digest r : ℕ)
      → AllGenuine core
      → get_content_by_hash core.consensus_plugin digest ≡ some r
      → length (core.consensus_plugin.heap r).signatures < 256
      → (maybe_commit core digest).1 ≡ true
      → (signers : List Account) × Distinct signers
        × (threshold core ≤ length signers)
        × (length signers ≡ length (maybe_commit core digest).0)
        × ((a : Account) → In a signers → Backs core digest r a)
  unfolding maybe_commit get_sign_by_account
  maybe_commit_backed core digest r g e small done =
      (keys c.sign_map, gc.signed.once, enough, all, backed)
    where
      c : Content
      c = core.consensus_plugin.heap r

      gc : GenuineContent env c
      gc = g.contents digest r e

      enough : threshold core ≤ length (keys c.sign_map)
      enough = ground (arith, length-keys c.sign_map, ap (length {A = Signature}) gc.signed.listed)

      given : (maybe_commit core digest).0 ≡ c.signatures
      given = ground (arith, e)

      all : length (keys c.sign_map) ≡ length (maybe_commit core digest).0
      all = length-keys c.sign_map ∙ ap (length {A = Signature}) (gc.signed.listed ∙ sym given)

      backed : (a : Account) → In a (keys c.sign_map) → Backs core digest r a
      backed a i = elim (Option-cases (lookup Account-discrete a c.sign_map)) [
        | inl absent ↦ absurd (lookup-absent Account-discrete a c.sign_map absent i)
        | inr (s, found) ↦ (
          s,
          found,
          subst (In s) (gc.signed.listed ∙ sym given)
              (lookup-In_vals Account-discrete a c.sign_map s found),
          subst (λ (d : ℕ). env.verify d s ≡ a.address)
              (Genuine-digest env core.consensus_plugin digest r g e) (gc.genuine a s found),
        )
      ]
