-- ===== src/Fbft/Replica/Switching.antt =====
-- When a replica answers a proposal, and when a commit switches a block.
use galaxy.Base.{
  ℕ, ◌+◌, ◌≡◌, ◌≢◌, inl, inr, true, false, List, [], ◌∷◌, some, arith, Option-cases, In,
}
use galaxy.Base.Outcome.{returns}
use galaxy.Account.{Account, Signature}
use galaxy.External.{Env}
use galaxy.Payloads.{verify_payload, sign_payload, signature_verify, header_hash}
use galaxy.Content.{Content}
use galaxy.Plugin.{get_content_by_hash}
use galaxy.Messages.{Message, Proposal, Commit}
use galaxy.Fbft.State.{Core, Effect, stop_change_view_timer, unicast, is_master}
use galaxy.Fbft.Replica.{
  with_master, respond, follow, consider, receive_proposal, sealed, finish, receive_commit,
  response_for,
}

module _ {World : Type 0} (env : Env World) where
  -- What an answer to a proposal says of it.
  pub record Answered (w : World) (current : ℕ) (core : Core) (proposal : Proposal) (to : Account)
      (msg : Message) : Type 0 where
    pub next : proposal.payload.header.height ≡ current + 1
    pub from_master : core.nodes.master ≡ proposal.account
    pub replica : is_master core.nodes ≡ false
    pub signed :
        signature_verify env core.nodes.master proposal.signature proposal.payload.header.mix_digest
        ≡ true
    pub verified :
        (receipt : ℕ) × (verify_payload env w proposal.payload core.enable_local_verify_signature
          ≡ some receipt)
    pub own :
        (s : Signature) × (env.sign core.nodes.local proposal.payload.header.mix_digest ≡ some s)
        × (msg ≡ response_for env core proposal s)
    pub dest : to ≡ core.nodes.master

  respond_answers :
      (w : World) (core : Core) (proposal : Proposal) (to : Account) (msg : Message)
      → In (unicast to msg) (respond env w core proposal)
      → ((receipt : ℕ) × (verify_payload env w proposal.payload core.enable_local_verify_signature
            ≡ some receipt))
        × ((s : Signature) × (env.sign core.nodes.local proposal.payload.header.mix_digest ≡ some s)
            × (msg ≡ response_for env core proposal s))
        × (to ≡ core.nodes.master)
  unfolding respond sign_payload
  respond_answers w core proposal to msg i =
      elim (Option-cases
        (verify_payload env w proposal.payload core.enable_local_verify_signature)) [
          | inl e ↦ absurd (ground (arith, e, i))
          | inr (receipt, e) ↦
              elim (Option-cases (env.sign core.nodes.local proposal.payload.header.mix_digest)) [
                | inl f ↦ absurd (ground (arith, e, f, i))
                | inr (s, f) ↦
                    ((receipt, e), (s, f, ground (arith, e, f, i)), ground (arith, e, f, i))
              ]
        ]

  follow_answers :
      (w : World) (core : Core) (proposal : Proposal) (to : Account) (msg : Message)
      → In (unicast to msg) (follow env w core proposal).1
      → (core.nodes.master ≡ proposal.account)
        × (is_master core.nodes ≡ false)
        × (signature_verify env core.nodes.master proposal.signature
              proposal.payload.header.mix_digest
            ≡ true)
        × In (unicast to msg) (respond env w core proposal)
  unfolding follow
  follow_answers w core proposal to msg i = ground arith

  consider_answers :
      (w : World) (current : ℕ) (core : Core) (proposal : Proposal) (to : Account) (msg : Message)
      → In (unicast to msg) (consider env w current core proposal).1
      → (proposal.payload.header.height ≡ current + 1)
        × In (unicast to msg) (follow env w core proposal).1
  unfolding consider
  consider_answers w current core proposal to msg i = ground arith

  -- A replica answers a proposal only if it is for the next block, comes
  -- from the account that the replica takes for the master and is not itself, under a signature of
  -- that account, and the block verifies; and then with its own signature, to the master only.
  pub receive_proposal_answers :
      (w : World) (chain : ℕ) (core core' : Core) (proposal : Proposal) (effects : List Effect)
      (to : Account) (msg : Message)
      → env.latest_state_repository w ≡ some chain
      → receive_proposal env w core proposal ≡ returns (core', effects)
      → In (unicast to msg) effects
      → Answered w (env.current_block_height w chain) core proposal to msg
  unfolding receive_proposal
  receive_proposal_answers w chain core core' proposal effects to msg found e i =
      let current = env.current_block_height w chain in
      let sent : In (unicast to msg) (consider env w current core proposal).1 = ground arith in
      let (next, followed) = consider_answers w current core proposal to msg sent in
      let (from_master, replica, signed, responded) =
        follow_answers w core proposal to msg followed in
      let (verified, own, dest) = respond_answers w core proposal to msg responded in
      record {
        next = next;
        from_master = from_master;
        replica = replica;
        signed = signed;
        verified = verified;
        own = own;
        dest = dest;
      }

  -- The first commit with a true result for a known block that carries no hash settles its hash,
  -- whatever signatures the commit has: if that hash is not zero and not the one of the commit,
  -- every later commit for another hash than that is refused.
  receive_commit_spoils :
      (core : Core) (r : ℕ) (bad good : Commit)
      → let content = core.consensus_plugin.heap r in
        let block = sealed env content bad in
        get_content_by_hash core.consensus_plugin bad.digest ≡ some r
        → content.payload.header_hash ≡ 0
        → bad.result ≡ true
        → good.result ≡ true
        → good.digest ≡ bad.digest
        → block.header_hash ≢ 0
        → block.header_hash ≢ bad.block_hash
        → block.header_hash ≢ good.block_hash
        → (receive_commit env (receive_commit env core bad).0 good).1 ≡ stop_change_view_timer ∷ []
  unfolding receive_commit finish sealed with_master header_hash get_content_by_hash
  receive_commit_spoils core r bad good found none_yet t1 t2 same n0 n1 n2 = ground arith
