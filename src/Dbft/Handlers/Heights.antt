-- ===== src/Dbft/Handlers/Heights.antt =====
-- What a proposal of the master comes to, by its height.
use galaxy.Base.{
  ℕ, ◌+◌, ◌-◌, ◌^◌, ◌≤◌, ◌<◌, ◌≡◌, ◌≢◌, refl, ap, ◌∙◌, ◌⊎◌, ◌↔◌, inl, inr, Bool, true, false, List,
  [], ◌∷◌, none, some, arith, ltb, leb, Bool-cases, Option-cases, lookup, lookup-insert_self,
  ℕ_discrete,
}
use galaxy.Base.Words.{add64, sub64}
use galaxy.Base.Outcome.{returns}
use galaxy.Account.{Block, Signature}
use galaxy.External.{Env}
use galaxy.Messages.{Proposal, Message, sync_block_req_message, response_message}
use galaxy.Fbft.State.{encodes}
use galaxy.Bft.State.{
  BftCore, PayloadSets, Action, send, leads, record_payload, verify_payload, sign_payload,
  sign_data_verify,
}
use galaxy.Bft.Commits.{acceptable, answer}
use galaxy.Dbft.State.{DbftCore, stop_timer, with_base}
use galaxy.Dbft.Handlers.{follow, receive_proposal}

module _ {World : Type 0} (env : Env World) where
  abbrev pub stopped_core : DbftCore → DbftCore
  stopped_core core = record core { master_timeout = some false }

  -- A request for the blocks from one height to another.
  abbrev pub asks_for : DbftCore → ℕ → ℕ → Message
  asks_for core first last = record {
    message_type = 5;
    payload = sync_block_req_message (
        some (record {
          account = core.base.local;
          timestamp = env.now;
          block_start = first;
          block_end = last;
        }));
  }

  to_follow :
      (w : World) (core : DbftCore) (p : Proposal) (running : Bool)
      → core.master_timeout ≡ some running
      → acceptable env core.base p ≡ true
      → receive_proposal env w core p
        ≡ returns (with_base (stopped_core core) (follow env w (stopped_core core) p))
  unfolding receive_proposal stop_timer
  to_follow w core p running timer good = rw (timer, good) refl

  followed :
      (w : World) (core : DbftCore) (p : Proposal) (chain : ℕ)
      → env.latest_state_repository w ≡ some chain
      → ltb (add64 (env.current_block_height w chain) 1) p.payload.header.height ≡ false
      → leb p.payload.header.height (env.current_block_height w chain) ≡ false
      → follow env w core p ≡ answer env w core.base p
  unfolding follow
  followed w core p chain repo e f = rw (repo, follow, e, f) refl

  dropped :
      (w : World) (core : DbftCore) (p : Proposal) (chain : ℕ)
      → env.latest_state_repository w ≡ some chain
      → ltb (add64 (env.current_block_height w chain) 1) p.payload.header.height ≡ false
      → leb p.payload.header.height (env.current_block_height w chain) ≡ true
      → follow env w core p ≡ (core.base, [])
  unfolding follow
  dropped w core p chain repo e f = rw (repo, follow, e, f) refl

  asked :
      (w : World) (core : DbftCore) (p : Proposal) (chain : ℕ)
      → env.latest_state_repository w ≡ some chain
      → env.current_block_height w chain + 1 < 2 ^ 64
      → p.payload.header.height < 2 ^ 64
      → env.current_block_height w chain + 1 < p.payload.header.height
      → ((msg : Message) → encodes env msg ≡ true)
      → follow env w core p ≡ (
        core.base,
        send core.base.master
              (asks_for core (env.current_block_height w chain + 1) (p.payload.header.height - 1))
            ∷ [],
      )
  unfolding follow
  asked w core p chain repo fits small h encodable =
      let first : add64 (env.current_block_height w chain) 1
          ≡ env.current_block_height w chain + 1 =
        omega (arith, fits) in
      let last : sub64 p.payload.header.height 1 ≡ p.payload.header.height - 1 =
        omega (arith, small, h) in
      let ahead : ltb (env.current_block_height w chain + 1) p.payload.header.height ≡ true =
        ground (arith, h) in
      rw (repo, follow, first, last, ahead, encodable _) refl

  -- A proposal that a node takes further: the node is not the master, the proposal names the account that
  -- the node takes for the master, and its signature verifies as that account's.
  abbrev pub Accepted : DbftCore → Proposal → Type 0
  Accepted core p =
      (core.base.local ≢ core.base.master)
      × (core.base.master ≡ p.account)
      × (core.base.master.address ≡ env.verify p.payload.header.mix_digest p.signature)

  -- The answer to a proposal.
  abbrev pub response_to : DbftCore → Proposal → Signature → Message
  response_to core p s = record {
    message_type = 3;
    payload = response_message (
        some (record {
          account = core.base.local;
          timestamp = p.timestamp;
          digest = p.payload.header.mix_digest;
          signature = s;
          block_height = 0;
        }));
  }

  acceptable_lem :
      (core : DbftCore) (p : Proposal) → (acceptable env core.base p ≡ true) ↔ Accepted core p
  unfolding acceptable leads sign_data_verify
  acceptable_lem core p = ground arith

  refused :
      (w : World) (core : DbftCore) (p : Proposal) (running : Bool)
      → core.master_timeout ≡ some running
      → acceptable env core.base p ≡ false
      → receive_proposal env w core p ≡ returns (stopped_core core, [])
  unfolding receive_proposal stop_timer
  refused w core p running timer bad = rw (timer, bad) refl

  answered :
      (w : World) (core : DbftCore) (p : Proposal) (receipts : ℕ) (s : Signature)
      → verify_payload env w p.payload ≡ some receipts
      → env.sign core.base.local p.payload.header.mix_digest ≡ some s
      → ((msg : Message) → encodes env msg ≡ true)
      → answer env w core.base p ≡ (
        record_payload core.base p.payload receipts,
        send core.base.master (response_to core p s) ∷ [],
      )
  unfolding answer sign_payload
  answered w core p receipts s good signed encodable =
      rw (good, answer, signed, encodable (response_to core p s)) refl

  unanswered :
      (w : World) (core : DbftCore) (p : Proposal)
      → (verify_payload env w p.payload ≡ none)
        ⊎ (env.sign core.base.local p.payload.header.mix_digest ≡ none)
      → answer env w core.base p ≡ (core.base, [])
  unfolding answer sign_payload
  unanswered w core p (inl bad) = rw (bad, answer) refl
  unanswered w core p (inr unsigned) = elim (Option-cases (verify_payload env w p.payload)) [
    | inl bad ↦ rw (bad, answer) refl
    | inr (receipts, good) ↦ rw (good, answer, unsigned) refl
  ]

  -- That a core has the receipts of a block.
  abbrev pub HasReceipts : BftCore → ℕ → ℕ → Type 0
  HasReceipts core digest receipts =
      (entry : PayloadSets) × (lookup ℕ_discrete digest core.validator ≡ some entry)
      × (entry.receipts ≡ receipts)

  record_payload-HasReceipts :
      (core : BftCore) (block : Block) (receipts : ℕ)
      → HasReceipts (record_payload core block receipts) block.header.mix_digest receipts
  unfolding record_payload
  record_payload-HasReceipts core block receipts =
      elim (Option-cases (lookup ℕ_discrete block.header.mix_digest core.validator)) [
        | inl e ↦
            rw e (_, lookup-insert_self ℕ_discrete block.header.mix_digest _ core.validator, refl)
        | inr (old, e) ↦
            rw e (_, lookup-insert_self ℕ_discrete block.header.mix_digest _ core.validator, refl)
      ]

  -- A proposal, on a node whose timer is not nil. If the node is the master, or the proposal is not of
  -- the master or not signed by it, nothing is sent and nothing changes but the timer. Otherwise it goes
  -- by the height: if the chain has reached that of the proposal, again nothing is sent; if the chain
  -- ends more than one below it, the node asks the master for exactly the blocks between, and does no
  -- more; and if the chain ends right below it, the block is verified and signed, its receipts are
  -- kept under its digest, and exactly one message goes out, the response with that signature to the
  -- master; nothing is sent where the block does not verify or cannot be signed.
  pub receive_proposal_by_height :
      (w : World) (core : DbftCore) (p : Proposal) (running : Bool) (chain : ℕ)
      → core.master_timeout ≡ some running
      → env.latest_state_repository w ≡ some chain
      → p.payload.header.height < 2 ^ 64
      → env.current_block_height w chain + 1 < 2 ^ 64
      → ((msg : Message) → encodes env msg ≡ true)
      → let current = env.current_block_height w chain in
        let height = p.payload.header.height in
        let digest = p.payload.header.mix_digest in
        let out = receive_proposal env w core p in
        (¬ Accepted core p → out ≡ returns (stopped_core core, []))
        × (Accepted core p
            → (height ≤ current → out ≡ returns (stopped_core core, []))
              × (current + 1 < height
                  → out
                    ≡ returns (
                      stopped_core core,
                      send core.base.master (asks_for core (current + 1) (height - 1)) ∷ [],
                    ))
              × (height ≡ current + 1
                  → ((receipts : ℕ) (s : Signature)
                      → verify_payload env w p.payload ≡ some receipts
                      → env.sign core.base.local digest ≡ some s
                      → (base : BftCore) × (out
                          ≡ returns (
                            record core { base = base; master_timeout = some false },
                            send core.base.master (response_to core p s) ∷ [],
                          ))
                        × HasReceipts base digest receipts)
                    × ((verify_payload env w p.payload ≡ none)
                          ⊎ (env.sign core.base.local digest ≡ none)
                        → out ≡ returns (stopped_core core, []))))
  receive_proposal_by_height w core p running chain timer repo small fits encodable = (
    (λ bad. refused w core p running timer (elim (Bool-cases (acceptable env core.base p)) [
      | inl good ↦ absurd (bad ((acceptable_lem core p).0 good))
      | inr e ↦ e
    ])),
    (λ good.
        let follows = to_follow w core p running timer ((acceptable_lem core p).1 good) in
        let by : (x : BftCore × List Action)
            → follow env w (stopped_core core) p ≡ x
            → receive_proposal env w core p ≡ returns (with_base (stopped_core core) x) =
          λ x e. follows ∙ ap (λ out. returns (with_base (stopped_core core) out)) e in
        (
          (λ h.
              by _ (
                dropped w (stopped_core core) p chain repo (ground (arith, h))
                  (ground (arith, h)))),
          (λ h. by _ (asked w (stopped_core core) p chain repo fits small h encodable)),
          (λ h.
              let here =
                followed w (stopped_core core) p chain repo (ground (arith, h))
                  (ground (arith, h)) in
              (
                (λ receipts s verified signed. (
                  record_payload core.base p.payload receipts,
                  by _ (here ∙ answered w core p receipts s verified signed encodable),
                  record_payload-HasReceipts core.base p.payload receipts,
                )),
                (λ bad. by _ (here ∙ unanswered w core p bad)),
              )),
        )),
  )
