-- ===== src/Bft/Policy/Deciding.antt =====
-- What the master decides in ToConsensus, and what receiveCommit of another node makes of its commit.
use galaxy.Base.{
  ℕ, ◌≡◌, refl, ◌∙◌, Bool, true, false, List, [], ◌∷◌, none, some, lookup, ℕ_discrete, ==_iff,
  arith,
}
use galaxy.Base.Outcome.{Outcome, returns}
use galaxy.Account.{Account, Block, Signature}
use galaxy.External.{Env}
use galaxy.Payloads.{header_hash}
use galaxy.Messages.{Message, Commit}
use galaxy.Fbft.State.{Event, encodes}
use galaxy.Fbft.Leader.{commit_of}
use galaxy.Bft.State.{BftCore, PayloadSets, Action, send_all, notify}
use galaxy.Bft.Commits.{
  with_signatures, commit_filter, commit_receivers, commit_block, send_commit, finish,
  receive_commit,
}
use galaxy.Bft.Policy.{BftPolicy, outcome_of, commit, end_consensus}

module _ {World : Type 0} (env : Env World) where
  -- A block with its signatures, and the hash that goes with them.
  abbrev pub sealed : Block → List Signature → Block
  sealed block signatures =
      let signed = with_signatures block signatures in
      record signed { header_hash = header_hash env signed }

  -- The commit of ToConsensus for a block.
  abbrev pub commit_for : BftPolicy → Block → Bool → Commit
  commit_for policy block result = record {
    account = policy.account;
    timestamp = env.now;
    block_hash = block.header_hash;
    digest = block.header.mix_digest;
    signatures = block.header.sig_data;
    result = result;
  }

  sealed_again :
      (block : Block) (signatures : List Signature)
      → header_hash env (sealed block signatures)
        ≡ header_hash env (with_signatures block signatures)
  unfolding header_hash
  sealed_again block signatures = ground arith

  master_stores :
      (w w' : World) (core : BftCore) (block : Block) (mine : PayloadSets) (here : ℕ)
      → lookup ℕ_discrete block.header.mix_digest core.validator ≡ some mine
      → env.repository_by_block_hash w block.header.prev_block_hash ≡ some here
      → env.write_block_with_receipts w here
          (record block { header_hash = header_hash env block })
          mine.receipts
        ≡ some w'
      → commit_block env w core block
        ≡ returns (w', record block { header_hash = header_hash env block })
  unfolding commit_block
  master_stores w w' core block mine here e repo write = ground arith

  master_decides :
      (w w' : World) (policy : BftPolicy) (block : Block) (signatures : List Signature)
      (receivers : List Account)
      → ((msg : Message) → encodes env msg ≡ true)
      → commit_receivers policy.core ≡ returns receivers
      → commit_block env w policy.core (sealed block signatures)
        ≡ returns (w', sealed block signatures)
      → end_consensus env w policy block (some (record { signatures = signatures; ok = true }))
        ≡ returns (
          w',
          sealed block signatures,
          send_all receivers (commit_of (commit_for policy (sealed block signatures) true)) ∷ [],
        )
  unfolding end_consensus outcome_of commit send_commit
  master_decides w w' policy block signatures receivers enc rs stored =
      rw (enc (commit_of (commit_for policy (sealed block signatures) true)), rs, stored) refl

  replica_stores :
      (v v' : World) (policy : BftPolicy) (replica : BftCore) (block : Block)
      (signatures : List Signature) (receipts : ℕ) (there : ℕ)
      → lookup ℕ_discrete block.header.mix_digest replica.validator
        ≡ some (record { block = block; receipts = receipts })
      → env.repository_by_block_hash v block.header.prev_block_hash ≡ some there
      → env.write_block_with_receipts v there (sealed block signatures) receipts ≡ some v'
      → (receive_commit env v replica (commit_for policy (sealed block signatures) true)).0 ≡ v'
  unfolding receive_commit finish
  replica_stores v v' policy replica block signatures receipts there e repo write =
      let h = header_hash env (with_signatures block signatures) in
      rw (e, (==_iff h h).1 refl, repo, write) refl

  -- A failed end of ToConsensus: the commit goes to the other peers.
  abbrev pub failed_with : World → BftPolicy → Block → Outcome (World × Block × List Action)
  failed_with w policy block = returns (
    w,
    block,
    send_all (commit_filter policy.core policy.core.local)
          (commit_of (commit_for policy block false))
        ∷ notify Event.consensus_failed
        ∷ [],
  )

  commit_fails :
      (w : World) (policy : BftPolicy) (block : Block)
      → ((msg : Message) → encodes env msg ≡ true)
      → commit env w policy block false ≡ failed_with w policy block
  unfolding commit send_commit
  commit_fails w policy block enc = rw (enc (commit_of (commit_for policy block false))) refl

  nothing_stored :
      (v : World) (policy : BftPolicy) (replica : BftCore) (block : Block)
      → receive_commit env v replica (commit_for policy block false)
        ≡ (v, replica, notify Event.consensus_failed ∷ [])
  unfolding receive_commit
  nothing_stored v policy replica block = refl

  -- What ToConsensus decides at the master, the other nodes carry out. Messages can be encoded. Where the
  -- order of the receivers is found, and the master and another node have verified the block and can
  -- write it with its signatures, a good result is stored by the master and sent to the receivers as a
  -- commit, on which that other node stores the same block with the same signatures and hash. On an
  -- error, and on the timeout, the commit that the master sends to its peers makes any node that
  -- receives it report a failed consensus, and neither stores anything.
  pub decision_carried_out :
      (w w' v v' : World) (policy : BftPolicy) (replica : BftCore) (block : Block)
      (signatures : List Signature) (receivers : List Account) (mine : PayloadSets)
      (receipts here there : ℕ)
      → ((msg : Message) → encodes env msg ≡ true)
      → commit_receivers policy.core ≡ returns receivers
      → lookup ℕ_discrete block.header.mix_digest policy.core.validator ≡ some mine
      → lookup ℕ_discrete block.header.mix_digest replica.validator
        ≡ some (record { block = block; receipts = receipts })
      → env.repository_by_block_hash w block.header.prev_block_hash ≡ some here
      → env.repository_by_block_hash v block.header.prev_block_hash ≡ some there
      → env.write_block_with_receipts w here (sealed block signatures) mine.receipts ≡ some w'
      → env.write_block_with_receipts v there (sealed block signatures) receipts ≡ some v'
      → let bad = commit_for policy block false in
        let failed = failed_with w policy block in
        ((good : Commit) × (end_consensus env w policy block
              (some (record { signatures = signatures; ok = true }))
            ≡ returns (w', sealed block signatures, send_all receivers (commit_of good) ∷ []))
          × ((receive_commit env v replica good).0 ≡ v'))
        × (end_consensus env w policy block (some (record { signatures = signatures; ok = false }))
            ≡ failed)
        × (end_consensus env w policy block none ≡ failed)
        × (receive_commit env v replica bad ≡ (v, replica, notify Event.consensus_failed ∷ []))
  unfolding end_consensus outcome_of
  decision_carried_out w w' v v' policy replica block signatures receivers mine receipts here there
        enc rs e f repo repo' write write' =
      (
        (
          commit_for policy (sealed block signatures) true,
          master_decides w w' policy block signatures receivers enc rs (
              master_stores w w' policy.core (sealed block signatures) mine here e repo
                (rw (sealed_again block signatures) write)
              ∙ rw (sealed_again block signatures) refl),
          replica_stores v v' policy replica block signatures receipts there f repo' write',
        ),
        commit_fails w policy block enc,
        commit_fails w policy block enc,
        nothing_stored v policy replica block,
      )
