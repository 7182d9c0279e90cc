-- ===== src/Bft/Commits/Writing.antt =====
-- What receiveCommit writes, and what it asks for.
use galaxy.Base.{
  ℕ, ◌≡◌, ◌≢◌, refl, sym, ◌∙◌, ◌⊎◌, inl, inr, true, List, [], some, Option-cases, Bool-cases,
  lookup, insert, lookup-insert_self, ℕ_discrete, ◌==◌, ==_iff, arith,
}
use galaxy.Account.{Block, Signature}
use galaxy.External.{Env}
use galaxy.Payloads.{header_hash}
use galaxy.Messages.{Commit}
use galaxy.Bft.State.{BftCore, PayloadSets}
use galaxy.Bft.Commits.{with_signatures, finish, receive_commit}

module _ {World : Type 0} (env : Env World) where
  -- The block that a commit makes of an entry.
  abbrev pub committed_block : PayloadSets → List Signature → Block
  committed_block entry signatures =
      let signed = with_signatures entry.block signatures in
      record signed { header_hash = header_hash env signed }

  -- That a commit writes the block of its digest, with its signatures and its hash.
  abbrev pub Writes : World → World → BftCore → Commit → Type 0
  Writes w w' core commit =
      (entry : PayloadSets) × (chain : ℕ) × (lookup ℕ_discrete commit.digest core.validator
        ≡ some entry)
      × (header_hash env (with_signatures entry.block commit.signatures) ≡ commit.block_hash)
      × (env.repository_by_block_hash w entry.block.header.prev_block_hash ≡ some chain)
      × (env.write_block_with_receipts w chain (committed_block entry commit.signatures)
            entry.receipts
          ≡ some w')

  -- The core after a commit that is refused.
  abbrev reset : BftCore → Commit → PayloadSets → BftCore
  reset core commit entry = record core {
    validator =
        insert ℕ_discrete commit.digest (record entry { block = with_signatures entry.block [] })
          core.validator;
  }

  refused :
      (w : World) (core : BftCore) (commit : Commit) (entry : PayloadSets)
      → commit.result ≡ true
      → lookup ℕ_discrete commit.digest core.validator ≡ some entry
      → header_hash env (with_signatures entry.block commit.signatures) ≢ commit.block_hash
      → receive_commit env w core commit ≡ (w, reset core commit entry, [])
  unfolding receive_commit finish
  refused w core commit entry ok e n = ground arith

  found :
      (w : World) (core : BftCore) (commit : Commit) (entry : PayloadSets)
      → commit.result ≡ true
      → lookup ℕ_discrete commit.digest core.validator ≡ some entry
      → (receive_commit env w core commit).0 ≡ (finish env w entry commit).0
  unfolding receive_commit
  found w core commit entry ok e = rw (ok, e) refl

  -- A commit that is refused for its hash does no lasting harm: nothing is stored, and a good commit on
  -- the same digest then stores what it would have stored without it.
  receive_commit_recovers :
      (w : World) (core : BftCore) (bad good : Commit) (entry : PayloadSets)
      → bad.result ≡ true
      → good.result ≡ true
      → good.digest ≡ bad.digest
      → lookup ℕ_discrete bad.digest core.validator ≡ some entry
      → header_hash env (with_signatures entry.block bad.signatures) ≢ bad.block_hash
      → let after = receive_commit env w core bad in
        (after.0 ≡ w) × ((receive_commit env w after.1 good).0 ≡ (receive_commit env w core good).0)
  unfolding finish
  receive_commit_recovers w core bad good entry ok ok' same e n =
      rw (refused w core bad entry ok e n) (
        refl,
        found w (reset core bad entry) good
              (record entry { block = with_signatures entry.block [] }) ok'
              (rw same (
                lookup-insert_self ℕ_discrete bad.digest
                  (record entry { block = with_signatures entry.block [] }) core.validator))
            ∙ sym (found w core good entry ok' (rw same e)),
      )

  finish_writes :
      (w : World) (entry : PayloadSets) (commit : Commit)
      → ((finish env w entry commit).0 ≡ w)
        ⊎ ((chain : ℕ) × (header_hash env (with_signatures entry.block commit.signatures)
              ≡ commit.block_hash)
            × (env.repository_by_block_hash w entry.block.header.prev_block_hash ≡ some chain)
            × (env.write_block_with_receipts w chain
                  (committed_block entry commit.signatures)
                  entry.receipts
                ≡ some (finish env w entry commit).0))
  unfolding finish
  finish_writes w entry commit =
      let signed = with_signatures entry.block commit.signatures in
      elim (Bool-cases (header_hash env signed == commit.block_hash)) [
        | inr f ↦ inl (rw f refl)
        | inl h ↦
            elim (Option-cases
              (env.repository_by_block_hash w entry.block.header.prev_block_hash)) [
                | inl f ↦ inl (rw (h, f) refl)
                | inr (chain, r) ↦
                    elim (Option-cases (
                      env.write_block_with_receipts w chain
                        (committed_block entry commit.signatures) entry.receipts)) [
                          | inl f ↦ inl (rw (h, r, f) refl)
                          | inr (w', s) ↦ inr (
                            chain,
                            (==_iff (header_hash env signed) commit.block_hash).0 h,
                            r,
                            rw (h, r, s) refl,
                          )
                        ]
              ]
      ]

  -- A commit that stores anything stores the block that stands under its digest, with the commit's
  -- signatures and the hash that HeaderHash then gives, which is the hash that the commit names.
  pub receive_commit-Writes :
      (w : World) (core : BftCore) (commit : Commit)
      → let w' = (receive_commit env w core commit).0 in
        (w' ≡ w) ⊎ (commit.result ≡ true × Writes w w' core commit)
  unfolding receive_commit
  receive_commit-Writes w core commit = elim (Bool-cases commit.result) [
    | inr f ↦ ground (arith, f)
    | inl t ↦ elim (Option-cases (lookup ℕ_discrete commit.digest core.validator)) [
      | inl f ↦ inl (rw (t, f) refl)
      | inr (entry, e) ↦
          rw (t, e)
            (elim (finish_writes w entry commit) [
              | inl same ↦ inl same
              | inr (chain, h, r, s) ↦ inr (refl, (entry, chain, refl, h, r, s))
            ])
    ]
  ]

  -- The signatures of a commit are not looked at: a commit without any, from any account, is stored like
  -- another if it names the hash that the block then has.
  unsigned_commit_writes :
      (w w' : World) (core : BftCore) (commit : Commit) (entry : PayloadSets) (chain : ℕ)
      → commit.result ≡ true
      → commit.signatures ≡ []
      → lookup ℕ_discrete commit.digest core.validator ≡ some entry
      → commit.block_hash ≡ header_hash env (with_signatures entry.block [])
      → env.repository_by_block_hash w entry.block.header.prev_block_hash ≡ some chain
      → env.write_block_with_receipts w chain (committed_block entry []) entry.receipts ≡ some w'
      → (receive_commit env w core commit).0 ≡ w'
  unfolding finish
  unsigned_commit_writes w w' core commit entry chain ok none_signed e hash repo write =
      found w core commit entry ok e ∙ ground arith
