-- ===== src/Fbft/Policy/Rounds.antt =====
-- One consensus of the policy at a time, and what its end commits.
use galaxy.Base.{
  ◌≡◌, refl, ap, ◌∙◌, if◌then◌else◌, ◌↔◌, Bool, true, false, List, Option, none, some, In,
}
use galaxy.Account.{Block, Signature}
use galaxy.Payloads.{header_hash}
use galaxy.External.{Env}
use galaxy.Fbft.State.{ConsensusResult, block_switch}
use galaxy.Fbft.Leader.Committing.{try_to_commit_switches}
use galaxy.Fbft.Policy.{FbftPolicy, agreed_block, end_consensus}

-- A block with other signatures.
abbrev pub signed_by : Block → List Signature → Block
signed_by block signatures =
    let header = block.header in record block { header = record header { sig_data = signatures } }

module _ {World : Type 0} (env : Env World) where
  true_ne : false ≡ true → ⊥
  true_ne e = cc

  -- A block is switched by the end of ToConsensus only if the core found it committed: it is then the
  -- block of the round, with the signatures of the result, the hash that HeaderHash gives the block
  -- with those signatures, and nothing else changed. The end makes room for the next round, and its error is nil exactly on a good result.
  pub end_consensus_switches :
      (policy : FbftPolicy) (block switched : Block) (outcome : Option ConsensusResult)
      → let out = end_consensus env policy block outcome in
        (In (block_switch switched) out.1
          → (result : ConsensusResult) × (outcome ≡ some result)
            × (result.ok ≡ true)
            × (switched.header.sig_data ≡ result.signatures)
            × (switched.header_hash ≡ header_hash env (signed_by block result.signatures))
            × (switched ≡ record (signed_by block result.signatures) {
              header_hash = header_hash env (signed_by block result.signatures);
            }))
        × (out.0.is_processing ≡ false)
        × ((out.2 ≡ true)
            ↔ ((result : ConsensusResult) × (outcome ≡ some result) × (result.ok ≡ true)))
  unfolding end_consensus agreed_block
  end_consensus_switches policy block switched none = (
    (λ i. absurd (true_ne (try_to_commit_switches env policy.core block switched false i).0)),
    refl,
    ((λ e. absurd (true_ne e)), (λ h. cc)),
  )
  end_consensus_switches policy block switched (some result) = (
    (λ i. from_result (try_to_commit_switches env policy.core _ switched result.ok i)),
    refl,
    ((λ e. (result, refl, e)), (λ h. cc)),
  )
    where
      from_result :
          (result.ok ≡ true)
            × (switched ≡ (if result.ok then agreed_block env block result else block))
          → (r : ConsensusResult) × (some result ≡ some r)
            × (r.ok ≡ true)
            × (switched.header.sig_data ≡ r.signatures)
            × (switched.header_hash ≡ header_hash env (signed_by block r.signatures))
            × (switched ≡ record (signed_by block r.signatures) {
              header_hash = header_hash env (signed_by block r.signatures);
            })
      from_result (ok, same) =
          let is =
            same ∙ ap (λ (b : Bool). if b then agreed_block env block result else block) ok in
          (
            result,
            refl,
            ok,
            ap (λ (b : Block). b.header.sig_data) is,
            ap (λ (b : Block). b.header_hash) is,
            is,
          )
