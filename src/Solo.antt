-- ===== src/Solo.antt =====
-- consensus/policy/solo/solo.go: the policy of a single node, which verifies, signs and commits its own
-- blocks. The validator and the recovery of a signer are parameters.
pub mod Signers
pub mod Commitment
mod Examples
use galaxy.Base.{
  ℕ, ◌+◌, ◌-◌, ◌^◌, Bool, true, false, not, ◌&&◌, List, [], ◌∷◌, Option, none, some, ltb, leb, ◌==◌,
  if◌then◌else◌, length, lookup, insert, ℕ_discrete,
}
use galaxy.Base.Words.{u8}
use galaxy.Base.Outcome.{Outcome, returns, panics}
use galaxy.Account.{Account, Block, Signature}
use galaxy.Fbft.State.{Effect, Event, notify, block_switch}

-- ConsensusStatus
pub data ConsensusStatus : Type 0 where
  proposing propose approve reject committed : ConsensusStatus

abbrev pub is_proposing : ConsensusStatus → Bool
is_proposing proposing = true
is_proposing _ = false

abbrev pub is_propose : ConsensusStatus → Bool
is_propose propose = true
is_propose _ = false

abbrev pub is_committed : ConsensusStatus → Bool
is_committed committed = true
is_committed _ = false

-- SoloPolicy, without its name and its tolerance, which is 1.
pub record SoloPolicy : Type 0 where
  pub version : ℕ  -- uint64
  pub local : Account
  pub peers : List Account
  pub master : Account
  pub enable_empty_block : Bool
  pub enable_local_signature_verify : Bool

pub record SoloProposal : Type 0 where
  pub block : Block
  pub version : ℕ  -- uint64
  pub status : ConsensusStatus

-- The errors of ToConsensus.
pub data SoloError : Type 0 where
  prepare_failed verify_failed few_signatures no_own_signature submit_failed status_fault :
      SoloError

-- The policy, what it did, and the error, `none` for nil.
pub record SoloTurn : Type 0 where
  pub policy : SoloPolicy
  pub effects : List Effect
  pub error : Option SoloError

-- Initialization: it panics for any number of accounts but one, by their uint8.
unfoldable pub initialize : SoloPolicy → Account → Account → List Account → Outcome SoloPolicy
initialize policy local master accounts =
    if u8 (length accounts) == 1
    then returns (record policy { local = local; master = master; peers = accounts })
    else panics

-- toSoloProposal, which starts the versions again after the greatest.
unfoldable pub to_solo_proposal : SoloPolicy → Block → SoloPolicy × SoloProposal
to_solo_proposal policy block =
    let version = if policy.version == 2 ^ 64 - 1 then 0 else policy.version in
    (
      record policy { version = version },
      record { block = block; version = version + 1; status = proposing },
    )

-- prepareConsensus; `none` is its error.
unfoldable pub prepare_consensus : SoloPolicy → SoloProposal → Option SoloProposal
prepare_consensus policy p =
    if leb p.version policy.version
    then none
    else if not (is_proposing p.status)
    then none
    else some (record p { status = propose })

-- submitConsensus; `none` is its error.
unfoldable pub submit_consensus : SoloProposal → Option SoloProposal
submit_consensus p =
    if not (is_propose p.status) then none else some (record p { status = committed })

-- commitBlock
unfoldable pub commit_solo : SoloPolicy → Block → List Effect
commit_solo policy block =
    if not policy.enable_empty_block && elim block.transactions [ [] ↦ true | _ ∷ _ ↦ false ]
    then notify Event.block_without_txs ∷ []
    else block_switch block ∷ []

failed : SoloPolicy → SoloError → SoloTurn
failed policy error = record {
  policy = policy;
  effects = notify Event.consensus_failed ∷ [];
  error = some error;
}

-- The code that the policy calls.
pub record Validator : Type 0 where
  -- signature.Verify: the address of the signer, or `none` for an error.
  pub recover : ℕ → Signature → Option ℕ
  -- ValidateBlock: the block as it leaves it, with the signature that it adds, or `none` for an error.
  pub validate_block : Account → Block → Bool → Option Block
  -- The rlp hash of the header, for a block that carries no hash.
  pub rlp_hash : Block → ℕ

-- The loop of ToConsensus that gathers the valid signatures by their signers.
unfoldable pub valid_signs :
    Validator → ℕ → List Signature → List (ℕ × Signature) → List (ℕ × Signature)
valid_signs v digest [] signs = signs
valid_signs v digest (value ∷ values) signs = elim (v.recover digest value) [
  | none ↦ valid_signs v digest values signs
  | some address ↦ valid_signs v digest values (insert ℕ_discrete address value signs)
]

module _ (v : Validator) where
  -- toConsensus: the block as the validator leaves it, or `none` for false.
  unfoldable pub verify_locally : SoloPolicy → Block → Option Block
  verify_locally policy block = elim policy.peers [
    | [] ↦ none
    | local ∷ rest ↦
        if not (u8 (length (local ∷ rest)) == 1)
        then none
        else v.validate_block local block policy.enable_local_signature_verify
  ]

  -- The block that is committed, with HeaderHash of consensus/common/common.go.
  unfoldable pub hashed : Block → Block
  hashed block = record block {
    header_hash = if block.header_hash == 0 then v.rlp_hash block else block.header_hash;
  }

  -- ToConsensus from submitConsensus on.
  submit : SoloPolicy → SoloProposal → Block → SoloTurn
  unfolding submit_consensus commit_solo failed hashed
  submit policy p block = elim (submit_consensus p) [
    | none ↦ failed policy submit_failed
    | some p' ↦ if not (is_committed p'.status) then failed policy status_fault else record {
      policy = record policy { version = p'.version };
      effects = commit_solo policy (hashed block);
      error = none;
    }
  ]

  -- ToConsensus from the count of the signatures on.
  count_signs : SoloPolicy → SoloProposal → Block → SoloTurn
  unfolding submit
  count_signs policy p block =
      let signs = valid_signs v block.header.mix_digest block.header.sig_data [] in
      if ltb (u8 (length signs)) 1
      then failed policy few_signatures
      else elim (lookup ℕ_discrete policy.local.address signs) [
        | none ↦ failed policy no_own_signature
        | some _ ↦ submit policy p block
      ]

  -- ToConsensus
  unfoldable pub to_consensus_solo : SoloPolicy → Block → SoloTurn
  unfolding to_solo_proposal prepare_consensus count_signs
  to_consensus_solo policy block =
      let (policy', proposal) = to_solo_proposal policy block in
      elim (prepare_consensus policy' proposal) [
        | none ↦ failed policy' prepare_failed
        | some proposal' ↦ elim (verify_locally policy' block) [
          | none ↦ failed policy' verify_failed
          | some block' ↦ count_signs policy' proposal' block'
        ]
      ]
