-- ===== src/Solo/Commitment.antt =====
-- When the single node commits a block.
use galaxy.Base.{
  ℕ, ◌+◌, ◌-◌, ◌^◌, ◌≡◌, sym, ap, ◌∙◌, List, ◌∷◌, none, some, length, ◌==◌, if◌then◌else◌,
}
use galaxy.Base.Words.{u8}
use galaxy.Account.{Account, Block}
use galaxy.Solo.{
  SoloPolicy, SoloProposal, SoloTurn, propose, commit_solo, hashed, Validator, verify_locally,
}
use galaxy.Solo.Signers.{SignedBy}

-- The versions, from one to the next, and the greatest to one.
abbrev pub next_version : ℕ → ℕ
next_version n = if n == 2 ^ 64 - 1 then 1 else n + 1

-- A block that is good for the policy: the only peer validates it, and the local node has signed it.
pub record Good (v : Validator) (policy : SoloPolicy) (block block' : Block) : Type 0 where
  pub alone : u8 (length policy.peers) ≡ 1
  pub validated :
      (peer : Account) × (rest : List Account) × (policy.peers ≡ peer ∷ rest)
      × (v.validate_block peer block policy.enable_local_signature_verify ≡ some block')
  pub signed : SignedBy v block'.header.mix_digest policy.local.address block'.header.sig_data

module _ (v : Validator) where
  -- What a commit leaves.
  abbrev pub committed_turn : SoloPolicy → ℕ → Block → SoloTurn
  committed_turn policy version block = record {
    policy = record policy { version = version };
    effects = commit_solo policy (hashed v block);
    error = none;
  }

  -- The proposal that ToConsensus prepares, and the policy that it goes on with.
  abbrev pub restarted : SoloPolicy → SoloPolicy
  restarted policy = record policy {
    version = if policy.version == 2 ^ 64 - 1 then 0 else policy.version;
  }

  abbrev ready_proposal : SoloPolicy → Block → SoloProposal
  ready_proposal policy block = record {
    block = block;
    version = (restarted policy).version + 1;
    status = propose;
  }

  verified :
      (policy : SoloPolicy) (block block' : Block)
      → Good v policy block block'
      → verify_locally v (restarted policy) block ≡ some block'
  unfolding verify_locally
  verified policy block block' good =
      let (peer, rest, peers, valid) = good.validated in
      let one : u8 (length (peer ∷ rest)) ≡ 1 =
        ap (λ (l : List Account). u8 (length l)) (sym peers) ∙ good.alone in
      rw (peers, one) valid
