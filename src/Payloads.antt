-- ===== src/Payloads.antt =====
-- consensus/utils/payloads.go and HeaderHash of consensus/common/common.go: what the consensus asks
-- of the validator about a block.
use galaxy.Base.{ℕ, Bool, Option, none, some, ◌==◌, if◌then◌else◌}
use galaxy.Account.{Account, Block, Signature}
use galaxy.External.{Env}

module _ {World : Type 0} (env : Env World) where
  -- VerifyPayloadUseExistedRepository
  unfoldable pub verify_payload_use_existed_repository : World → ℕ → Block → Bool → Option ℕ
  verify_payload_use_existed_repository w chain payload enable_sign_verify =
      env.verify_block w chain payload enable_sign_verify

  -- VerifyPayload: on the state after the parent block.
  unfoldable pub verify_payload : World → Block → Bool → Option ℕ
  unfolding verify_payload_use_existed_repository
  verify_payload w payload enable_sign_verify =
      elim (env.repository_by_block_hash w payload.header.prev_block_hash) [
        | none ↦ none
        | some chain ↦ verify_payload_use_existed_repository w chain payload enable_sign_verify
      ]

  -- SignPayload
  unfoldable pub sign_payload : Account → ℕ → Option Signature
  sign_payload account digest = env.sign account digest

  -- SignatureVerify
  unfoldable pub signature_verify : Account → Signature → ℕ → Bool
  signature_verify account sign digest = env.verify digest sign == account.address

  -- HeaderHash: a hash that the block carries is believed.
  unfoldable pub header_hash : Block → ℕ
  header_hash block =
      if block.header_hash == 0 then env.rlp_hash block.header else block.header_hash
