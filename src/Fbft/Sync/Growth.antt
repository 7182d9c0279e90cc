-- ===== src/Fbft/Sync/Growth.antt =====
-- What a response with blocks makes of the store.
use galaxy.Base.{
  ℕ, ◌<◌, ◌≡◌, refl, ◌⊎◌, inl, inr, Bool, List, [], ◌∷◌, Option, none, some, arith, Option-cases,
  Bool-cases, ltb, if◌then◌else◌, subst,
}
use galaxy.Base.Outcome.{returns, deref, OnReturn, OnReturn-bind, OnReturn-map, OnReturn-holds}
use galaxy.Account.{Block}
use galaxy.External.{Env}
use galaxy.Payloads.{verify_payload_use_existed_repository}
use galaxy.Messages.{SyncBlockResp}
use galaxy.Fbft.State.{Core}
use galaxy.Fbft.Sync.{write_verified, receive_block, receive_blocks, receive_sync_block_response}

module _ {World : Type 0} (env : Env World) where
  -- A block that is written: above the height of the latest state, and verified on that state.
  pub record Written (sync_verify : Bool) (block : Block) (w w' : World) : Type 0 where
    pub chain : ℕ
    pub latest : env.latest_state_repository w ≡ some chain
    pub higher : env.current_block_height w chain < block.header.height
    pub receipt : ℕ
    pub verified : env.verify_block w chain block sync_verify ≡ some receipt
    pub written : env.write_block_with_receipts w chain block receipt ≡ some w'

  -- The blocks of a list in its order, each written or passed over.
  pub data Grown (sync_verify : Bool) : List Block → World → World → Type 0 where
    done : {w : World} → Grown sync_verify [] w w
    skip :
        {block : Block} {blocks : List Block} {w w' : World}
        → Grown sync_verify blocks w w'
        → Grown sync_verify (block ∷ blocks) w w'
    write :
        {block : Block} {blocks : List Block} {w v w' : World}
        → Written sync_verify block w v
        → Grown sync_verify blocks v w'
        → Grown sync_verify (block ∷ blocks) w w'

  deref-some : (m : Option ℕ) (a : ℕ) → deref m ≡ returns a → m ≡ some a
  deref-some none a e = cc
  deref-some (some b) a e = cc

  receive_block_outcome :
      (w : World) (chain : ℕ) (block : Block) (sync_verify : Bool)
      → env.latest_state_repository w ≡ some chain
      → let w' =
          if ltb (env.current_block_height w chain) block.header.height
          then write_verified env w chain block sync_verify
          else w in
        (w' ≡ w) ⊎ Written sync_verify block w w'
  unfolding write_verified verify_payload_use_existed_repository
  receive_block_outcome w chain block sync_verify latest =
      elim (Bool-cases (ltb (env.current_block_height w chain) block.header.height)) [
        | inr low ↦ rw low (inl refl)
        | inl high ↦ rw high (elim (Option-cases (env.verify_block w chain block sync_verify)) [
          | inl e ↦ rw (e, write_verified) (inl refl)
          | inr (receipt, e) ↦
              rw (e, write_verified)
                (elim (Option-cases (env.write_block_with_receipts w chain block receipt)) [
                  | inl f ↦ rw f (inl refl)
                  | inr (v, f) ↦ rw f (
                      inr (record {
                        chain = chain;
                        latest = latest;
                        higher = ground (arith, high);
                        receipt = receipt;
                        verified = e;
                        written = f;
                      }))
                ])
        ])
      ]

  receive_block-Written :
      (w : World) (block : Block) (sync_verify : Bool)
      → OnReturn
          (λ w'. (w' ≡ w) ⊎ Written sync_verify block w w')
          (receive_block env w block sync_verify)
  unfolding receive_block write_verified verify_payload_use_existed_repository
  receive_block-Written w block sync_verify =
      OnReturn-bind (λ w'. (w' ≡ w) ⊎ Written sync_verify block w w')
        (deref (env.latest_state_repository w)) _
        (λ chain e.
          receive_block_outcome w chain block sync_verify
            (deref-some (env.latest_state_repository w) chain e))

  receive_blocks-Grown :
      (blocks : List Block) (w : World) (sync_verify : Bool)
      → OnReturn (Grown sync_verify blocks w) (receive_blocks env w blocks sync_verify)
  unfolding receive_blocks
  receive_blocks-Grown [] w sync_verify = done
  receive_blocks-Grown (block ∷ blocks) w sync_verify =
      OnReturn-bind (Grown sync_verify (block ∷ blocks) w) (receive_block env w block sync_verify) _
        (λ v e.
          OnReturn-map (Grown sync_verify blocks v) (Grown sync_verify (block ∷ blocks) w)
            (receive_blocks env v blocks sync_verify)
            (λ u rest.
              elim (OnReturn-holds (λ x. (x ≡ w) ⊎ Written sync_verify block w x)
                (receive_block env w block sync_verify) v
                (receive_block-Written w block sync_verify) e) [
                  | inl same ↦ skip (subst (λ (x : World). Grown sync_verify blocks x u) same rest)
                  | inr new ↦ write new rest
                ])
            (receive_blocks-Grown blocks v sync_verify))

  -- A response with blocks writes only blocks of the response, in their order, each once: a block that
  -- is higher than the latest state at that moment and that verifies on that state. The others are
  -- passed over.
  pub receive_sync_block_response-Grown :
      (w : World) (core : Core) (response : SyncBlockResp)
      → OnReturn
          (Grown core.enable_sync_verify_signature response.blocks w)
          (receive_sync_block_response env w core response)
  unfolding receive_sync_block_response
  receive_sync_block_response-Grown w core response =
      receive_blocks-Grown response.blocks w core.enable_sync_verify_signature
