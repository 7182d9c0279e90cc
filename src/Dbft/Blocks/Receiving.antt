-- ===== src/Dbft/Blocks/Receiving.antt =====
-- The blocks that one node sends to another, from end to end.
use galaxy.Base.{
  ℕ, ◌^◌, ◌<◌, ◌≡◌, refl, ap, ◌⊎◌, inl, inr, List, [], ◌∷◌, ◌++◌, Option, none, some, Option-cases,
  length,
}
use galaxy.Base.Outcome.{panics}
use galaxy.Account.{Block}
use galaxy.External.{Env}
use galaxy.Messages.{
  SyncBlockResp, Payload, Kind, sync_block_resp, sync_block_resp_message, read_message,
}
use galaxy.Messages.Framing.{read_back}
use galaxy.Dbft.State.{DbftCore}
use galaxy.Dbft.Blocks.{encode_bare, write_block, receive_sync_block_resp}
use galaxy.Dbft.Dispatch.{handle_client, incoming}

module _ {World : Type 0} (env : Env World) where
  -- Blocks that are written one after another, from one state of the store to another.
  pub data Written : World → List Block → World → Type 0 where
    done : (w : World) → Written w [] w
    write :
        {w v u : World} (block : Block) {blocks : List Block}
        → write_block env w block ≡ some v
        → Written v blocks u
        → Written w (block ∷ blocks) u

  received_none : (w : World) → receive_sync_block_resp env w [] ≡ w
  unfolding receive_sync_block_resp
  received_none w = refl

  received_stop :
      (w : World) (block : Block) (blocks : List Block)
      → write_block env w block ≡ none
      → receive_sync_block_resp env w (block ∷ blocks) ≡ w
  unfolding receive_sync_block_resp
  received_stop w block blocks e = rw (e, receive_sync_block_resp) refl

  received_next :
      (w v : World) (block : Block) (blocks : List Block)
      → write_block env w block ≡ some v
      → receive_sync_block_resp env w (block ∷ blocks) ≡ receive_sync_block_resp env v blocks
  unfolding receive_sync_block_resp
  received_next w v block blocks e = rw (e, receive_sync_block_resp) refl

  -- The blocks of a response are written in order up to the first that cannot be, and none after it: the
  -- store is left as the writes of that first part leave it.
  pub receive_sync_block_resp-Written :
      (w : World) (blocks : List Block)
      → (good : List Block) × (rest : List Block) × (blocks ≡ good ++ rest)
        × Written w good (receive_sync_block_resp env w blocks)
        × ((rest ≡ [])
            ⊎ ((bad : Block) × (later : List Block) × (rest ≡ bad ∷ later)
                × (write_block env (receive_sync_block_resp env w blocks) bad ≡ none)))
  receive_sync_block_resp-Written w [] = rw (received_none w) ([], [], refl, done w, inl refl)
  receive_sync_block_resp-Written w (block ∷ blocks) =
      elim (Option-cases (write_block env w block)) [
        | inl e ↦
            rw (received_stop w block blocks e)
              ([], block ∷ blocks, refl, done w, inr (block, blocks, refl, e))
        | inr (v, e) ↦
            let (good, rest, same, written, stop) = receive_sync_block_resp-Written v blocks in
            rw (received_next w v block blocks e) (
              block ∷ good,
              rest,
              ap (λ (l : List Block). block ∷ l) same,
              write block e written,
              stop,
            )
      ]

  -- receiveSyncBlockReq encodes its response without the struct that a message of that type has. Where
  -- json leaves the pointer of that struct nil for an object that has no such field, whoever receives
  -- the response, of less than 2 ^ 32 bytes, panics on it.
  pub bare_response_panics :
      (unmarshal : Kind → List ℕ → Option Payload) (resp : SyncBlockResp) (bytes rest : List ℕ)
      (fuel : ℕ) (w : World) (core : DbftCore)
      → ((body : List ℕ)
          → env.marshal_blocks resp ≡ some body
          → unmarshal sync_block_resp body ≡ some (sync_block_resp_message none))
      → encode_bare env resp ≡ some bytes
      → length bytes < 2 ^ 32
      → handle_client env fuel w core (read_message unmarshal (bytes ++ rest)) ≡ panics
  unfolding encode_bare handle_client incoming
  bare_response_panics unmarshal resp bytes rest fuel w core law e small =
      rw
        (read_back (λ p. env.marshal_blocks resp) unmarshal (sync_block_resp_message none) bytes
          rest law e small)
        refl
