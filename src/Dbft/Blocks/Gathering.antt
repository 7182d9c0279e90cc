-- ===== src/Dbft/Blocks/Gathering.antt =====
-- How receiveSyncBlockReq ends.
use galaxy.Base.{
  ℕ, zero, suc, ◌+◌, ◌^◌, ◌≤◌, ◌<◌, ◌≡◌, refl, ◌⊎◌, inl, inr, true, List, [], ◌∷◌, Option, none,
  some, arith, Option-cases, length, leb,
}
use galaxy.Base.Words.{add64}
use galaxy.Base.Outcome.{Outcome, returns, panics, ◌>>=◌}
use galaxy.Account.{Block}
use galaxy.External.{Env}
use galaxy.Messages.{SyncBlockReq, SyncBlockResp}
use galaxy.Bft.State.{send_bare}
use galaxy.Dbft.Blocks.{encode_bare, blocks_between, receive_sync_block_req}

module _ {World : Type 0} (env : Env World) where
  -- Blocks that stand at the heights from `index` on, one at each.
  abbrev pub Standing : World → ℕ → ℕ → List Block → Type 0
  Standing w chain index [] = Unit
  Standing w chain index (block ∷ blocks) =
      (env.block_by_height w chain index ≡ some block) × Standing w chain (index + 1) blocks

  -- A height of a range that has no block.
  abbrev pub Lacks : World → ℕ → ℕ → ℕ → Type 0
  Lacks w chain index last =
      (h : ℕ) × (index ≤ h) × (h ≤ last) × (env.block_by_height w chain h ≡ none)

  abbrev Gathered : World → ℕ → ℕ → ℕ → ℕ → Outcome (Option (List Block)) → Type 0
  Gathered w chain n index last out =
      (Lacks w chain index last × (out ≡ panics))
      ⊎ ((blocks : List Block) × (out ≡ returns (some blocks))
          × Standing w chain index blocks
          × (length blocks ≡ n))

  no_more :
      (fuel : ℕ) (w : World) (chain index last : ℕ)
      → last < index
      → blocks_between env (suc fuel) w chain index last ≡ returns (some [])
  unfolding blocks_between
  no_more fuel w chain index last h = ground arith

  lacking :
      (fuel : ℕ) (w : World) (chain index last : ℕ)
      → index ≤ last
      → env.block_by_height w chain index ≡ none
      → blocks_between env (suc fuel) w chain index last ≡ panics
  unfolding blocks_between
  lacking fuel w chain index last h f = ground arith

  next_block :
      (fuel : ℕ) (w : World) (chain index last : ℕ) (block : Block)
      → index ≤ last
      → last + 1 < 2 ^ 64
      → env.block_by_height w chain index ≡ some block
      → blocks_between env (suc fuel) w chain index last ≡ (
          blocks_between env fuel w chain (index + 1) last >>= λ rest.
          returns (elim rest [ none ↦ none | some blocks ↦ some (block ∷ blocks) ]))
  unfolding blocks_between
  next_block fuel w chain index last block h small f =
      let reached : leb index last ≡ true = ground arith in
      let step : add64 index 1 ≡ index + 1 = omega arith in rw (f, reached, step) refl

  blocks_between_ends :
      (n fuel : ℕ) (w : World) (chain index last : ℕ)
      → n < fuel
      → index + n ≡ last + 1
      → last + 1 < 2 ^ 64
      → Gathered w chain n index last (blocks_between env fuel w chain index last)
  blocks_between_ends n zero w chain index last h e small = absurd (omega arith)
  blocks_between_ends zero (suc fuel) w chain index last h e small =
      inr ([], no_more fuel w chain index last (omega arith), tt, refl)
  blocks_between_ends (suc n) (suc fuel) w chain index last h e small =
      elim (Option-cases (env.block_by_height w chain index)) [
        | inl f ↦
            inl (
              (index, omega arith, omega arith, f),
              lacking fuel w chain index last (omega arith) f,
            )
        | inr (block, f) ↦
            elim (blocks_between_ends n fuel w chain (index + 1) last (omega arith) (omega arith)
              small) [
                | inl ((k, low, high, f'), p) ↦ inl (
                  (k, omega arith, high, f'),
                  rw (next_block fuel w chain index last block (omega arith) small f, p) refl,
                )
                | inr (blocks, p, standing, len) ↦ inr (
                  block ∷ blocks,
                  rw (next_block fuel w chain index last block (omega arith) small f, p) refl,
                  (f, standing),
                  omega (arith, len),
                )
              ]
      ]

  -- receiveSyncBlockReq on a range that ends below the greatest uint64, where there is a state and
  -- responses can be encoded: with as many turns as there are heights and one more, it panics if a height
  -- of the range has no block, and otherwise sends the blocks of all heights of the range, in order, in
  -- one response to the account of the request.
  pub receive_sync_block_req_ends :
      (n fuel : ℕ) (w : World) (chain : ℕ) (req : SyncBlockReq)
      → n < fuel
      → req.block_start + n ≡ req.block_end + 1
      → req.block_end + 1 < 2 ^ 64
      → env.latest_state_repository w ≡ some chain
      → ((resp : SyncBlockResp) → (bytes : List ℕ) × (encode_bare env resp ≡ some bytes))
      → (Lacks w chain req.block_start req.block_end
          × (receive_sync_block_req env fuel w req ≡ panics))
        ⊎ ((blocks : List Block) × (receive_sync_block_req env fuel w req
              ≡ returns (some (send_bare req.account (record { blocks = blocks }) ∷ [])))
            × Standing w chain req.block_start blocks
            × (length blocks ≡ n))
  unfolding receive_sync_block_req
  receive_sync_block_req_ends n fuel w chain req h e small latest enc =
      elim (blocks_between_ends n fuel w chain req.block_start req.block_end h e small) [
        | inl (lacks, p) ↦ inl (lacks, rw (latest, p) refl)
        | inr (blocks, p, standing, len) ↦
            inr (blocks, rw (latest, p, (enc (record { blocks = blocks })).1) refl, standing, len)
      ]
