-- ===== src/Fbft/Sync/Ranges.antt =====
-- The loops over a range of heights: how many turns they need, what they send, and the one end that
-- they never reach.
use galaxy.Base.{
  ℕ, zero, suc, ◌+◌, ◌-◌, ◌^◌, ◌≤◌, ◌<◌, ◌≡◌, refl, inl, inr, true, false, List, [], ◌∷◌, Option,
  none, some, arith, Option-cases,
}
use galaxy.Base.Words.{add64}
use galaxy.Account.{Account, Block}
use galaxy.External.{Env}
use galaxy.Fbft.State.{Core, BlockSyncRequest, Effect, unicast, encodes}
use galaxy.Fbft.Sync.{send_sync_block_msg, blocks_wanted, sync_blocks, sync_turn, do_sync_block}

module _ {World : Type 0} (env : Env World) where
  -- One request for each height from `index`, `n` of them.
  abbrev pub requests : Core → Account → ℕ → ℕ → List Effect
  requests core target index zero = []
  requests core target index (suc n) =
      unicast target (blocks_wanted env core index index) ∷ requests core target (index + 1) n

  -- The blocks of `n` heights from `index`, those that are there.
  abbrev pub stored : World → ℕ → ℕ → ℕ → List Block
  stored w chain index zero = []
  stored w chain index (suc n) = elim (env.block_by_height w chain index) [
    | none ↦ stored w chain (index + 1) n
    | some block ↦ block ∷ stored w chain (index + 1) n
  ]

  -- For an end below the greatest uint64, where every request can be encoded, as many turns as
  -- there are heights and one more are enough for sendSyncBlockMsg: each height of the range is
  -- asked for once, in order, by a request of its own.
  pub send_sync_block_msg_all :
      (n fuel : ℕ) (core : Core) (index last : ℕ) (target : Account)
      → n < fuel
      → index + n ≡ last + 1
      → last + 1 < 2 ^ 64
      → ((i : ℕ) → encodes env (blocks_wanted env core i i) ≡ true)
      → send_sync_block_msg env fuel core index last target ≡ some (requests core target index n)
  unfolding send_sync_block_msg
  send_sync_block_msg_all zero (suc fuel) core index last target h e small ok = ground arith
  send_sync_block_msg_all (suc n) (suc fuel) core index last target h e small ok = ground (
    arith,
    send_sync_block_msg_all n fuel core (index + 1) last target (omega arith) (omega arith) small
        ok,
    ok index,
  )
  send_sync_block_msg_all n zero core index last target h e small ok = absurd (omega arith)

  -- For an end below the greatest uint64, as many turns as there are heights and one more are
  -- enough to gather the blocks of a range: all that are there, in order.
  sync_blocks_all :
      (n fuel : ℕ) (w : World) (chain index last : ℕ)
      → n < fuel
      → index + n ≡ last + 1
      → last + 1 < 2 ^ 64
      → sync_blocks env fuel w chain index last ≡ some (stored w chain index n)
  unfolding sync_blocks
  sync_blocks_all zero (suc fuel) w chain index last h e small = ground arith
  sync_blocks_all (suc n) (suc fuel) w chain index last h e small =
      elim (Option-cases (env.block_by_height w chain index)) [
        | inl f ↦
            rw (f, stored)
              (ground (
                arith,
                sync_blocks_all n fuel w chain (index + 1) last (omega arith) (omega arith) small,
              ))
        | inr (b, f) ↦
            rw (f, stored)
              (ground (
                arith,
                sync_blocks_all n fuel w chain (index + 1) last (omega arith) (omega arith) small,
              ))
      ]
  sync_blocks_all n zero w chain index last h e small = absurd (omega arith)

  -- Where the end of a range is the greatest uint64, the loop that gathers its blocks takes more
  -- turns than any number, wherever it starts.
  sync_blocks_endless :
      (fuel : ℕ) (w : World) (chain index : ℕ)
      → index < 2 ^ 64
      → sync_blocks env fuel w chain index (2 ^ 64 - 1) ≡ none
  unfolding sync_blocks
  sync_blocks_endless zero w chain index h = refl
  sync_blocks_endless (suc fuel) w chain index h =
      ground (arith, sync_blocks_endless fuel w chain (add64 index 1) (omega arith))

  sync_turn_reached :
      (v : World) (core : Core) (handle : ℕ) (req : BlockSyncRequest) (block : Block)
      → env.current_block v handle ≡ some block
      → req.last ≤ block.header.height
      → sync_turn env v core handle req ≡ some ([], false)
  unfolding sync_turn
  sync_turn_reached v core handle req block found h = rw (found, sync_turn) (ground arith)

  -- A node that has reached the end of a request for blocks is done with it: it asks for nothing.
  pub do_sync_block_reached :
      (v : World) (core : Core) (handle : ℕ) (req : BlockSyncRequest) (block : Block)
      (rounds : List (Option World))
      → env.current_block v handle ≡ some block
      → req.last ≤ block.header.height
      → do_sync_block env v core handle req rounds ≡ some ([], true)
  unfolding do_sync_block
  do_sync_block_reached v core handle req block [] found h =
      rw (sync_turn_reached v core handle req block found h, do_sync_block) refl
  do_sync_block_reached v core handle req block (none ∷ rounds) found h =
      rw (sync_turn_reached v core handle req block found h, do_sync_block) refl
  do_sync_block_reached v core handle req block (some w ∷ rounds) found h =
      rw (sync_turn_reached v core handle req block found h, do_sync_block) refl
