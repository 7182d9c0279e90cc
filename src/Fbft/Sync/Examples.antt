-- ===== src/Fbft/Sync/Examples.antt =====
-- Blocks that node 2 of three asks for, answers with and writes.
use galaxy.Base.{ℕ, ◌≡◌, refl, true, [], ◌∷◌, some, arith}
use galaxy.Base.Outcome.{OnReturn}
use galaxy.Messages.{encode_message}
use galaxy.Fbft.State.{encodes}
use galaxy.Fbft.Fixture.{node, three_env, block_at, unsigned}
use galaxy.Fbft.Sync.{send_sync_block_msg, blocks_wanted, receive_sync_block_response}
use galaxy.Fbft.Sync.Ranges.{requests, send_sync_block_msg_all}
use galaxy.Fbft.Sync.Growth.{Grown, receive_sync_block_response-Grown}

encodes_all : (i : ℕ) → encodes three_env (blocks_wanted three_env (unsigned 2) i i) ≡ true
unfolding encodes encode_message
encodes_all i = refl

send_sync_block_msg_all_example :
    send_sync_block_msg three_env 4 (unsigned 2) 5 6 (node 3)
    ≡ some (requests three_env (unsigned 2) (node 3) 5 2)
send_sync_block_msg_all_example =
    send_sync_block_msg_all three_env 2 4 (unsigned 2) 5 6 (node 3) (omega arith) refl (omega arith)
      encodes_all

receive_sync_block_response-Grown_example :
    OnReturn (Grown three_env true (block_at 3 ∷ block_at 8 ∷ []) 7) (
      receive_sync_block_response three_env 7
        (unsigned 2)
        (record { blocks = block_at 3 ∷ block_at 8 ∷ [] }))
receive_sync_block_response-Grown_example =
    receive_sync_block_response-Grown three_env 7 (unsigned 2)
      (record { blocks = block_at 3 ∷ block_at 8 ∷ [] })
