-- ===== src/Fbft/Sync/Queue.antt =====
-- The queue of requests for blocks.
use galaxy.Base.{
  suc, ◌-◌, ◌≤◌, ◌≡◌, refl, List, [], ◌∷◌, ◌++◌, arith, length, length-append, drop, ltb,
  Bool-cases, inl, inr,
}
use galaxy.Fbft.State.{BlockSyncRequest}
use galaxy.Fbft.Sync.{push_or_replace, block_sync_req_cache_limit}

-- A new request is queued last, behind the newest of the others: all of them where there is room, and
-- never more than 39.
push_or_replace_newest :
    (queue : List BlockSyncRequest) (req : BlockSyncRequest)
    → push_or_replace queue req ≡ drop (length queue - 39) queue ++ req ∷ []
unfolding push_or_replace
push_or_replace_newest [] req = refl
push_or_replace_newest (oldest ∷ queue) req =
    elim (Bool-cases (ltb (length (oldest ∷ queue)) block_sync_req_cache_limit)) [
      | inl room ↦
          let none_dropped : suc (length queue) - 39 ≡ 0 = ground arith in
          rw (room, none_dropped) refl
      | inr full ↦
          let one_more : suc (length queue) - 39 ≡ suc (length queue - 39) = ground arith in
          rw (full, one_more) (push_or_replace_newest queue req)
    ]

-- The queue never outgrows its limit, whatever it holds.
pub push_or_replace_bounded :
    (queue : List BlockSyncRequest) (req : BlockSyncRequest)
    → length (push_or_replace queue req) ≤ block_sync_req_cache_limit
unfolding push_or_replace
push_or_replace_bounded [] req = omega arith
push_or_replace_bounded (oldest ∷ queue) req =
    ground (arith, push_or_replace_bounded queue req, length-append (oldest ∷ queue) (req ∷ []))
