-- ===== src/Plugin/Examples.antt =====
-- Caches with one content, about block ten and below it.
use galaxy.Base.{ℕ, ◌-◌, ◌^◌, ◌<◌, ◌≡◌, refl, [], ◌∷◌, some, arith, In, lookup, insert, ℕ_discrete}
use galaxy.Account.{Block}
use galaxy.Content.{in_consensus}
use galaxy.Plugin.{ConsensusPlugin, new_consensus_plugin, entry_height, add, get_content_by_hash}

abbrev block_at : ℕ → ℕ → Block
block_at height digest = record {
  header = record { height = height; mix_digest = digest; prev_block_hash = 0; sig_data = [] };
  header_hash = 0;
  transactions = 1 ∷ [];
}

-- A content for the digest 7 of block 12.
abbrev cached : ConsensusPlugin
cached = (add new_consensus_plugin 7 (block_at 12 7)).0

cached_seven : get_content_by_hash cached 7 ≡ some 0
unfolding get_content_by_hash add new_consensus_plugin lookup insert ℕ_discrete
cached_seven = refl

-- A content of block 3 under consensus, with one signature.
abbrev under_way : ConsensusPlugin
under_way = record {
  latest_block_height = 2;
  content = (7, 0) ∷ [];
  heap = λ _. record {
    digest = 7;
    state = in_consensus;
    sign_map = [];
    signatures = (1 ∷ []) ∷ [];
    payload = block_at 3 7;
  };
  fresh = 1;
}

low : (e : ℕ × ℕ) → In e under_way.content → entry_height under_way.heap e < 2 ^ 64 - 10
low e h = omega arith
