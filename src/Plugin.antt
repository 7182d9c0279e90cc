-- ===== src/Plugin.antt =====
-- consensus/common/plugin.go, type ConsensusPlugin: the contents of the proposals under way. The map
-- holds pointers, and handlers keep such a pointer while entries are deleted or made anew, so the
-- contents stand in a heap: `heap r` is what the pointer `r` points to, and `fresh` the next pointer.
pub mod Heap
pub mod Retention
mod Examples
use galaxy.Base.{
  ℕ, suc, ◌+◌, ◌≡◌, Bool, not, List, [], ◌∷◌, Option, none, some, ltb, leb, ◌==◌, if◌then◌else◌,
  filter, lookup, insert, ℕ_discrete,
}
use galaxy.Base.Words.{sub64}
use galaxy.Account.{Block}
use galaxy.Content.{Content, new_content}

pub record ConsensusPlugin : Type 0 where
  pub latest_block_height : ℕ  -- uint64
  pub content : List (ℕ × ℕ)  -- digest to pointer
  pub heap : ℕ → Content
  pub fresh : ℕ

abbrev pub blank_block : Block
blank_block = record {
  header = record { height = 0; mix_digest = 0; prev_block_hash = 0; sig_data = [] };
  header_hash = 0;
  transactions = [];
}

-- NewConsensusPlugin; the heap holds nothing yet.
unfoldable pub new_consensus_plugin : ConsensusPlugin
unfolding new_content
new_consensus_plugin = record {
  latest_block_height = 0;
  content = [];
  heap = λ _. new_content 0 blank_block;
  fresh = 0;
}

-- maxPayloadCacheNum
abbrev pub max_payload_cache_num : ℕ
max_payload_cache_num = 10

-- A write through a pointer.
abbrev pub write : (ℕ → Content) → ℕ → Content → ℕ → Content
write heap r c q = if q == r then c else heap q

-- The height of the block that an entry of the map points to.
abbrev pub entry_height : (ℕ → Content) → ℕ × ℕ → ℕ
entry_height heap e = (heap e.1).payload.header.height

-- The clean-up loop of Add: the uint64 difference wraps for the blocks below the tenth.
abbrev pub unexpired : (ℕ → Content) → Block → ℕ × ℕ → Bool
unexpired heap block e =
    not (ltb (entry_height heap e) (sub64 block.header.height max_payload_cache_num))

-- Add, with the pointer that it returns.
unfoldable pub add : ConsensusPlugin → ℕ → Block → ConsensusPlugin × ℕ
unfolding new_content
add p digest payload =
    let left = filter (unexpired p.heap payload) p.content in
    elim (lookup ℕ_discrete digest left) [
      | none ↦ (
        record p {
          content = insert ℕ_discrete digest p.fresh left;
          heap = write p.heap p.fresh (new_content digest payload);
          fresh = suc p.fresh;
        },
        p.fresh,
      )
      | some r ↦ (record p { content = left }, r)
    ]

-- Remove: with the block of the digest go all blocks that are no higher.
unfoldable pub remove : ConsensusPlugin → ℕ → ConsensusPlugin
remove p digest = elim (lookup ℕ_discrete digest p.content) [
  | none ↦ p
  | some r ↦ record p {
    content =
        filter (λ e. not (leb (entry_height p.heap e) (p.heap r).payload.header.height)) p.content;
  }
]

-- GetContentByHash; `none` is its error.
unfoldable pub get_content_by_hash : ConsensusPlugin → ℕ → Option ℕ
get_content_by_hash p digest = lookup ℕ_discrete digest p.content

-- SetLatestBlockHeight
unfoldable pub set_latest_block_height : ConsensusPlugin → ℕ → ConsensusPlugin
set_latest_block_height p height = record p { latest_block_height = height }

-- A method of Content called through a pointer: its new value is written back.
abbrev pub update : ConsensusPlugin → ℕ → Content → ConsensusPlugin
update p r c = record p { heap = write p.heap r c }
