-- ===== src/Fbft/Fixture.antt =====
-- Three nodes for the witnesses: an environment whose store is its height, and a core with one content.
use galaxy.Base.{ℕ, ◌+◌, true, false, List, [], ◌∷◌, some, none, leb, if◌then◌else◌}
use galaxy.Account.{Account, Signature, Block}
use galaxy.External.{Env}
use galaxy.Content.{Content, in_consensus}
use galaxy.Fbft.State.{Core, CoreTimeout}

abbrev pub node : ℕ → Account
node n = record { address = n; extension = record { id = n; url = [] } }

abbrev pub three : List Account
three = node 1 ∷ node 2 ∷ node 3 ∷ []

abbrev pub block_at : ℕ → Block
block_at h = record {
  header = record { height = h; mix_digest = h; prev_block_hash = 0; sig_data = (1 ∷ []) ∷ [] };
  header_hash = 0;
  transactions = 1 ∷ [];
}

-- A signature is its signer's address, and every block verifies.
abbrev pub three_env : Env ℕ
three_env = record {
  latest_state_repository = λ w. some 0;
  repository_by_block_hash = λ w h. some 0;
  current_block = λ w c. some (block_at w);
  current_block_height = λ w c. w;
  block_by_height = λ w c h. if leb h w then some (block_at h) else none;
  verify_block = λ w c b f. some 7;
  write_block_with_receipts = λ w c b r. some b.header.height;
  event_write_block_with_receipts = λ w c b r e. some b.header.height;
  sign = λ a d. some (a.address ∷ []);
  verify = λ d s. elim s [ [] ↦ 0 | x ∷ rest ↦ x ];
  rlp_hash = λ h. h.height + 100;
  marshal = λ p. some (0 ∷ []);
  marshal_blocks = λ r. some (1 ∷ []);
  now = 0;
}

abbrev pub timer : CoreTimeout
timer = record {
  time_to_collect_response_msg = 1;
  time_to_wait_commit_msg = 2;
  time_to_change_view_time = 3;
  is_running = false;
}

-- A content for the block of height 12 under consensus, with some signatures.
abbrev pub content_of : List (Account × Signature) → List Signature → Content
content_of signs signatures = record {
  digest = 12;
  state = in_consensus;
  sign_map = signs;
  signatures = signatures;
  payload = block_at 12;
}

abbrev pub core_of : ℕ → List Account → Content → Core
core_of local peers content = record {
  nodes = record { local = node local; master = node 1; peers = peers };
  tolerance = 0;
  core_timer = timer;
  online_wizard = record { block_height = 0; block_height_list = []; response = [] };
  consensus_plugin = record {
    latest_block_height = 11;
    content = (12, 0) ∷ [];
    heap = λ r. content;
    fresh = 1;
  };
  view_change = record { current_view = 0; walter_level = 1; view_requests = [] };
  enable_empty_block = false;
  enable_sync_verify_signature = true;
  enable_local_verify_signature = true;
  block_sync_chan = [];
}

-- A core of the given node whose content nobody has signed, and one with the signature of node 1.
abbrev pub unsigned : ℕ → Core
unsigned local = core_of local three (content_of [] [])

abbrev pub signed_once : ℕ → Core
signed_once local = core_of local three (content_of ((node 1, 1 ∷ []) ∷ []) ((1 ∷ []) ∷ []))
