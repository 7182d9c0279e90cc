-- ===== src/Content/Examples.antt =====
-- A content that two nodes sign.
use galaxy.Base.{ℕ, ◌≡◌, refl, false, [], ◌∷◌, lookup}
use galaxy.Account.{Account, Account-discrete, Block}
use galaxy.Content.{Content, in_consensus, add_signature}

abbrev signer : ℕ → Account
signer n = record { address = n; extension = record { id = n; url = [] } }

abbrev empty_block : Block
empty_block = record {
  header = record { height = 1; mix_digest = 7; prev_block_hash = 6; sig_data = [] };
  header_hash = 0;
  transactions = [];
}

abbrev signed_once : Content
signed_once = record {
  digest = 7;
  state = in_consensus;
  sign_map = (signer 1, 10 ∷ []) ∷ [];
  signatures = (10 ∷ []) ∷ [];
  payload = empty_block;
}

second_refused : (add_signature signed_once (signer 1) (11 ∷ [])).1 ≡ false
unfolding add_signature lookup Account-discrete
second_refused = refl
