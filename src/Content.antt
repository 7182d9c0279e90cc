-- ===== src/Content.antt =====
-- consensus/common/plugin.go, type Content: the signatures on one proposal and its state.
pub mod Signing
mod Examples
use galaxy.Base.{
  ℕ, ◌^◌, Bool, true, false, List, [], ◌∷◌, ◌++◌, Option, none, some, ◌==◌, if◌then◌else◌, lookup,
  insert,
}
use galaxy.Base.Words.{sub8}
use galaxy.Account.{Account, Account-discrete, Block, Signature}

-- contentState
pub data ContentState : Type 0 where
  initial in_consensus to_consensus : ContentState

-- Its uint8: the blank identifier takes 0.
abbrev pub state_code : ContentState → ℕ
state_code initial = 1
state_code in_consensus = 2
state_code to_consensus = 3

pub record Content : Type 0 where
  pub digest : ℕ
  pub state : ContentState
  pub sign_map : List (Account × Signature)
  pub signatures : List Signature
  pub payload : Block

-- newContent
unfoldable pub new_content : ℕ → Block → Content
new_content digest payload = record {
  digest = digest;
  state = initial;
  sign_map = [];
  signatures = [];
  payload = payload;
}

-- SetState; the second result tells success from the error. The difference of the uint8 wraps.
unfoldable pub set_state : Content → ContentState → Content × Bool
set_state c state =
    if sub8 (state_code state) (state_code c.state) == 1
    then (record c { state = state }, true)
    else (c, false)

-- The branch of AddSignature for an account that has not signed.
signed : Content → Account → Signature → Content
signed c account sign = record c {
  sign_map = insert Account-discrete account sign c.sign_map;
  signatures = c.signatures ++ sign ∷ [];
}

-- AddSignature
unfoldable pub add_signature : Content → Account → Signature → Content × Bool
unfolding signed
add_signature c account sign = elim (lookup Account-discrete account c.sign_map) [
  | none ↦ (signed c account sign, true)
  | some _ ↦ (c, false)
]

-- GetSignByAccount
unfoldable pub get_sign_by_account : Content → Account → Option Signature
get_sign_by_account c account = lookup Account-discrete account c.sign_map
