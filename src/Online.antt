-- ===== src/Online.antt =====
-- consensus/common/plugin.go, types OnlineWizard and ResponseNodes: which nodes have answered that
-- they are online, and on which master they agree, for each block height.
pub mod Nodes
pub mod Panics
pub mod Master
mod Examples
use galaxy.Base.{
  ℕ, Bool, true, false, List, [], ◌∷◌, ◌++◌, Option, none, some, ite, ltb, leb, if◌then◌else◌,
  length, filter, not, ◌==◌, lookup, insert, ℕ_discrete,
}
use galaxy.Base.Outcome.{Outcome, returns, panics, ◌>>=◌, deref}
use galaxy.Account.{Account, Account-discrete}

-- OnlineState; the empty string that `var state OnlineState` holds is `unset`.
pub data OnlineState : Type 0 where
  unset go_online online : OnlineState

pub record ResponseNodes : Type 0 where
  pub nodes : List Account
  pub node : List (ℕ × Account)  -- by address
  pub state : OnlineState
  pub master : Account
  pub view_num : ℕ  -- uint64
  pub walter_level : ℕ  -- int; a negative one acts as 0

pub record OnlineWizard : Type 0 where
  pub block_height : ℕ  -- uint64
  pub block_height_list : List ℕ
  pub response : List (ℕ × ResponseNodes)

-- NewResponseNodes
unfoldable pub new_response_nodes : ℕ → Account → ResponseNodes
new_response_nodes walter_level master = record {
  nodes = [];
  node = [];
  state = go_online;
  master = master;
  view_num = 0;
  walter_level = walter_level;
}

-- The first half of AddResponseNodes: an address counts once.
enrol : ResponseNodes → Account → ResponseNodes
enrol r node = elim (lookup ℕ_discrete node.address r.node) [
  | none ↦ record r {
    node = insert ℕ_discrete node.address node r.node;
    nodes = r.nodes ++ node ∷ [];
  }
  | some _ ↦ r
]

-- AddResponseNodes; the nodes and the state that it also returns are fields of its result.
unfoldable pub add_response_nodes : ResponseNodes → Account → ResponseNodes
unfolding enrol
add_response_nodes r node =
    let r' = enrol r node in
    if leb r'.walter_level (length r'.nodes) then record r' { state = online } else r'

-- The loop of AddOnlineResponse, with `nodeList` and `state`.
pub add_all :
    ResponseNodes
    → List Account
    → OnlineState
    → List Account
    → ResponseNodes × List Account × OnlineState
add_all r node_list state [] = (r, node_list, state)
add_all r node_list state (node ∷ nodes) =
    let r' = add_response_nodes r node in add_all r' r'.nodes r'.state nodes

-- NewOnlineWizard
unfoldable pub new_online_wizard : OnlineWizard
new_online_wizard = record { block_height = 0; block_height_list = []; response = [] }

-- The entry of a height, made if there is none.
entry_or_new : OnlineWizard → ℕ → ℕ → Account → ResponseNodes
unfolding new_response_nodes
entry_or_new w block_height walter_level master = elim (lookup ℕ_discrete block_height w.response) [
  | none ↦ new_response_nodes walter_level master
  | some r ↦ r
]

-- A new greatest height takes the master that comes with it.
opened : OnlineWizard → ℕ → ℕ → Account → ResponseNodes
unfolding entry_or_new
opened w block_height walter_level master =
    let r = entry_or_new w block_height walter_level master in
    if ltb w.block_height block_height then record r { master = master } else r

-- The test of the master: another one is taken only with a later view, and a panic otherwise.
agreed : ResponseNodes → Account → ℕ → Outcome ResponseNodes
agreed r master view_num =
    ite (Account-discrete master r.master) (returns r)
      (if ltb r.view_num view_num then returns (record r { master = master }) else panics)

-- A later view is noted.
raised : ResponseNodes → ℕ → ResponseNodes
raised r view_num = if ltb r.view_num view_num then record r { view_num = view_num } else r

-- The heights seen, and the greatest of them.
heights : OnlineWizard → ℕ → OnlineWizard
heights w block_height = record w {
  block_height_list = elim (lookup ℕ_discrete block_height w.response) [
    | none ↦ w.block_height_list ++ block_height ∷ []
    | some _ ↦ w.block_height_list
  ];
  block_height = if ltb w.block_height block_height then block_height else w.block_height;
}

-- The rest of AddOnlineResponse, from the entry on which the master is settled.
settled :
    OnlineWizard → ℕ → List Account → ℕ → ResponseNodes → OnlineWizard × List Account × OnlineState
unfolding raised heights
settled w block_height nodes view_num r =
    let out = add_all (raised r view_num) [] unset nodes in
    (
      record (heights w block_height) {
        response = insert ℕ_discrete block_height out.0 w.response;
      },
      out.1,
      out.2,
    )

-- AddOnlineResponse
unfoldable pub add_online_response :
    OnlineWizard
    → ℕ
    → List Account
    → ℕ
    → Account
    → ℕ
    → Outcome (OnlineWizard × List Account × OnlineState)
unfolding opened agreed settled
add_online_response w block_height nodes walter_level master view_num = do
  r ← agreed (opened w block_height walter_level master) master view_num
  returns (settled w block_height nodes view_num r)

-- GetCurrentState: the entry of the greatest height may be missing, a nil pointer.
unfoldable pub get_current_state : OnlineWizard → Outcome OnlineState
get_current_state w = do r ← deref (lookup ℕ_discrete w.block_height w.response); returns r.state

-- GetCurrentStateByHeight, and GetResponseNodesStateByBlockHeight, which does the same.
unfoldable pub get_current_state_by_height : OnlineWizard → ℕ → OnlineState
get_current_state_by_height w block_height = elim (lookup ℕ_discrete block_height w.response) [
  | none ↦ go_online
  | some r ↦ r.state
]

-- GetMasterByBlockHeight
unfoldable pub get_master_by_block_height : OnlineWizard → ℕ → Outcome Account
get_master_by_block_height w block_height = do
  r ← deref (lookup ℕ_discrete block_height w.response)
  returns r.master

-- DeleteOnlineResponse
unfoldable pub delete_online_response : OnlineWizard → ℕ → OnlineWizard
delete_online_response w block_height = record w {
  response = filter (λ e. not (e.0 == block_height)) w.response;
}
