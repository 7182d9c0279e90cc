-- ===== src/Views.antt =====
-- consensus/common/views.go: the votes for a change of view. A map is an association list; the
-- pointer that `AddViewRequest` returns is the entry of the map under the same view number, and
-- what is done through it is written back under that number.
pub mod Window
pub mod Quorum
mod Examples
use galaxy.Base.{
  ℕ, ◌≡◌, refl, Bool, true, false, not, List, [], ◌∷◌, ◌++◌, Option, none, some, ite, leb,
  if◌then◌else◌, length, filter, ℕ_discrete, lookup, insert,
}
use galaxy.Base.Words.{u8}
use galaxy.Account.{Account, Account-discrete}
use galaxy.Utils.{abs, int64_gt}

pub data ViewRequestState : Type 0 where
  viewing view_end : ViewRequestState

abbrev pub is_end : ViewRequestState → Bool
is_end viewing = false
is_end view_end = true

pub record ViewRequests : Type 0 where
  pub to_change : ℕ  -- uint8
  pub state : ViewRequestState
  pub index : List (Account × Bool)
  pub nodes : List Account

pub record ViewChange : Type 0 where
  pub current_view : ℕ  -- uint64
  pub walter_level : ℕ  -- int64, never negative
  pub view_requests : List (ℕ × ViewRequests)

-- NewRequests
unfoldable pub new_requests : ℕ → ViewRequests
new_requests to_change = record { to_change = to_change; state = viewing; index = []; nodes = [] }

-- NewViewChange, with DefaultViewNum and DefaultWalterLevel
unfoldable pub new_view_change : ViewChange
new_view_change = record { current_view = 0; walter_level = 1; view_requests = [] }

-- SetCurrentViewNum
unfoldable pub set_current_view_num : ViewChange → ℕ → ViewChange
set_current_view_num vc new_view_num = record vc { current_view = new_view_num }

-- AddViewRequest; `none` is its error.
unfoldable pub add_view_request : ViewChange → ℕ → ℕ → ViewChange × Option ViewRequests
unfolding new_requests
add_view_request vc view_num to_change =
    if int64_gt (abs vc.current_view view_num) vc.walter_level
    then (vc, none)
    else elim (lookup ℕ_discrete view_num vc.view_requests) [
      | none ↦ (
        record vc {
          view_requests = insert ℕ_discrete view_num (new_requests to_change) vc.view_requests;
        },
        some (new_requests to_change),
      )
      | some r ↦ (vc, some r)
    ]

-- RemoveRequest: deletes the entries whose vote has ended.
unfoldable pub remove_request : ViewChange → ViewChange
remove_request vc = record vc {
  view_requests = filter (λ e. not (is_end e.1.state)) vc.view_requests;
}

-- GetRequestByViewNum; `none` is the nil pointer.
unfoldable pub get_request_by_view_num : ViewChange → ℕ → Option ViewRequests
get_request_by_view_num vc view_num = lookup ℕ_discrete view_num vc.view_requests

-- The first vote of an account: its mark, its place among the nodes, and the test of the threshold.
add_vote : ViewRequests → Account → ViewRequests
add_vote r account =
    let nodes = r.nodes ++ account ∷ [] in
    record r {
      index = insert Account-discrete account true r.index;
      nodes = nodes;
      state = if leb r.to_change (u8 (length nodes)) then view_end else r.state;
    }

-- The change that ReceiveViewRequestByAccount makes: none for an account that has voted.
voted : ViewRequests → Account → ViewRequests
unfolding add_vote
voted r account = elim (lookup Account-discrete account r.index) [
  | none ↦ add_vote r account
  | some _ ↦ r
]

-- ReceiveViewRequestByAccount, with the state that it returns.
unfoldable pub receive_view_request_by_account :
    ViewRequests → Account → ViewRequests × ViewRequestState
unfolding voted
receive_view_request_by_account r account = let r' = voted r account in (r', r'.state)

-- The loop of receiveChangeViewReq over the accounts of one request, with `viewRequestState`.
unfoldable pub receive_all :
    ViewRequests → ViewRequestState → List Account → ViewRequests × ViewRequestState
receive_all r state [] = (r, state)
receive_all r state (node ∷ nodes) =
    let (r', state') = receive_view_request_by_account r node in receive_all r' state' nodes
