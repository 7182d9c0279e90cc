-- ===== src/Dbft/ChangingView.antt =====
-- dbft-core.go: the change of view, by sendChangeViewReq, receiveChangeViewReq and waitMasterTimeOut.
pub mod Least
pub mod Voters
pub mod Electing
pub mod Deciding
use galaxy.Base.{
  ℕ, ◌+◌, ◌^◌, Bool, true, false, not, ◌||◌, List, [], ◌∷◌, ◌++◌, Option, none, some, ite, ltb, leb,
  if◌then◌else◌, length, map, lookup, insert, ℕ_discrete,
}
use galaxy.Base.Words.{add64}
use galaxy.Base.Outcome.{Outcome, returns, panics, ◌>>=◌, deref}
use galaxy.Account.{Account, Account-discrete, no_account}
use galaxy.External.{Env}
use galaxy.Messages.{ViewChangeReq, Message, view_change_req_message}
use galaxy.Utils.{account_filter, get_account_with_min_id}
use galaxy.Views.{ViewRequestState, viewing, view_end, is_end}
use galaxy.Fbft.State.{Event, encodes}
use galaxy.Bft.State.{BftCore, Action, send_all, notify}
use galaxy.Dbft.State.{
  DbftCore, ViewSets, ViewNumStatus, ViewStatus, view_changing, view_normal, stop_timer,
}

-- `<=` between two int64, as bit patterns.
abbrev pub int64_le : ℕ → ℕ → Bool
int64_le a b = leb (add64 a (2 ^ 63)) (add64 b (2 ^ 63))

-- sort.Ints
sort_in : ℕ → List ℕ → List ℕ
sort_in n [] = n ∷ []
sort_in n (m ∷ order) =
    let rest = sort_in n order in if int64_le n m then n ∷ m ∷ order else m ∷ rest

sort_ints : List ℕ → List ℕ
unfolding sort_in
sort_ints [] = []
sort_ints (n ∷ order) = sort_in n (sort_ints order)

-- minNode: of no nodes there is no first.
unfoldable pub min_node : List Account → Outcome ℕ
unfolding sort_ints
min_node nodes = elim (sort_ints (map (λ (node : Account). node.extension.id) nodes)) [
  | [] ↦ panics
  | id ∷ rest ↦ returns id
]

-- The loop of addChangeViewAccounts.
unfoldable pub exists : Account → List Account → Bool
exists a [] = false
exists a (b ∷ accounts) = ite (Account-discrete b a) true false || exists a accounts

-- addChangeViewAccounts
unfoldable pub add_change_view_accounts : List Account → Account → List Account
add_change_view_accounts accounts a = if exists a accounts then accounts else accounts ++ a ∷ []

-- The loop of receiveChangeViewReq over the nodes of a request.
unfoldable pub add_nodes : List Account → List Account → List Account
add_nodes accounts [] = accounts
add_nodes accounts (a ∷ nodes) = add_nodes (add_change_view_accounts accounts a) nodes

-- The first test of receiveChangeViewReq: the status, which nothing sets back.
unfoldable pub status_after : ViewSets → ℕ → ViewStatus
status_after views num = elim views.status [
  | view_changing ↦ view_changing
  | view_normal ↦ if ltb views.view_num num then view_changing else view_normal
]

-- The entry of a view, made at its first request.
unfoldable pub view_set : ViewSets → ℕ → ViewNumStatus
view_set views num = elim (lookup ℕ_discrete num views.view_sets) [
  | some set ↦ set
  | none ↦ record { status = viewing; notify = false; request_nodes = [] }
]

abbrev pub with_set : DbftCore → ℕ → ViewNumStatus → DbftCore
with_set core num set =
    let views = core.views in
    record core { views = record views { view_sets = insert ℕ_discrete num set views.view_sets } }

-- Whether enough nodes ask for a view: `len(nodes) >= len(peers)-int(tolerance)` between ints.
abbrev pub enough : BftCore → List Account → Bool
enough core nodes = leb (length core.peers) (length nodes + core.tolerance)

module _ {World : Type 0} (env : Env World) where
  abbrev pub change_view_req : Account → List Account → ℕ → Message
  change_view_req sender nodes num = record {
    message_type = 7;
    payload =
        view_change_req_message
          (some (record { account = sender; nodes = nodes; timestamp = env.now; view_num = num }));
  }

  -- sendChangeViewReq
  unfoldable pub send_change_view_req : DbftCore → List Account → ℕ → Outcome (List Action)
  send_change_view_req core nodes num =
      let local = core.base.local in
      let msg = change_view_req local nodes num in
      if encodes env msg
      then returns (send_all (account_filter (local ∷ []) core.base.peers) msg ∷ [])
      else panics

  -- receiveChangeViewReq once enough nodes ask: the master, the entry and the view.
  unfoldable pub end_view : DbftCore → ℕ → ViewNumStatus → Outcome DbftCore
  end_view core num set = do
    master ← deref (get_account_with_min_id set.request_nodes)
    let base = core.base
    let views = core.views
    returns (
        with_set
          (record core {
            base = record base { master = master };
            views = record views { view_num = num };
          })
          num (record set { status = view_end }))

  -- The end of receiveChangeViewReq: the first end of a view is notified.
  unfoldable pub tell : DbftCore → ℕ → Outcome (DbftCore × List Action)
  tell core num =
      let set = view_set core.views num in
      if not (is_end set.status)
      then returns (core, [])
      else if set.notify
      then returns (core, [])
      else do
        core' ← stop_timer (with_set core num (record set { notify = true }))
        returns (core', notify Event.master_change ∷ [])

  -- receiveChangeViewReq once the nodes are stored: more than one are passed on.
  unfoldable pub spread : DbftCore → ℕ → List Account → Outcome (DbftCore × List Action)
  spread core num nodes = do
    sent ← (if leb (length nodes) 1 then returns [] else send_change_view_req core nodes num)
    told ← tell core num
    returns (told.0, sent ++ told.1)

  -- receiveChangeViewReq with the nodes counted: enough of them end the view.
  unfoldable pub count_nodes : DbftCore → ℕ → ViewNumStatus → Outcome DbftCore
  count_nodes core num set =
      if enough core.base set.request_nodes
      then end_view core num set
      else returns (with_set core num set)

  -- receiveChangeViewReq on an entry that has not ended.
  unfoldable pub gather :
      DbftCore → ViewChangeReq → ViewNumStatus → Outcome (DbftCore × List Action)
  gather core req set = do
    let num = req.view_num
    let nodes = add_nodes (add_change_view_accounts set.request_nodes core.base.local) req.nodes
    core' ← count_nodes core num (record set { request_nodes = nodes })
    spread core' num nodes

  -- receiveChangeViewReq from the second test of the status on.
  unfoldable pub take_part :
      ViewStatus → DbftCore → ViewChangeReq → Outcome (DbftCore × List Action)
  take_part view_normal core req = returns (core, [])
  take_part view_changing core req =
      let set = view_set core.views req.view_num in
      if is_end set.status then returns (core, []) else gather core req set

  -- receiveChangeViewReq
  unfoldable pub receive_change_view_req :
      DbftCore → ViewChangeReq → Outcome (DbftCore × List Action)
  receive_change_view_req core req = do
    stopped ← stop_timer core
    let views = stopped.views
    let status = status_after views req.view_num
    take_part status (record stopped { views = record views { status = status } }) req

  -- waitMasterTimeOut where its timer fires: a request without its sender, to all peers.
  unfoldable pub wait_master_time_out : DbftCore → List Action
  wait_master_time_out core =
      let msg = change_view_req no_account (core.base.local ∷ []) (add64 core.views.view_num 1) in
      if encodes env msg then send_all core.base.peers msg ∷ [] else []
