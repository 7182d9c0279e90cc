-- ===== src/Participates.antt =====
-- participates/policy/dpos/dpos.go and participates/policy/solo/solo.go: the list of the nodes. The voting
-- contract is of another repository.
use galaxy.Base.{ℕ, List, [], ◌∷◌, Option, none, some}
use galaxy.Account.{Account}

-- A node of the contract.
pub record Node : Type 0 where
  pub address : ℕ
  pub id : ℕ
  pub url : List ℕ

-- contracts.Voting: NodeNumber, and GetNodeList, whose error is none.
pub record Voting : Type 0 where
  pub node_number : ℕ
  pub get_node_list : ℕ → Option (List Node)

-- DPOSPolicy, without its name and its contract.
pub record Delegates : Type 0 where
  pub members : ℕ  -- uint64
  pub participates : List Account

-- The account of a node, and the loop over the nodes.
unfoldable pub account_of : Node → Account
account_of node = record {
  address = node.address;
  extension = record { id = node.id; url = node.url };
}

unfoldable pub accounts_of : List Node → List Account
unfolding account_of
accounts_of [] = []
accounts_of (node ∷ nodes) = account_of node ∷ accounts_of nodes

module _ (contract : Voting) where
  -- getDelegatesByCount: the policy, and the accounts or none for the error.
  unfoldable pub get_delegates_by_count : Delegates → ℕ → Delegates × Option (List Account)
  get_delegates_by_count policy count = elim (contract.get_node_list count) [
    | none ↦ (policy, none)
    | some nodes ↦ (record policy { participates = accounts_of nodes }, some (accounts_of nodes))
  ]

  -- getDelegates
  unfoldable pub get_delegates : Delegates → Delegates × Option (List Account)
  get_delegates policy =
      get_delegates_by_count (record policy { members = contract.node_number }) contract.node_number

  -- GetParticipates
  unfoldable pub get_participates : Delegates → Delegates × Option (List Account)
  get_participates policy =
      let (policy', delegates) = get_delegates policy in
      elim delegates [
        | none ↦ (policy', none)
        | some accounts ↦ (record policy' { participates = accounts }, some accounts)
      ]

-- GetParticipates of the solo policy: one account with a fixed address at 127.0.0.1:8080.
unfoldable pub get_participates_solo : Delegates → Delegates × List Account
get_participates_solo policy =
    let one : Account = record {
      address = 0x333c3310824b7c685133f2bedb2ca4b8b4df633d;
      extension = record {
        id = 0;
        url = 49 ∷ 50 ∷ 55 ∷ 46 ∷ 48 ∷ 46 ∷ 48 ∷ 46 ∷ 49 ∷ 58 ∷ 56 ∷ 48 ∷ 56 ∷ 48 ∷ [];
      };
    } in
    (record { members = 1; participates = one ∷ [] }, one ∷ [])
