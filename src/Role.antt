-- ===== src/Role.antt =====
-- role/role.go and its policies: who of the participants is the master.
mod Examples
pub mod Assigning
pub mod Appointing
use galaxy.Base.{
  ℕ, ◌+◌, ◌%◌, Bool, true, false, List, [], ◌∷◌, Option, none, some, ◌==◌, if◌then◌else◌, length,
  lookup, insert,
}
use galaxy.Base.Words.{add64}
use galaxy.Base.Outcome.{Outcome, returns, panics, ◌>>=◌, deref}
use galaxy.Account.{Account, Account-discrete, no_account}
use galaxy.External.{Env}

-- Roler
pub data Roler : Type 0 where
  master slave normal unknown : Roler

abbrev pub is_master : Roler → Bool
is_master master = true
is_master _ = false

-- A map of roles.
abbrev pub Roles : Type 0
Roles = List (Account × Roler)

-- DPOSPolicy, without its name.
pub record DposPolicy : Type 0 where
  pub participates : List Account
  pub assignments : Roles

-- The errors of GetRoles.
pub data RoleError : Type 0 where
  assignment_not_be_execute not_a_delegate : RoleError

pub data RoleResult : Type 0 where
  ok : Roler → RoleResult
  err : RoleError → RoleResult

-- The loop of RoleAssignments, with the assignments and the master so far.
unfoldable pub assign : ℕ → List Account → Roles → Account → Roles × Account
assign master_id [] assignments found = (assignments, found)
assign master_id (delegate ∷ delegates) assignments found =
    if delegate.extension.id == master_id
    then assign master_id delegates (insert Account-discrete delegate master assignments) delegate
    else assign master_id delegates (insert Account-discrete delegate slave assignments) found

-- GetRoles
unfoldable pub get_roles : DposPolicy → Account → RoleResult
get_roles policy account = elim policy.assignments [
  | [] ↦ err assignment_not_be_execute
  | _ ∷ _ ↦ elim (lookup Account-discrete account policy.assignments) [
    | none ↦ err not_a_delegate
    | some role ↦ ok role
  ]
]

-- The loop of AppointRole, over the entries in the order that `range` takes.
unfoldable pub first_master : Roles → Option Account
first_master [] = none
first_master ((delegate, role) ∷ roles) =
    if is_master role then some delegate else first_master roles

-- AppointRole, for an order of the entries; `none` is its error.
unfoldable pub appoint_role : DposPolicy → Account → Roles → Option DposPolicy
appoint_role policy account order = elim (lookup Account-discrete account policy.assignments) [
  | none ↦ none
  | some _ ↦ elim (first_master order) [
    | none ↦ none
    | some previous ↦ some (record policy {
      assignments =
          insert Account-discrete previous slave
            (insert Account-discrete account master policy.assignments);
    })
  ]
]

-- The loop of ChangeRoleAssignment, which writes the map of its argument.
unfoldable pub changed : Roles → ℕ → Roles
changed [] id = []
changed ((account, role) ∷ roles) id =
    let rest = changed roles id in
    (account, if account.extension.id == id then master else slave) ∷ rest

-- ChangeRoleAssignment
unfoldable pub change_role_assignment : DposPolicy → Roles → ℕ → DposPolicy
change_role_assignment policy assignments id = record policy {
  assignments = changed assignments id;
}

module _ {World : Type 0} (env : Env World) where
  -- RoleAssignments: `none` is the error of a store without a state; no delegates, and a state without a
  -- block, panic.
  unfoldable pub role_assignments :
      World → DposPolicy → List Account → Outcome (Option (DposPolicy × Account))
  role_assignments w policy participates = elim (env.latest_state_repository w) [
    | none ↦ returns none
    | some chain ↦ do
      block ← deref (env.current_block w chain)
      (if length participates == 0
          then panics
          else let master_id = add64 block.header.height 1 % length participates in
            let (assignments, found) = assign master_id participates [] no_account in
            returns
              (some (record { participates = participates; assignments = assignments }, found)))
  ]

-- SoloPolicy: RoleAssignments takes one account only. The rest has the words of DPOSPolicy.
unfoldable pub role_assignments_solo : DposPolicy → List Account → Option (DposPolicy × Account)
role_assignments_solo policy (account ∷ []) = some (
  record { participates = account ∷ []; assignments = insert Account-discrete account master [] },
  account,
)
role_assignments_solo policy _ = none

unfoldable pub get_roles_solo : DposPolicy → Account → RoleResult
get_roles_solo policy address = get_roles policy address

unfoldable pub change_role_assignment_solo : DposPolicy → Roles → ℕ → DposPolicy
change_role_assignment_solo policy assignments id = change_role_assignment policy assignments id
