-- ===== src/Role/Examples.antt =====
-- Three participants with the ids 0, 1 and 2.
use galaxy.Base.{
  ℕ, ◌<◌, ◌≡◌, refl, List, [], ◌∷◌, none, some, In, Distinct, arith, length, lookup, keys,
}
use galaxy.Base.Outcome.{returns}
use mathlib.Core.List.{Permᴰ}
use galaxy.Account.{Account, Account-discrete, no_account}
use galaxy.Fbft.Fixture.{node, three_env, block_at}
use galaxy.Role.{
  DposPolicy, Roles, ok, err, not_a_delegate, master, slave, role_assignments, get_roles,
  appoint_role, first_master,
}
use galaxy.Role.Assigning.{role_of, Finds, role_assignments_elect}
use galaxy.Role.Appointing.{appoint_role_again}

abbrev trio : List Account
trio = node 0 ∷ node 1 ∷ node 2 ∷ []

abbrev roles : Roles
roles = (node 0, master) ∷ (node 1, slave) ∷ (node 2, slave) ∷ []

abbrev policy : DposPolicy
policy = record { participates = trio; assignments = roles }

role_assignments_elect_example :
    (policy' : DposPolicy) × (chosen : Account) × (role_assignments three_env 11 policy trio
      ≡ returns (some (policy', chosen)))
    × ((a : Account)
        → (In a trio → get_roles policy' a ≡ ok (role_of 0 a))
          × (¬ In a trio → get_roles policy' a ≡ err not_a_delegate))
    × Finds 0 trio no_account chosen
    × (((k : ℕ) → k < length trio → (a : Account) × In a trio × (a.extension.id ≡ k))
        → In chosen trio × (chosen.extension.id ≡ 0))
role_assignments_elect_example =
    role_assignments_elect three_env 11 policy trio 0 (block_at 11) refl refl (omega arith)

has_master : lookup Account-discrete (node 0) roles ≡ some master
unfolding lookup Account-discrete
has_master = refl

finds_first : first_master roles ≡ some (node 0)
unfolding first_master
finds_first = refl

different : Distinct (keys roles)
different = ground arith

only_first : (b : Account) → In (b, master) roles → b ≡ node 0
only_first b i = ground arith

appoint_role_again_example :
    (policy' : DposPolicy) × (appoint_role policy (node 0) roles ≡ some policy')
    × (lookup Account-discrete (node 0) policy'.assignments ≡ some slave)
    × ((b : Account) (next : Roles)
        → Permᴰ policy'.assignments next
        → appoint_role policy' b next ≡ none)
appoint_role_again_example =
    appoint_role_again policy (node 0) roles different has_master finds_first only_first
