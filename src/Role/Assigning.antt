-- ===== src/Role/Assigning.antt =====
-- Who becomes the master by RoleAssignments.
use galaxy.Base.{
  ℕ, ◌%◌, ◌≤◌, ◌<◌, ◌≡◌, ◌≢◌, refl, sym, ap, subst, ◌∙◌, ◌⊎◌, inl, inr, true, false, Bool-cases,
  List, [], ◌∷◌, none, some, In, arith, length, lookup, insert, lookup-insert_self,
  lookup-insert_ne, ◌==◌, ==_iff, if◌then◌else◌,
}
use native.Mathlib.Nat.{mod-lt}
use galaxy.Base.Words.{add64}
use galaxy.Base.Outcome.{returns}
use galaxy.Account.{Account, Account-discrete, no_account, Block}
use galaxy.External.{Env}
use galaxy.Role.{
  Roler, Roles, DposPolicy, ok, err, not_a_delegate, master, slave, assign, role_assignments,
  get_roles,
}

-- The role that an id gives.
abbrev pub role_of : ℕ → Account → Roler
role_of master_id a = if a.extension.id == master_id then master else slave

assign-step :
    (id : ℕ) (d : Account) (ds : List Account) (roles : Roles) (found : Account)
    → assign id (d ∷ ds) roles found
      ≡ assign id ds
          (insert Account-discrete d (role_of id d) roles)
          (if d.extension.id == id then d else found)
unfolding assign
assign-step id d ds roles found = elim (Bool-cases (d.extension.id == id)) [
  | inl e ↦ rw e refl
  | inr e ↦ rw e refl
]

-- What an insertion of a role leaves right.
inserted :
    (id : ℕ) (d a : Account) (roles : Roles)
    → (a ≡ d) ⊎ (lookup Account-discrete a roles ≡ some (role_of id a))
    → lookup Account-discrete a (insert Account-discrete d (role_of id d) roles)
      ≡ some (role_of id a)
inserted id d a roles h = elim (Account-discrete a d) [
  | yes e ↦
      subst
        (λ (x : Account).
          lookup Account-discrete x (insert Account-discrete d (role_of id d) roles)
          ≡ some (role_of id x))
        (sym e) (lookup-insert_self Account-discrete d (role_of id d) roles)
  | no n ↦ elim h [
    | inl e ↦ absurd (n e)
    | inr f ↦ lookup-insert_ne Account-discrete d a (role_of id d) roles n ∙ f
  ]
]

-- A delegate gets its role, and so keeps it.
assign-lookup :
    (id : ℕ) (delegates : List Account) (roles : Roles) (found a : Account)
    → In a delegates ⊎ (lookup Account-discrete a roles ≡ some (role_of id a))
    → lookup Account-discrete a (assign id delegates roles found).0 ≡ some (role_of id a)
unfolding assign
assign-lookup id [] roles found a (inl i) = absurd i
assign-lookup id [] roles found a (inr h) = h
assign-lookup id (d ∷ ds) roles found a h = rw (assign-step id d ds roles found) (
    assign-lookup id ds (insert Account-discrete d (role_of id d) roles)
      (if d.extension.id == id then d else found) a
      (elim h [
        | inl (inl e) ↦ inr (inserted id d a roles (inl e))
        | inl (inr i) ↦ inl i
        | inr f ↦ inr (inserted id d a roles (inr f))
      ]))

-- Nobody else gets one.
assign-other :
    (id : ℕ) (delegates : List Account) (roles : Roles) (found a : Account)
    → ¬ In a delegates
    → lookup Account-discrete a (assign id delegates roles found).0
      ≡ lookup Account-discrete a roles
unfolding assign
assign-other id [] roles found a n = refl
assign-other id (d ∷ ds) roles found a n = rw (assign-step id d ds roles found) (
    assign-other id ds (insert Account-discrete d (role_of id d) roles)
      (if d.extension.id == id then d else found) a (λ i. n (inr i))
    ∙ lookup-insert_ne Account-discrete d a (role_of id d) roles (λ e. n (inl e)))

-- Whom the loop finds.
abbrev pub Finds : ℕ → List Account → Account → Account → Type 0
Finds id delegates found b =
    ((b ≡ found) × ((a : Account) → In a delegates → a.extension.id ≢ id))
    ⊎ (In b delegates × (b.extension.id ≡ id))

assign-hit :
    (id : ℕ) (d : Account) (ds : List Account) (roles : Roles) (found : Account)
    → (d.extension.id == id) ≡ true
    → assign id (d ∷ ds) roles found ≡ assign id ds (insert Account-discrete d master roles) d
unfolding assign
assign-hit id d ds roles found e = rw e refl

assign-miss :
    (id : ℕ) (d : Account) (ds : List Account) (roles : Roles) (found : Account)
    → (d.extension.id == id) ≡ false
    → assign id (d ∷ ds) roles found ≡ assign id ds (insert Account-discrete d slave roles) found
unfolding assign
assign-miss id d ds roles found e = rw e refl

assign-none : (id : ℕ) (roles : Roles) (found : Account) → assign id [] roles found ≡ (roles, found)
unfolding assign
assign-none id roles found = refl

assign-Finds :
    (id : ℕ) (delegates : List Account) (roles : Roles) (found : Account)
    → Finds id delegates found (assign id delegates roles found).1
assign-Finds id [] roles found = rw (assign-none id roles found) (inl (refl, (λ a i. absurd i)))
assign-Finds id (d ∷ ds) roles found = elim (Bool-cases (d.extension.id == id)) [
  | inl e ↦
      subst (λ (o : Roles × Account). Finds id (d ∷ ds) found o.1)
        (sym (assign-hit id d ds roles found e))
        (elim (assign-Finds id ds (insert Account-discrete d master roles) d) [
          | inl (same, none_left) ↦
              inr (
                inl same,
                ap (λ (x : Account). x.extension.id) same ∙ (==_iff d.extension.id id).0 e,
              )
          | inr (i, q) ↦ inr (inr i, q)
        ])
  | inr e ↦
      subst (λ (o : Roles × Account). Finds id (d ∷ ds) found o.1)
        (sym (assign-miss id d ds roles found e))
        (elim (assign-Finds id ds (insert Account-discrete d slave roles) found) [
          | inl (same, none_left) ↦ inl (
            same,
            (λ a i. elim i [ inl q ↦ (λ f. ground (arith, e, q, f)) | inr j ↦ none_left a j ]),
          )
          | inr (i, q) ↦ inr (inr i, q)
        ])
]

empty_lookup : (a : Account) → lookup {V = Roler} Account-discrete a [] ≡ none
unfolding lookup
empty_lookup a = refl

none-some : {A : Type 0} {a : A} → none ≡ some a → ⊥
none-some e = cc

abbrev policy_of : List Account → Roles → DposPolicy
policy_of participates roles = record { participates = participates; assignments = roles }

known :
    (participates : List Account) (roles : Roles) (a : Account) (role : Roler)
    → lookup Account-discrete a roles ≡ some role
    → get_roles (policy_of participates roles) a ≡ ok role
unfolding get_roles
known participates [] a role e = absurd (none-some (sym (empty_lookup a) ∙ e))
known participates (x ∷ roles) a role e = rw (e, get_roles) refl

unknown_account :
    (participates : List Account) (roles : Roles) (a b : Account) (role : Roler)
    → lookup Account-discrete b roles ≡ some role
    → lookup Account-discrete a roles ≡ none
    → get_roles (policy_of participates roles) a ≡ err not_a_delegate
unfolding get_roles
unknown_account participates [] a b role e f = absurd (none-some (sym (empty_lookup b) ∙ e))
unknown_account participates (x ∷ roles) a b role e f = rw (f, get_roles) refl

nonempty_In : (l : List Account) → 1 ≤ length l → (a : Account) × In a l
nonempty_In [] h = absurd (omega (arith, h))
nonempty_In (a ∷ l) h = (a, inl refl)

module _ {World : Type 0} (env : Env World) where
  assigned :
      (w : World) (policy : DposPolicy) (participates : List Account) (chain : ℕ) (block : Block)
      → env.latest_state_repository w ≡ some chain
      → env.current_block w chain ≡ some block
      → (length participates == 0) ≡ false
      → let id = add64 block.header.height 1 % length participates in
        let out = assign id participates [] no_account in
        role_assignments env w policy participates
        ≡ returns (some (record { participates = participates; assignments = out.0 }, out.1))
  unfolding role_assignments
  assigned w policy participates chain block repo head some_of_them =
      rw (repo, role_assignments, head, some_of_them) refl

  -- RoleAssignments, on a store with a block and a list of participants that is not empty, makes master
  -- exactly the participants whose id is the height of the next block modulo their number, and slaves
  -- the others; an account that is none of them has no role. The master that it returns is one of
  -- those, or the empty account, without an error, where no participant has that id. Where every
  -- number below that of the participants is the id of one of them, there is a master.
  pub role_assignments_elect :
      (w : World) (policy : DposPolicy) (participates : List Account) (chain : ℕ) (block : Block)
      → env.latest_state_repository w ≡ some chain
      → env.current_block w chain ≡ some block
      → 1 ≤ length participates
      → let id = add64 block.header.height 1 % length participates in
        (policy' : DposPolicy) × (chosen : Account) × (role_assignments env w policy participates
          ≡ returns (some (policy', chosen)))
        × ((a : Account)
            → (In a participates → get_roles policy' a ≡ ok (role_of id a))
              × (¬ In a participates → get_roles policy' a ≡ err not_a_delegate))
        × Finds id participates no_account chosen
        × (((k : ℕ)
              → k < length participates
              → (a : Account) × In a participates × (a.extension.id ≡ k))
            → In chosen participates × (chosen.extension.id ≡ id))
  role_assignments_elect w policy participates chain block repo head some_of_them =
      let id = add64 block.header.height 1 % length participates in
      let out = assign id participates [] no_account in
      let finds = assign-Finds id participates [] no_account in
      (
        record { participates = participates; assignments = out.0 },
        out.1,
        assigned w policy participates chain block repo head (ground arith),
        (λ a. (
          (λ i.
              known participates out.0 a (role_of id a)
                (assign-lookup id participates [] no_account a (inl i))),
          (λ n.
              let (b, i) = nonempty_In participates some_of_them in
              unknown_account participates out.0 a b (role_of id b)
                (assign-lookup id participates [] no_account b (inl i))
                (assign-other id participates [] no_account a n ∙ empty_lookup a)),
        )),
        finds,
        (λ numbered. elim finds [
          | inl (same, nobody) ↦
              let (a, i, e) = numbered id (mod-lt _ (omega (arith, some_of_them))) in
              absurd (nobody a i e)
          | inr h ↦ h
        ]),
      )
