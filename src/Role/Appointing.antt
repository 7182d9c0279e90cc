-- ===== src/Role/Appointing.antt =====
-- What AppointRole does to the map of roles.
use galaxy.Base.{
  ◌≡◌, ◌≢◌, refl, sym, ap, subst, ◌∙◌, ◌⊎◌, inl, inr, [], ◌∷◌, none, some, In, Distinct, arith,
  lookup, insert, lookup-insert_self, lookup-insert_ne, keys, keys-overwrite, Option-cases,
}
use galaxy.Base.Perms.{In-perm}
use mathlib.Core.List.{Permᴰ}
use mathlib.Core.List.Permᴰ
use galaxy.Account.{Account, Account-discrete}
use galaxy.Role.{
  Roler, Roles, DposPolicy, master, slave, normal, unknown, first_master, appoint_role,
}

In-keys : (b : Account) (r : Roler) (m : Roles) → In (b, r) m → In b (keys m)
In-keys b r [] i = i
In-keys b r ((j, w) ∷ m) (inl e) = inl (ap (λ (x : Account × Roler). x.0) e)
In-keys b r ((j, w) ∷ m) (inr i) = inr (In-keys b r m i)

insert-hit :
    (k j : Account) (v w : Roler) (m : Roles)
    → j ≡ k
    → insert Account-discrete k v ((j, w) ∷ m) ≡ (k, v) ∷ m
unfolding insert
insert-hit k j v w m e = ground (arith, e)

insert-miss :
    (k j : Account) (v w : Roler) (m : Roles)
    → j ≢ k
    → insert Account-discrete k v ((j, w) ∷ m) ≡ (j, w) ∷ insert Account-discrete k v m
unfolding insert
insert-miss k j v w m n = ground (arith, n)

-- An entry after a write is the one that is written, or an old one of another account.
In-insert :
    (k b : Account) (v r : Roler) (m : Roles)
    → Distinct (keys m)
    → In (b, r) (insert Account-discrete k v m)
    → ((b ≡ k) × (r ≡ v)) ⊎ (In (b, r) m × (b ≢ k))
unfolding insert
In-insert k b v r [] d (inl e) =
    inl (ap (λ (x : Account × Roler). x.0) e, ap (λ (x : Account × Roler). x.1) e)
In-insert k b v r [] d (inr i) = absurd i
In-insert k b v r ((j, w) ∷ m) d i = elim (Account-discrete j k) [
  | yes e ↦ elim (subst (In (b, r)) (insert-hit k j v w m e) i) [
    | inl q ↦ inl (ap (λ (x : Account × Roler). x.0) q, ap (λ (x : Account × Roler). x.1) q)
    | inr l ↦
        inr
          (inr l, (λ f. d.0 (subst (λ (x : Account). In x (keys m)) (f ∙ sym e) (In-keys b r m l))))
  ]
  | no n ↦ elim (subst (In (b, r)) (insert-miss k j v w m n) i) [
    | inl q ↦ inr (inl q, (λ f. n (sym (ap (λ (x : Account × Roler). x.0) q) ∙ f)))
    | inr l ↦ elim (In-insert k b v r m d.1 l) [ inl same ↦ inl same | inr (o, f) ↦ inr (inr o, f) ]
  ]
]

first_master-none :
    (order : Roles) → ((b : Account) → ¬ In (b, master) order) → first_master order ≡ none
unfolding first_master
first_master-none [] h = refl
first_master-none ((a, master) ∷ order) h = absurd (h a (inl refl))
first_master-none ((a, slave) ∷ order) h = first_master-none order (λ b i. h b (inr i))
first_master-none ((a, normal) ∷ order) h = first_master-none order (λ b i. h b (inr i))
first_master-none ((a, unknown) ∷ order) h = first_master-none order (λ b i. h b (inr i))

-- AppointRole moves the role of the master: where some account has it, and the account that is appointed
-- has a role, then that account is the master afterwards and the one that the loop finds is a slave, if
-- they are two. All other accounts keep what they have.
appoint_role_moves :
    (policy : DposPolicy) (account previous : Account) (role : Roler) (order : Roles)
    → lookup Account-discrete account policy.assignments ≡ some role
    → first_master order ≡ some previous
    → account ≢ previous
    → (policy' : DposPolicy) × (appoint_role policy account order ≡ some policy')
      × (lookup Account-discrete account policy'.assignments ≡ some master)
      × (lookup Account-discrete previous policy'.assignments ≡ some slave)
      × ((b : Account)
          → b ≢ account
          → b ≢ previous
          → lookup Account-discrete b policy'.assignments
            ≡ lookup Account-discrete b policy.assignments)
unfolding appoint_role
appoint_role_moves policy account previous role order has found two =
    let eq = Account-discrete in
    let first = insert eq account master policy.assignments in
    (
      record policy { assignments = insert eq previous slave first },
      rw (has, appoint_role, found) refl,
      lookup-insert_ne eq previous account slave first two
          ∙ lookup-insert_self eq account master policy.assignments,
      lookup-insert_self eq previous slave first,
      (λ b n m.
          lookup-insert_ne eq previous b slave first m
          ∙ lookup-insert_ne eq account b master policy.assignments n),
    )

slave_ne : slave ≡ master → ⊥
slave_ne e = cc

appoint_role-none :
    (policy : DposPolicy) (account : Account) (order : Roles)
    → first_master order ≡ none
    → appoint_role policy account order ≡ none
unfolding appoint_role
appoint_role-none policy account order e =
    elim (Option-cases (lookup Account-discrete account policy.assignments)) [
      | inl f ↦ rw (f, appoint_role) refl
      | inr (role, f) ↦ rw (f, appoint_role, e) refl
    ]

-- To appoint the master again takes its role away: where it is the only master of the map, whose accounts
-- are distinct, AppointRole reports no error and leaves no master at all, and every AppointRole after
-- it fails, for any account and in any order of the map.
pub appoint_role_again :
    (policy : DposPolicy) (account : Account) (order : Roles)
    → Distinct (keys policy.assignments)
    → lookup Account-discrete account policy.assignments ≡ some master
    → first_master order ≡ some account
    → ((b : Account) → In (b, master) policy.assignments → b ≡ account)
    → (policy' : DposPolicy) × (appoint_role policy account order ≡ some policy')
      × (lookup Account-discrete account policy'.assignments ≡ some slave)
      × ((b : Account) (next : Roles)
          → Permᴰ policy'.assignments next
          → appoint_role policy' b next ≡ none)
unfolding appoint_role
appoint_role_again policy account order distinct has found only =
    let eq = Account-discrete in
    let first = insert eq account master policy.assignments in
    let second = insert eq account slave first in
    let distinct' : Distinct (keys first) =
      subst Distinct (sym (keys-overwrite eq account master master policy.assignments has))
        distinct in
    (
      record policy { assignments = second },
      rw (has, appoint_role, found) refl,
      lookup-insert_self eq account slave first,
      (λ b next p.
          appoint_role-none (record policy { assignments = second }) b next
            (first_master-none next (λ c i.
              elim (In-insert account c slave master first distinct'
                (In-perm (c, master) (Permᴰ.symm p) i)) [
                  | inl (q, r) ↦ slave_ne (sym r)
                  | inr (j, n) ↦
                      elim (In-insert account c master master policy.assignments distinct j) [
                        | inl (q, r) ↦ n q
                        | inr (l, m) ↦ n (only c l)
                      ]
                ]))),
    )
