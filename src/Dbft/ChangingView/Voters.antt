-- ===== src/Dbft/ChangingView/Voters.antt =====
-- The nodes that a change of view counts.
use galaxy.Base.{
  ◌≡◌, refl, sym, ap, ◌∙◌, subst, ◌⊎◌, ◌↔◌, inl, inr, true, false, Bool-cases, List, [], ◌∷◌, ◌++◌,
  In, Distinct, In-append, In-append_left, In-append_right, Distinct-snoc, append-nil, append_assoc,
  arith,
}
use galaxy.Account.{Account}
use galaxy.Messages.{ViewChangeReq}
use galaxy.Dbft.State.{DbftCore}
use galaxy.Dbft.ChangingView.{exists, add_change_view_accounts, add_nodes, view_set}

exists-In : (a : Account) (accounts : List Account) → exists a accounts ≡ true → In a accounts
unfolding exists
exists-In a [] e = cc
exists-In a (b ∷ accounts) e = ground (arith, e, exists-In a accounts)

exists-fresh : (a : Account) (accounts : List Account) → exists a accounts ≡ false → ¬ In a accounts
unfolding exists
exists-fresh a [] e i = i
exists-fresh a (b ∷ accounts) e i = ground (arith, e, i, exists-fresh a accounts)

added-old :
    (accounts : List Account) (a : Account)
    → exists a accounts ≡ true
    → add_change_view_accounts accounts a ≡ accounts
unfolding add_change_view_accounts
added-old accounts a e = rw e refl

added-new :
    (accounts : List Account) (a : Account)
    → exists a accounts ≡ false
    → add_change_view_accounts accounts a ≡ accounts ++ a ∷ []
unfolding add_change_view_accounts
added-new accounts a e = rw e refl

-- One account more, once.
add_change_view_accounts-In :
    (accounts : List Account) (a b : Account)
    → In b (add_change_view_accounts accounts a) ↔ (In b accounts ⊎ (b ≡ a))
add_change_view_accounts-In accounts a b = elim (Bool-cases (exists a accounts)) [
  | inl e ↦ rw (added-old accounts a e) (
    (λ i. inl i),
    (λ h. elim h [
      | inl i ↦ i
      | inr q ↦ subst (λ (x : Account). In x accounts) (sym q) (exists-In a accounts e)
    ]),
  )
  | inr e ↦ rw (added-new accounts a e) (
    (λ i. elim (In-append b accounts (a ∷ []) i) [
      | inl j ↦ inl j
      | inr (inl q) ↦ inr q
      | inr (inr n) ↦ absurd n
    ]),
    (λ h. elim h [
      | inl i ↦ In-append_left b accounts (a ∷ []) i
      | inr q ↦ In-append_right b accounts (a ∷ []) (inl q)
    ]),
  )
]

add_change_view_accounts-Distinct :
    (accounts : List Account) (a : Account)
    → Distinct accounts
    → Distinct (add_change_view_accounts accounts a)
add_change_view_accounts-Distinct accounts a d = elim (Bool-cases (exists a accounts)) [
  | inl e ↦ rw (added-old accounts a e) d
  | inr e ↦ rw (added-new accounts a e) (Distinct-snoc accounts a (exists-fresh a accounts e) d)
]

add_nodes-In :
    (accounts nodes : List Account) (b : Account)
    → In b (add_nodes accounts nodes) ↔ (In b accounts ⊎ In b nodes)
unfolding add_nodes
add_nodes-In accounts [] b = ((λ i. inl i), (λ h. elim h [ inl i ↦ i | inr n ↦ absurd n ]))
add_nodes-In accounts (a ∷ nodes) b =
    let rest = add_nodes-In (add_change_view_accounts accounts a) nodes b in
    let one = add_change_view_accounts-In accounts a b in
    (
      (λ i. elim (rest.0 i) [
        | inl j ↦ elim (one.0 j) [ inl k ↦ inl k | inr q ↦ inr (inl q) ]
        | inr j ↦ inr (inr j)
      ]),
      (λ h. elim h [
        | inl i ↦ rest.1 (inl (one.1 (inl i)))
        | inr (inl q) ↦ rest.1 (inl (one.1 (inr q)))
        | inr (inr j) ↦ rest.1 (inr j)
      ]),
    )

add_nodes-Distinct :
    (accounts nodes : List Account) → Distinct accounts → Distinct (add_nodes accounts nodes)
unfolding add_nodes
add_nodes-Distinct accounts [] d = d
add_nodes-Distinct accounts (a ∷ nodes) d =
    add_nodes-Distinct (add_change_view_accounts accounts a) nodes
      (add_change_view_accounts-Distinct accounts a d)

-- The nodes that a request brings a view to.
abbrev pub voters : DbftCore → ViewChangeReq → List Account
voters core req =
    add_nodes
      (add_change_view_accounts (view_set core.views req.view_num).request_nodes core.base.local)
      req.nodes

-- They are those of earlier requests, this node and those that the request names.
pub voters-In :
    (core : DbftCore) (req : ViewChangeReq) (b : Account)
    → In b (voters core req) ↔ (
        In b (view_set core.views req.view_num).request_nodes
        ⊎ ((b ≡ core.base.local) ⊎ In b req.nodes))
voters-In core req b =
    let old = (view_set core.views req.view_num).request_nodes in
    let all = add_nodes-In (add_change_view_accounts old core.base.local) req.nodes b in
    let one = add_change_view_accounts-In old core.base.local b in
    (
      (λ i. elim (all.0 i) [
        | inl j ↦ elim (one.0 j) [ inl k ↦ inl k | inr q ↦ inr (inl q) ]
        | inr j ↦ inr (inr j)
      ]),
      (λ h. elim h [
        | inl i ↦ all.1 (inl (one.1 (inl i)))
        | inr (inl q) ↦ all.1 (inl (one.1 (inr q)))
        | inr (inr j) ↦ all.1 (inr j)
      ]),
    )

pub voters-Distinct :
    (core : DbftCore) (req : ViewChangeReq)
    → Distinct (view_set core.views req.view_num).request_nodes
    → Distinct (voters core req)
voters-Distinct core req d =
    add_nodes-Distinct _ req.nodes (add_change_view_accounts-Distinct _ core.base.local d)

add_nodes-new :
    (accounts nodes : List Account)
    → Distinct nodes
    → ((b : Account) → In b nodes → ¬ In b accounts)
    → add_nodes accounts nodes ≡ accounts ++ nodes
unfolding add_nodes
add_nodes-new accounts [] d new = sym (append-nil accounts)
add_nodes-new accounts (a ∷ nodes) d new =
    let unknown : exists a accounts ≡ false = elim (Bool-cases (exists a accounts)) [
      | inl e ↦ absurd (new a (inl refl) (exists-In a accounts e))
      | inr e ↦ e
    ] in
    ap (λ l. add_nodes l nodes) (added-new accounts a unknown)
    ∙ add_nodes-new (accounts ++ a ∷ []) nodes d.1 (λ b i j.
      elim (In-append b accounts (a ∷ []) j) [
        | inl k ↦ new b (inr i) k
        | inr (inl q) ↦ d.0 (subst (λ (x : Account). In x nodes) q i)
        | inr (inr n) ↦ n
      ])
    ∙ append_assoc accounts (a ∷ []) nodes

-- Of a view that nobody has asked for, they are this node and those that the request names.
pub voters-first :
    (core : DbftCore) (req : ViewChangeReq)
    → (view_set core.views req.view_num).request_nodes ≡ []
    → Distinct (core.base.local ∷ req.nodes)
    → voters core req ≡ core.base.local ∷ req.nodes
unfolding add_change_view_accounts exists
voters-first core req first d =
    ap (λ l. add_nodes (add_change_view_accounts l core.base.local) req.nodes) first
    ∙ add_nodes-new (core.base.local ∷ []) req.nodes d.1
        (λ b i j. elim j [ inl q ↦ d.0 (subst (λ (x : Account). In x req.nodes) q i) | inr n ↦ n ])
