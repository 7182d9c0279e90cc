-- ===== src/Online/Nodes.antt =====
-- Who counts as online at one block height, and when the height is.
use galaxy.Base.{
  ℕ, ◌≤◌, ◌≡◌, refl, sym, ap, subst, ◌∙◌, ◌⊎◌, ◌↔◌, inl, inr, List, [], ◌∷◌, ◌++◌, none, some,
  arith, In, In-append, In-append_left, In-append_right, Distinct, Distinct-snoc, length,
  length-append, keys, keys-insert, lookup, lookup-absent, lookup-present, Option-cases, ℕ_discrete,
}
use galaxy.Account.{Account}
use galaxy.Online.{
  ResponseNodes, OnlineState, online, new_response_nodes, enrol, add_response_nodes, add_all,
}

abbrev pub addresses : List Account → List ℕ
addresses [] = []
addresses (a ∷ nodes) = a.address ∷ addresses nodes

addresses-append : (xs ys : List Account) → addresses (xs ++ ys) ≡ addresses xs ++ addresses ys
addresses-append [] ys = refl
addresses-append (x ∷ xs) ys = ap (λ (l : List ℕ). x.address ∷ l) (addresses-append xs ys)

-- The map holds the addresses of the nodes, no address twice, and a height that is online has
-- reached its level.
pub record IsValid (r : ResponseNodes) : Type 0 where
  pub indexed : keys r.node ≡ addresses r.nodes
  pub distinct : Distinct (addresses r.nodes)
  pub reached : r.state ≡ online → r.walter_level ≤ length r.nodes

pub new_response_nodes-IsValid :
    (level : ℕ) (master : Account) → IsValid (new_response_nodes level master)
unfolding new_response_nodes
new_response_nodes-IsValid level master = record {
  indexed = refl;
  distinct = tt;
  reached = λ h. cc;
}

-- `r'` is `r` with the accounts `nodes` besides: only their addresses count.
pub record Counts (r : ResponseNodes) (nodes : List Account) (r' : ResponseNodes) : Type 0 where
  pub valid : IsValid r'
  pub members :
      (x : ℕ) → In x (addresses r'.nodes) ↔ (In x (addresses r.nodes) ⊎ In x (addresses nodes))
  pub same_level : r'.walter_level ≡ r.walter_level
  pub same_master : r'.master ≡ r.master
  pub same_view : r'.view_num ≡ r.view_num

module _ (r : ResponseNodes) (a : Account) where
  enrol_first :
      lookup ℕ_discrete a.address r.node ≡ none
      → ((enrol r a).nodes ≡ r.nodes ++ a ∷ [])
        × (keys (enrol r a).node ≡ keys r.node ++ a.address ∷ [])
  unfolding enrol
  enrol_first e = rw (e, enrol) (refl, keys-insert ℕ_discrete a.address a r.node e)

  enrol_again : (b : Account) → lookup ℕ_discrete a.address r.node ≡ some b → enrol r a ≡ r
  unfolding enrol
  enrol_again b e = rw (e, enrol)

  add_fields :
      ((add_response_nodes r a).nodes ≡ (enrol r a).nodes)
      × ((add_response_nodes r a).node ≡ (enrol r a).node)
      × ((add_response_nodes r a).walter_level ≡ r.walter_level)
      × ((add_response_nodes r a).master ≡ r.master)
      × ((add_response_nodes r a).view_num ≡ r.view_num)
  unfolding add_response_nodes
  add_fields = ground arith

  -- One answer: the state is online exactly when the level is reached.
  add_response_nodes-online :
      IsValid r
      → ((add_response_nodes r a).state ≡ online)
        ↔ (r.walter_level ≤ length (add_response_nodes r a).nodes)
  unfolding add_response_nodes
  add_response_nodes-online v =
      ((λ h. ground (arith, length-append r.nodes (a ∷ []))), (λ h. ground arith))

module _ (r : ResponseNodes) (a : Account) (v : IsValid r) where
  -- The addresses of an account's first answer, and of a later one.
  addresses-first :
      lookup ℕ_discrete a.address r.node ≡ none
      → addresses (add_response_nodes r a).nodes ≡ addresses r.nodes ++ a.address ∷ []
  addresses-first e =
      ap addresses ((add_fields r a).0 ∙ (enrol_first r a e).0) ∙ addresses-append r.nodes (a ∷ [])

  addresses-again :
      (b : Account)
      → lookup ℕ_discrete a.address r.node ≡ some b
      → addresses (add_response_nodes r a).nodes ≡ addresses r.nodes
  addresses-again b e =
      ap addresses ((add_fields r a).0 ∙ ap (λ (s : ResponseNodes). s.nodes) (enrol_again r a b e))

  known :
      (b : Account) → lookup ℕ_discrete a.address r.node ≡ some b → In a.address (addresses r.nodes)
  known b e = subst (In a.address) v.indexed (lookup-present ℕ_discrete a.address r.node b e)

  unknown : lookup ℕ_discrete a.address r.node ≡ none → ¬ In a.address (addresses r.nodes)
  unknown e i = lookup-absent ℕ_discrete a.address r.node e (subst (In a.address) (sym v.indexed) i)

  add-IsValid : IsValid (add_response_nodes r a)
  add-IsValid = record {
    indexed = elim (Option-cases (lookup ℕ_discrete a.address r.node)) [
      | inl e ↦
          ap keys (add_fields r a).1
          ∙ (enrol_first r a e).1
          ∙ ap (λ (l : List ℕ). l ++ a.address ∷ []) v.indexed
          ∙ sym (addresses-first e)
      | inr (b, e) ↦
          ap keys ((add_fields r a).1 ∙ ap (λ (s : ResponseNodes). s.node) (enrol_again r a b e))
          ∙ v.indexed
          ∙ sym (addresses-again b e)
    ];
    distinct = elim (Option-cases (lookup ℕ_discrete a.address r.node)) [
      | inl e ↦
          subst (Distinct {A = ℕ}) (sym (addresses-first e))
            (Distinct-snoc (addresses r.nodes) a.address (unknown e) v.distinct)
      | inr (b, e) ↦ subst (Distinct {A = ℕ}) (sym (addresses-again b e)) v.distinct
    ];
    reached = λ h. rw (add_fields r a).2 ((add_response_nodes-online r a v).0 h);
  }

  add-members :
      (x : ℕ)
      → In x (addresses (add_response_nodes r a).nodes)
        ↔ (In x (addresses r.nodes) ⊎ (x ≡ a.address))
  add-members x = elim (Option-cases (lookup ℕ_discrete a.address r.node)) [
    | inl e ↦ rw (addresses-first e) (
      (λ h. ground (arith, In-append x (addresses r.nodes) (a.address ∷ []) h)),
      (λ h. ground (
        arith,
        In-append_left x (addresses r.nodes) (a.address ∷ []),
        In-append_right x (addresses r.nodes) (a.address ∷ []),
      )),
    )
    | inr (b, e) ↦ rw (addresses-again b e) ((λ h. inl h), old (known b e))
  ]
    where
      old :
          In a.address (addresses r.nodes)
          → In x (addresses r.nodes) ⊎ (x ≡ a.address)
          → In x (addresses r.nodes)
      old i (inl h) = h
      old i (inr e) = subst (λ (y : ℕ). In y (addresses r.nodes)) (sym e) i

Counts-cons :
    (r : ResponseNodes) (a : Account) (nodes : List Account) (r' : ResponseNodes)
    → IsValid r
    → Counts (add_response_nodes r a) nodes r'
    → Counts r (a ∷ nodes) r'
Counts-cons r a nodes r' v c = record {
  valid = c.valid;
  members = λ x. (
    (λ i. ground (arith, (c.members x).0 i, (add-members r a v x).0)),
    (λ i. ground (arith, (c.members x).1, (add-members r a v x).1)),
  );
  same_level = c.same_level ∙ (add_fields r a).2;
  same_master = c.same_master ∙ (add_fields r a).3;
  same_view = c.same_view ∙ (add_fields r a).4;
}

pub add_all-Counts :
    (nodes : List Account) (r : ResponseNodes) (l : List Account) (s : OnlineState)
    → IsValid r
    → Counts r nodes (add_all r l s nodes).0
unfolding add_all
add_all-Counts [] r l s v = record {
  valid = v;
  members = λ x. ((λ i. inl i), (λ i. ground arith));
  same_level = refl;
  same_master = refl;
  same_view = refl;
}
add_all-Counts (a ∷ nodes) r l s v = Counts-cons r a nodes _ v (
    add_all-Counts nodes (add_response_nodes r a) (add_response_nodes r a).nodes
      (add_response_nodes r a).state (add-IsValid r a v))

-- What the loop returns are the nodes and the state of its last round, and that round has found the
-- level reached or not.
pub add_all-online :
    (nodes : List Account) (a : Account) (r : ResponseNodes) (l : List Account) (s : OnlineState)
    → IsValid r
    → let out = add_all r l s (a ∷ nodes) in
      (out.1 ≡ out.0.nodes)
      × (out.2 ≡ out.0.state)
      × ((out.0.state ≡ online) ↔ (r.walter_level ≤ length out.0.nodes))
unfolding add_all
add_all-online [] a r l s v = (refl, refl, add_response_nodes-online r a v)
add_all-online (b ∷ nodes) a r l s v =
    subst
      (λ (level : ℕ).
        (last.1 ≡ last.0.nodes)
        × (last.2 ≡ last.0.state)
        × ((last.0.state ≡ online) ↔ (level ≤ length last.0.nodes)))
      (add_fields r a).2
      (add_all-online nodes b (add_response_nodes r a) (add_response_nodes r a).nodes
        (add_response_nodes r a).state (add-IsValid r a v))
  where
    last : ResponseNodes × List Account × OnlineState
    last =
        add_all (add_response_nodes r a) (add_response_nodes r a).nodes
          (add_response_nodes r a).state (b ∷ nodes)
