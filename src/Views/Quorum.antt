-- ===== src/Views/Quorum.antt =====
-- When a vote ends: after as many distinct accounts as the threshold asks for.
use galaxy.Base.{
  ℕ, ◌+◌, ◌≤◌, ◌<◌, ◌≡◌, refl, sym, ap, ◌∙◌, subst, ◌⊎◌, ◌↔◌, inl, inr, List, [], ◌∷◌, ◌++◌, none,
  some, Bool, true, arith, In, Distinct, Distinct-snoc, In-append, In-append_left, In-append_right,
  length, length-append, keys, keys-insert, lookup, lookup-absent, lookup-present, Option-cases,
}
use galaxy.Account.{Account, Account-discrete}
use galaxy.Views.{
  ViewRequests, ViewRequestState, viewing, view_end, new_requests, add_vote, voted,
  receive_view_request_by_account, receive_all,
}

-- The index marks the accounts of `nodes`, each stands there once, and the vote has ended exactly
-- when it has a node and has reached the threshold.
pub record IsValid (r : ViewRequests) : Type 0 where
  pub indexed : keys r.index ≡ r.nodes
  pub distinct : Distinct r.nodes
  pub ended : r.state ≡ view_end → (0 < length r.nodes) × (r.to_change ≤ length r.nodes)
  pub open_vote : r.state ≡ viewing → (length r.nodes ≡ 0) ⊎ (length r.nodes < r.to_change)

pub new_requests-IsValid : (n : ℕ) → IsValid (new_requests n)
unfolding new_requests
new_requests-IsValid n = record {
  indexed = refl;
  distinct = tt;
  ended = λ h. cc;
  open_vote = λ h. inl refl;
}

module _ (r : ViewRequests) (a : Account) where
  voted_absent : lookup Account-discrete a r.index ≡ none → voted r a ≡ add_vote r a
  unfolding voted
  voted_absent e = ground arith

  voted_present : (b : Bool) → lookup Account-discrete a r.index ≡ some b → voted r a ≡ r
  unfolding voted
  voted_present b e = ground arith

  added-In : (b : Account) → In b (add_vote r a).nodes → In b r.nodes ⊎ (b ≡ a)
  unfolding add_vote
  added-In b h = ground (arith, In-append b r.nodes (a ∷ []) h)

  added_In : (b : Account) → In b r.nodes ⊎ (b ≡ a) → In b (add_vote r a).nodes
  unfolding add_vote
  added_In b (inl h) = In-append_left b r.nodes (a ∷ []) h
  added_In b (inr e) = In-append_right b r.nodes (a ∷ []) (inl e)

module _ (r : ViewRequests) (a : Account) (v : IsValid r) where
  unseen : lookup Account-discrete a r.index ≡ none → ¬ In a r.nodes
  unseen absent i = lookup-absent Account-discrete a r.index absent (subst (In a) (sym v.indexed) i)

  seen : {b : Bool} → lookup Account-discrete a r.index ≡ some b → In a r.nodes
  seen {b} e = subst (In a) v.indexed (lookup-present Account-discrete a r.index b e)

  -- The first vote of an account.
  add_vote-IsValid :
      lookup Account-discrete a r.index ≡ none → length r.nodes < 255 → IsValid (add_vote r a)
  unfolding add_vote
  add_vote-IsValid absent small = record {
    indexed =
        keys-insert Account-discrete a true r.index absent
        ∙ ap (λ (l : List Account). l ++ a ∷ []) v.indexed;
    distinct = Distinct-snoc r.nodes a (unseen absent) v.distinct;
    ended = λ h. ground (arith, length-append r.nodes (a ∷ []), v.ended, v.open_vote);
    open_vote = λ h. ground (arith, length-append r.nodes (a ∷ []), v.ended, v.open_vote);
  }

  voted-IsValid : length r.nodes < 255 → IsValid (voted r a)
  voted-IsValid small = elim (Option-cases (lookup Account-discrete a r.index)) [
    | inl absent ↦ subst IsValid (sym (voted_absent r a absent)) (add_vote-IsValid absent small)
    | inr (b, e) ↦ subst IsValid (sym (voted_present r a b e)) v
  ]

  voted-In : (b : Account) → In b (voted r a).nodes ↔ (In b r.nodes ⊎ (b ≡ a))
  voted-In b = elim (Option-cases (lookup Account-discrete a r.index)) [
    | inl absent ↦ rw (voted_absent r a absent) (snoc_In b)
    | inr (c, e) ↦ rw (voted_present r a c e) ((λ h. inl h), old (seen e))
  ]
    where
      snoc_In : (c : Account) → In c (add_vote r a).nodes ↔ (In c r.nodes ⊎ (c ≡ a))
      snoc_In c = ((λ h. added-In r a c h), (λ h. added_In r a c h))

      old : In a r.nodes → In b r.nodes ⊎ (b ≡ a) → In b r.nodes
      old i (inl h) = h
      old i (inr e) = subst (λ (c : Account). In c r.nodes) (sym e) i

voted_grows :
    (r : ViewRequests) (a : Account)
    → (length (voted r a).nodes ≤ length r.nodes + 1) × ((voted r a).to_change ≡ r.to_change)
unfolding voted
voted_grows r a = ground (arith, length-append r.nodes (a ∷ []))

-- What a request with the accounts `nodes` makes of the vote `r`.
abbrev pub Adds : ViewRequests → List Account → ViewRequests → Type 0
Adds r nodes r' =
    IsValid r'
    × ((b : Account) → In b r'.nodes ↔ (In b r.nodes ⊎ In b nodes))
    × (r'.to_change ≡ r.to_change)

Adds-cons :
    (r : ViewRequests) (a : Account) (nodes : List Account) (r' : ViewRequests)
    → IsValid r
    → Adds (voted r a) nodes r'
    → Adds r (a ∷ nodes) r'
Adds-cons r a nodes r' v rest = (rest.0, members, rest.2 ∙ (voted_grows r a).1)
  where
    members : (b : Account) → In b r'.nodes ↔ (In b r.nodes ⊎ In b (a ∷ nodes))
    members b = (
      (λ i. ground (arith, (rest.1 b).0 i, (voted-In r a v b).0)),
      (λ i. ground (arith, (rest.1 b).1, (voted-In r a v b).1)),
    )

-- One request that names any accounts, on a vote in good order and short of 256 accounts: the vote
-- stays in good order, so it has ended exactly when it holds as many distinct accounts as the
-- threshold asks for; it holds the accounts that it held and those of the request, no others; and
-- the threshold is what it was.
pub receive_all-Adds :
    (nodes : List Account) (r : ViewRequests) (s : ViewRequestState)
    → IsValid r
    → length r.nodes + length nodes < 256
    → Adds r nodes (receive_all r s nodes).0
unfolding receive_all receive_view_request_by_account
receive_all-Adds [] r s v h = (v, (λ b. ((λ i. inl i), (λ i. ground arith))), refl)
receive_all-Adds (a ∷ nodes) r s v h = Adds-cons r a nodes _ v (
    receive_all-Adds nodes (voted r a) (voted r a).state (voted-IsValid r a v (omega arith))
      (omega (arith, voted_grows r a)))

-- The state that the loop ends with is that of the vote, if it is so at the start.
pub receive_all-state :
    (nodes : List Account) (r : ViewRequests)
    → (receive_all r r.state nodes).1 ≡ (receive_all r r.state nodes).0.state
unfolding receive_all receive_view_request_by_account
receive_all-state [] r = refl
receive_all-state (a ∷ nodes) r = receive_all-state nodes (voted r a)
