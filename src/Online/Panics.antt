-- ===== src/Online/Panics.antt =====
-- When an answer from the network ends the process.
use galaxy.Base.{
  ℕ, ◌≤◌, ◌≡◌, sym, ◌↔◌, ◌≢◌, inl, inr, List, [], Option, none, some, arith, ltb, if◌then◌else◌,
  lookup, Option-cases, ℕ_discrete,
}
use galaxy.Base.Outcome.{panics, then_panics}
use galaxy.Account.{Account}
use galaxy.Online.{
  OnlineWizard, ResponseNodes, new_response_nodes, opened, agreed, settled, add_online_response,
}

abbrev pub response_at : OnlineWizard → ℕ → Option ResponseNodes
response_at w h = lookup ℕ_discrete h w.response

-- The answers held for a height: none yet where the height has no entry.
abbrev pub held : OnlineWizard → ℕ → List Account
held w h = elim (lookup ℕ_discrete h w.response) [ none ↦ [] | some r ↦ r.nodes ]

-- The view on record for a height, 0 where the height has no entry.
abbrev pub view_of : OnlineWizard → ℕ → ℕ
view_of w h = elim (lookup ℕ_discrete h w.response) [ none ↦ 0 | some r ↦ r.view_num ]

agreed_panics :
    (r : ResponseNodes) (m : Account) (v : ℕ)
    → (agreed r m v ≡ panics) ↔ ((m ≢ r.master) × (v ≤ r.view_num))
unfolding agreed
agreed_panics r m v = ((λ h. ground arith), (λ h. ground arith))

opened_new :
    (w : OnlineWizard) (h level : ℕ) (m : Account)
    → response_at w h ≡ none
    → (opened w h level m).master ≡ m
unfolding opened new_response_nodes
opened_new w h level m e = ground arith

opened_old :
    (w : OnlineWizard) (h level : ℕ) (m : Account) (r : ResponseNodes)
    → response_at w h ≡ some r
    → ((opened w h level m).view_num ≡ r.view_num)
      × ((opened w h level m).master ≡ (if ltb w.block_height h then m else r.master))
unfolding opened
opened_old w h level m r e = ground arith

-- An answer ends the process exactly where the height is known and no new greatest one, the answer
-- names another master than the one on record, and its view is not later than the one on record.
add_online_response_panics :
    (w : OnlineWizard) (h : ℕ) (nodes : List Account) (level : ℕ) (m : Account) (v : ℕ)
    → (add_online_response w h nodes level m v ≡ panics) ↔ (
        (r : ResponseNodes) × (response_at w h ≡ some r)
        × (h ≤ w.block_height)
        × (m ≢ r.master)
        × (v ≤ r.view_num))
unfolding add_online_response
add_online_response_panics w h nodes level m v =
    let r = opened w h level m in
    let step = then_panics (settled w h nodes v) (agreed r m v) in
    (
      (λ p. refused ((agreed_panics r m v).0 (step.0 p))),
      (λ x. step.1 ((agreed_panics r m v).1 (refusing x))),
    )
  where
    refused :
        (m ≢ (opened w h level m).master) × (v ≤ (opened w h level m).view_num)
        → (r : ResponseNodes) × (response_at w h ≡ some r)
          × (h ≤ w.block_height)
          × (m ≢ r.master)
          × (v ≤ r.view_num)
    refused (n, le) = elim (Option-cases (response_at w h)) [
      | inl e ↦ absurd (n (sym (opened_new w h level m e)))
      | inr (r, e) ↦ (
        r,
        e,
        ground (arith, opened_old w h level m r e),
        ground (arith, opened_old w h level m r e),
        ground (arith, opened_old w h level m r e),
      )
    ]

    refusing :
        ((r : ResponseNodes) × (response_at w h ≡ some r)
          × (h ≤ w.block_height)
          × (m ≢ r.master)
          × (v ≤ r.view_num))
        → (m ≢ (opened w h level m).master) × (v ≤ (opened w h level m).view_num)
    refusing (r, e, le, n, old) = (
      (λ q. ground (arith, opened_old w h level m r e)),
      ground (arith, opened_old w h level m r e),
    )
