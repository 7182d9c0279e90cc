-- ===== src/Views/Window.antt =====
-- Which view numbers `AddViewRequest` takes, and what it does to the map.
use galaxy.Base.{
  ℕ, ◌^◌, ◌<◌, ◌≤◌, ◌≡◌, refl, ◌⊎◌, ◌↔◌, ◌≢◌, inl, inr, Option, none, some, arith, false,
  Bool-cases, Option-cases, ℕ_discrete, lookup, insert, lookup-insert, List, not, Distinct, keys,
  lookup-filter,
}
use galaxy.Base.Words.{sub64}
use galaxy.Utils.{abs, int64_gt}
use galaxy.Utils.Distance.{abs_circular}
use galaxy.Views.{
  ViewChange, ViewRequests, add_view_request, new_requests, remove_request, is_end, viewing,
}

-- At most `level` steps forward or back round the uint64, or exactly half way round, where the
-- distance overflows to the least int64.
abbrev pub InWindow : ℕ → ℕ → ℕ → Type 0
InWindow cur v level = (sub64 v cur ≤ level) ⊎ (sub64 cur v ≤ level) ⊎ (sub64 v cur ≡ 2 ^ 63)

window_test :
    (cur v level : ℕ)
    → cur < 2 ^ 64
    → v < 2 ^ 64
    → level < 2 ^ 63
    → (int64_gt (abs cur v) level ≡ false) ↔ InWindow cur v level
window_test cur v level hc hv hl = rw (abs_circular cur v hc hv) (ground arith)

-- A request is taken exactly when its view number lies in the window about the current view; that
-- includes the numbers across the wrap of the uint64 and the one exactly half way round.
pub add_view_request-InWindow :
    (vc : ViewChange) (v to_change : ℕ)
    → vc.current_view < 2 ^ 64
    → v < 2 ^ 64
    → vc.walter_level < 2 ^ 63
    → ((add_view_request vc v to_change).1 ≢ none) ↔ InWindow vc.current_view v vc.walter_level
unfolding add_view_request
add_view_request-InWindow vc v to_change hc hv hl =
    let w = window_test vc.current_view v vc.walter_level hc hv hl in
    elim (Bool-cases (int64_gt (abs vc.current_view v) vc.walter_level)) [
      | inl out ↦ rw out ((λ h. absurd (h refl)), (λ h. cc (w.1 h)))
      | inr inside ↦ rw inside ((λ h. w.0 inside), (λ h. ground arith))
    ]

abbrev pub request_at : ViewChange → ℕ → Option ViewRequests
request_at vc j = lookup ℕ_discrete j vc.view_requests

-- On an error nothing changes. Otherwise the result is the entry under the view number: the one
-- that stood there before, or a new one with the given threshold where there was none. No other
-- entry and neither of the two numbers changes.
pub add_view_request-entry :
    (vc : ViewChange) (v to_change : ℕ)
    → let out = add_view_request vc v to_change in
      ((out.1 ≡ none) × (out.0 ≡ vc))
      ⊎ ((r : ViewRequests) × (out.1 ≡ some r)
          × (request_at out.0 v ≡ some r)
          × ((request_at vc v ≡ some r) ⊎ ((request_at vc v ≡ none) × (r ≡ new_requests to_change)))
          × ((j : ℕ) → j ≢ v → request_at out.0 j ≡ request_at vc j)
          × (out.0.current_view ≡ vc.current_view)
          × (out.0.walter_level ≡ vc.walter_level))
unfolding add_view_request
add_view_request-entry vc v to_change =
    elim (Bool-cases (int64_gt (abs vc.current_view v) vc.walter_level)) [
      | inl out ↦ inl (rw out (refl, refl))
      | inr inside ↦ inr (elim (Option-cases (lookup ℕ_discrete v vc.view_requests)) [
        | inl absent ↦
            rw (inside, absent)
              (new_requests to_change, refl, written v refl, inr (refl, refl), other, refl, refl)
        | inr (r, e) ↦ rw (inside, e) (r, refl, e, inl refl, (λ j n. refl), refl, refl)
      ])
    ]
  where
    after : List (ℕ × ViewRequests)
    after = insert ℕ_discrete v (new_requests to_change) vc.view_requests

    written : (j : ℕ) → j ≡ v → lookup ℕ_discrete j after ≡ some (new_requests to_change)
    written j e =
        ground (arith, lookup-insert ℕ_discrete v j (new_requests to_change) vc.view_requests)

    other : (j : ℕ) → j ≢ v → lookup ℕ_discrete j after ≡ request_at vc j
    other j n =
        ground (arith, lookup-insert ℕ_discrete v j (new_requests to_change) vc.view_requests)

-- After RemoveRequest a vote stands under a number exactly when it stood there before and has not
-- ended.
remove_request-entry :
    (vc : ViewChange) (j : ℕ) (r : ViewRequests)
    → Distinct (keys vc.view_requests)
    → (request_at (remove_request vc) j ≡ some r)
      ↔ ((request_at vc j ≡ some r) × (r.state ≡ viewing))
unfolding remove_request
remove_request-entry vc j r d =
    let left =
      lookup-filter ℕ_discrete (λ (e : ℕ × ViewRequests). not (is_end e.1.state)) j vc.view_requests
        d in
    ((λ h. ground (arith, left)), (λ h. ground (arith, left)))
