-- ===== src/Views/Examples.antt =====
-- Votes of three accounts for a change from view 0 to view 1.
use galaxy.Base.{◌-◌, ◌^◌, ◌≡◌, refl, ◌≢◌, ◌↔◌, ℕ, [], ◌∷◌, none, arith, lookup, insert}
use galaxy.Account.{Account, Account-discrete}
use galaxy.Views.{
  viewing, view_end, new_requests, new_view_change, add_view_request,
  receive_view_request_by_account, receive_all,
}
use galaxy.Views.Window.{InWindow, add_view_request-InWindow}
use galaxy.Views.Quorum.{Adds, new_requests-IsValid, receive_all-Adds}

abbrev voter : ℕ → Account
voter n = record { address = n; extension = record { id = n; url = [] } }

-- Two distinct accounts end a vote with the threshold 2; a second vote of the first does not.
two_voters :
    ((receive_all (new_requests 2) viewing (voter 1 ∷ voter 1 ∷ [])).1 ≡ viewing)
    × ((receive_all (new_requests 2) viewing (voter 1 ∷ voter 1 ∷ voter 2 ∷ [])).1 ≡ view_end)
unfolding receive_all receive_view_request_by_account new_requests lookup insert Account-discrete
two_voters = (refl, refl)

receive_all-Adds_example :
    Adds
      (new_requests 2)
      (voter 1 ∷ voter 2 ∷ [])
      (receive_all (new_requests 2) viewing (voter 1 ∷ voter 2 ∷ [])).0
unfolding new_requests
receive_all-Adds_example =
    receive_all-Adds (voter 1 ∷ voter 2 ∷ []) (new_requests 2) viewing (new_requests-IsValid 2)
      (omega arith)

add_view_request-InWindow_example :
    ((add_view_request new_view_change (2 ^ 64 - 1) 3).1 ≢ none)
    ↔ InWindow new_view_change.current_view (2 ^ 64 - 1) new_view_change.walter_level
unfolding new_view_change
add_view_request-InWindow_example =
    add_view_request-InWindow new_view_change (2 ^ 64 - 1) 3 (omega arith) (omega arith)
      (omega arith)
