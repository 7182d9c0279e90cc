-- ===== src/Fbft/ViewChanging/Outcomes.antt =====
-- What a request for a change of view may leave of a core, and of the vote for its view.
use galaxy.Base.{
  ℕ, ◌+◌, ◌≤◌, ◌<◌, ◌≡◌, refl, ◌⊎◌, inl, inr, true, List, [], ◌∷◌, none, some, arith, In, Distinct,
  length, Bool-cases,
}
use galaxy.Account.{Account}
use galaxy.Utils.{get_account_with_min_id}
use galaxy.Utils.Choice.{IsLeast, get_account_with_min_id-IsLeast}
use galaxy.External.{Env}
use galaxy.Views.{ViewRequests, ViewRequestState, viewing, view_end, is_end, new_requests}
use galaxy.Views.Window.{request_at}
use galaxy.Views.Quorum.{IsValid, receive_all-Adds, receive_all-state}
use galaxy.Messages.{ViewChangeReq}
use galaxy.Fbft.State.{Core, Effect, Event, stop_change_view_timer, broadcast, notify}
use galaxy.Fbft.Leader.{others}
use galaxy.Fbft.ViewChanging.{votes_needed, vote, view_change_for}

-- All votes of a core are in good order, and short of 256 accounts with `n` more.
pub record Voting (core : Core) (n : ℕ) : Type 0 where
  pub short : n < 256
  pub votes :
      (v : ℕ) (r : ViewRequests)
      → request_at core.view_change v ≡ some r
      → IsValid r × (length r.nodes + n < 256)

-- What is left of a vote: it is in good order, its state is the one returned, and its accounts are
-- those that it had and those of the request.
pub vote-IsValid :
    (r : ViewRequests) (nodes : List Account)
    → IsValid r
    → length r.nodes + length nodes < 256
    → IsValid (vote r nodes).0
      × ((vote r nodes).1 ≡ (vote r nodes).0.state)
      × ((b : Account) → In b (vote r nodes).0.nodes → In b r.nodes ⊎ In b nodes)
      × ((vote r nodes).0.to_change ≡ r.to_change)
unfolding vote
vote-IsValid r nodes v small = elim (Bool-cases (is_end r.state)) [
  | inl e ↦ rw e (v, refl, (λ b h. inl h), refl)
  | inr e ↦
      let adds = receive_all-Adds nodes r r.state v small in
      rw e (adds.0, receive_all-state nodes r, (λ b. (adds.1 b).0), adds.2)
]

-- What a core has after a request that did not settle the view.
pub record Kept (core : Core) (out : Core × List Effect) : Type 0 where
  pub view : out.0.view_change.current_view ≡ core.view_change.current_view
  pub nodes : out.0.nodes ≡ core.nodes
  pub silent : out.1 ≡ []

-- Of the state that a vote ends in.
pub is_end_iff : (s : ViewRequestState) → is_end s ≡ true → s ≡ view_end
is_end_iff viewing e = cc
is_end_iff view_end e = refl

pub elected :
    (nodes : List Account)
    → 0 < length nodes
    → (m : Account) × (get_account_with_min_id nodes ≡ some m) × IsLeast m nodes
elected [] h = absurd (omega arith)
elected (a ∷ nodes) h = get_account_with_min_id-IsLeast a nodes

-- Where the entry that AddViewRequest gives comes from.
abbrev pub FromEntry : Core → ViewChangeReq → ViewRequests → Type 0
FromEntry core req r =
    (request_at core.view_change req.view_num ≡ some r)
    ⊎ ((request_at core.view_change req.view_num ≡ none) × (r ≡ new_requests (votes_needed core)))

pub fresh_empty : (n : ℕ) (b : Account) → In b (new_requests n).nodes → ⊥
unfolding new_requests
fresh_empty n b i = i

pub fresh_need : (n : ℕ) → (new_requests n).to_change ≡ n
unfolding new_requests
fresh_need n = refl

module _ {World : Type 0} (env : Env World) where
  -- What it has after one that did: `voters` are the accounts of the vote.
  pub record Elected (core : Core) (req : ViewChangeReq) (out : Core × List Effect) : Type 0 where
    pub later : core.view_change.current_view < req.view_num
    pub view : out.0.view_change.current_view ≡ req.view_num
    pub voters : List Account
    pub distinct : Distinct voters
    pub needed : ℕ
    pub enough : needed ≤ length voters
    pub need_of :
        (needed ≡ votes_needed core)
        ⊎ ((r : ViewRequests) × (request_at core.view_change req.view_num ≡ some r)
            × (needed ≡ r.to_change))
    pub named :
        (b : Account)
        → In b voters
        → In b req.nodes
          ⊎ ((r : ViewRequests) × (request_at core.view_change req.view_num ≡ some r)
              × In b r.nodes)
    pub least : IsLeast out.0.nodes.master voters
    pub sent :
        out.1
        ≡ broadcast (others core) (view_change_for env core [] req.view_num)
          ∷ stop_change_view_timer
          ∷ notify Event.master_change
          ∷ []
