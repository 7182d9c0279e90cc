-- ===== src/Dbft/ChangingView/Electing.antt =====
-- Who becomes the master by receiveChangeViewReq.
use galaxy.Base.{
  ℕ, ◌+◌, ◌≤◌, ◌≡◌, refl, sym, subst, ◌∙◌, ◌⊎◌, ◌↔◌, inl, inr, Bool, false, Bool-cases,
  Option-cases, List, [], ◌∷◌, ◌++◌, none, some, In, Distinct, arith, length, leb, if◌then◌else◌,
  leb→le,
}
use galaxy.Base.Outcome.{
  Outcome, returns, panics, OnReturn, OnReturn-bind, OnReturn-map, OnReturn-holds,
}
use galaxy.Account.{Account}
use galaxy.External.{Env}
use galaxy.Messages.{ViewChangeReq}
use galaxy.Utils.{get_account_with_min_id}
use galaxy.Utils.Choice.{IsLeast, get_account_with_min_id-IsLeast}
use galaxy.Views.{is_end}
use galaxy.Bft.State.{Action}
use galaxy.Dbft.State.{DbftCore, ViewNumStatus, ViewStatus, view_changing, view_normal, stop_timer}
use galaxy.Dbft.ChangingView.{
  status_after, view_set, enough, send_change_view_req, end_view, tell, take_part, spread,
  count_nodes, gather, receive_change_view_req,
}
use galaxy.Dbft.ChangingView.Voters.{voters, voters-In, voters-Distinct}

pub min_least :
    (nodes : List Account) (m : Account) → get_account_with_min_id nodes ≡ some m → IsLeast m nodes
unfolding get_account_with_min_id
min_least [] m e = cc
min_least (a ∷ nodes) m e =
    let (k, f, h) = get_account_with_min_id-IsLeast a nodes in
    subst (λ (x : Account). IsLeast x (a ∷ nodes)) (some_inj (sym f ∙ e)) h
  where
    some_inj : {x y : Account} → some x ≡ some y → x ≡ y
    some_inj q = cc

pub min_exists :
    (nodes : List Account) (b : Account)
    → In b nodes
    → (m : Account) × (get_account_with_min_id nodes ≡ some m)
min_exists [] b i = absurd i
min_exists (a ∷ nodes) b i = let (m, e, h) = get_account_with_min_id-IsLeast a nodes in (m, e)

-- The view and the nodes of a core are those of another.
abbrev pub SameView : DbftCore → DbftCore → Type 0
SameView core core' = (core'.base ≡ core.base) × (core'.views.view_num ≡ core.views.view_num)

-- The view has moved to a number, with the least of some nodes as the master.
abbrev pub Elected : DbftCore → ℕ → List Account → DbftCore → Type 0
Elected core num nodes core' =
    (core'.views.view_num ≡ num)
    × ((m : Account) × (core'.base ≡ (let base = core.base in record base { master = m }))
        × IsLeast m nodes)

stop_timer-SameView : (core : DbftCore) → OnReturn (SameView core) (stop_timer core)
unfolding stop_timer
stop_timer-SameView core = ground arith

pub stopped :
    (core : DbftCore) (running : Bool)
    → core.master_timeout ≡ some running
    → stop_timer core ≡ returns (record core { master_timeout = some false })
unfolding stop_timer
stopped core running e = ground arith

stopped_nil : (core : DbftCore) → core.master_timeout ≡ none → stop_timer core ≡ panics
unfolding stop_timer
stopped_nil core e = ground arith

module _ {World : Type 0} (env : Env World) where
  pub tell-SameView :
      (core : DbftCore) (num : ℕ) → OnReturn (λ out. SameView core out.0) (tell env core num)
  unfolding tell stop_timer
  tell-SameView core num = ground arith

  end_view-Elected :
      (core : DbftCore) (num : ℕ) (set : ViewNumStatus)
      → OnReturn (Elected core num set.request_nodes) (end_view env core num set)
  unfolding end_view
  end_view-Elected core num set = elim (Option-cases (get_account_with_min_id set.request_nodes)) [
    | inl e ↦ rw e tt
    | inr (m, e) ↦ rw e (refl, (m, refl, min_least set.request_nodes m e))
  ]

  -- What a request does to the view, the nodes counted being given: nothing, or it elects the least of
  -- enough of them.
  abbrev pub Changed : DbftCore → ℕ → List Account → DbftCore → Type 0
  Changed core num nodes core' =
      SameView core core'
      ⊎ ((length core.base.peers ≤ length nodes + core.base.tolerance)
          × Elected core num nodes core')

  Changed-same :
      (core core' later : DbftCore) (num : ℕ) (nodes : List Account)
      → Changed core num nodes core'
      → SameView core' later
      → Changed core num nodes later
  Changed-same core core' later num nodes (inl s) t = inl (t.0 ∙ s.0, t.1 ∙ s.1)
  Changed-same core core' later num nodes (inr (h, e)) t =
      let (m, b, l) = e.1 in inr (h, (t.1 ∙ e.0, (m, t.0 ∙ b, l)))

  count_nodes-Changed :
      (core : DbftCore) (num : ℕ) (set : ViewNumStatus)
      → OnReturn (Changed core num set.request_nodes) (count_nodes env core num set)
  unfolding count_nodes
  count_nodes-Changed core num set = elim (Bool-cases (enough core.base set.request_nodes)) [
    | inl t ↦ rw t (
        OnReturn-map (Elected core num set.request_nodes) (Changed core num set.request_nodes)
          (end_view env core num set) (λ core' e. inr (leb→le _ _ t, e))
          (end_view-Elected core num set))
    | inr f ↦ rw f (inl (refl, refl))
  ]

  pub spread-SameView :
      (core : DbftCore) (num : ℕ) (nodes : List Account)
      → OnReturn (λ out. SameView core out.0) (spread env core num nodes)
  unfolding spread
  spread-SameView core num nodes =
      let Good : DbftCore × List Action → Type 0 = λ out. SameView core out.0 in
      let passing : Outcome (List Action) =
        if leb (length nodes) 1 then returns [] else send_change_view_req env core nodes num in
      OnReturn-bind Good passing _ (λ sent e.
        OnReturn-bind Good (tell env core num) (λ told. returns (told.0, sent ++ told.1))
          (λ told f. OnReturn-holds Good (tell env core num) told (tell-SameView core num) f))

  gather-Changed :
      (core : DbftCore) (req : ViewChangeReq)
      → OnReturn
          (λ out. Changed core req.view_num (voters core req) out.0)
          (gather env core req (view_set core.views req.view_num))
  unfolding gather
  gather-Changed core req =
      let num = req.view_num in
      let old = view_set core.views num in
      let set : ViewNumStatus = record old { request_nodes = voters core req } in
      let Good : DbftCore × List Action → Type 0 =
        λ out. Changed core num (voters core req) out.0 in
      OnReturn-bind Good (count_nodes env core num set)
        (λ core'. spread env core' num (voters core req))
        (λ core' e.
          OnReturn-map (λ out. SameView core' out.0) Good (spread env core' num (voters core req))
            (λ out same.
              Changed-same core core' out.0 num (voters core req)
                (OnReturn-holds (Changed core num (voters core req)) (count_nodes env core num set)
                  core' (count_nodes-Changed core num set) e)
                same)
            (spread-SameView core' num (voters core req)))

  take_part-Changed :
      (core : DbftCore) (status : ViewStatus) (req : ViewChangeReq)
      → OnReturn
          (λ out. Changed core req.view_num (voters core req) out.0)
          (take_part env status core req)
  unfolding take_part
  take_part-Changed core view_normal req = inl (refl, refl)
  take_part-Changed core view_changing req =
      elim (Bool-cases (is_end (view_set core.views req.view_num).status)) [
        | inl e ↦ rw e (inl (refl, refl))
        | inr e ↦ rw e (gather-Changed core req)
      ]

  -- The core past the first test.
  abbrev pub judged : DbftCore → ViewChangeReq → DbftCore
  judged core req =
      let views = core.views in
      record core {
        master_timeout = some false;
        views = record views { status = status_after views req.view_num };
      }

  pub received :
      (core : DbftCore) (req : ViewChangeReq) (running : Bool)
      → core.master_timeout ≡ some running
      → receive_change_view_req env core req
        ≡ take_part env (status_after core.views req.view_num) (judged core req) req
  unfolding receive_change_view_req
  received core req running e = rw (stopped core running e) refl

  received_nil :
      (core : DbftCore) (req : ViewChangeReq)
      → core.master_timeout ≡ none
      → receive_change_view_req env core req ≡ panics
  unfolding receive_change_view_req
  received_nil core req e = rw (stopped_nil core e) refl

  -- A request changes nothing but the bookkeeping, or it elects: the view is then the one that it asks
  -- for, and the master is the account with the least id among the nodes counted for that view, which
  -- are all peers but as many as the tolerance at least. Those nodes are the ones of earlier requests
  -- for the view, this node and the ones that the request names, and each is counted once if that held
  -- before.
  pub receive_change_view_req_elects :
      (core : DbftCore) (req : ViewChangeReq)
      → OnReturn
          (λ out. Changed core req.view_num (voters core req) out.0)
          (receive_change_view_req env core req)
        × ((b : Account)
            → In b (voters core req) ↔ (
                In b (view_set core.views req.view_num).request_nodes
                ⊎ ((b ≡ core.base.local) ⊎ In b req.nodes)))
        × (Distinct (view_set core.views req.view_num).request_nodes → Distinct (voters core req))
  unfolding view_set
  receive_change_view_req_elects core req = (
    elim (Option-cases core.master_timeout) [
      | inl e ↦ rw (received_nil core req e) tt
      | inr (running, e) ↦
          rw (received core req running e)
            (take_part-Changed (judged core req) (status_after core.views req.view_num) req)
    ],
    voters-In core req,
    voters-Distinct core req,
  )
