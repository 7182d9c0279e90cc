-- ===== src/Dbft/ChangingView/Deciding.antt =====
-- When receiveChangeViewReq elects a master at once.
use galaxy.Base.{
  ℕ, ◌+◌, ◌≤◌, ◌<◌, ◌≡◌, refl, sym, subst, ap, ◌∙◌, inl, inr, Bool, true, false, Bool-cases, List,
  [], ◌∷◌, none, some, In, Distinct, lookup, ℕ_discrete, arith, length, leb, if◌then◌else◌,
}
use galaxy.Base.Outcome.{returns, ◌>>=◌, OnReturn-holds, Returns, Returns-bind}
use galaxy.Account.{Account}
use galaxy.External.{Env}
use galaxy.Messages.{ViewChangeReq, Message}
use galaxy.Views.{viewing, is_end}
use galaxy.Fbft.State.{encodes}
use galaxy.Bft.State.{Action}
use galaxy.Dbft.State.{DbftCore, ViewNumStatus, ViewStatus, view_changing}
use galaxy.Dbft.ChangingView.{
  status_after, view_set, enough, send_change_view_req, end_view, tell, take_part, spread,
  count_nodes, gather, receive_change_view_req,
}
use galaxy.Dbft.ChangingView.Voters.{voters, voters-In, voters-first}
use galaxy.Dbft.ChangingView.Electing.{
  SameView, Elected, min_least, min_exists, stopped, spread-SameView, judged, received,
}

module _ {World : Type 0} (env : Env World) where
  tell-Returns :
      (core : DbftCore) (num : ℕ) (running : Bool)
      → core.master_timeout ≡ some running
      → Returns (tell env core num)
  unfolding tell
  tell-Returns core num running e = elim (Bool-cases (is_end (view_set core.views num).status)) [
    | inr f ↦ rw f ((core, []), refl)
    | inl t ↦ elim (Bool-cases (view_set core.views num).notify) [
      | inl n ↦ rw (t, n) ((core, []), refl)
      | inr n ↦ rw (t, n) (Returns-bind _ _ (_, stopped _ running e) (λ core'. (_, refl)))
    ]
  ]

  sent-returns :
      (core : DbftCore) (num : ℕ) (nodes : List Account)
      → ((msg : Message) → encodes env msg ≡ true)
      → Returns
          (if leb (length nodes) 1 then returns [] else send_change_view_req env core nodes num)
  unfolding send_change_view_req
  sent-returns core num nodes encodable = elim (Bool-cases (leb (length nodes) 1)) [
    | inl t ↦ rw t ([], refl)
    | inr f ↦ rw (f, encodable _) (_, refl)
  ]

  spread-Returns :
      (core : DbftCore) (num : ℕ) (nodes : List Account) (running : Bool)
      → core.master_timeout ≡ some running
      → ((msg : Message) → encodes env msg ≡ true)
      → Returns (spread env core num nodes)
  unfolding spread
  spread-Returns core num nodes running e encodable =
      Returns-bind _ _ (sent-returns core num nodes encodable)
        (λ sent. Returns-bind _ _ (tell-Returns core num running e) (λ told. (_, refl)))

  -- Where enough nodes ask, the view ends.
  counted :
      (core : DbftCore) (num : ℕ) (set : ViewNumStatus) (b : Account)
      → In b set.request_nodes
      → enough core.base set.request_nodes ≡ true
      → (core' : DbftCore) × (count_nodes env core num set ≡ returns core')
        × (core'.master_timeout ≡ core.master_timeout)
        × Elected core num set.request_nodes core'
  unfolding count_nodes end_view
  counted core num set b i many =
      let (m, e) = min_exists set.request_nodes b i in
      rw (many, e) (_, refl, refl, (refl, (m, refl, min_least set.request_nodes m e)))

  gathered :
      (core : DbftCore) (req : ViewChangeReq) (running : Bool)
      → core.master_timeout ≡ some running
      → ((msg : Message) → encodes env msg ≡ true)
      → enough core.base (voters core req) ≡ true
      → (out : DbftCore × List Action) × (gather env core req (view_set core.views req.view_num)
          ≡ returns out)
        × Elected core req.view_num (voters core req) out.0
  unfolding gather
  gathered core req running timer encodable many =
      let old = view_set core.views req.view_num in
      let set : ViewNumStatus = record old { request_nodes = voters core req } in
      let (core', e, t, elected) =
        counted core req.view_num set core.base.local
          ((voters-In core req core.base.local).1 (inr (inl refl))) many in
      let (out, f) =
        spread-Returns core' req.view_num (voters core req) running (t ∙ timer) encodable in
      let same =
        OnReturn-holds (λ o. SameView core' o.0) (spread env core' req.view_num (voters core req))
          out (spread-SameView env core' req.view_num (voters core req)) f in
      let (m, b, l) = elected.1 in
      (
        out,
        ap (λ c. c >>= (λ k. spread env k req.view_num (voters core req))) e ∙ f,
        (same.1 ∙ elected.0, (m, same.0 ∙ b, l)),
      )

  changing :
      (core : DbftCore) (req : ViewChangeReq)
      → core.views.view_num < req.view_num
      → status_after core.views req.view_num ≡ view_changing
  unfolding status_after
  changing core req later = ground arith

  open_view :
      (core : DbftCore) (req : ViewChangeReq)
      → (view_set core.views req.view_num).status ≡ viewing
      → take_part env view_changing core req
        ≡ gather env core req (view_set core.views req.view_num)
  unfolding take_part
  open_view core req fresh = rw fresh refl

  -- A request on which enough nodes are counted for a later view that has not ended.
  enough_voters_elect :
      (core : DbftCore) (req : ViewChangeReq) (running : Bool)
      → core.master_timeout ≡ some running
      → ((msg : Message) → encodes env msg ≡ true)
      → core.views.view_num < req.view_num
      → (view_set core.views req.view_num).status ≡ viewing
      → length core.base.peers ≤ length (voters core req) + core.base.tolerance
      → (out : DbftCore × List Action) × (receive_change_view_req env core req ≡ returns out)
        × Elected core req.view_num (voters core req) out.0
  unfolding view_set
  enough_voters_elect core req running timer encodable later fresh many =
      let (out, e, elected) =
        gathered (judged env core req) req false refl encodable (ground (arith, many)) in
      (
        out,
        received env core req running timer
            ∙ ap (λ (s : ViewStatus). take_part env s (judged env core req) req)
                (changing core req later)
            ∙ open_view (judged env core req) req fresh
            ∙ e,
        elected,
      )

  unasked :
      (core : DbftCore) (req : ViewChangeReq)
      → lookup ℕ_discrete req.view_num core.views.view_sets ≡ none
      → view_set core.views req.view_num
        ≡ record { status = viewing; notify = false; request_nodes = [] }
  unfolding view_set
  unasked core req e = rw (e, view_set) refl

  -- One request is enough. Where the timer is not nil and messages can be encoded, a request for a
  -- later view that nobody has asked for before, which names different nodes, none of them this one,
  -- elects the least of this node and the nodes that it names at once, if these are all peers but as
  -- many as the tolerance at least, by their number. Neither its sender nor the nodes that it names
  -- have to be peers.
  pub one_request_elects :
      (core : DbftCore) (req : ViewChangeReq) (running : Bool)
      → core.master_timeout ≡ some running
      → ((msg : Message) → encodes env msg ≡ true)
      → core.views.view_num < req.view_num
      → lookup ℕ_discrete req.view_num core.views.view_sets ≡ none
      → Distinct (core.base.local ∷ req.nodes)
      → length core.base.peers ≤ 1 + length req.nodes + core.base.tolerance
      → (out : DbftCore × List Action) × (receive_change_view_req env core req ≡ returns out)
        × Elected core req.view_num (core.base.local ∷ req.nodes) out.0
  one_request_elects core req running timer encodable later new d many =
      let set = unasked core req new in
      let counts : voters core req ≡ core.base.local ∷ req.nodes =
        voters-first core req (ap (λ (v : ViewNumStatus). v.request_nodes) set) d in
      let (out, e, elected) =
        enough_voters_elect core req running timer encodable later
          (ap (λ (v : ViewNumStatus). v.status) set)
          (subst (λ (l : List Account). length core.base.peers ≤ length l + core.base.tolerance)
            (sym counts) (omega (arith, many))) in
      (out, e, subst (λ (l : List Account). Elected core req.view_num l out.0) counts elected)
