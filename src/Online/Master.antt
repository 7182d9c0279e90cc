-- ===== src/Online/Master.antt =====
-- On which master the nodes of one height agree.
use galaxy.Base.{
  ℕ, ◌≤◌, ◌≡◌, refl, sym, ap, subst, ◌∙◌, ◌⊎◌, ◌↔◌, ◌≢◌, inl, inr, List, [], ◌∷◌, none, some, arith,
  In, length, max, lookup-insert_self, lookup-insert_ne, Option-cases, ℕ_discrete,
}
use galaxy.Base.Outcome.{returns, then_returns}
use galaxy.Account.{Account}
use galaxy.Online.{
  OnlineWizard, ResponseNodes, OnlineState, unset, online, new_response_nodes, add_all,
  entry_or_new, opened, agreed, raised, settled, add_online_response,
}
use galaxy.Online.Nodes.{
  IsValid, addresses, new_response_nodes-IsValid, add_all-Counts, add_all-online,
}
use galaxy.Online.Panics.{response_at, held, view_of}

-- A height is in order where its entry is.
abbrev pub AllValid : OnlineWizard → Type 0
AllValid w = (h : ℕ) (r : ResponseNodes) → response_at w h ≡ some r → IsValid r

found_none :
    (w : OnlineWizard) (h level : ℕ) (m : Account)
    → response_at w h ≡ none
    → entry_or_new w h level m ≡ new_response_nodes level m
unfolding entry_or_new
found_none w h level m e = rw (e, entry_or_new)

found_some :
    (w : OnlineWizard) (h level : ℕ) (m : Account) (r : ResponseNodes)
    → response_at w h ≡ some r
    → entry_or_new w h level m ≡ r
unfolding entry_or_new
found_some w h level m r e = rw (e, entry_or_new)

found-IsValid :
    (w : OnlineWizard) (h level : ℕ) (m : Account) → AllValid w → IsValid (entry_or_new w h level m)
found-IsValid w h level m v = elim (Option-cases (response_at w h)) [
  | inl e ↦ subst IsValid (sym (found_none w h level m e)) (new_response_nodes-IsValid level m)
  | inr (r, e) ↦ subst IsValid (sym (found_some w h level m r e)) (v h r e)
]

-- The master and the view do not matter to the order of an entry.
relabelled-IsValid :
    (r : ResponseNodes) (m : Account) (v : ℕ)
    → IsValid r
    → IsValid (record r { master = m; view_num = v })
relabelled-IsValid r m v i = record {
  indexed = i.indexed;
  distinct = i.distinct;
  reached = i.reached;
}

-- The entry on which the master is settled is the one found but for its master.
agreed_returns :
    (w : OnlineWizard) (h level : ℕ) (m : Account) (v : ℕ) (q : ResponseNodes)
    → agreed (opened w h level m) m v ≡ returns q
    → q ≡ record (entry_or_new w h level m) { master = m }
unfolding agreed opened
agreed_returns w h level m v q e = ground arith

raised_lem :
    (r : ResponseNodes) (m : Account) (v : ℕ)
    → raised (record r { master = m }) v ≡ record r { master = m; view_num = max r.view_num v }
unfolding raised
raised_lem r m v = ground arith

found_nodes :
    (w : OnlineWizard) (h level : ℕ) (m : Account)
    → ((entry_or_new w h level m).nodes ≡ held w h)
      × ((entry_or_new w h level m).view_num ≡ view_of w h)
unfolding entry_or_new new_response_nodes
found_nodes w h level m = ground arith

-- What an answer for the height `h` leaves under `h`: the master of the answer, the later of the two
-- views, and the nodes on record with those of the answer, each address once. The level is reached
-- where the height is online.
pub record Answered (w : OnlineWizard) (h : ℕ) (nodes : List Account) (m : Account) (v : ℕ)
    (r : ResponseNodes) : Type 0 where
  pub valid : IsValid r
  pub master_of : r.master ≡ m
  pub view : r.view_num ≡ max (view_of w h) v
  pub members :
      (x : ℕ) → In x (addresses r.nodes) ↔ (In x (addresses (held w h)) ⊎ In x (addresses nodes))

module _ (w : OnlineWizard) (h level : ℕ) (m : Account) (v : ℕ) where
  abbrev base : ResponseNodes
  base = record (entry_or_new w h level m) { master = m; view_num = max (view_of w h) v }

  abbrev counted : List Account → ResponseNodes × List Account × OnlineState
  counted nodes = add_all base [] unset nodes

  abbrev Settles : List Account → OnlineWizard × List Account × OnlineState → Type 0
  Settles nodes out =
      (response_at out.0 h ≡ some (counted nodes).0)
      × (out.1 ≡ (counted nodes).1)
      × (out.2 ≡ (counted nodes).2)
      × ((j : ℕ) → j ≢ h → response_at out.0 j ≡ response_at w j)
      × (out.0.block_height ≡ max w.block_height h)

  settled-Settles :
      (nodes : List Account) (q : ResponseNodes)
      → raised q v ≡ base
      → Settles nodes (settled w h nodes v q)
  unfolding settled
  settled-Settles nodes q e =
      rw (e, settled)
        (
          lookup-insert_self ℕ_discrete h (counted nodes).0 w.response,
          refl,
          refl,
          (λ j n. lookup-insert_ne ℕ_discrete h j (counted nodes).0 w.response n),
          ground arith,
        )

  raised-base :
      (q : ResponseNodes) → agreed (opened w h level m) m v ≡ returns q → raised q v ≡ base
  raised-base q a =
      ap (λ (r : ResponseNodes). raised r v) (agreed_returns w h level m v q a)
      ∙ raised_lem (entry_or_new w h level m) m v
      ∙ ap (λ (n : ℕ). record (entry_or_new w h level m) { master = m; view_num = max n v })
          (found_nodes w h level m).1

  returned-Settles :
      (nodes : List Account) (out : OnlineWizard × List Account × OnlineState)
      → add_online_response w h nodes level m v ≡ returns out
      → Settles nodes out
  unfolding add_online_response
  returned-Settles nodes out e =
      let (q, a, b) = then_returns (settled w h nodes v) (agreed (opened w h level m) m v) out e in
      subst (Settles nodes) (sym b) (settled-Settles nodes q (raised-base q a))

  base-IsValid : AllValid w → IsValid base
  base-IsValid i =
      relabelled-IsValid (entry_or_new w h level m) m (max (view_of w h) v)
        (found-IsValid w h level m i)

  -- Where an answer does not panic, the entry of its height is there and as `Answered` says, the
  -- entries of all other heights are untouched, and the greatest height is kept.
  pub add_online_response-Answered :
      (nodes : List Account) (out : OnlineWizard × List Account × OnlineState)
      → AllValid w
      → add_online_response w h nodes level m v ≡ returns out
      → ((r : ResponseNodes) × (response_at out.0 h ≡ some r) × Answered w h nodes m v r)
        × ((j : ℕ) → j ≢ h → response_at out.0 j ≡ response_at w j)
        × (out.0.block_height ≡ max w.block_height h)
  add_online_response-Answered nodes out i e =
      let s = returned-Settles nodes out e in
      let c = add_all-Counts nodes base [] unset (base-IsValid i) in
      (
        (
          (counted nodes).0,
          s.0,
          record {
            valid = c.valid;
            master_of = c.same_master;
            view = c.same_view;
            members =
                subst
                  (λ (l : List Account).
                    (x : ℕ)
                    → In x (addresses (counted nodes).0.nodes)
                      ↔ (In x (addresses l) ⊎ In x (addresses nodes)))
                  (found_nodes w h level m).0 c.members;
          },
        ),
        s.3,
        s.4,
      )

  -- With at least one node, the call returns the nodes on record afterwards, and `online` exactly
  -- where they are as many as the level of the entry asks for.
  add_online_response_online :
      (a : Account) (nodes : List Account) (out : OnlineWizard × List Account × OnlineState)
      → AllValid w
      → add_online_response w h (a ∷ nodes) level m v ≡ returns out
      → (r : ResponseNodes) × (response_at out.0 h ≡ some r)
        × (out.1 ≡ r.nodes)
        × ((out.2 ≡ online) ↔ (r.walter_level ≤ length out.1))
  add_online_response_online a nodes out i e =
      let s = returned-Settles (a ∷ nodes) out e in
      let c = add_all-Counts (a ∷ nodes) base [] unset (base-IsValid i) in
      let o = add_all-online nodes a base [] unset (base-IsValid i) in
      ((counted (a ∷ nodes)).0, s.0, s.1 ∙ o.0, rw (s.1, s.2, o.0, o.1, c.same_level) o.2)

-- So an answer that does not panic keeps every entry in order.
pub add_online_response-AllValid :
    (w : OnlineWizard) (h level : ℕ) (m : Account) (v : ℕ) (nodes : List Account)
    (out : OnlineWizard × List Account × OnlineState)
    → AllValid w
    → add_online_response w h nodes level m v ≡ returns out
    → AllValid out.0
add_online_response-AllValid w h level m v nodes out i e j r at =
    let (new, others, _) = add_online_response-Answered w h level m v nodes out i e in
    elim (ℕ_discrete j h) [
      | yes same ↦
          let here : response_at out.0 h ≡ some r =
            subst (λ (k : ℕ). response_at out.0 k ≡ some r) same at in
          let eq : new.0 ≡ r = cc (new.1, here) in subst IsValid eq new.2.valid
      | no n ↦ i j r (sym (others j n) ∙ at)
    ]
