-- ===== src/Pbft/Timer/Contract.antt =====
-- The contract of Timer: what is started before a stop or a reset is not delivered after it.
use galaxy.Base.{
  ℕ, ◌≡◌, refl, sym, ap, subst, ◌∙◌, ◌⊎◌, inl, inr, true, Option-cases, List, [], ◌∷◌, ◌++◌, Option,
  none, some, In, In-append, arith,
}
use galaxy.Pbft.Timer.{
  EventTimer, Choice, start, stop, expire, deliver, exit, started, turn, loop, reset,
}

no_end : {A : Type 0} {a : A} → none ≡ some a → ⊥
no_end e = cc

same_end : {A : Type 0} {a b : A} → some a ≡ some b → a ≡ b
same_end e = cc

module _ {E : Type 0} where
  -- The events that some choices start.
  abbrev pub starts : List (Choice E) → List (Option E)
  starts [] = []
  starts (start s ∷ choices) = some s.event ∷ starts choices
  starts (_ ∷ choices) = starts choices

  -- What a timer may still deliver of its own: an event that counts down or that has fired.
  abbrev pub IsLive : EventTimer E → Option E → Type 0
  IsLive t e = (t.event ≡ e) × ((t.counting ≡ true) ⊎ (t.fired ≡ true))

  turn-IsLive :
      (t t' : EventTimer E) (choice : Choice E) (out : List (Option E)) (e : Option E)
      → turn t choice ≡ some (t', out)
      → IsLive t' e
      → IsLive t e ⊎ In e (starts (choice ∷ []))
  unfolding turn started
  turn-IsLive t t' (start s) out e h live = ground arith
  turn-IsLive t t' stop out e h live = ground arith
  turn-IsLive t t' expire out e h live = ground arith
  turn-IsLive t t' deliver out e h live = ground arith
  turn-IsLive t t' exit out e h live = ground arith

  turn-delivers :
      (t t' : EventTimer E) (choice : Choice E) (out : List (Option E)) (e : Option E)
      → turn t choice ≡ some (t', out)
      → In e out
      → IsLive t e
  unfolding turn
  turn-delivers t t' choice out e h i = ground arith

  starts-cons :
      (choice : Choice E) (choices : List (Choice E)) (e : Option E)
      → In e (starts (choice ∷ [])) ⊎ In e (starts choices)
      → In e (starts (choice ∷ choices))
  starts-cons (start s) choices e (inl (inl q)) = inl q
  starts-cons (start s) choices e (inl (inr n)) = absurd n
  starts-cons (start s) choices e (inr i) = inr i
  starts-cons stop choices e (inl n) = absurd n
  starts-cons expire choices e (inl n) = absurd n
  starts-cons deliver choices e (inl n) = absurd n
  starts-cons exit choices e (inl n) = absurd n
  starts-cons stop choices e (inr i) = i
  starts-cons expire choices e (inr i) = i
  starts-cons deliver choices e (inr i) = i
  starts-cons exit choices e (inr i) = i

  loop-blocked :
      (t : EventTimer E) (choice : Choice E) (choices : List (Choice E))
      → turn t choice ≡ none
      → loop t (choice ∷ choices) ≡ none
  unfolding loop
  loop-blocked t choice choices e = rw (e, loop) refl

  loop-later_blocked :
      (t : EventTimer E) (choice : Choice E) (choices : List (Choice E))
      (one : EventTimer E × List (Option E))
      → turn t choice ≡ some one
      → loop one.0 choices ≡ none
      → loop t (choice ∷ choices) ≡ none
  unfolding loop
  loop-later_blocked t choice choices one e f = rw (e, loop, f) refl

  loop-goes_on :
      (t : EventTimer E) (choice : Choice E) (choices : List (Choice E))
      (one later : EventTimer E × List (Option E))
      → turn t choice ≡ some one
      → loop one.0 choices ≡ some later
      → loop t (choice ∷ choices) ≡ some (later.0, one.1 ++ later.1)
  unfolding loop
  loop-goes_on t choice choices one later e f = rw (e, loop, f) refl

  -- A run is a turn and the rest of the run.
  loop-parts :
      (t : EventTimer E) (choice : Choice E) (choices : List (Choice E))
      (end : EventTimer E × List (Option E))
      → loop t (choice ∷ choices) ≡ some end
      → (one : EventTimer E × List (Option E)) × (later : EventTimer E × List (Option E)) × (turn t
            choice
          ≡ some one)
        × (loop one.0 choices ≡ some later)
        × (end.1 ≡ one.1 ++ later.1)
  loop-parts t choice choices end h = elim (Option-cases (turn t choice)) [
    | inl e ↦ absurd (no_end (sym (loop-blocked t choice choices e) ∙ h))
    | inr (one, e) ↦ elim (Option-cases (loop one.0 choices)) [
      | inl f ↦ absurd (no_end (sym (loop-later_blocked t choice choices one e f) ∙ h))
      | inr (later, f) ↦ (
        one,
        later,
        e,
        f,
        ap (λ (x : EventTimer E × List (Option E)). x.1)
            (sym (same_end (sym (loop-goes_on t choice choices one later e f) ∙ h))),
      )
    ]
  ]

  -- What a run delivers was live at its beginning, or is started in it.
  delivered :
      (t : EventTimer E) (choices : List (Choice E)) (end : EventTimer E × List (Option E))
      (e : Option E)
      → loop t choices ≡ some end
      → In e end.1
      → IsLive t e ⊎ In e (starts choices)
  unfolding loop
  delivered t [] end e h i = ground arith
  delivered t (choice ∷ choices) end e h i =
      let (one, later, f, g, out) = loop-parts t choice choices end h in
      elim (In-append e one.1 later.1 (subst (In e) out i)) [
        | inl j ↦ inl (turn-delivers t one.0 choice one.1 e f j)
        | inr j ↦ elim (delivered one.0 choices later e g j) [
          | inl live ↦ elim (turn-IsLive t one.0 choice one.1 e f live) [
            | inl l ↦ inl l
            | inr s ↦ inr (starts-cons choice choices e (inl s))
          ]
          | inr s ↦ inr (starts-cons choice choices e (inr s))
        ]
      ]

  -- A turn that delivers nothing and leaves little live.
  silent_turn :
      (t : EventTimer E) (choice : Choice E) (choices : List (Choice E))
      (end : EventTimer E × List (Option E)) (e : Option E) (Q : Type 0)
      → ((one : EventTimer E × List (Option E))
          → turn t choice ≡ some one
          → (one.1 ≡ []) × (IsLive one.0 e → Q))
      → loop t (choice ∷ choices) ≡ some end
      → In e end.1
      → Q ⊎ In e (starts choices)
  silent_turn t choice choices end e Q silent h i =
      let (one, later, f, g, out) = loop-parts t choice choices end h in
      let quiet = silent one f in
      let j : In e later.1 =
        subst (In e) (out ∙ ap (λ (l : List (Option E)). l ++ later.1) quiet.0) i in
      elim (delivered one.0 choices later e g j) [ inl live ↦ inl (quiet.1 live) | inr s ↦ inr s ]

  stop-silent :
      (t : EventTimer E) (one : EventTimer E × List (Option E)) (e : Option E)
      → turn t stop ≡ some one
      → (one.1 ≡ []) × (IsLive one.0 e → ⊥)
  unfolding turn
  stop-silent t one e h = ground arith

  reset-silent :
      (t : EventTimer E) (duration : ℕ) (event : E) (one : EventTimer E × List (Option E))
      (e : Option E)
      → turn t (reset duration event) ≡ some one
      → (one.1 ≡ []) × (IsLive one.0 e → e ≡ some event)
  unfolding turn reset started
  reset-silent t duration event one e h = ground arith

  -- The contract of Timer: of the events that are delivered after a Stop, each is started after it, also
  -- where an earlier one had fired and only waited for the manager; and of those that are delivered
  -- after a Reset, each is that of the Reset or started after it.
  pub timer_contract :
      (t : EventTimer E) (duration : ℕ) (event : E) (choices : List (Choice E))
      (end : EventTimer E × List (Option E)) (e : Option E)
      → In e end.1
      → (loop t (stop ∷ choices) ≡ some end → In e (starts choices))
        × (loop t (reset duration event ∷ choices) ≡ some end
            → (e ≡ some event) ⊎ In e (starts choices))
  timer_contract t duration event choices end e i = (
    (λ h. elim (silent_turn t stop choices end e ⊥ (λ one f. stop-silent t one e f) h i) [
      | inl n ↦ absurd n
      | inr s ↦ s
    ]),
    (λ h.
        silent_turn t (reset duration event) choices end e (e ≡ some event)
          (λ one f. reset-silent t duration event one e f) h i),
  )
