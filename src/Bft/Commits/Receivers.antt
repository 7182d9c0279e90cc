-- ===== src/Bft/Commits/Receivers.antt =====
-- Whom a commit goes to, and in which order.
use galaxy.Base.{
  ℕ, zero, suc, ◌+◌, ◌%◌, ◌^◌, ◌≤◌, ◌<◌, ◌≡◌, ◌≢◌, refl, sym, ap, subst, ◌∙◌, inl, inr, Bool, true,
  false, not, ◌&&◌, Bool-cases, List, [], ◌∷◌, ◌++◌, some, arith, length, ◌==◌, if◌then◌else◌,
  append-nil, ℕ_discrete, ltb,
}
use galaxy.Base.Outcome.{returns}
use native.Mathlib.Nat.{mod_self, mod-eq_of_lt}
use mathlib.Core.List.{Permᴰ}
use mathlib.Core.List.Permᴰ
use galaxy.Account.{Account}
use galaxy.Bft.State.{BftCore}
use galaxy.Bft.Commits.{at, indexed, get_commit_order, commit_filter, next_index, commit_receivers}

indexed_head :
    (p : ℕ → Bool) (b : ℕ) (x : Account) (l : List Account)
    → p b ≡ true
    → indexed p b (x ∷ l) ≡ x ∷ indexed p (suc b) l
unfolding indexed
indexed_head p b x l e = rw e refl

indexed_skip :
    (p : ℕ → Bool) (b : ℕ) (x : Account) (l : List Account)
    → p b ≡ false
    → indexed p b (x ∷ l) ≡ indexed p (suc b) l
unfolding indexed
indexed_skip p b x l e = rw e refl

-- Only the indices from `b` on are asked for.
indexed_same :
    (p q : ℕ → Bool) (b : ℕ) (l : List Account)
    → ((j : ℕ) → b ≤ j → p j ≡ q j)
    → indexed p b l ≡ indexed q b l
unfolding indexed
indexed_same p q b [] h = refl
indexed_same p q b (x ∷ l) h =
    rw (h b (omega arith), indexed_same p q (suc b) l (λ j k. h j (omega (arith, k)))) refl

indexed_all : (b : ℕ) (l : List Account) → indexed (λ j. true) b l ≡ l
unfolding indexed
indexed_all b [] = refl
indexed_all b (x ∷ l) = ap (λ (m : List Account). x ∷ m) (indexed_all (suc b) l)

some_inj : {a b : Account} → some a ≡ some b → a ≡ b
some_inj q = cc

-- An index that is asked for may be taken out to the front.
taken_out :
    (p : ℕ → Bool) (b i k : ℕ) (a : Account) (l : List Account)
    → at l k ≡ some a
    → i ≡ b + k
    → p i ≡ true
    → Permᴰ (indexed p b l) (a ∷ indexed (λ j. p j && not (j == i)) b l)
unfolding at
taken_out p b i k a [] e s h = cc
taken_out p b i zero a (x ∷ l) e s h =
    let here : p b ≡ true = ap p (sym (s ∙ omega arith)) ∙ h in
    let gone : (p b && not (b == i)) ≡ false = ground (arith, s, here) in
    rw
      (
        indexed_head p b x l here,
        indexed_skip (λ j. p j && not (j == i)) b x l gone,
        indexed_same (λ j. p j && not (j == i)) p (suc b) l (λ j k. ground (arith, s, k)),
      )
      (Permᴰ.cons (some_inj e) (Permᴰ.refl _))
taken_out p b i (suc k) a (x ∷ l) e s h =
    let rest = taken_out p (suc b) i k a l e (omega (arith, s)) h in
    elim (Bool-cases (p b)) [
      | inl t ↦
          let stays : (p b && not (b == i)) ≡ true = ground (arith, s, t) in
          rw (indexed_head p b x l t, indexed_head (λ j. p j && not (j == i)) b x l stays)
            (Permᴰ.trans (Permᴰ.cons refl rest) (Permᴰ.swap refl refl))
      | inr f ↦
          let stays : (p b && not (b == i)) ≡ false = ground (arith, s, f) in
          rw (indexed_skip p b x l f, indexed_skip (λ j. p j && not (j == i)) b x l stays) rest
    ]

to_end : (a : Account) (l : List Account) → Permᴰ (a ∷ l) (l ++ a ∷ [])
to_end a l =
    Permᴰ.symm (
      subst (λ (m : List Account). Permᴰ (l ++ a ∷ []) (a ∷ m)) (append-nil l)
        (Permᴰ.middle a l []))

-- One account of the list, or two at different places, and the rest in order.
one_out :
    (i : ℕ) (a : Account) (l : List Account)
    → at l i ≡ some a
    → Permᴰ l (a ∷ indexed (λ j. not (j == i)) 0 l)
one_out i a l e =
    let p = taken_out (λ j. true) 0 i i a l e (omega arith) refl in
    subst (λ (m : List Account). Permᴰ m (a ∷ indexed (λ j. not (j == i)) 0 l)) (indexed_all 0 l) p

two_out :
    (i k : ℕ) (a c : Account) (l : List Account)
    → at l i ≡ some a
    → at l k ≡ some c
    → k ≢ i
    → Permᴰ l (a ∷ c ∷ indexed (λ j. not (j == i) && not (j == k)) 0 l)
two_out i k a c l e f n =
    Permᴰ.trans (one_out i a l e) (
      Permᴰ.cons refl (taken_out (λ j. not (j == i)) 0 k k c l f (omega arith) (ground (arith, n))))

at_in_range : (l : List Account) (k : ℕ) → k < length l → (a : Account) × (at l k ≡ some a)
unfolding at
at_in_range [] k h = absurd (omega (arith, h))
at_in_range (a ∷ l) zero h = (a, refl)
at_in_range (a ∷ l) (suc k) h = at_in_range l k (omega (arith, h))

-- The index after the last is 0.
next_lem : (i n : ℕ) → i < n → 2 ≤ n → ((1 + i) % n < n) × ((1 + i) % n ≢ i)
next_lem i n h two = elim (ℕ_discrete (1 + i) n) [
  | yes e ↦
      let zero_next : (1 + i) % n ≡ 0 = ap (λ (k : ℕ). k % n) e ∙ mod_self n in
      (omega (arith, zero_next), λ q. omega (arith, zero_next, q, e))
  | no d ↦
      let same : (1 + i) % n ≡ 1 + i = mod-eq_of_lt (omega (arith, h, d)) in
      (omega (arith, same), λ q. omega (arith, same, q))
]

-- The order in which a commit is to go out has every one of at least two peers once, for either result
-- of the consensus and whichever of them is the master. On a good result the master comes first and
-- the next master last; otherwise the master comes last.
get_commit_order-perm :
    (core : BftCore) (ok : Bool) (current_master : ℕ)
    → 2 ≤ length core.peers
    → current_master < length core.peers
    → (current : Account) × (middle : List Account) × (last : Account) × (at core.peers
          current_master
        ≡ some current)
      × (at core.peers ((1 + current_master) % length core.peers) ≡ some last)
      × (get_commit_order core ok current_master
          ≡ returns (if ok then current ∷ middle ++ last ∷ [] else middle ++ current ∷ []))
      × Permᴰ core.peers (if ok then current ∷ middle ++ last ∷ [] else middle ++ current ∷ [])
unfolding get_commit_order
get_commit_order-perm core true i two h =
    let next = next_lem i (length core.peers) h two in
    let (a, e) = at_in_range core.peers i h in
    let (c, f) = at_in_range core.peers ((1 + i) % length core.peers) next.0 in
    (
      a,
      indexed (λ j. not (j == i) && not (j == (1 + i) % length core.peers)) 0 core.peers,
      c,
      e,
      f,
      rw (e, f) refl,
      Permᴰ.trans (two_out i ((1 + i) % length core.peers) a c core.peers e f next.1)
          (Permᴰ.cons refl (to_end c _)),
    )
get_commit_order-perm core false i two h =
    let next = next_lem i (length core.peers) h two in
    let (a, e) = at_in_range core.peers i h in
    let (c, f) = at_in_range core.peers ((1 + i) % length core.peers) next.0 in
    (
      a,
      indexed (λ j. not (j == i)) 0 core.peers,
      c,
      e,
      f,
      rw e refl,
      Permᴰ.trans (one_out i a core.peers e) (to_end a _),
    )

-- The conversion to int leaves a small id alone.
next_index_lem : (i n : ℕ) → i < n → n < 2 ^ 63 → next_index i n ≡ some ((1 + i) % n)
next_index_lem i n h small =
    let same : (i + 1) % 2 ^ 64 ≡ 1 + i = omega (arith, h, small) in
    let fits : ltb (1 + i) (2 ^ 63) ≡ true = ground (arith, h, small) in rw (same, fits) refl

-- Where the id of this node is its index among at least two peers, the two broadcasts of SendCommit
-- leave out no other node and send to none twice: that of a good commit, which has the next master
-- last, and that of a failed one.
pub commit_receivers-perm :
    (core : BftCore)
    → 2 ≤ length core.peers
    → length core.peers < 2 ^ 63
    → core.local.extension.id < length core.peers
    → at core.peers core.local.extension.id ≡ some core.local
    → (others : List Account) × (last : Account) × (at core.peers
          ((1 + core.local.extension.id) % length core.peers)
        ≡ some last)
      × (commit_receivers core ≡ returns (others ++ last ∷ []))
      × Permᴰ core.peers (core.local ∷ others ++ last ∷ [])
      × Permᴰ core.peers (core.local ∷ commit_filter core core.local)
unfolding commit_receivers commit_filter
commit_receivers-perm core two small h here =
    let i = core.local.extension.id in
    let n = length core.peers in
    let next = next_lem i n h two in
    let (c, f) = at_in_range core.peers ((1 + i) % n) next.0 in
    let positive : (length core.peers == 0) ≡ false = ground arith in
    let both = two_out ((1 + i) % n) i c core.local core.peers f here (λ q. next.1 (sym q)) in
    (
      indexed (λ j. not (j == (1 + i) % n) && not (j == i)) 0 core.peers,
      c,
      f,
      rw (positive, next_index_lem i n h small, f) refl,
      Permᴰ.trans both (Permᴰ.trans (Permᴰ.swap refl refl) (Permᴰ.cons refl (to_end c _))),
      one_out i core.local core.peers here,
    )
