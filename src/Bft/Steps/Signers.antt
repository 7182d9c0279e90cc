-- ===== src/Bft/Steps/Signers.antt =====
-- Who stands behind a result of maybeCommit.
use galaxy.Base.{
  ℕ, ◌-◌, ◌/◌, ◌≤◌, ◌≡◌, ◌≢◌, refl, sym, ap, subst, ◌∙◌, ◌⊎◌, inl, inr, Bool, true, false,
  Option-cases, List, [], ◌∷◌, In, Distinct, arith, lookup, length, filter, keys, vals, keys-insert,
  keys-overwrite, lookup-absent, In-append, Distinct-snoc, Distinct-filter, length-keys,
  if◌then◌else◌, ==_iff,
}
use galaxy.Base.Words.{u8}
use galaxy.Base.Perms.{In-perm, Distinct-perm}
use mathlib.Core.List.{Permᴰ}
use mathlib.Core.List.Permᴰ
use galaxy.Account.{Account, Account-discrete, Signature}
use galaxy.External.{Env}
use galaxy.Fbft.Quorum.{faulty}
use galaxy.Bft.State.{BftCore, SignData, add_signature, initialization, sign_data_verify}
use galaxy.Bft.Rounds.{needed, verified, maybe_commit}
use galaxy.Bft.Steps.{Later, Moves, MaySign, Step-Moves, now, after}

-- The accounts in the map are distinct and may sign.
abbrev IsKnown : BftCore → Type 0
IsKnown core =
    Distinct (keys core.signature.sign_map)
    × ((a : Account) → In a (keys core.signature.sign_map) → MaySign core a)

-- One signature more, of an account that may sign.
add_signature-Distinct :
    (s : SignData) (a : Account) (x : Signature)
    → Distinct (keys s.sign_map)
    → Distinct (keys (add_signature s a x).sign_map)
unfolding add_signature
add_signature-Distinct s a x d = elim (Option-cases (lookup Account-discrete a s.sign_map)) [
  | inl e ↦
      subst Distinct (sym (keys-insert Account-discrete a x s.sign_map e))
        (Distinct-snoc (keys s.sign_map) a (lookup-absent Account-discrete a s.sign_map e) d)
  | inr (y, e) ↦ subst Distinct (sym (keys-overwrite Account-discrete a x y s.sign_map e)) d
]

add_signature-In :
    (s : SignData) (a b : Account) (x : Signature)
    → In b (keys (add_signature s a x).sign_map)
    → In b (keys s.sign_map) ⊎ (b ≡ a)
unfolding add_signature
add_signature-In s a b x i = elim (Option-cases (lookup Account-discrete a s.sign_map)) [
  | inl e ↦
      elim (In-append b (keys s.sign_map) (a ∷ [])
        (subst (In b) (keys-insert Account-discrete a x s.sign_map e) i)) [
          | inl j ↦ inl j
          | inr (inl q) ↦ inr q
          | inr (inr n) ↦ absurd n
        ]
  | inr (y, e) ↦ inl (subst (In b) (keys-overwrite Account-discrete a x y s.sign_map e) i)
]

Moves-may :
    (core core' : BftCore) → Moves core core' → (a : Account) → MaySign core a → MaySign core' a
Moves-may core core' m a may = elim may [
  | inl e ↦ inl (e ∙ sym m.0)
  | inr (inl i) ↦ inr (inl (subst (In a) (sym m.1) i))
  | inr (inr e) ↦ inr (inr e)
]

Moves-IsKnown : (core core' : BftCore) → Moves core core' → IsKnown core → IsKnown core'
Moves-IsKnown core core' m k = elim m.3 [
  | inl e ↦ (
    subst (λ (s : SignData). Distinct (keys s.sign_map)) (sym e) k.0,
    (λ a i.
        Moves-may core core' m a (k.1 a (subst (λ (s : SignData). In a (keys s.sign_map)) e i))),
  )
  | inr (b, s, may, e) ↦ (
    subst (λ (s : SignData). Distinct (keys s.sign_map)) (sym e)
        (add_signature-Distinct core.signature b s k.0),
    (λ a i.
        Moves-may core core' m a
          (elim (add_signature-In core.signature b a s
            (subst (λ (s : SignData). In a (keys s.sign_map)) e i)) [
              | inl j ↦ k.1 a j
              | inr q ↦ subst (MaySign core) (sym q) may
            ])),
  )
]

keys-perm : {l m : List (Account × Signature)} → Permᴰ l m → Permᴰ (keys l) (keys m)
keys-perm Permᴰ.nil = Permᴰ.nil
keys-perm (Permᴰ.cons e p) = Permᴰ.cons (ap (λ (x : Account × Signature). x.0) e) (keys-perm p)
keys-perm (Permᴰ.swap e f) =
    Permᴰ.swap (ap (λ (x : Account × Signature). x.0) e) (ap (λ (x : Account × Signature). x.0) f)
keys-perm (Permᴰ.trans p q) = Permᴰ.trans (keys-perm p) (keys-perm q)

needed_lem :
    (core : BftCore) (n : ℕ)
    → length core.peers ≡ n
    → 1 ≤ n
    → n ≤ 382
    → core.tolerance ≡ u8 ((n - 1) / 3)
    → needed core ≡ n - faulty n
unfolding needed
needed_lem core n l h k e = omega arith

module _ {World : Type 0} (env : Env World) where
  abbrev passes : ℕ → Account × Signature → Bool
  passes digest e = sign_data_verify env e.0 e.1 digest

  verified-vals :
      (digest : ℕ) (m : List (Account × Signature))
      → verified env digest m ≡ vals (filter (passes digest) m)
  unfolding verified
  verified-vals digest [] = refl
  verified-vals digest ((a, s) ∷ m) = ground (arith, verified-vals digest m)

  -- That an account has one of some signatures that verifies.
  abbrev pub HasSigned : ℕ → Account → List Signature → Type 0
  HasSigned digest a signatures =
      (s : Signature) × In s signatures × (sign_data_verify env a s digest ≡ true)

  passed_step :
      (digest : ℕ) (a b : Account) (s : Signature) (m rest : List (Account × Signature))
      (signatures : List Signature) (t : Bool)
      → sign_data_verify env b s digest ≡ t
      → (In a (keys rest) → In a (keys m) × HasSigned digest a signatures)
      → In a (keys (if t then (b, s) ∷ rest else rest))
      → In a (keys ((b, s) ∷ m)) × HasSigned digest a (if t then s ∷ signatures else signatures)
  passed_step digest a b s m rest signatures true e ih (inl q) = (
    inl q,
    (s, inl refl, subst (λ (x : Account). sign_data_verify env x s digest ≡ true) (sym q) e),
  )
  passed_step digest a b s m rest signatures true e ih (inr i) =
      let (j, h) = ih i in (inr j, (h.0, inr h.1, h.2))
  passed_step digest a b s m rest signatures false e ih i = let (j, h) = ih i in (inr j, h)

  -- An account whose entry passes has signed.
  passed :
      (digest : ℕ) (a : Account) (m : List (Account × Signature))
      → In a (keys (filter (passes digest) m))
      → In a (keys m) × HasSigned digest a (verified env digest m)
  unfolding verified
  passed digest a [] i = absurd i
  passed digest a ((b, s) ∷ m) i =
      passed_step digest a b s m (filter (passes digest) m) (verified env digest m)
        (sign_data_verify env b s digest) refl (passed digest a m) i

  length-filter_le :
      (p : Account × Signature → Bool) (m : List (Account × Signature))
      → length (filter p m) ≤ length m
  length-filter_le p [] = omega arith
  length-filter_le p (e ∷ m) = ground (arith, length-filter_le p m)

  Later-IsKnown : {core core' : BftCore} → Later env core core' → IsKnown core → IsKnown core'
  Later-IsKnown (now core) k = k
  Later-IsKnown (after {c} {d} {e} l s) k = Moves-IsKnown d e (Step-Moves env s) (Later-IsKnown l k)

  -- A round keeps what Initialization stored.
  Later-nodes :
      {core core' : BftCore}
      → Later env core core'
      → (core'.local ≡ core.local) × (core'.peers ≡ core.peers) × (core'.tolerance ≡ core.tolerance)
  Later-nodes (now core) = (refl, refl, refl)
  Later-nodes (after {c} {d} {e} l s) =
      let m = Step-Moves env s in let n = Later-nodes l in (m.0 ∙ n.0, m.1 ∙ n.1, m.2 ∙ n.2)

  -- What maybeCommit found where its error is nil.
  committed :
      (core : BftCore) (order : List (Account × Signature))
      → (maybe_commit env core order).1 ≡ true
      → ((maybe_commit env core order).0 ≡ verified env core.digest order)
        × (needed core ≤ u8 (length (verified env core.digest order)))
  unfolding maybe_commit
  committed core order e = ground arith

  -- A peer has signed, since the signature of the empty account cannot verify.
  peer_signed :
      (core : BftCore) (a : Account) (signatures : List Signature)
      → ((s : Signature) → env.verify core.digest s ≢ 0)
      → In core.local core.peers
      → MaySign core a
      → HasSigned core.digest a signatures
      → In a core.peers
  unfolding sign_data_verify
  peer_signed core a signatures nonzero here (inl e) h =
      subst (λ (x : Account). In x core.peers) (sym e) here
  peer_signed core a signatures nonzero here (inr (inl i)) h = i
  peer_signed core a signatures nonzero here (inr (inr e)) (s, i, v) = absurd (
      nonzero s (
        sym ((==_iff a.address (env.verify core.digest s)).0 v)
        ∙ ap (λ (x : Account). x.address) e))

  -- A good result of maybeCommit is one of enough peers. In any state of a round that Initialization has
  -- begun among 1 to 382 peers, this node one of them, where no signature on the digest is of the
  -- address 0: if maybeCommit gives no error, in whatever order it takes the map, then there are
  -- different peers, at least all but the tolerated faulty ones, each with a signature in the result
  -- that verifies as its own.
  pub maybe_commit_backed_by_peers :
      (before core : BftCore) (local master : Account) (peers : List Account)
      (order : List (Account × Signature))
      → In local peers
      → 1 ≤ length peers
      → length peers ≤ 382
      → Later env (initialization before local master peers) core
      → Permᴰ core.signature.sign_map order
      → ((s : Signature) → env.verify core.digest s ≢ 0)
      → (maybe_commit env core order).1 ≡ true
      → (signers : List Account) × Distinct signers
        × ((a : Account)
            → In a signers
            → In a peers × HasSigned core.digest a (maybe_commit env core order).0)
        × (length peers - faulty (length peers) ≤ length signers)
  unfolding initialization
  maybe_commit_backed_by_peers before core local master peers order here some_peers few run p
        nonzero good =
      let nodes = Later-nodes run in
      let known : IsKnown core = Later-IsKnown run (tt, λ a i. absurd i) in
      let found = committed core order good in
      let signed = passed core.digest in
      let mine : In core.local core.peers =
        subst (In core.local) (sym nodes.1)
          (subst (λ (a : Account). In a peers) (sym nodes.0) here) in
      let kept = filter (passes core.digest) order in
      (
        keys kept,
        Distinct-filter Account-discrete (passes core.digest) order
            (Distinct-perm (keys-perm p) known.0),
        (λ a i.
            let (j, h) = signed a order i in
            let may = known.1 a (In-perm a (Permᴰ.symm (keys-perm p)) j) in
            (
              subst (In a) nodes.1
                  (peer_signed core a (verified env core.digest order) nonzero mine may h),
              subst (HasSigned core.digest a) (sym found.0) h,
            )),
        omega (
          arith,
          needed_lem core (length peers) (ap length nodes.1) some_peers few nodes.2,
          found.1,
          ap length (verified-vals core.digest order),
          length-keys (filter (passes core.digest) order),
        ),
      )
