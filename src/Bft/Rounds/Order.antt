-- ===== src/Bft/Rounds/Order.antt =====
-- maybeCommit ranges over a Go map: its result is the same in any order.
use galaxy.Base.{
  ℕ, ◌≡◌, ◌≤◌, refl, sym, ap, ◌∙◌, subst, ◌↔◌, inl, inr, Bool, true, false, Bool-cases, List, [],
  ◌∷◌, ◌++◌, In, length, vals, arith, ◌==◌, ==_iff,
}
use galaxy.Base.Words.{u8, sub8}
use galaxy.Base.Perms.{length-perm}
use mathlib.Core.List.{Permᴰ}
use mathlib.Core.List.Permᴰ
use galaxy.Account.{Account, Signature}
use galaxy.External.{Env}
use galaxy.Bft.State.{BftCore, sign_data_verify}
use galaxy.Bft.Rounds.{verified, needed, maybe_commit}

-- An entry goes behind others.
perm_into :
    (x : Account × Signature) (l m : List (Account × Signature)) → Permᴰ (x ∷ l ++ m) (l ++ x ∷ m)
perm_into x [] m = Permᴰ.refl _
perm_into x (y ∷ l) m = Permᴰ.trans (Permᴰ.swap refl refl) (Permᴰ.cons refl (perm_into x l m))

not_both : {b : Bool} → b ≡ false → ¬ (b ≡ true)
not_both f t = cc

module _ {World : Type 0} (env : Env World) where
  pub verified-good :
      (digest : ℕ) (a : Account) (s : Signature) (rest : List (Account × Signature))
      → sign_data_verify env a s digest ≡ true
      → verified env digest ((a, s) ∷ rest) ≡ s ∷ verified env digest rest
  unfolding verified
  verified-good digest a s rest e = rw e refl

  pub verified-bad :
      (digest : ℕ) (a : Account) (s : Signature) (rest : List (Account × Signature))
      → sign_data_verify env a s digest ≡ false
      → verified env digest ((a, s) ∷ rest) ≡ verified env digest rest
  unfolding verified
  verified-bad digest a s rest e = rw e refl

  -- One more entry in front of both, and two entries the other way round.
  verified_front :
      (digest : ℕ) (x : Account × Signature) (l m : List (Account × Signature))
      → Permᴰ (verified env digest l) (verified env digest m)
      → Permᴰ (verified env digest (x ∷ l)) (verified env digest (x ∷ m))
  verified_front digest (a, s) l m p = elim (Bool-cases (sign_data_verify env a s digest)) [
    | inl e ↦ rw (verified-good digest a s l e, verified-good digest a s m e) (Permᴰ.cons refl p)
    | inr e ↦ rw (verified-bad digest a s l e, verified-bad digest a s m e) p
  ]

  verified_swapped :
      (digest : ℕ) (x y : Account × Signature) (l : List (Account × Signature))
      → Permᴰ (verified env digest (x ∷ y ∷ l)) (verified env digest (y ∷ x ∷ l))
  verified_swapped digest (a, s) (b, t) l = elim (Bool-cases (sign_data_verify env a s digest)) [
    | inl e ↦ elim (Bool-cases (sign_data_verify env b t digest)) [
      | inl f ↦
          rw
            (
              verified-good digest a s ((b, t) ∷ l) e,
              verified-good digest b t ((a, s) ∷ l) f,
              verified-good digest a s l e,
              verified-good digest b t l f,
            )
            (Permᴰ.swap refl refl)
      | inr f ↦
          rw
            (
              verified-good digest a s ((b, t) ∷ l) e,
              verified-bad digest b t ((a, s) ∷ l) f,
              verified-good digest a s l e,
              verified-bad digest b t l f,
            )
            (Permᴰ.refl _)
    ]
    | inr e ↦ rw (verified-bad digest a s ((b, t) ∷ l) e) (
        verified_front digest (b, t) l ((a, s) ∷ l)
          (rw (verified-bad digest a s l e) (Permᴰ.refl _)))
  ]

  pub verified-perm :
      (digest : ℕ) {l m : List (Account × Signature)}
      → Permᴰ l m
      → Permᴰ (verified env digest l) (verified env digest m)
  verified-perm digest Permᴰ.nil = Permᴰ.refl _
  verified-perm digest (Permᴰ.cons {a} {b} {l₁ = l} {l₂ = m} e p) =
      subst
        (λ (x : Account × Signature).
          Permᴰ (verified env digest (a ∷ l)) (verified env digest (x ∷ m)))
        e (verified_front digest a l m (verified-perm digest p))
  verified-perm digest (Permᴰ.swap {a} {b} {a'} {b'} {l} e f) =
      subst
        (λ (x : Account × Signature).
          Permᴰ (verified env digest (a ∷ b ∷ l)) (verified env digest (a' ∷ x ∷ l)))
        e
        (subst
          (λ (y : Account × Signature).
            Permᴰ (verified env digest (a ∷ b ∷ l)) (verified env digest (y ∷ a ∷ l)))
          f (verified_swapped digest a b l))
  verified-perm digest (Permᴰ.trans p q) =
      Permᴰ.trans (verified-perm digest p) (verified-perm digest q)

  -- An entry of the map whose signature verifies for a digest as that of its account.
  abbrev pub IsGenuine : ℕ → Account × Signature → Type 0
  IsGenuine digest e = e.0.address ≡ env.verify digest e.1

  -- The signatures of exactly those entries that verify.
  abbrev pub Splits : ℕ → List (Account × Signature) → List Signature → Type 0
  Splits digest order signatures =
      (good : List (Account × Signature)) × (bad : List (Account × Signature)) × Permᴰ order
        (good ++ bad)
      × (signatures ≡ vals good)
      × ((e : Account × Signature) → In e good → IsGenuine digest e)
      × ((e : Account × Signature) → In e bad → ¬ IsGenuine digest e)

  genuine_lem :
      (digest : ℕ) (e : Account × Signature)
      → (sign_data_verify env e.0 e.1 digest ≡ true) ↔ IsGenuine digest e
  unfolding sign_data_verify
  genuine_lem digest e = ==_iff e.0.address (env.verify digest e.1)

  pub verified-Splits :
      (digest : ℕ) (order : List (Account × Signature))
      → Splits digest order (verified env digest order)
  unfolding verified
  verified-Splits digest [] = ([], [], Permᴰ.nil, refl, (λ e i. absurd i), (λ e i. absurd i))
  verified-Splits digest ((a, s) ∷ order) =
      let (good, bad, p, same, g, b) = verified-Splits digest order in
      elim (Bool-cases (sign_data_verify env a s digest)) [
        | inl t ↦ (
          (a, s) ∷ good,
          bad,
          Permᴰ.cons refl p,
          verified-good digest a s order t ∙ ap (λ (l : List Signature). s ∷ l) same,
          (λ e i. elim i [
            | inl q ↦ subst (IsGenuine digest) (sym q) ((genuine_lem digest (a, s)).0 t)
            | inr j ↦ g e j
          ]),
          b,
        )
        | inr f ↦ (
          good,
          (a, s) ∷ bad,
          Permᴰ.trans (Permᴰ.cons refl p) (perm_into (a, s) good bad),
          verified-bad digest a s order f ∙ same,
          g,
          (λ e i. elim i [
            | inl q ↦ λ h. not_both f ((genuine_lem digest (a, s)).1 (subst (IsGenuine digest) q h))
            | inr j ↦ b e j
          ]),
        )
      ]

  -- maybeCommit ranges over a map, in any order: whether it finds enough signatures does not depend
  -- on the order, and the signatures that it gives in one order are a reordering of those of another.
  -- Where the list of signatures is as long as the map, they are the signatures of exactly those
  -- entries that verify, each entry once, and the error is nil exactly if their number, as a uint8, is
  -- at least that of the peers less the tolerance, as a uint8; otherwise there are none, with an error.
  pub maybe_commit-perm :
      (core : BftCore) (order other : List (Account × Signature))
      → Permᴰ order other
      → let out = maybe_commit env core order in
        let matched = length core.signature.signatures ≡ length core.signature.sign_map in
        (out.1 ≡ (maybe_commit env core other).1)
        × Permᴰ out.0 (maybe_commit env core other).0
        × (matched
            → Splits core.digest order out.0
              × ((out.1 ≡ true)
                  ↔ (sub8 (u8 (length core.peers)) core.tolerance ≤ u8 (length out.0))))
        × (¬ matched → out ≡ ([], false))
  unfolding maybe_commit needed
  maybe_commit-perm core order other p =
      let same = verified-perm core.digest p in
      let count : length (verified env core.digest order)
          ≡ length (verified env core.digest other) =
        length-perm same in
      (
        ground (arith, count),
        elim (Bool-cases (length core.signature.signatures == length core.signature.sign_map)) [
          | inl e ↦ rw e same
          | inr e ↦ rw e (Permᴰ.refl _)
        ],
        (λ m.
            let e : (length core.signature.signatures == length core.signature.sign_map) ≡ true =
              (==_iff _ _).1 m in
            rw e (verified-Splits core.digest order, ((λ t. ground arith), (λ h. ground arith)))),
        (λ n. ground arith),
      )
