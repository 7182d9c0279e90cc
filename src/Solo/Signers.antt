-- ===== src/Solo/Signers.antt =====
-- The signers that ToConsensus of the solo policy gathers.
use galaxy.Base.{
  ℕ, ◌+◌, ◌≤◌, ◌≡◌, refl, sym, ap, subst, ◌∙◌, ◌⊎◌, ◌↔◌, inl, inr, List, [], ◌∷◌, none, some, arith,
  In, length, lookup, lookup-insert_self, lookup-insert_ne, insert, ℕ_discrete, Option-cases,
}
use galaxy.Account.{Signature}
use galaxy.Solo.{Validator, valid_signs}

-- Whether one of some signatures is of an address.
abbrev pub SignedBy : Validator → ℕ → ℕ → List Signature → Type 0
SignedBy v digest address values =
    (value : Signature) × In value values × (v.recover digest value ≡ some address)

module _ (v : Validator) (digest address : ℕ) where
  abbrev pub HasEntry : List (ℕ × Signature) → Type 0
  HasEntry signs = (value : Signature) × (lookup ℕ_discrete address signs ≡ some value)

  -- One more signature.
  found_step :
      (a : ℕ) (value : Signature) (signs : List (ℕ × Signature))
      → HasEntry (insert ℕ_discrete a value signs) ↔ ((a ≡ address) ⊎ HasEntry signs)
  found_step a value signs = elim (ℕ_discrete a address) [
    | yes e ↦ (
      (λ f. inl e),
      (λ h. (
        value,
        subst (λ (x : ℕ). lookup ℕ_discrete x (insert ℕ_discrete a value signs) ≡ some value) e
            (lookup-insert_self ℕ_discrete a value signs),
      )),
    )
    | no n ↦
        let kept = lookup-insert_ne ℕ_discrete a address value signs (λ e. n (sym e)) in
        (
          (λ f. inr (f.0, sym kept ∙ f.1)),
          (λ h. elim h [ inl e ↦ absurd (n e) | inr f ↦ (f.0, kept ∙ f.1) ]),
        )
  ]

  -- A signature at the head of the list.
  signed_head :
      (value : Signature) (values : List Signature)
      → SignedBy v digest address (value ∷ values)
        ↔ ((v.recover digest value ≡ some address) ⊎ SignedBy v digest address values)
  signed_head value values = (
    (λ h.
        let (x, i, r) = h in
        elim i [ inl e ↦ inl (ap (v.recover digest) (sym e) ∙ r) | inr j ↦ inr (x, j, r) ]),
    (λ h. elim h [ inl r ↦ (value, inl refl, r) | inr t ↦ (t.0, inr t.1, t.2) ]),
  )

  skipped :
      (value : Signature) (values : List Signature) (signs : List (ℕ × Signature))
      → v.recover digest value ≡ none
      → valid_signs v digest (value ∷ values) signs ≡ valid_signs v digest values signs
  unfolding valid_signs
  skipped value values signs e = rw (e, valid_signs) refl

  gathered :
      (value : Signature) (values : List Signature) (signs : List (ℕ × Signature)) (a : ℕ)
      → v.recover digest value ≡ some a
      → valid_signs v digest (value ∷ values) signs
        ≡ valid_signs v digest values (insert ℕ_discrete a value signs)
  unfolding valid_signs
  gathered value values signs a e = rw (e, valid_signs) refl

  pub found_iff :
      (values : List Signature) (signs : List (ℕ × Signature))
      → HasEntry (valid_signs v digest values signs)
        ↔ (SignedBy v digest address values ⊎ HasEntry signs)
  unfolding valid_signs
  found_iff [] signs = ((λ h. inr h), (λ h. elim h [ inl t ↦ absurd t.1 | inr f ↦ f ]))
  found_iff (value ∷ values) signs =
      let head = signed_head value values in
      elim (Option-cases (v.recover digest value)) [
        | inl e ↦
            let rest = found_iff values signs in
            rw (skipped value values signs e) (
              (λ f. elim (rest.0 f) [ inl s ↦ inl (head.1 (inr s)) | inr g ↦ inr g ]),
              (λ h. elim h [
                | inl s ↦ elim (head.0 s) [
                  | inl r ↦ absurd (none-some (sym e ∙ r))
                  | inr t ↦ rest.1 (inl t)
                ]
                | inr g ↦ rest.1 (inr g)
              ]),
            )
        | inr (a, e) ↦
            let rest = found_iff values (insert ℕ_discrete a value signs) in
            let step = found_step a value signs in
            rw (gathered value values signs a e) (
              (λ f. elim (rest.0 f) [
                | inl s ↦ inl (head.1 (inr s))
                | inr g ↦ elim (step.0 g) [
                  | inl q ↦ inl (head.1 (inl (e ∙ ap some q)))
                  | inr g' ↦ inr g'
                ]
              ]),
              (λ h. elim h [
                | inl s ↦ elim (head.0 s) [
                  | inl r ↦ rest.1 (inr (step.1 (inl (some_inj (sym e ∙ r)))))
                  | inr t ↦ rest.1 (inl t)
                ]
                | inr g ↦ rest.1 (inr (step.1 (inr g)))
              ]),
            )
      ]
    where
      none-some : {a : ℕ} → none ≡ some a → ⊥
      none-some q = cc

      some_inj : {a b : ℕ} → some a ≡ some b → a ≡ b
      some_inj q = cc

length-insert :
    (a : ℕ) (value : Signature) (signs : List (ℕ × Signature))
    → length (insert ℕ_discrete a value signs) ≤ length signs + 1
unfolding insert
length-insert a value [] = omega arith
length-insert a value ((b, w) ∷ signs) = ground (arith, length-insert a value signs)

module _ (v : Validator) where
  pub length-valid_signs :
      (digest : ℕ) (values : List Signature) (signs : List (ℕ × Signature))
      → length (valid_signs v digest values signs) ≤ length signs + length values
  unfolding valid_signs
  length-valid_signs digest [] signs = omega arith
  length-valid_signs digest (value ∷ values) signs = elim (Option-cases (v.recover digest value)) [
    | inl e ↦
        rw (skipped v digest 0 value values signs e)
          (omega (arith, length-valid_signs digest values signs))
    | inr (a, e) ↦ rw (gathered v digest 0 value values signs a e) (
        omega (
          arith,
          length-valid_signs digest values (insert ℕ_discrete a value signs),
          length-insert a value signs,
        ))
  ]

pub lookup_positive :
    (a : ℕ) (value : Signature) (signs : List (ℕ × Signature))
    → lookup ℕ_discrete a signs ≡ some value
    → 1 ≤ length signs
unfolding lookup
lookup_positive a value [] e = cc
lookup_positive a value (x ∷ signs) e = omega arith

pub empty_found : (a : ℕ) (value : Signature) → lookup ℕ_discrete a [] ≡ some value → ⊥
unfolding lookup
empty_found a value e = cc
