-- ===== src/Base/Perms.antt =====
-- Reorderings of a list: Go ranges over a map in no order of its own.
use mathlib.Core.Path.{◌≡◌, refl, sym, ap, subst, ◌∙◌}
use mathlib.Core.Logic.{inl, inr}
use mathlib.Core.List.{List, Permᴰ}
use mathlib.Core.List.Permᴰ
use Prim.Native.Nat.{suc}
use galaxy.Base.Lists.{In, Distinct, length}

module _ {A : Type 0} where
  pub length-perm : {l m : List A} → Permᴰ l m → length l ≡ length m
  length-perm Permᴰ.nil = refl
  length-perm (Permᴰ.cons e d) = ap suc (length-perm d)
  length-perm (Permᴰ.swap e f) = refl
  length-perm (Permᴰ.trans d e) = length-perm d ∙ length-perm e

  pub In-perm : (a : A) {l m : List A} → Permᴰ l m → In a l → In a m
  In-perm a Permᴰ.nil i = i
  In-perm a (Permᴰ.cons e d) i = elim i [ inl q ↦ inl (q ∙ e) | inr j ↦ inr (In-perm a d j) ]
  In-perm a (Permᴰ.swap e f) i = elim i [
    | inl q ↦ inr (inl (q ∙ e))
    | inr (inl q) ↦ inl (q ∙ f)
    | inr (inr j) ↦ inr (inr j)
  ]
  In-perm a (Permᴰ.trans d e) i = In-perm a e (In-perm a d i)

  pub Distinct-perm : {l m : List A} → Permᴰ l m → Distinct l → Distinct m
  Distinct-perm Permᴰ.nil d = d
  Distinct-perm (Permᴰ.cons {a} {b} {l₁ = l} {l₂ = m} e p) d = (
    (λ i. d.0 (subst (λ (x : A). In x l) (sym e) (In-perm b (Permᴰ.symm p) i))),
    Distinct-perm p d.1,
  )
  Distinct-perm (Permᴰ.swap {l} e g) d = (
    (λ i. elim i [
      | inl q ↦ d.0 (inl (e ∙ (sym q ∙ sym g)))
      | inr j ↦ d.1.0 (subst (λ (x : A). In x l) (sym g) j)
    ]),
    ((λ j. d.0 (inr (subst (λ (x : A). In x l) (sym e) j))), d.1.1),
  )
  Distinct-perm (Permᴰ.trans p q) d = Distinct-perm q (Distinct-perm p d)
