-- ===== src/Base/Bag.antt =====
-- Bags: lists that forget their order.
use mathlib.Core.Path.{◌≡◌, refl, sym, ap, ◌∙◌}
use mathlib.Core.List.{List, [], ◌++◌}
use mathlib.Mathlib.Data.Multiset.Defs.{Multiset, of_list}
use mathlib.Mathlib.Data.Multiset.AddSub.{add, add_comm, add_assoc, zero-add, add-zero}

abbrev pub Bag : Type 0 → Type 0
Bag A = Multiset A

abbrev pub bag : {A : Type 0} → List A → Bag A
bag xs = of_list xs

infixr 65 ◌⊕◌
pub ◌⊕◌ : {A : Type 0} → Bag A → Bag A → Bag A
xs ⊕ ys = add xs ys

module _ {A : Type 0} where
  pub ⊕_assoc : (x y z : Bag A) → (x ⊕ y) ⊕ z ≡ x ⊕ (y ⊕ z)
  unfolding ◌⊕◌
  ⊕_assoc x y z = add_assoc x y z

  pub ⊕_comm : (x y : Bag A) → x ⊕ y ≡ y ⊕ x
  unfolding ◌⊕◌
  ⊕_comm x y = add_comm x y

  pub ⊕_left_comm : (x y z : Bag A) → x ⊕ (y ⊕ z) ≡ y ⊕ (x ⊕ z)
  unfolding ◌⊕◌
  ⊕_left_comm x y z = sym (add_assoc x y z) ∙ ap (λ b. b ⊕ z) (add_comm x y) ∙ add_assoc y x z

  pub ⊕_right_comm : (x y z : Bag A) → (x ⊕ y) ⊕ z ≡ (x ⊕ z) ⊕ y
  ⊕_right_comm x y z = simp (⊕_assoc, ⊕_comm, ⊕_left_comm)

  pub nil-⊕ : (x : Bag A) → bag [] ⊕ x ≡ x
  unfolding ◌⊕◌
  nil-⊕ x = zero-add x

  pub ⊕-nil : (x : Bag A) → x ⊕ bag [] ≡ x
  unfolding ◌⊕◌
  ⊕-nil x = add-zero x

  pub bag-append : (xs ys : List A) → bag (xs ++ ys) ≡ bag xs ⊕ bag ys
  unfolding ◌⊕◌
  bag-append xs ys = refl
