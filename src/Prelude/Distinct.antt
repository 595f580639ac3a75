-- ===== src/Prelude/Distinct.antt =====
-- Lists without repetition: one that stands within another list is no longer than it.
use Prim.Native.Nat.{suc, ◌≤◌}
use mathlib.Core.Path.{◌≡◌, refl, sym, ◌∙◌}
use mathlib.Core.Logic.{◌≢◌, inl, inr, ite, if_pos, if_neg}
use mathlib.Core.List.{List, [], ◌∷◌}
use native.Mathlib.Omega.{arith}
use netfabric_bgp_router.Prelude.Lists.{length, Listed}

module _ {A : Type 0} where
  abbrev pub IsDistinct : List A → Type 0
  IsDistinct [] = Unit
  IsDistinct (x ∷ xs) = ((y : A) → Listed y xs → x ≢ y) × IsDistinct xs

  module _ (dec : Discrete A) where
    -- The list without the first occurrence.
    erase : A → List A → List A
    erase a [] = []
    erase a (x ∷ xs) = ite (dec x a) xs (x ∷ erase a xs)

    length-erase : (a : A) (xs : List A) → Listed a xs → suc (length (erase a xs)) ≡ length xs
    unfolding erase
    length-erase a [] h = absurd h
    length-erase a (x ∷ xs) h = elim (dec x a) [
      | yes e ↦ rw (if_pos _ e)
      | no ne ↦ elim h [
        | inl here ↦ absurd (ne here)
        | inr there ↦ rw (if_neg _ ne, length-erase a xs there)
      ]
    ]

    Listed-erase : (a b : A) (xs : List A) → a ≢ b → Listed b xs → Listed b (erase a xs)
    unfolding erase
    Listed-erase a b [] ne h = h
    Listed-erase a b (x ∷ xs) ne h = elim (dec x a) [
      | yes e ↦
          rw (if_pos _ e) (elim h [ inl here ↦ absurd (ne (sym e ∙ here)) | inr there ↦ there ])
      | no other ↦
          rw (if_neg _ other)
            (elim h [ inl here ↦ inl here | inr there ↦ inr (Listed-erase a b xs ne there) ])
    ]

    pub IsDistinct-length :
        (xs ys : List A)
        → IsDistinct xs
        → ((a : A) → Listed a xs → Listed a ys)
        → length xs ≤ length ys
    IsDistinct-length [] ys d h = omega arith
    IsDistinct-length (x ∷ xs) ys d h =
        let fewer =
          IsDistinct-length xs (erase x ys) d.1
            (λ a l. Listed-erase x a ys (d.0 a l) (h a (inr l))) in
        omega (arith, length-erase x ys (h x (inl refl)), fewer)
