-- ===== src/Prelude/Membership.antt =====
-- Where the elements of a filtered or flattened list come from.
use mathlib.Core.Path.{◌≡◌, refl, ◌∙◌}
use mathlib.Core.Logic.{◌↔◌, ◌⊎◌, inl, inr}
use mathlib.Core.Option.{Option, some}
use mathlib.Core.List.{List, [], ◌∷◌, ◌++◌, filter_map, flat_map}
use netfabric_bgp_router.Prelude.Lists.{Listed}
use netfabric_bgp_router.Prelude.Tests.{Option-cases}

module _ {A : Type 0} where
  pub Listed-append_left : (a : A) (xs ys : List A) → Listed a xs → Listed a (xs ++ ys)
  Listed-append_left a [] ys h = absurd h
  Listed-append_left a (x ∷ xs) ys (inl e) = inl e
  Listed-append_left a (x ∷ xs) ys (inr l) = inr (Listed-append_left a xs ys l)

  pub Listed-append_right : (a : A) (xs ys : List A) → Listed a ys → Listed a (xs ++ ys)
  Listed-append_right a [] ys h = h
  Listed-append_right a (x ∷ xs) ys h = inr (Listed-append_right a xs ys h)

  pub Listed-append_cases :
      (a : A) (xs ys : List A) → Listed a (xs ++ ys) → Listed a xs ⊎ Listed a ys
  Listed-append_cases a [] ys h = inr h
  Listed-append_cases a (x ∷ xs) ys (inl e) = inl (inl e)
  Listed-append_cases a (x ∷ xs) ys (inr l) = elim (Listed-append_cases a xs ys l) [
    | inl here ↦ inl (inr here)
    | inr there ↦ inr there
  ]

module _ {A B : Type 0} (f : A → Option B) where
  filter_map_forth :
      (xs : List A) (b : B) → Listed b (filter_map f xs) → (a : A) × Listed a xs × (f a ≡ some b)
  unfolding filter_map
  filter_map_forth [] b h = absurd h
  filter_map_forth (x ∷ xs) b h = elim (Option-cases (f x)) [
    | inl e ↦ let (a, at, eq) = filter_map_forth xs b (rw (e, filter_map) at h) in (a, inr at, eq)
    | inr (y, e) ↦
        let h' : Listed b (y ∷ filter_map f xs) = rw (e, filter_map) at h in
        elim h' [
          | inl here ↦ (x, inl refl, e ∙ (λ i. some (here i)))
          | inr there ↦ let (a, at, eq) = filter_map_forth xs b there in (a, inr at, eq)
        ]
  ]

  filter_map_back :
      (xs : List A) (b : B) (a : A) → Listed a xs → f a ≡ some b → Listed b (filter_map f xs)
  unfolding filter_map
  filter_map_back [] b a h e = absurd h
  filter_map_back (x ∷ xs) b a (inl here) e =
      let e' : f x ≡ some b = (λ i. f (here i)) ∙ e in rw (e', filter_map) (inl refl)
  filter_map_back (x ∷ xs) b a (inr l) e = elim (Option-cases (f x)) [
    | inl e' ↦ rw (e', filter_map) (filter_map_back xs b a l e)
    | inr (y, e') ↦ rw (e', filter_map) (inr (filter_map_back xs b a l e))
  ]

  pub Listed-filter_map_iff :
      (xs : List A) (b : B) → Listed b (filter_map f xs) ↔ ((a : A) × Listed a xs × (f a ≡ some b))
  Listed-filter_map_iff xs b = (filter_map_forth xs b, λ (a, at, e). filter_map_back xs b a at e)

module _ {A B : Type 0} (f : A → List B) where
  flat_map_forth :
      (xs : List A) (b : B) → Listed b (flat_map f xs) → (a : A) × Listed a xs × Listed b (f a)
  unfolding flat_map
  flat_map_forth [] b h = absurd h
  flat_map_forth (x ∷ xs) b h = elim (Listed-append_cases b (f x) (flat_map f xs) h) [
    | inl here ↦ (x, inl refl, here)
    | inr there ↦ let (a, at, l) = flat_map_forth xs b there in (a, inr at, l)
  ]

  flat_map_back :
      (xs : List A) (b : B) (a : A) → Listed a xs → Listed b (f a) → Listed b (flat_map f xs)
  unfolding flat_map
  flat_map_back [] b a h l = absurd h
  flat_map_back (x ∷ xs) b a (inl here) l = Listed-append_left b (f x) (flat_map f xs) (rw here l)
  flat_map_back (x ∷ xs) b a (inr at) l =
      Listed-append_right b (f x) (flat_map f xs) (flat_map_back xs b a at l)

  pub Listed-flat_map_iff :
      (xs : List A) (b : B) → Listed b (flat_map f xs) ↔ ((a : A) × Listed a xs × Listed b (f a))
  Listed-flat_map_iff xs b = (flat_map_forth xs b, λ (a, at, l). flat_map_back xs b a at l)
