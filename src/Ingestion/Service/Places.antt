-- ===== src/Ingestion/Service/Places.antt =====
-- Lists that hold the same elements in any order.
use mathlib.Core.List.{Perm}
use mathlib.Core.List.Perm
use mathlib.Core.Option.{some-injective}
use forge_sight.Prelude.{
  ◌≡◌, refl, sym, ap, ◌∙◌, subst, ℕ, zero, suc, Option, none, some, List, [], ◌∷◌, ◌++◌,
  append_assoc,
}
use forge_sight.Ingestion.Service.{take_out, put_back}

module _ {A : Type 0} where
  pub snoc_right :
      {all : List A} (a b c : List A) (x : A)
      → Perm all (a ++ (b ++ c))
      → Perm (all ++ (x ∷ [])) (a ++ (b ++ (c ++ (x ∷ []))))
  snoc_right {all} a b c x p =
      subst (Perm (all ++ (x ∷ [])))
        (append_assoc a (b ++ c) (x ∷ []) ∙ ap (◌++◌ a) (append_assoc b c (x ∷ [])))
        (Perm.append_right (x ∷ []) p)

  -- An element moves from the middle part to the end of the first one.
  pub moved :
      {b b' : List A} (a c : List A) (x : A)
      → Perm b (x ∷ b')
      → Perm (a ++ (b ++ c)) ((a ++ (x ∷ [])) ++ (b' ++ c))
  moved {b} {b'} a c x p =
      subst (Perm (a ++ (b ++ c))) (sym (append_assoc a (x ∷ []) (b' ++ c)))
        (Perm.append_left a (Perm.append_right c p))

  put_back_lem :
      (x y : A) (ys xs : List A) (o : Option (A × List A))
      → put_back x o ≡ some (y, ys)
      → ((z : A) (zs : List A) → o ≡ some (z, zs) → Perm xs (z ∷ zs))
      → Perm (x ∷ xs) (y ∷ ys)
  put_back_lem x y ys xs none e h = cc
  put_back_lem x y ys xs (some (z, zs)) e h =
      subst (λ (r : A × List A). Perm (x ∷ xs) (r.0 ∷ r.1)) (some-injective _ _ e)
        (Perm.trans (Perm.cons x (h z zs refl)) (Perm.swap z x zs))

  pub take_out-Perm :
      (i : ℕ) (xs : List A) (y : A) (ys : List A) → take_out i xs ≡ some (y, ys) → Perm xs (y ∷ ys)
  unfolding take_out
  take_out-Perm i [] y ys e = cc
  take_out-Perm zero (x ∷ xs) y ys e =
      subst (λ (r : A × List A). Perm (x ∷ xs) (r.0 ∷ r.1)) (some-injective _ _ e) (Perm.refl _)
  take_out-Perm (suc i) (x ∷ xs) y ys e =
      put_back_lem x y ys xs (take_out i xs) e (take_out-Perm i xs)
