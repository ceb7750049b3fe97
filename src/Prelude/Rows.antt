-- ===== src/Prelude/Rows.antt =====
-- Signed ids and their order, and tables of rows in ascending order of id: what a query
-- `WHERE id > $1 ORDER BY id` returns, and how a cursor follows a table that grows at its end.
use Prim.Native.Nat.{ℕ, suc, ◌+◌, ◌≤◌, ◌<◌}
use mathlib.Core.Path.{◌≡◌, refl, ap, ◌∙◌}
use mathlib.Core.Logic.{◌↔◌, ◌⊎◌, inl, inr}
use mathlib.Core.Bool.{Bool, true, false}
use mathlib.Core.List.{List, [], ◌∷◌, ◌++◌}
use native.Mathlib.Omega.{arith}
use forge_sight.Prelude.Tests.{ltb, ◌==◌, if◌then◌else◌}

-- `negsuc n` is -(n + 1).
pub data ℤ : Type 0 where
  pos : ℕ → ℤ
  negsuc : ℕ → ℤ

abbrev pub int_eq : ℤ → ℤ → Bool
int_eq (pos a) (pos b) = a == b
int_eq (negsuc a) (negsuc b) = a == b
int_eq (pos a) (negsuc b) = false
int_eq (negsuc a) (pos b) = false

pub int_eq_iff : (a b : ℤ) → (int_eq a b ≡ true) ↔ (a ≡ b)
int_eq_iff a b = ground arith

abbrev pos_part : ℤ → ℕ
pos_part (pos n) = n
pos_part (negsuc n) = 0

abbrev neg_part : ℤ → ℕ
neg_part (pos n) = 0
neg_part (negsuc n) = suc n

infix 50 ◌<ℤ◌ ◌≤ℤ◌
abbrev pub ◌<ℤ◌ : ℤ → ℤ → Type 0
a <ℤ b = pos_part a + neg_part b < pos_part b + neg_part a

abbrev pub ◌≤ℤ◌ : ℤ → ℤ → Type 0
a ≤ℤ b = pos_part a + neg_part b ≤ pos_part b + neg_part a

abbrev pub int_lt : ℤ → ℤ → Bool
int_lt a b = ltb (pos_part a + neg_part b) (pos_part b + neg_part a)

module _ {ℓ} {A : Type ℓ} (id : A → ℤ) where
  -- The rows with an id above the cursor, in the order of the table.
  unfoldable pub rows_after : ℤ → List A → List A
  rows_after c [] = []
  rows_after c (x ∷ xs) = let rest = rows_after c xs in if int_lt c (id x) then x ∷ rest else rest

  -- The id of the last row; the given one where there is no row.
  unfoldable pub back_id : ℤ → List A → ℤ
  back_id c [] = c
  back_id c (x ∷ xs) = back_id (id x) xs

  -- Ids ascend, from above `c`.
  abbrev pub Ascending : ℤ → List A → Type 0
  Ascending c [] = Unit {0}
  Ascending c (x ∷ xs) = (c <ℤ id x) × Ascending (id x) xs

  Ascending-mono : (b c : ℤ) (xs : List A) → b ≤ℤ c → Ascending c xs → Ascending b xs
  Ascending-mono b c [] h a = tt
  Ascending-mono b c (x ∷ xs) h a = (omega arith, a.1)

  Ascending-append : (c : ℤ) (xs ys : List A) → Ascending c (xs ++ ys) → Ascending c xs
  Ascending-append c [] ys a = tt
  Ascending-append c (x ∷ xs) ys a = (a.0, Ascending-append (id x) xs ys a.1)

  le_or_lt : (a b : ℤ) → (a ≤ℤ b) ⊎ (b <ℤ a)
  le_or_lt a b = omega arith

  rows_after_skip :
      (c : ℤ) (x : A) (xs : List A) → id x ≤ℤ c → rows_after c (x ∷ xs) ≡ rows_after c xs
  unfolding rows_after
  rows_after_skip c x xs h = ground arith

  rows_after_take :
      (c : ℤ) (x : A) (xs : List A) → c <ℤ id x → rows_after c (x ∷ xs) ≡ x ∷ rows_after c xs
  unfolding rows_after
  rows_after_take c x xs h = ground arith

  pub rows_after_all : (c : ℤ) (xs : List A) → Ascending c xs → rows_after c xs ≡ xs
  rows_after_all c [] a = unfold rows_after in refl
  rows_after_all c (x ∷ xs) a =
      rows_after_take c x xs a.0
      ∙ ap (◌∷◌ x) (rows_after_all c xs (Ascending-mono c (id x) xs (omega arith) a.1))

  -- What a query returns ascends from above the cursor.
  pub rows_after-Ascending :
      (b c : ℤ) (xs : List A) → Ascending b xs → Ascending c (rows_after c xs)
  rows_after-Ascending b c [] a = unfold rows_after in tt
  rows_after-Ascending b c (x ∷ xs) a = elim (le_or_lt (id x) c) [
    | inl h ↦ rw (rows_after_skip c x xs h) (rows_after-Ascending (id x) c xs a.1)
    | inr h ↦ rw (rows_after_all c (x ∷ xs) (h, a.1)) (h, a.1)
  ]

  pub le-back_id : (b : ℤ) (xs : List A) → Ascending b xs → b ≤ℤ back_id b xs
  unfolding back_id
  le-back_id b [] a = omega arith
  le-back_id b (x ∷ xs) a = omega (arith, le-back_id (id x) xs a.1)

  -- All of a prefix is at or below its last id, so only the suffix is above it.
  rows_after_back :
      (b : ℤ) (xs ys : List A) → Ascending b (xs ++ ys) → rows_after (back_id b xs) (xs ++ ys) ≡ ys
  unfolding back_id
  rows_after_back b [] ys a = rows_after_all b ys a
  rows_after_back b (x ∷ xs) ys a =
      rows_after_skip (back_id (id x) xs) x (xs ++ ys)
        (le-back_id (id x) xs (Ascending-append (id x) xs ys a.1))
      ∙ rows_after_back (id x) xs ys a.1

  -- A poll that read `rows_after c xs` moves its cursor to the last row. Whatever is appended to the
  -- table, the next poll reads on exactly where this one ended.
  pub rows_after_cover :
      (b c : ℤ) (xs ys : List A)
      → Ascending b (xs ++ ys)
      → rows_after c xs ++ rows_after (back_id c (rows_after c xs)) (xs ++ ys)
        ≡ rows_after c (xs ++ ys)
  rows_after_cover b c [] ys a = unfold rows_after back_id in refl
  rows_after_cover b c (x ∷ xs) ys a = elim (le_or_lt (id x) c) [
    | inl h ↦
        let d = back_id c (rows_after c xs) in
        let up =
          le-back_id c (rows_after c xs)
            (rows_after-Ascending (id x) c xs (Ascending-append (id x) xs ys a.1)) in
        rw
          (
            rows_after_skip c x xs h,
            rows_after_skip d x (xs ++ ys) (omega (arith, up)),
            rows_after_skip c x (xs ++ ys) h,
          )
          (rows_after_cover (id x) c xs ys a.1)
    | inr h ↦ rw (
      rows_after_all c (x ∷ xs) (h, Ascending-append (id x) xs ys a.1),
      rows_after_all c (x ∷ xs ++ ys) (h, a.1),
      rows_after_back c (x ∷ xs) ys (h, a.1),
    )
  ]
