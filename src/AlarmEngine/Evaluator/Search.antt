-- ===== src/AlarmEngine/Evaluator/Search.antt =====
-- std::string::find(placeholder, pos), by position, and the laws of `take` and `drop` that the
-- replacement uses.
use forge_sight.Prelude.{
  ℕ, zero, suc, ◌+◌, ◌≤◌, ◌≡◌, refl, ap, Bool, true, false, ◌&&◌, Option, none, some, List, [], ◌∷◌,
  ◌++◌, Text, length, take, drop, ◌==◌, arith,
}
use native.Mathlib.Nat.{zero-add, suc-add}

-- The text begins with the pattern.
abbrev pub begins : Text → Text → Bool
begins [] s = true
begins (d ∷ ph) [] = false
begins (d ∷ ph) (c ∷ s) = (c == d) && begins ph s

-- A position counted from `k` characters earlier.
abbrev pub after : ℕ → Option ℕ → Option ℕ
after k none = none
after k (some i) = some (k + i)

-- The first position at which the pattern stands.
unfoldable pub find_index : Text → Text → Option ℕ
find_index ph [] = elim (begins ph []) [ true ↦ some 0 | false ↦ none ]
find_index ph (c ∷ s) = elim (begins ph (c ∷ s)) [
  | true ↦ some 0
  | false ↦ after 1 (find_index ph s)
]

-- msg.find(placeholder, pos), for a position within the message.
unfoldable pub find : Text → Text → ℕ → Option ℕ
unfolding find_index
find msg ph at = after at (find_index ph (drop at msg))

module _ {ℓ} {A : Type ℓ} where
  pub drop-length-append : (xs ys : List A) → drop (length xs) (xs ++ ys) ≡ ys
  drop-length-append [] ys = refl
  drop-length-append (x ∷ xs) ys = drop-length-append xs ys

  pub take-length_add-append :
      (xs ys : List A) (n : ℕ) → take (length xs + n) (xs ++ ys) ≡ xs ++ take n ys
  take-length_add-append [] ys n = rw zero-add
  take-length_add-append (x ∷ xs) ys n = rw suc-add (ap (◌∷◌ x) (take-length_add-append xs ys n))

  pub drop-length_add-append :
      (xs ys : List A) (n : ℕ) → drop (length xs + n) (xs ++ ys) ≡ drop n ys
  drop-length_add-append [] ys n = rw zero-add
  drop-length_add-append (x ∷ xs) ys n = rw suc-add (drop-length_add-append xs ys n)

begins-le : (ph s : Text) → begins ph s ≡ true → length ph ≤ length s
begins-le [] s h = omega arith
begins-le (d ∷ ph) [] h = ground arith
begins-le (d ∷ ph) (c ∷ s) h = ground (arith, begins-le ph s)

-- Where the search finds `i`, the pattern lies within the text.
pub find_index-le : (ph s : Text) (i : ℕ) → find_index ph s ≡ some i → i + length ph ≤ length s
unfolding find_index
find_index-le [] [] i h = ground arith
find_index-le (d ∷ ph) [] i h = ground arith
find_index-le ph (c ∷ s) zero h = ground (arith, begins-le ph (c ∷ s))
find_index-le ph (c ∷ s) (suc i) h = ground (arith, find_index-le ph s i)

pub find-append :
    (done rest ph : Text)
    → find (done ++ rest) ph (length done) ≡ after (length done) (find_index ph rest)
unfolding find
find-append done rest ph = rw (drop-length-append done rest)

pub find_index-suc :
    (ph : Text) (c : ℕ) (s : Text) (i : ℕ)
    → find_index ph (c ∷ s) ≡ some (suc i)
    → (begins ph (c ∷ s) ≡ false) × (find_index ph s ≡ some i)
unfolding find_index
find_index-suc ph c s i h = ground arith
