-- ===== src/Ingestion/ThreadPool/Workers.antt =====
-- Counting the workers of a pool: which have left, and which are busy.
use forge_sight.Prelude.{
  ◌≡◌, ◌≤◌, refl, sym, ap, ◌∙◌, ℕ, zero, suc, ◌+◌, Bool, true, false, ◌&&◌, ◌||◌, List, [], ◌∷◌,
  ◌++◌, length, length-append, arith,
}
use forge_sight.Ingestion.ThreadPool.{Worker, waiting, running, exited, repeat_waiting}

module _ {A : Type 0} where
  abbrev pub is_exited : Worker A → Bool
  is_exited exited = true
  is_exited _ = false

  abbrev pub busy : Worker A → ℕ
  busy (running task) = 1
  busy _ = 0

  pub any_exited : List (Worker A) → Bool
  any_exited [] = false
  any_exited (w ∷ workers) = is_exited w || any_exited workers

  -- Every worker has left its loop, which is what the joins of `shutdown` wait for.
  unfoldable pub all_exited : List (Worker A) → Bool
  all_exited [] = true
  all_exited (w ∷ workers) = is_exited w && all_exited workers

  pub busy_count : List (Worker A) → ℕ
  busy_count [] = 0
  busy_count (w ∷ workers) = busy w + busy_count workers

  pub any_exited-append :
      (a : List (Worker A)) (w : Worker A) (b : List (Worker A))
      → any_exited (a ++ (w ∷ b)) ≡ (is_exited w || any_exited (a ++ b))
  unfolding any_exited
  any_exited-append [] w b = refl
  any_exited-append (x ∷ a) w b = ground (arith, any_exited-append a w b)

  pub busy_count-append :
      (a : List (Worker A)) (w : Worker A) (b : List (Worker A))
      → busy_count (a ++ (w ∷ b)) ≡ busy w + busy_count (a ++ b)
  unfolding busy_count
  busy_count-append [] w b = refl
  busy_count-append (x ∷ a) w b = omega (arith, busy_count-append a w b)

  pub length-insert :
      (a : List (Worker A)) (w : Worker A) (b : List (Worker A))
      → length (a ++ (w ∷ b)) ≡ 1 + length (a ++ b)
  length-insert [] w b = omega arith
  length-insert (x ∷ a) w b = omega (arith, length-insert a w b)

  pub length-snoc : (xs : List A) (x : A) → length (xs ++ (x ∷ [])) ≡ length xs + 1
  length-snoc xs x = omega (arith, length-append xs (x ∷ []))

  -- A worker that did not leave was replaced by one that did not either.
  pub kept_exits :
      (workers before after : List (Worker A)) (v w : Worker A)
      → workers ≡ before ++ (v ∷ after)
      → is_exited v ≡ is_exited w
      → any_exited (before ++ (w ∷ after)) ≡ true
      → any_exited workers ≡ true
  kept_exits workers before after v w e same x =
      ap any_exited e
      ∙ any_exited-append before v after
      ∙ ap (λ b. b || any_exited (before ++ after)) same
      ∙ sym (any_exited-append before w after)
      ∙ x

  all_any :
      (w : Worker A) (workers : List (Worker A))
      → all_exited (w ∷ workers) ≡ true
      → any_exited (w ∷ workers) ≡ true
  unfolding all_exited any_exited
  all_any w workers h = ground (arith, h)

  pub all_idle : (workers : List (Worker A)) → all_exited workers ≡ true → busy_count workers ≡ 0
  unfolding all_exited busy_count
  all_idle [] h = refl
  all_idle (waiting ∷ workers) h = cc
  all_idle (running task ∷ workers) h = cc
  all_idle (exited ∷ workers) h = omega (arith, all_idle workers h)

  pub any_of_all :
      (workers : List (Worker A))
      → 1 ≤ length workers
      → all_exited workers ≡ true
      → any_exited workers ≡ true
  any_of_all [] k h = absurd (omega (arith, k))
  any_of_all (w ∷ workers) k h = all_any w workers h

-- At the start every worker waits.
pub repeat_waiting-quiet :
    (A : Type 0) (n : ℕ)
    → (any_exited (repeat_waiting {A = A} n) ≡ false) × (busy_count (repeat_waiting {A = A} n) ≡ 0)
unfolding any_exited busy_count
repeat_waiting-quiet A zero = (refl, refl)
repeat_waiting-quiet A (suc n) =
    let (quiet, idle) = repeat_waiting-quiet A n in (quiet, omega (arith, idle))
