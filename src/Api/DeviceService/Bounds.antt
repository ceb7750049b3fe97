-- ===== src/Api/DeviceService/Bounds.antt =====
-- How many readings `get_history` returns.
use forge_sight.Prelude.{
  ◌≡◌, refl, ap, ◌∙◌, inl, inr, subst, ◌⊎◌, ℕ, zero, suc, ◌+◌, ◌-◌, ◌*◌, ◌/◌, ◌%◌, ◌≤◌, ◌<◌, false,
  some, ◌==◌, List, length, Text, pos, int_lt, true, some, Doubles, Bool-cases, arith,
}
use Prim.Native.Nat.{max}
use native.Mathlib.Nat.{
  div-add-mod, mod-lt, mul_comm, mul-le-mul_right, mul-suc, mul-le-mul_left, mul-mod_right,
  lt_of_mul-lt-mul_left,
}
use forge_sight.Ingestion.Reading.{Reading}
use forge_sight.Database.{Server, Session, Reply, select_history, select_history_part, history_rows}
use forge_sight.Api.DeviceService.{get_history, history_of}
use forge_sight.Api.DeviceService.History.{
  stride, multiples, history_part, anomalies, length-keep_rows, history_part_lem,
}

-- `k * q` is the first multiple of `k` from `i` on.
abbrev IsNext : ℕ → ℕ → ℕ → Type 0
IsNext k i q = (i ≤ k * q) × (k * q < i + k)

next_of_multiple : (k i q : ℕ) → 0 < k → i % k ≡ 0 → IsNext k i q → i ≡ k * q
next_of_multiple k i q p e h =
    let whole = div-add-mod i k in
    let below : (q < i / k) → ⊥ =
      λ l. let up = mul-le-mul_left k l in let step = mul-suc k q in omega arith in
    let above : (i / k < q) → ⊥ =
      λ l. let up = mul-le-mul_left k l in let step = mul-suc k (i / k) in omega arith in
    let same : q ≡ i / k = ground arith in let product = ap (λ j. k * j) same in omega arith

other-IsNext : (k i q : ℕ) → ((i % k) == 0) ≡ false → IsNext k i q → IsNext k (i + 1) q
other-IsNext k i q e h =
    let other : (i ≡ k * q) → ⊥ =
      λ j. let divides = ap (λ n. n % k) j ∙ mul-mod_right k q in ground arith in
    ground arith

multiples_next : (k i n q : ℕ) → 0 < k → IsNext k i q → k * (multiples k i n + q) < i + n + k
unfolding multiples
multiples_next k i zero q p h = omega arith
multiples_next k i (suc n) q p h = elim (Bool-cases ((i % k) == 0)) [
  | inl hit ↦
      let at = next_of_multiple k i q p (ground arith) h in
      let step = mul-suc k q in
      let rest = multiples_next k (i + 1) n (suc q) p (omega arith) in
      let regrouped : multiples k (i + 1) n + suc q ≡ multiples k (i + 1) n + 1 + q = omega arith in
      rw hit (subst (λ j. k * j < i + suc n + k) regrouped (omega arith))
  | inr miss ↦
      rw miss (let rest = multiples_next k (i + 1) n q p (other-IsNext k i q miss h) in omega arith)
]

-- The stride leads through the whole window in `max_points` steps.
greatest : (d : ℕ) → d ≤ max 1 d
greatest d = omega arith

le-stride : (total m : ℕ) → 0 < m → total ≤ stride total m * m
unfolding stride
le-stride total m p =
    let whole = div-add-mod (total + m - 1) m in
    let rest = mod-lt (total + m - 1) p in
    let d = (total + m - 1) / m in
    let wide : m * d ≤ stride total m * m =
      omega (arith, mul_comm m d, mul-le-mul_right m (greatest d)) in
    omega arith

stride_pos : (total m : ℕ) → 0 < stride total m
unfolding stride
stride_pos total m = omega arith

multiples_bounded : (total m : ℕ) → 0 < m → multiples (stride total m) 0 total ≤ m
multiples_bounded total m p =
    let k = stride total m in
    let steps =
      multiples_next k 0 total 0 (stride_pos total m)
        (omega arith, omega (arith, stride_pos total m)) in
    let wide = le-stride total m p in
    let step = mul-suc k m in
    let below = lt_of_mul-lt-mul_left k {m = multiples k 0 total + 0} {n = suc m} (omega arith) in
    omega arith

le_or_lt : (a b : ℕ) → (a ≤ b) ⊎ (b < a)
le_or_lt a b = omega arith

module _ {D : Type 0} where
  -- A window is thinned out to at most `max_points` readings and one more, beside the anomalies.
  pub length-history_part :
      (m : ℕ) (rows : List (Reading D))
      → 0 < m
      → length (history_part m rows) ≤ m + length (anomalies rows) + 1
  unfolding history_part
  length-history_part m rows p = elim (le_or_lt (length rows) m) [
    | inl short ↦ rw ((history_part_lem m rows).2 short) (omega arith)
    | inr long ↦ omega (
      arith,
      length-keep_rows (length rows) m 0 rows long (omega arith),
      multiples_bounded (length rows) m p,
    )
  ]

-- What `get_history` relies on in PostgreSQL: the readings that match, in order of time, and a query
-- that selects what its WHERE clause says.
pub record HistoryLaws {D : Type 0} (S : Server D) : Type 0 where
  pub matching : S.World → Text → Text → Text → List (Reading D)
  pub selects :
      (c : Session) (dev sen since : Text) (w : S.World) (rows : List (Reading D))
      → (S.exec c (select_history dev sen since) w).0 ≡ history_rows rows
      → rows ≡ matching w dev sen since
  pub selects_part :
      (c : Session) (dev sen since : Text) (m : ℕ) (w : S.World) (rows : List (Reading D))
      → (S.exec c (select_history_part dev sen since (pos m)) w).0 ≡ history_rows rows
      → rows ≡ history_part m (matching w dev sen since)

positive : (m : ℕ) → 0 < m → int_lt (pos 0) (pos m) ≡ true
positive m p = ground arith

module _ (F : Doubles) (S : Server (F.Double)) (laws : HistoryLaws S) where
  open F use {Double}
  open S use {World, exec}

  part_bounded :
      (c : Session) (dev sen since : Text) (m : ℕ) (w : World) (reply : Reply Double)
      → (exec c (select_history_part dev sen since (pos m)) w).0 ≡ reply
      → 0 < m
      → length (history_of reply) ≤ m + length (anomalies (laws.matching w dev sen since)) + 1
  part_bounded c dev sen since m w (history_rows rows) e p =
      rw (laws.selects_part c dev sen since m w rows e)
        (length-history_part m (laws.matching w dev sen since) p)
  part_bounded c dev sen since m w _ e p = omega arith

  -- With a positive `max_points`, `get_history` returns at most that many readings and one more,
  -- beside the anomalies in the window, however wide it is.
  pub get_history_bounded :
      (c : Session) (dev sen since : Text) (m : ℕ) (w : World)
      → 0 < m
      → length (get_history F S (some c) dev sen since (pos m) w).0
        ≤ m + length (anomalies (laws.matching w dev sen since)) + 1
  unfolding get_history
  get_history_bounded c dev sen since m w p =
      rw (positive m p) (part_bounded c dev sen since m w _ refl p)
