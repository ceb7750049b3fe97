-- ===== src/Api/DeviceService/History.antt =====
-- The SQL of `get_history` in api/src/device_service.cpp that thins out a window of readings: what its
-- WHERE clause keeps of the rows that match, which stand in order of time.
use forge_sight.Prelude.{
  ◌≡◌, refl, ℕ, zero, suc, ◌+◌, ◌-◌, ◌/◌, ◌%◌, ◌≤◌, ◌<◌, Bool, true, false, ◌||◌, leb, ◌==◌, Option,
  none, some, List, [], ◌∷◌, length, arith, if◌then◌else◌,
}
use Prim.Native.Nat.{max}
use forge_sight.Ingestion.Reading.{Reading}

-- GREATEST(1, (total + $4 - 1) / $4)
unfoldable pub stride : ℕ → ℕ → ℕ
stride total max_points = max 1 ((total + max_points - 1) / max_points)

-- The WHERE clause, for row number `rn`.
unfoldable pub keeps : ℕ → ℕ → ℕ → Bool → Bool
unfolding stride
keeps total max_points rn anomaly =
    leb total max_points || (((rn - 1) % stride total max_points) == 0) || anomaly || (rn == total)

-- How many of the `n` indices from `i` on are multiples of `k`.
unfoldable pub multiples : ℕ → ℕ → ℕ → ℕ
multiples k i zero = 0
multiples k i (suc n) = let rest = multiples k (i + 1) n in if (i % k) == 0 then rest + 1 else rest

module _ {D : Type 0} where
  -- The rows from row number `rn` on.
  unfoldable pub keep_rows : ℕ → ℕ → ℕ → List (Reading D) → List (Reading D)
  unfolding keeps
  keep_rows total max_points rn [] = []
  keep_rows total max_points rn (r ∷ rows) =
      let rest = keep_rows total max_points (rn + 1) rows in
      if keeps total max_points rn r.anomaly then r ∷ rest else rest

  unfoldable pub history_part : ℕ → List (Reading D) → List (Reading D)
  unfolding keep_rows
  history_part max_points rows = keep_rows (length rows) max_points 1 rows

  unfoldable pub anomalies : List (Reading D) → List (Reading D)
  anomalies [] = []
  anomalies (r ∷ rows) = let rest = anomalies rows in if r.anomaly then r ∷ rest else rest

  -- The last row, or the given one where there is none.
  unfoldable pub last_or : Option (Reading D) → List (Reading D) → Option (Reading D)
  last_or o [] = o
  last_or o (r ∷ rows) = last_or (some r) rows

  keep_rows-anomalies :
      (total m rn : ℕ) (rows : List (Reading D))
      → anomalies (keep_rows total m rn rows) ≡ anomalies rows
  unfolding keep_rows anomalies keeps
  keep_rows-anomalies total m rn [] = refl
  keep_rows-anomalies total m rn (r ∷ rows) =
      ground (arith, keep_rows-anomalies total m (rn + 1) rows)

  keep_rows-all :
      (total m rn : ℕ) (rows : List (Reading D)) → total ≤ m → keep_rows total m rn rows ≡ rows
  unfolding keep_rows keeps
  keep_rows-all total m rn [] h = refl
  keep_rows-all total m rn (r ∷ rows) h = ground (arith, keep_rows-all total m (rn + 1) rows h)

  kept_or_not :
      (b : Bool) (r : Reading D) (rest : List (Reading D)) (o last : Option (Reading D))
      → last_or o rest ≡ last
      → last_or (some r) rest ≡ last
      → last_or o (if b then r ∷ rest else rest) ≡ last
  unfolding last_or
  kept_or_not true r rest o last dropped kept = kept
  kept_or_not false r rest o last dropped kept = dropped

  keep_rows-last :
      (total m rn : ℕ) (r : Reading D) (rows : List (Reading D)) (o o' : Option (Reading D))
      → rn + length rows ≡ total
      → last_or o (keep_rows total m rn (r ∷ rows)) ≡ last_or o' (r ∷ rows)
  unfolding keep_rows keeps last_or
  keep_rows-last total m rn r [] o o' h = ground arith
  keep_rows-last total m rn r (s ∷ rows) o o' h =
      kept_or_not (keeps total m rn r.anomaly) r (keep_rows total m (rn + 1) (s ∷ rows)) o
        (last_or o' (r ∷ s ∷ rows))
        (keep_rows-last total m (rn + 1) s rows o (some r) (omega (arith, h)))
        (keep_rows-last total m (rn + 1) s rows (some r) (some r) (omega (arith, h)))

  history_part-last :
      (m : ℕ) (rows : List (Reading D))
      → last_or none (keep_rows (length rows) m 1 rows) ≡ last_or none rows
  history_part-last m [] = unfold keep_rows in refl
  history_part-last m (r ∷ rows) =
      keep_rows-last (suc (length rows)) m 1 r rows none none (omega arith)

  pub length-keep_rows :
      (total m i : ℕ) (rows : List (Reading D))
      → m < total
      → i + length rows ≡ total
      → length (keep_rows total m (i + 1) rows)
        ≤ multiples (stride total m) i (length rows) + length (anomalies rows) + 1
  unfolding keep_rows keeps multiples anomalies
  length-keep_rows total m i [] h e = omega arith
  length-keep_rows total m i (r ∷ []) h e = ground arith
  length-keep_rows total m i (r ∷ s ∷ rows) h e =
      ground (arith, length-keep_rows total m (i + 1) (s ∷ rows))

  -- A window of at most `max_points` readings comes back whole; a longer one loses no anomaly and
  -- keeps its last reading.
  pub history_part_lem :
      (m : ℕ) (rows : List (Reading D))
      → (anomalies (history_part m rows) ≡ anomalies rows)
        × (last_or none (history_part m rows) ≡ last_or none rows)
        × (length rows ≤ m → history_part m rows ≡ rows)
  unfolding history_part
  history_part_lem m rows = (
    keep_rows-anomalies (length rows) m 1 rows,
    history_part-last m rows,
    keep_rows-all (length rows) m 1 rows,
  )
