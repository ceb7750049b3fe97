-- ===== src/AlarmEngine/Poll/Writes.antt =====
-- The loop over a poll's readings against a flat description: all alarms of all readings, in order.
use forge_sight.Prelude.{◌≡◌, refl, ℕ, List, [], ◌∷◌, ◌++◌, ℤ, back_id, Doubles}
use forge_sight.Ingestion.Reading.{PolledReading}
use forge_sight.Database.{Server}
use forge_sight.AlarmEngine.Types.{Rule, Alarm}
use forge_sight.AlarmEngine.Evaluator.{evaluate_all}
use forge_sight.AlarmEngine.Poll.{write_alarms, evaluate_readings}

module _ (F : Doubles) (S : Server (F.Double)) where
  open F use {Double}
  open S use {World}

  -- The alarms of one reading after the other.
  abbrev pub alarms_for : List (Rule Double) → List (PolledReading Double) → List (Alarm Double)
  alarms_for rules [] = []
  alarms_for rules (row ∷ rows) =
      evaluate_all F rules row.reading.device_id row.reading.sensor row.reading.value
        row.reading.timestamp
      ++ alarms_for rules rows

  write_alarms-append :
      (xs ys : List (Alarm Double)) (n : ℕ) (w : World)
      → write_alarms F S (xs ++ ys) n w
        ≡ write_alarms F S ys (write_alarms F S xs n w).0 (write_alarms F S xs n w).1
  unfolding write_alarms
  write_alarms-append [] ys n w = refl
  write_alarms-append (x ∷ xs) ys n w = write_alarms-append xs ys _ _

  -- The loop inserts exactly the alarms that the evaluator returns for the readings, in the order of
  -- the readings and within one reading in the order of the rules, and leaves the cursor at the last
  -- reading's id, or where it was if there is none.
  pub evaluate_readings-write_alarms :
      (rules : List (Rule Double)) (rows : List (PolledReading Double)) (c : ℤ) (n : ℕ) (w : World)
      → let written = write_alarms F S (alarms_for rules rows) n w in
        evaluate_readings F S rules rows c n w
        ≡ ((back_id (λ (r : PolledReading Double). r.id) c rows, written.0), written.1)
  unfolding evaluate_readings back_id
  evaluate_readings-write_alarms rules [] c n w = unfold write_alarms in refl
  evaluate_readings-write_alarms rules (row ∷ rows) c n w =
      let here =
        evaluate_all F rules row.reading.device_id row.reading.sensor row.reading.value
          row.reading.timestamp in
      rw (write_alarms-append here (alarms_for rules rows) n w) (
        evaluate_readings-write_alarms rules rows row.id (write_alarms F S here n w).0
          (write_alarms F S here n w).1)
