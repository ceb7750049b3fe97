-- ===== src/Database/Laws.antt =====
-- What the program relies on in PostgreSQL, as hypotheses of the theorems that need it.
use forge_sight.Prelude.{
  ◌≡◌, ◌⊎◌, Bool, true, false, Option, none, some, List, [], ◌∷◌, ◌++◌, ℤ, int_eq, Ascending,
  rows_after, if◌then◌else◌,
}
use forge_sight.Ingestion.Reading.{PolledReading}
use forge_sight.Database.{
  Server, Session, Statement, RuleRow, AlarmRow, select_readings_after, reading_rows, begin, commit,
  rollback, detach_alarms, remove_rule, insert_rule_returning, is_command_ok,
}

-- The readings table has a serial key and one writer, which appends: at every moment its ids ascend,
-- and whatever runs or happens meanwhile, rows are only added, at the end. A query by id reads the
-- table as it is when the query starts.
pub record ReadingsLaws {D : Type 0} (S : Server D) : Type 0 where
  pub readings : S.World → List (PolledReading D)
  pub first : ℤ
  pub ascends : (w : S.World) → Ascending (λ (r : PolledReading D). r.id) first (readings w)
  pub exec_grows :
      (c : Session) (st : Statement) (w : S.World)
      → (new : List (PolledReading D)) × (readings (S.exec c st w).1 ≡ readings w ++ new)
  pub wait_grows :
      (w : S.World) → (new : List (PolledReading D)) × (readings (S.wait w) ≡ readings w ++ new)
  pub selects :
      (c : Session) (k : ℤ) (w : S.World) (rows : List (PolledReading D))
      → (S.exec c (select_readings_after k) w).0 ≡ reading_rows rows
      → rows ≡ rows_after (λ (r : PolledReading D). r.id) k (readings w)

-- The two tables that rules and alarms live in.
pub record Tables (D : Type 0) : Type 0 where
  pub rules : List (RuleRow D)
  pub alarms : List (AlarmRow D)

abbrev pub refers_to : Option ℤ → ℤ → Bool
refers_to none id = false
refers_to (some i) id = int_eq i id

module _ {D : Type 0} where
  -- UPDATE alarms SET rule_id = NULL WHERE rule_id = $1
  unfoldable pub detach : ℤ → List (AlarmRow D) → List (AlarmRow D)
  detach id [] = []
  detach id (a ∷ alarms) =
      (if refers_to a.rule_id id then record a { rule_id = none } else a) ∷ detach id alarms

  -- DELETE FROM alarm_rules WHERE id = $1
  unfoldable pub drop_rule : ℤ → List (RuleRow D) → List (RuleRow D)
  drop_rule id [] = []
  drop_rule id (r ∷ rules) =
      let rest = drop_rule id rules in if int_eq r.id id then rest else r ∷ rest

-- Every statement but the INSERT with RETURNING, which succeeds with another status, and COMMIT, whose
-- answer can be lost after it took effect.
abbrev pub CommitsNothing : Statement → Type 0
CommitsNothing (insert_rule_returning dev sen cond thr sev) = ⊥
CommitsNothing commit = ⊥
CommitsNothing _ = Unit {0}

-- Transactions, while no other client writes the two tables: what is committed, what a session sees,
-- and in which states it has a transaction open. Apart from a COMMIT, a statement that is not answered by
-- PGRES_COMMAND_OK commits nothing, and neither does a ROLLBACK, whatever its answer. A COMMIT that is
-- not answered by it, as where the connection is lost, has committed all of the transaction or nothing.
pub record TransactionLaws {D : Type 0} (S : Server D) : Type 1 where
  pub tables : S.World → Tables D
  pub view : Session → S.World → Tables D
  pub Open : Session → S.World → Type 0
  pub begins :
      (c : Session) (w : S.World)
      → is_command_ok (S.exec c begin w).0 ≡ true
      → Open c (S.exec c begin w).1
        × (tables (S.exec c begin w).1 ≡ tables w)
        × (view c (S.exec c begin w).1 ≡ tables w)
  pub detaches :
      (c : Session) (id : ℤ) (w : S.World)
      → Open c w
      → is_command_ok (S.exec c (detach_alarms id) w).0 ≡ true
      → Open c (S.exec c (detach_alarms id) w).1
        × (tables (S.exec c (detach_alarms id) w).1 ≡ tables w)
        × (view c (S.exec c (detach_alarms id) w).1
            ≡ record { rules = (view c w).rules; alarms = detach id (view c w).alarms })
  pub removes :
      (c : Session) (id : ℤ) (w : S.World)
      → Open c w
      → is_command_ok (S.exec c (remove_rule id) w).0 ≡ true
      → Open c (S.exec c (remove_rule id) w).1
        × (tables (S.exec c (remove_rule id) w).1 ≡ tables w)
        × (view c (S.exec c (remove_rule id) w).1
            ≡ record { rules = drop_rule id (view c w).rules; alarms = (view c w).alarms })
  pub commits :
      (c : Session) (w : S.World)
      → Open c w
      → is_command_ok (S.exec c commit w).0 ≡ true
      → tables (S.exec c commit w).1 ≡ view c w
  pub in_doubt :
      (c : Session) (w : S.World)
      → Open c w
      → is_command_ok (S.exec c commit w).0 ≡ false
      → (tables (S.exec c commit w).1 ≡ tables w) ⊎ (tables (S.exec c commit w).1 ≡ view c w)
  pub rolls_back : (c : Session) (w : S.World) → tables (S.exec c rollback w).1 ≡ tables w
  pub refuses :
      (c : Session) (st : Statement) (w : S.World)
      → CommitsNothing st
      → is_command_ok (S.exec c st w).0 ≡ false
      → tables (S.exec c st w).1 ≡ tables w
