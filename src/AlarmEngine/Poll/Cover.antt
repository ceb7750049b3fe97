-- ===== src/AlarmEngine/Poll/Cover.antt =====
-- No reading is skipped and none is evaluated twice.
use forge_sight.Prelude.{
  ◌≡◌, refl, ap, ◌∙◌, ℕ, zero, suc, some, List, [], ◌∷◌, ◌++◌, append_assoc, ℤ, back_id, rows_after,
  Doubles,
}
use forge_sight.Ingestion.Reading.{PolledReading}
use forge_sight.Database.{Server, store_conn, poll_conn}
use forge_sight.Database.Laws.{ReadingsLaws}
use forge_sight.Database.Follow.{
  Extends, Extends-refl, Extends-trans, Covers, reply_Covers, id_of_row,
}
use forge_sight.AlarmEngine.Types.{Rule, Alarm}
use forge_sight.AlarmEngine.Store.{try_load_rules, write_alarm}
use forge_sight.AlarmEngine.Poll.{
  Engine, write_alarms, evaluate_readings, fetch_readings_after, rules_for_poll, poll_from, poll,
  poll_rounds,
}
use forge_sight.AlarmEngine.Poll.Writes.{alarms_for, evaluate_readings-write_alarms}

module _ (F : Doubles) (S : Server (F.Double)) (laws : ReadingsLaws S) where
  open F use {Double}
  open S use {World, exec, wait}
  open laws use {readings, first}

  write_alarm_grows :
      (a : Alarm Double) (w : World)
      → Extends (readings w) (readings (write_alarm F S (some store_conn) a w).1)
  unfolding write_alarm
  write_alarm_grows a w = laws.exec_grows store_conn _ w

  write_alarms_grows :
      (alarms : List (Alarm Double)) (n : ℕ) (w : World)
      → Extends (readings w) (readings (write_alarms F S alarms n w).1)
  unfolding write_alarms
  write_alarms_grows [] n w = Extends-refl (readings w)
  write_alarms_grows (a ∷ alarms) n w =
      Extends-trans _ _ _ (write_alarm_grows a w) (write_alarms_grows alarms _ _)

  fetch_Covers :
      (c : ℤ) (w : World)
      → let rows = (fetch_readings_after F S (some poll_conn) c w).0 in
        Covers S laws c rows (back_id id_of_row c rows) w
  unfolding fetch_readings_after
  fetch_Covers c w = reply_Covers S laws poll_conn c w _ refl

  fetch_grows :
      (c : ℤ) (w : World)
      → Extends (readings w) (readings (fetch_readings_after F S (some poll_conn) c w).1)
  unfolding fetch_readings_after
  fetch_grows c w = laws.exec_grows poll_conn _ w

  evaluate_grows :
      (rules : List (Rule Double)) (rows : List (PolledReading Double)) (c : ℤ) (w : World)
      → Extends (readings w) (readings (evaluate_readings F S rules rows c 0 w).1)
  evaluate_grows rules rows c w =
      rw (evaluate_readings-write_alarms F S rules rows c 0 w)
        (write_alarms_grows (alarms_for F S rules rows) 0 w)

  load_grows :
      (w : World) → Extends (readings w) (readings (try_load_rules F S (some store_conn) w).1)
  unfolding try_load_rules
  load_grows w = laws.exec_grows store_conn _ w

  -- What is known after some rounds: the cursor, what they have seen, and that the table grew.
  record Followed (c : ℤ) (seen : List (PolledReading Double)) (e : Engine Double) (v w : World)
      : Type 0 where
    cursor : ℤ
    kept : e.last_id ≡ some cursor
    covers : Covers S laws c seen cursor w
    grown : Extends (readings v) (readings w)

  poll_from-Followed :
      (previous : List (Rule Double)) (c : ℤ) (w : World)
      → let r = poll_from F S previous c w in Followed c r.0.0.evaluated r.0.1 w r.1
  unfolding poll_from
  poll_from-Followed previous c w =
      let w1 = (try_load_rules F S (some store_conn) w).1 in
      let rules = rules_for_poll (try_load_rules F S (some store_conn) w).0 previous in
      let rows = (fetch_readings_after F S (some poll_conn) c w1).0 in
      let w2 = (fetch_readings_after F S (some poll_conn) c w1).1 in
      let after_fetch = Extends-trans _ _ _ (fetch_grows c w1) (evaluate_grows rules rows c w2) in
      record {
        cursor = back_id id_of_row c rows;
        kept =
            ap (λ (r : (ℤ × ℕ) × World). some r.0.0)
              (evaluate_readings-write_alarms F S rules rows c 0 w2);
        covers = λ later asc ext. fetch_Covers c w1 later asc (Extends-trans _ _ _ after_fetch ext);
        grown = Extends-trans _ _ _ (load_grows w) after_fetch;
      }

  poll_from_cursor :
      (e : Engine Double) (c : ℤ) (w : World)
      → e.last_id ≡ some c
      → poll F S e w ≡ poll_from F S e.rules c w
  unfolding poll
  poll_from_cursor e c w h = rw h

  poll-Followed :
      (e : Engine Double) (c : ℤ) (w : World)
      → e.last_id ≡ some c
      → let r = poll F S e w in Followed c r.0.0.evaluated r.0.1 w r.1
  poll-Followed e c w h = rw (poll_from_cursor e c w h) (poll_from-Followed e.rules c w)

  rounds-Followed :
      (n : ℕ) (e : Engine Double) (c : ℤ) (w : World)
      → e.last_id ≡ some c
      → let r = poll_rounds F S n e w in Followed c r.0.0 r.0.1 w r.1
  unfolding poll_rounds
  rounds-Followed zero e c w h = record {
    cursor = c;
    kept = h;
    covers = λ later asc ext. refl;
    grown = Extends-refl (readings w);
  }
  rounds-Followed (suc n) e c w h =
      let one = poll F S e (wait w) in
      let here = poll-Followed e c (wait w) h in
      let others = rounds-Followed n one.0.1 here.cursor one.1 here.kept in
      record {
        cursor = others.cursor;
        kept = others.kept;
        covers = λ later asc ext.
            append_assoc one.0.0.evaluated (poll_rounds F S n one.0.1 one.1).0.0
              (rows_after id_of_row others.cursor later)
            ∙ (ap (◌++◌ one.0.0.evaluated) (others.covers later asc ext)
                ∙ here.covers later asc (Extends-trans _ _ _ others.grown ext));
        grown =
            Extends-trans _ _ _ (laws.wait_grows w) (Extends-trans _ _ _ here.grown others.grown);
      }

  -- An engine with a cursor runs any number of rounds, while the table grows and statements may fail.
  -- It then has a cursor again, and the readings that the rounds evaluated, followed by those above
  -- the new cursor, are exactly the readings above the old one: each once, in order of id, none lost.
  pub poll_rounds_cover :
      (n : ℕ) (e : Engine Double) (c : ℤ) (w : World)
      → e.last_id ≡ some c
      → let r = poll_rounds F S n e w in
        (c' : ℤ) × (r.0.1.last_id ≡ some c')
        × (r.0.0 ++ rows_after id_of_row c' (readings r.1) ≡ rows_after id_of_row c (readings r.1))
  poll_rounds_cover n e c w h =
      let f = rounds-Followed n e c w h in
      let r = poll_rounds F S n e w in
      (f.cursor, f.kept, f.covers (readings r.1) (laws.ascends r.1) (Extends-refl (readings r.1)))
