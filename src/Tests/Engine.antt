-- ===== src/Tests/Engine.antt =====
-- The alarm engine.
use forge_sight.Prelude.{
  ◌≡◌, refl, ℕ, true, false, none, some, List, [], ◌∷◌, ◌++◌, lit, ℤ, pos, rows_after, back_id,
  arith,
}
use forge_sight.Ingestion.Reading.{PolledReading}
use forge_sight.Database.{store_conn, poll_conn, rule_rows}
use forge_sight.Database.Laws.{Tables}
use forge_sight.Database.Follow.{id_of_row}
use forge_sight.AlarmEngine.Types.{Rule, greater_or_equal, critical}
use forge_sight.AlarmEngine.Evaluator.{evaluate_all, format_message, template_of}
use forge_sight.AlarmEngine.Evaluator.Format.{
  sensor, value, Piece, chunk, slot, IsPlain, render, slot_value, format_message-render,
}
use forge_sight.AlarmEngine.Evaluator.Alarms.{Raises, evaluate_all-Raises}
use forge_sight.AlarmEngine.Store.{delete_rule}
use forge_sight.AlarmEngine.Store.Delete.{Outcome, commit_fails, delete_rule_atomic}
use forge_sight.AlarmEngine.Poll.{Engine, write_alarms, fetch_readings_after, poll, poll_rounds}
use forge_sight.AlarmEngine.Poll.Writes.{alarms_for}
use forge_sight.AlarmEngine.Poll.Rounds.{rules_in_force, poll_lem}
use forge_sight.AlarmEngine.Poll.Cover.{poll_rounds_cover}
use forge_sight.Tests.Fixtures.{
  naturals, hot_row, table, growing, growing_laws, ledger, ledger_laws, at,
}

abbrev hot : Rule ℕ
hot = record {
  id = pos 7;
  device_id = lit "p";
  sensor = lit "t";
  condition = greater_or_equal;
  threshold = 2;
  severity = critical;
  message_template = lit "{sensor} at {value}!";
}

abbrev engine : Engine ℕ
engine = record { last_id = some (pos 0); rules = hot ∷ [] }

-- Two rounds from cursor 0 evaluate both readings and leave no other.
poll_rounds_cover_example :
    let r = poll_rounds naturals growing 2 engine false in
    (c' : ℤ) × (r.0.1.last_id ≡ some c')
    × (r.0.0 ++ rows_after id_of_row c' (table r.1) ≡ rows_after id_of_row (pos 0) (table r.1))
poll_rounds_cover_example =
    poll_rounds_cover naturals growing growing_laws 2 engine (pos 0) false refl

-- A poll of the grown table by the rule that the table holds.
poll_lem_example :
    let fetched = fetch_readings_after naturals growing (some poll_conn) (pos 0) true in
    let rules = rules_in_force (rule_rows (hot_row ∷ [])) (hot ∷ []) in
    let written =
      write_alarms naturals growing (alarms_for naturals growing rules fetched.0) 0 fetched.1 in
    poll naturals growing engine true ≡ (
      (
        record { evaluated = fetched.0; alarm_count = written.0 },
        record {
          last_id = some (back_id (λ (r : PolledReading ℕ). r.id) (pos 0) fetched.0);
          rules = rules;
        },
      ),
      written.1,
    )
poll_lem_example = poll_lem naturals growing engine (pos 0) true refl

-- An engine without cursor, over a database that answers no query for one.
abbrev lost : Engine ℕ
lost = record { last_id = none; rules = hot ∷ [] }

abbrev tables : Tables ℕ
tables = record {
  rules = hot_row ∷ [];
  alarms =
      record {
        id = pos 1;
        rule_id = some (pos 7);
        device_id = lit "p";
        sensor = lit "t";
        value = 2;
        severity = lit "critical";
        message = lit "m";
        timestamp = lit "T";
        acknowledged = false;
      }
      ∷ [];
}

-- A rule with one alarm is deleted.
delete_rule_atomic_example :
    Outcome
      (pos 7)
      (delete_rule naturals ledger (some store_conn) (pos 7) (at tables none)).0
      (commit_fails ledger store_conn (pos 7) (at tables none))
      tables
      (delete_rule naturals ledger (some store_conn) (pos 7) (at tables none)).1.committed
delete_rule_atomic_example =
    delete_rule_atomic naturals ledger ledger_laws store_conn (pos 7) (at tables none)

delete_rule_runs : (delete_rule naturals ledger (some store_conn) (pos 7) (at tables none)).0 ≡ true
unfolding delete_rule
delete_rule_runs = refl

abbrev pieces : List Piece
pieces = slot sensor ∷ chunk (lit " at ") ∷ slot value ∷ chunk (lit "!") ∷ []

pieces-IsPlain : IsPlain pieces
pieces-IsPlain = ground arith

format_message-render_example :
    format_message naturals hot 5 ≡ render (slot_value naturals hot 5) pieces
format_message-render_example =
    format_message-render naturals hot 5 pieces (unfold template_of in refl) pieces-IsPlain
      (ground arith) (ground arith) (ground arith) (ground arith)

evaluate_all-Raises_example :
    Raises naturals
      (lit "p")
      (lit "t")
      5
      (lit "T")
      (hot ∷ [])
      (evaluate_all naturals (hot ∷ []) (lit "p") (lit "t") 5 (lit "T"))
evaluate_all-Raises_example =
    evaluate_all-Raises naturals (hot ∷ []) (lit "p") (lit "t") 5 (lit "T")
