-- ===== src/AlarmEngine/Poll/Rounds.antt =====
-- One poll as a whole: which rules it uses, what it evaluates and writes, and what it does without a
-- cursor.
use forge_sight.Prelude.{◌≡◌, refl, none, some, List, [], ◌∷◌, map, ℤ, back_id, Doubles, arith}
use forge_sight.Ingestion.Reading.{PolledReading}
use forge_sight.Database.{Server, Reply, RuleRow, rule_rows, select_rules, store_conn, poll_conn}
use forge_sight.AlarmEngine.Types.{Rule}
use forge_sight.AlarmEngine.Evaluator.{template_of, default_message_template}
use forge_sight.AlarmEngine.Store.{try_load_rules, rule_of_row}
use forge_sight.AlarmEngine.Poll.{
  Engine, rules_for_poll, fetch_readings_after, catch_up_reading_id, write_alarms, poll_from, poll,
}
use forge_sight.AlarmEngine.Poll.Writes.{alarms_for, evaluate_readings-write_alarms}

-- The rules in force after the query for them was answered: the table's if it was read, also when
-- it is empty, and the previous ones after any other answer.
pub rules_in_force : {D : Type 0} → Reply D → List (Rule D) → List (Rule D)
rules_in_force (rule_rows rows) previous = map rule_of_row rows
rules_in_force _ previous = previous

module _ (F : Doubles) (S : Server (F.Double)) where
  open F use {Double}
  open S use {World, exec}

  rules_for_poll-in_force :
      (w : World) (reply : Reply Double) (previous : List (Rule Double))
      → (exec store_conn select_rules w).0 ≡ reply
      → rules_for_poll (try_load_rules F S (some store_conn) w).0 previous
        ≡ rules_in_force reply previous
  unfolding rules_for_poll try_load_rules rules_in_force
  rules_for_poll-in_force w (rule_rows rows) previous e = rw e
  rules_for_poll-in_force w _ previous e = rw e

  -- A poll of an engine with cursor `c` reads the rules, then the readings after `c`, and writes
  -- exactly the alarms that the rules in force raise for those readings, in order. It leaves the
  -- cursor at the last of the readings, or at `c` if there is none, and keeps the rules in force.
  pub poll_lem :
      (e : Engine Double) (c : ℤ) (w : World)
      → e.last_id ≡ some c
      → let rules = rules_in_force (exec store_conn select_rules w).0 e.rules in
        let fetched =
          fetch_readings_after F S (some poll_conn) c (exec store_conn select_rules w).1 in
        let written = write_alarms F S (alarms_for F S rules fetched.0) 0 fetched.1 in
        poll F S e w ≡ (
          (
            record { evaluated = fetched.0; alarm_count = written.0 },
            record {
              last_id = some (back_id (λ (r : PolledReading Double). r.id) c fetched.0);
              rules = rules;
            },
          ),
          written.1,
        )
  unfolding poll poll_from try_load_rules
  poll_lem e c w h =
      rw (h, rules_for_poll-in_force w _ e.rules refl, evaluate_readings-write_alarms)

  -- Without a cursor, and while the attempt to read one fails, a poll evaluates nothing, writes
  -- nothing and keeps its rules: it makes that attempt and no more, and no reading is taken for new.
  pub poll_no_cursor :
      (e : Engine Double) (w : World)
      → e.last_id ≡ none
      → (catch_up_reading_id F S (some poll_conn) w).0 ≡ none
      → poll F S e w ≡ (
        (record { evaluated = []; alarm_count = 0 }, e),
        (catch_up_reading_id F S (some poll_conn) w).1,
      )
  unfolding poll
  poll_no_cursor e w h k = ground (arith, h, k)

  abbrev pub AllDefault : List (Rule Double) → Type 0
  AllDefault [] = Unit {0}
  AllDefault (r ∷ rules) = (template_of r ≡ default_message_template r) × AllDefault rules

  AllDefault-map : (rows : List (RuleRow Double)) → AllDefault (map rule_of_row rows)
  unfolding rule_of_row template_of
  AllDefault-map [] = tt
  AllDefault-map (r ∷ rows) = (refl, AllDefault-map rows)

  -- The query for the rules leaves their templates out: whatever template a stored rule has, the
  -- rules in force after a successful load all format their messages by the default one.
  pub rules_in_force-AllDefault :
      (rows : List (RuleRow Double)) (previous : List (Rule Double))
      → AllDefault (rules_in_force (rule_rows rows) previous)
  unfolding rules_in_force
  rules_in_force-AllDefault rows previous = AllDefault-map rows
