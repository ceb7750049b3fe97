-- ===== src/Api/Polling/Cover.antt =====
-- The poll timer broadcasts every reading once.
use forge_sight.Prelude.{
  ◌≡◌, refl, sym, ap, subst, ◌∙◌, Option, none, some, List, [], ◌∷◌, ◌++◌, map, append_assoc,
  append-nil, Text, ℤ, back_id, rows_after, Doubles,
}
use forge_sight.Ingestion.Reading.{Reading, PolledReading}
use forge_sight.Database.{
  Server, api_conn, readings_of, alarm_cursor, max_alarm_id, select_alarms_after,
  select_readings_after,
}
use forge_sight.Database.Laws.{ReadingsLaws}
use forge_sight.Database.Follow.{
  Extends, Extends-refl, Extends-trans, Covers, reply_Covers, id_of_row,
}
use forge_sight.AlarmEngine.Types.{Alarm}
use forge_sight.Api.RuleService.{alarm_poll_cursor, alarm_cursor_from, alarms_after}
use forge_sight.Api.Polling.{
  Cursors, Message, reading_message, alarm_message, broadcast_readings, readings_after,
  alarm_cursor_for, follow_readings, follow_alarms, tick, ticks,
}

module _ {D : Type 0} where
  -- The readings among the messages.
  unfoldable pub heard : List (Message D) → List (Reading D)
  heard [] = []
  heard (reading_message r ∷ messages) = r ∷ heard messages
  heard (alarm_message a ∷ messages) = heard messages

  abbrev pub payload : PolledReading D → Reading D
  payload row = row.reading

  heard-append : (a b : List (Message D)) → heard (a ++ b) ≡ heard a ++ heard b
  unfolding heard
  heard-append [] b = refl
  heard-append (reading_message r ∷ a) b = ap (◌∷◌ r) (heard-append a b)
  heard-append (alarm_message x ∷ a) b = heard-append a b

  heard-broadcast_readings :
      (rows : List (PolledReading D)) → heard (broadcast_readings rows) ≡ map payload rows
  unfolding heard
  heard-broadcast_readings [] = refl
  heard-broadcast_readings (row ∷ rows) = ap (◌∷◌ (row.reading)) (heard-broadcast_readings rows)

  heard-alarms : (alarms : List (Alarm D)) → heard (map alarm_message alarms) ≡ []
  unfolding heard
  heard-alarms [] = refl
  heard-alarms (a ∷ alarms) = heard-alarms alarms

  map-append :
      (xs ys : List (PolledReading D)) → map payload (xs ++ ys) ≡ map payload xs ++ map payload ys
  map-append [] ys = refl
  map-append (x ∷ xs) ys = ap (◌∷◌ (payload x)) (map-append xs ys)

module _ (F : Doubles) (S : Server (F.Double)) (laws : ReadingsLaws S) where
  open F use {Double}
  open S use {World, exec, wait}
  open laws use {readings, first}

  follow_alarms_silent : (o : Option ℤ) (w : World) → heard (follow_alarms F S o w).0.0 ≡ []
  unfolding follow_alarms heard
  follow_alarms_silent none w = refl
  follow_alarms_silent (some id) w = heard-alarms (alarms_after F S (some api_conn) id w).0

  follow_alarms_grows :
      (o : Option ℤ) (w : World) → Extends (readings w) (readings (follow_alarms F S o w).1)
  unfolding follow_alarms alarms_after
  follow_alarms_grows none w = Extends-refl (readings w)
  follow_alarms_grows (some id) w = laws.exec_grows api_conn (select_alarms_after id) w

  alarm_cursor_from_grows :
      (o : Option ℤ) (w : World)
      → Extends (readings w) (readings (alarm_cursor_from F S api_conn o w).1)
  unfolding alarm_cursor_from
  alarm_cursor_from_grows (some id) w = Extends-refl (readings w)
  alarm_cursor_from_grows none w = laws.exec_grows api_conn max_alarm_id w

  alarm_cursor_grows :
      (catchup : Text) (o : Option ℤ) (w : World)
      → Extends (readings w) (readings (alarm_cursor_for F S catchup o w).1)
  unfolding alarm_poll_cursor
  alarm_cursor_grows catchup (some id) w = Extends-refl (readings w)
  alarm_cursor_grows catchup none w =
      Extends-trans _ _ _ (laws.exec_grows api_conn (alarm_cursor catchup) w)
        (alarm_cursor_from_grows _ _)

  -- What is known after some ticks.
  record Followed (c : ℤ) (said : List (Message Double)) (k : Cursors) (v w : World) : Type 0 where
    cursor : ℤ
    kept : k.last_reading_id ≡ some cursor
    rows : List (PolledReading Double)
    broadcast : heard said ≡ map payload rows
    covers : Covers S laws c rows cursor w
    grown : Extends (readings v) (readings w)

  abbrev at : ℤ → Option ℤ → Cursors
  at c a = record { last_reading_id = some c; last_alarm_id = a }

  tick-at :
      (catchup : Text) (c : ℤ) (a : Option ℤ) (w : World)
      → let r = tick F S catchup (at c a) w in Followed c r.0.0 r.0.1 w r.1
  unfolding tick follow_readings readings_after
  tick-at catchup c a w =
      let reply = exec api_conn (select_readings_after c) w in
      let rows = readings_of reply.0 in
      let alarm_id = alarm_cursor_for F S catchup a reply.1 in
      let alarms = follow_alarms F S alarm_id.0 alarm_id.1 in
      let after_fetch =
        Extends-trans _ _ _ (alarm_cursor_grows catchup a reply.1)
          (follow_alarms_grows alarm_id.0 alarm_id.1) in
      let growth =
        Extends-trans _ _ _ (laws.exec_grows api_conn (select_readings_after c) w) after_fetch in
      record {
        cursor = back_id id_of_row c rows;
        kept = refl;
        rows = rows;
        broadcast =
            heard-append (broadcast_readings rows) alarms.0.0
            ∙ rw (heard-broadcast_readings rows, follow_alarms_silent alarm_id.0 alarm_id.1)
                (append-nil (map payload rows));
        covers = λ later asc ext.
            reply_Covers S laws api_conn c w reply.0 refl later asc
              (Extends-trans _ _ _ growth ext);
        grown = growth;
      }

  tick-Followed :
      (catchup : Text) (c : ℤ) (k : Cursors) (w : World)
      → k.last_reading_id ≡ some c
      → let r = tick F S catchup k w in Followed c r.0.0 r.0.1 w r.1
  tick-Followed catchup c k w h =
      subst
        (λ o.
          let r =
            tick F S catchup (record { last_reading_id = o; last_alarm_id = k.last_alarm_id }) w in
          Followed c r.0.0 r.0.1 w r.1)
        (sym h) (tick-at catchup c k.last_alarm_id w)

  ticks-Followed :
      (times : List Text) (c : ℤ) (k : Cursors) (w : World)
      → k.last_reading_id ≡ some c
      → let r = ticks F S times k w in Followed c r.0.0 r.0.1 w r.1
  unfolding ticks heard
  ticks-Followed [] c k w h = record {
    cursor = c;
    kept = h;
    rows = [];
    broadcast = refl;
    covers = λ later asc ext. refl;
    grown = Extends-refl (readings w);
  }
  ticks-Followed (catchup ∷ times) c k w h =
      let one = tick F S catchup k (wait w) in
      let here = tick-Followed catchup c k (wait w) h in
      let others = ticks-Followed times here.cursor one.0.1 one.1 here.kept in
      record {
        cursor = others.cursor;
        kept = others.kept;
        rows = here.rows ++ others.rows;
        broadcast =
            heard-append one.0.0 (ticks F S times one.0.1 one.1).0.0
            ∙ rw (here.broadcast, others.broadcast) (sym (map-append here.rows others.rows));
        covers = λ later asc ext.
            append_assoc here.rows others.rows (rows_after id_of_row others.cursor later)
            ∙ (ap (◌++◌ here.rows) (others.covers later asc ext)
                ∙ here.covers later asc (Extends-trans _ _ _ others.grown ext));
        grown =
            Extends-trans _ _ _ (laws.wait_grows w) (Extends-trans _ _ _ here.grown others.grown);
      }

  -- A server that has a cursor lets its poll timer run out any number of times, while the table grows
  -- and queries may fail. It then has a cursor again, and the readings that the timer broadcast, followed by
  -- those above the new cursor, are exactly the readings above the old one: each once, in order of
  -- id, none lost.
  pub ticks_cover :
      (times : List Text) (c : ℤ) (k : Cursors) (w : World)
      → k.last_reading_id ≡ some c
      → let r = ticks F S times k w in
        (c' : ℤ) × (r.0.1.last_reading_id ≡ some c')
        × (heard r.0.0 ++ map payload (rows_after id_of_row c' (readings r.1))
            ≡ map payload (rows_after id_of_row c (readings r.1)))
  ticks_cover times c k w h =
      let f = ticks-Followed times c k w h in
      let r = ticks F S times k w in
      let left = rows_after id_of_row f.cursor (readings r.1) in
      (
        f.cursor,
        f.kept,
        rw f.broadcast (
            sym (map-append f.rows left)
            ∙ ap (map payload)
                (f.covers (readings r.1) (laws.ascends r.1) (Extends-refl (readings r.1)))),
      )
