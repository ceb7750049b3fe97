-- ===== src/Api/Polling/Bridged.antt =====
-- The poll timer and the MQTT bridge beside each other.
use forge_sight.Prelude.{
  ◌≡◌, refl, sym, ap, subst, ◌∙◌, some, List, [], ◌∷◌, ◌++◌, map, Text, ℤ, rows_after, Doubles,
}
use forge_sight.Ingestion.Reading.{Reading}
use forge_sight.Ingestion.ReadingParser.{Json, ParseResult, reading, error, thrown, parse}
use forge_sight.Database.{Server}
use forge_sight.Database.Laws.{ReadingsLaws}
use forge_sight.Database.Follow.{id_of_row}
use forge_sight.Api.Polling.{
  Cursors, Message, Broadcast, polled, bridged, ServerEvent, polls, hears, tick, ticks,
  server_events,
}
use forge_sight.Api.Polling.Cover.{heard, payload, ticks_cover}

module _ {D : Type 0} where
  -- The messages of the poll timer, and the readings of the bridge.
  unfoldable pub by_timer : List (Broadcast D) → List (Message D)
  by_timer [] = []
  by_timer (polled m ∷ sent) = m ∷ by_timer sent
  by_timer (bridged r ∷ sent) = by_timer sent

  unfoldable pub by_bridge : List (Broadcast D) → List (Reading D)
  by_bridge [] = []
  by_bridge (polled m ∷ sent) = by_bridge sent
  by_bridge (bridged r ∷ sent) = r ∷ by_bridge sent

  by_timer-polled :
      (ms : List (Message D)) (sent : List (Broadcast D))
      → by_timer (map polled ms ++ sent) ≡ ms ++ by_timer sent
  unfolding by_timer
  by_timer-polled [] sent = refl
  by_timer-polled (m ∷ ms) sent = ap (◌∷◌ m) (by_timer-polled ms sent)

  by_bridge-polled :
      (ms : List (Message D)) (sent : List (Broadcast D))
      → by_bridge (map polled ms ++ sent) ≡ by_bridge sent
  unfolding by_bridge
  by_bridge-polled [] sent = refl
  by_bridge-polled (m ∷ ms) sent = by_bridge-polled ms sent

-- The times at which the timer runs out, and the readings of the payloads that the parser accepts, up
-- to a payload for which it throws.
module _ {D : Type 0} (J : Json D) where
  unfoldable pub times_of : List ServerEvent → List Text
  times_of [] = []
  times_of (polls catchup ∷ events) = catchup ∷ times_of events
  times_of (hears body ∷ events) = elim (parse J body) [ thrown ↦ [] | _ ↦ times_of events ]

  unfoldable pub accepted_of : List ServerEvent → List (Reading D)
  accepted_of [] = []
  accepted_of (polls catchup ∷ events) = accepted_of events
  accepted_of (hears body ∷ events) = elim (parse J body) [
    | thrown ↦ []
    | error reason ↦ accepted_of events
    | reading r ↦ r ∷ accepted_of events
  ]

module _ (F : Doubles) (S : Server (F.Double)) (J : Json (F.Double)) where
  open F use {Double}
  open S use {World, wait}

  record Split (events : List ServerEvent) (k : Cursors) (w : World)
      (r : (List (Broadcast Double) × Cursors) × World) : Type 0 where
    timer : ((by_timer r.0.0, r.0.1), r.1) ≡ ticks F S (times_of J events) k w
    bridge : by_bridge r.0.0 ≡ accepted_of J events

  heard_payload :
      (body : Text) (events : List ServerEvent) (k : Cursors) (w : World) (p : ParseResult Double)
      → parse J body ≡ p
      → Split events k w (server_events F S J events k w)
      → Split (hears body ∷ events) k w (server_events F S J (hears body ∷ events) k w)
  unfolding server_events ticks times_of accepted_of by_timer by_bridge
  heard_payload body events k w (reading r) e v = record {
    timer = rw (server_events, times_of, e) v.timer;
    bridge = rw (server_events, accepted_of, e) (ap (◌∷◌ r) v.bridge);
  }
  heard_payload body events k w (error reason) e v = record {
    timer = rw (server_events, times_of, e) v.timer;
    bridge = rw (server_events, accepted_of, e) v.bridge;
  }
  heard_payload body events k w thrown e v = record {
    timer = rw (server_events, times_of, e) refl;
    bridge = rw (server_events, accepted_of, e) refl;
  }

  server_events-Split :
      (events : List ServerEvent) (k : Cursors) (w : World)
      → Split events k w (server_events F S J events k w)
  unfolding server_events ticks times_of accepted_of by_timer by_bridge
  server_events-Split [] k w = record { timer = refl; bridge = refl }
  server_events-Split (polls catchup ∷ events) k w =
      let first = tick F S catchup k (wait w) in
      let v = server_events-Split events first.0.1 first.1 in
      let others = server_events F S J events first.0.1 first.1 in
      record {
        timer =
            ap (λ l. ((l, others.0.1), others.1)) (by_timer-polled first.0.0 others.0.0)
            ∙ ap (λ r. ((first.0.0 ++ r.0.0, r.0.1), r.1)) v.timer;
        bridge = by_bridge-polled first.0.0 others.0.0 ∙ v.bridge;
      }
  server_events-Split (hears body ∷ events) k w =
      heard_payload body events k w (parse J body) refl (server_events-Split events k w)

  -- In any order of timer and bridge, while the table grows and queries may fail: a server that had a
  -- cursor has one again, and the readings that the timer broadcast, followed by those above the new
  -- cursor, are exactly the readings above the old one, each once and in order of id; beside these the
  -- bridge broadcast exactly the readings of the payloads that the parser accepts, in order of
  -- arrival, up to one for which the JSON library throws.
  pub server_events_cover :
      (laws : ReadingsLaws S) (events : List ServerEvent) (c : ℤ) (k : Cursors) (w : World)
      → k.last_reading_id ≡ some c
      → let r = server_events F S J events k w in
        (c' : ℤ) × (r.0.1.last_reading_id ≡ some c')
        × (heard (by_timer r.0.0) ++ map payload (rows_after id_of_row c' (laws.readings r.1))
            ≡ map payload (rows_after id_of_row c (laws.readings r.1)))
        × (by_bridge r.0.0 ≡ accepted_of J events)
  server_events_cover laws events c k w h =
      let r = server_events F S J events k w in
      let v = server_events-Split events k w in
      let (c', kept, covers) =
        subst
          (λ (t : (List (Message Double) × Cursors) × World).
            (c' : ℤ) × (t.0.1.last_reading_id ≡ some c')
            × (heard t.0.0 ++ map payload (rows_after id_of_row c' (laws.readings t.1))
                ≡ map payload (rows_after id_of_row c (laws.readings t.1))))
          (sym v.timer) (ticks_cover F S laws (times_of J events) c k w h) in
      (c', kept, covers, v.bridge)
