-- ===== src/Ui/Dashboard/Acks.antt =====
-- How ui/app/main.cpp joins the REST client, the alarm model and the queue of acknowledgements: what
-- is sent when the WebSocket connects, and what a success does.
use forge_sight.Prelude.{
  ◌≡◌, refl, ap, ◌∙◌, Bool, true, false, not, ◌&&◌, ◌||◌, Option, none, some, List, [], ◌∷◌, ◌++◌,
  map, Text, ℤ, int_eq, arith, if◌then◌else◌,
}
use forge_sight.Database.{Run}
use forge_sight.Ui.AlarmModel.{AlarmEntry, acknowledge}
use forge_sight.Ui.AlarmModel.Rows.{lookup_alarm, marked, lookup-acknowledge}
use forge_sight.Ui.ApiClient.{
  Json, ApiClient, HttpRequest, Waiting, latest_readings, all_alarms, all_devices, alarm_ack,
  ApiSignal, bootstrap, acknowledge_alarm,
}
use forge_sight.Ui.ApiClient.Requests.{start}
use forge_sight.Ui.OfflineCache.{CachedDeviceState, Sqlite, OfflineCache, clear_ack, pending_acks}
use forge_sight.Ui.OfflineCache.Acks.{
  AckQueueLaws, clears, has_ack, asked, last_asked, ack_call, ack_calls, pending_acks-last_asked,
}

-- The client after some calls, with what it signals and sends.
abbrev Started : Type 0 → Type 0
Started D = (ApiClient × List (ApiSignal D)) × List (Waiting × HttpRequest)

module _ {D : Type 0} (J : Json D) where
  -- for (qint64 id : pending) apiClient.acknowledgeAlarm(id)
  unfoldable pub flush_acks : List ℤ → ApiClient → Started D
  flush_acks [] c = ((c, []), [])
  flush_acks (id ∷ ids) c =
      let first = start J (acknowledge_alarm id) c in
      let others = flush_acks ids first.0.0 in
      ((others.0.0, first.0.1 ++ others.0.1), first.1 ++ others.1)

  flush_acks-waiting :
      (ids : List ℤ) (c : ApiClient) → map (λ r. r.0) (flush_acks ids c).1 ≡ map alarm_ack ids
  unfolding flush_acks start
  flush_acks-waiting [] c = refl
  flush_acks-waiting (id ∷ ids) c = ap (◌∷◌ (alarm_ack id)) (flush_acks-waiting ids _)

  module _ (S : Sqlite D)
      (walk : List (Text × CachedDeviceState D) → List (Text × CachedDeviceState D)) where
    open S use {World}

    -- The slot of connectedChanged, by what is_connected tells.
    unfoldable pub connected_changed : Bool → OfflineCache D → ApiClient → Run World (Started D)
    unfolding flush_acks
    connected_changed false cache c w = (((c, []), []), w)
    connected_changed true cache c w =
        let begun = start J bootstrap c in
        let pending = pending_acks S walk cache w in
        let flushed = flush_acks pending.0 begun.0.0 in
        (((flushed.0.0, begun.0.1 ++ flushed.0.1), begun.1 ++ flushed.1), pending.1)

    -- The two slots of alarmAckSucceeded.
    unfoldable pub ack_succeeded :
        ℤ → OfflineCache D → List (AlarmEntry D) → Run World (List (AlarmEntry D))
    ack_succeeded id cache alarms w = ((acknowledge id alarms).0, (clear_ack S walk id cache w).1)

    unfoldable pub acks_succeeded :
        List ℤ → OfflineCache D → List (AlarmEntry D) → Run World (List (AlarmEntry D))
    unfolding ack_succeeded
    acks_succeeded [] cache alarms w = (alarms, w)
    acks_succeeded (id ∷ ids) cache alarms w =
        let next = ack_succeeded id cache alarms w in acks_succeeded ids cache next.0 next.1

    marked_twice :
        (a b : Bool) (o : Option (AlarmEntry D))
        → (if b then marked (if a then marked o else o) else (if a then marked o else o))
          ≡ (if a || b then marked o else o)
    marked_twice true true none = refl
    marked_twice true true (some a) = refl
    marked_twice true false o = refl
    marked_twice false b o = refl

    acks_succeeded-lookup :
        (ids : List ℤ) (cache : OfflineCache D) (alarms : List (AlarmEntry D)) (w : World) (j : ℤ)
        → lookup_alarm j (acks_succeeded ids cache alarms w).0
          ≡ (if has_ack j ids then marked (lookup_alarm j alarms) else lookup_alarm j alarms)
    unfolding acks_succeeded has_ack
    acks_succeeded-lookup [] cache alarms w j = refl
    acks_succeeded-lookup (id ∷ ids) cache alarms w j =
        acks_succeeded-lookup ids cache (acknowledge id alarms).0 (clear_ack S walk id cache w).1 j
        ∙ ap (λ o. if has_ack j ids then marked o else o) (lookup-acknowledge id j alarms)
        ∙ marked_twice (int_eq id j) (has_ack j ids) (lookup_alarm j alarms)

    acks_succeeded-calls :
        (ids : List ℤ) (cache : OfflineCache D) (alarms : List (AlarmEntry D)) (w : World)
        → (acks_succeeded ids cache alarms w).1 ≡ ack_calls S walk (map clears ids) cache w
    unfolding acks_succeeded ack_calls ack_call
    acks_succeeded-calls [] cache alarms w = refl
    acks_succeeded-calls (id ∷ ids) cache alarms w = acks_succeeded-calls ids cache _ _

    last_asked-clears :
        (ids : List ℤ) (j : ℤ) (old : Bool)
        → last_asked j (map clears ids) old ≡ (old && not (has_ack j ids))
    unfolding last_asked has_ack
    last_asked-clears [] j old = ground arith
    last_asked-clears (id ∷ ids) j old =
        last_asked-clears ids j (asked j (clears id) old) ∙ ground arith

    connected_changed-sends :
        (cache : OfflineCache D) (c : ApiClient) (w : World)
        → map (λ r. r.0) (connected_changed true cache c w).0.1
          ≡ latest_readings
            ∷ all_alarms
            ∷ all_devices
            ∷ map alarm_ack (pending_acks S walk cache w).0
    unfolding connected_changed start
    connected_changed-sends cache c w =
        ap (λ ids. latest_readings ∷ all_alarms ∷ all_devices ∷ ids)
          (flush_acks-waiting (pending_acks S walk cache w).0 _)

    module _ (laws : AckQueueLaws S) where
      acks_succeeded-pending :
          (ids : List ℤ) (cache : OfflineCache D) (alarms : List (AlarmEntry D)) (w : World) (j : ℤ)
          → cache.is_open ≡ true
          → has_ack j (pending_acks S walk cache (acks_succeeded ids cache alarms w).1).0
            ≡ (has_ack j (pending_acks S walk cache w).0 && not (has_ack j ids))
      acks_succeeded-pending ids cache alarms w j o =
          ap (λ w. has_ack j (pending_acks S walk cache w).0)
            (acks_succeeded-calls ids cache alarms w)
          ∙ pending_acks-last_asked S walk laws (map clears ids) cache w j o
          ∙ last_asked-clears ids j (has_ack j (pending_acks S walk cache w).0)

      -- When the socket connects, the client asks for the readings, the alarms and the devices, and
      -- then sends each acknowledgement that waits, in the queue's order. If the cache is open, then
      -- after any successes an acknowledgement waits if it did before and none of them was for it,
      -- and exactly the alarms of the successes are marked, all others staying as they were.
      pub acks_synced :
          (cache : OfflineCache D) (c : ApiClient) (alarms : List (AlarmEntry D)) (w : World)
          → cache.is_open ≡ true
          → (map (λ r. r.0) (connected_changed true cache c w).0.1
              ≡ latest_readings
                ∷ all_alarms
                ∷ all_devices
                ∷ map alarm_ack (pending_acks S walk cache w).0)
            × ((ids : List ℤ) (j : ℤ)
                → let r = acks_succeeded ids cache alarms w in
                  (has_ack j (pending_acks S walk cache r.1).0
                    ≡ (has_ack j (pending_acks S walk cache w).0 && not (has_ack j ids)))
                  × (lookup_alarm j r.0 ≡ (
                      if has_ack j ids
                      then marked (lookup_alarm j alarms)
                      else lookup_alarm j alarms)))
      acks_synced cache c alarms w o = (
        connected_changed-sends cache c w,
        λ ids j. (
          acks_succeeded-pending ids cache alarms w j o,
          acks_succeeded-lookup ids cache alarms w j,
        ),
      )
