-- ===== src/Ui/Dashboard/Offline.antt =====
-- A session of a dashboard: the events of ui/app/main.cpp that reach its devices and its cache.
pub mod Restart
use forge_sight.Prelude.{
  ◌≡◌, refl, sym, ap, ◌∙◌, inl, inr, true, false, Option, none, some, List, [], ◌∷◌, map, Text,
  Bool-cases, if◌then◌else◌,
}
use forge_sight.Database.{Run}
use forge_sight.Ui.DeviceModel.{Update, Model, update_device, update_device_meta}
use forge_sight.Ui.DeviceModel.Signals.{
  place_of, on_updates-update_device, on_updates-update_device_meta,
}
use forge_sight.Ui.DeviceModel.Shown.{
  shown_in, is_for, both_names, shown_in-update_device, shown_in-update_device_meta,
}
use forge_sight.Ui.OfflineCache.{
  CachedDeviceState, Sqlite, OfflineCache, select_states, rows_of, state_of_row, flush,
  load_device_states,
}
use forge_sight.Ui.OfflineCache.Hash.{has_separator}
use forge_sight.Ui.OfflineCache.Table.{TableLaws, WalkLaws, state_in, over, view}
use forge_sight.Ui.OfflineCache.Reads.{
  CacheEvent, saves, flushes, IsSound, PlainEvents, last_saved, event, run_events,
}
use forge_sight.Ui.OfflineCache.Reads.LastSaved.{load_device_states-last_saved}
use forge_sight.Ui.Dashboard.{
  Dashboard, no_devices, state_of, saving, update_of, restore, reading_received, meta_received,
  restore_from_cache,
}

over-none : {A : Type 0} → (o : Option A) → over o none ≡ o
over-none none = refl
over-none (some a) = refl

-- What happens to a dashboard: a reading, metadata of a device, a write of the cache's buffer.
pub data SessionEvent (D : Type 0) : Type 0 where
  reads : Update D → SessionEvent D
  locates : Text → Text → Text → SessionEvent D
  writes : SessionEvent D

module _ {D : Type 0} where
  -- No reading is of a device with the separator of the cache's keys in its name.
  abbrev pub PlainReadings : List (SessionEvent D) → Type 0
  PlainReadings [] = Unit {0}
  PlainReadings (reads u ∷ events) = (has_separator u.device_id ≡ false) × PlainReadings events
  PlainReadings (e ∷ events) = PlainReadings events

  abbrev pub reading_in : Option (CachedDeviceState D) → Option (Update D)
  reading_in none = none
  reading_in (some t) = some (update_of t)

  -- No two states are of the same device and sensor.
  abbrev pub OneEach : List (CachedDeviceState D) → Type 0
  OneEach [] = Unit {0}
  OneEach (t ∷ states) = (state_in t.device_id t.sensor states ≡ none) × OneEach states

  restored :
      (states : List (CachedDeviceState D)) (m : Model D) (dev sen : Text)
      → OneEach states
      → shown_in dev sen (restore states m).devices
        ≡ over (reading_in (state_in dev sen states)) (shown_in dev sen m.devices)
  unfolding restore state_in
  restored [] m dev sen h = refl
  restored (t ∷ states) m dev sen h =
      let placed = (update_device_meta t.device_id t.plant t.floor m).0 in
      restored states (update_device (update_of t) placed).0 dev sen h.1
      ∙ ap (over (reading_in (state_in dev sen states))) (
          shown_in-update_device dev sen (update_of t) placed
          ∙ ap (λ o. if is_for dev sen (update_of t) then some (update_of t) else o)
              (shown_in-update_device_meta dev sen t.device_id t.plant t.floor m))
      ∙ elim (Bool-cases (is_for dev sen (update_of t))) [
        | inl e ↦
            let (own_dev, own_sen) = both_names t.device_id dev t.sensor sen e in
            let gone : state_in dev sen states ≡ none =
              ap (λ n. state_in n sen states) (sym own_dev)
              ∙ ap (λ n. state_in t.device_id n states) (sym own_sen)
              ∙ h.0 in
            rw (gone, e) refl
        | inr e ↦ rw e refl
      ]

-- The table has a primary key: no answer holds two rows of one device and sensor.
pub record KeyLaws {D : Type 0} (S : Sqlite D) : Type 0 where
  pub one_each :
      (w : S.World) → OneEach (map state_of_row (rows_of (S.run_statement select_states w).0))

module _ {D : Type 0} (S : Sqlite D)
    (walk : List (Text × CachedDeviceState D) → List (Text × CachedDeviceState D)) where
  open S use {World}

  unfoldable pub session_event : SessionEvent D → Dashboard D → Run World (Dashboard D)
  unfolding reading_received meta_received
  session_event (reads u) b w = (reading_received u b, w)
  session_event (locates dev plant floor) b w = (meta_received dev plant floor b, w)
  session_event writes b w =
      let written = flush S walk b.cache w in (record b { cache = written.0 }, written.1)

  unfoldable pub session : List (SessionEvent D) → Dashboard D → Run World (Dashboard D)
  unfolding session_event
  session [] b w = (b, w)
  session (e ∷ events) b w = let next = session_event e b w in session events next.0 next.1

  -- What a session does to the cache.
  abbrev to_cache : List (SessionEvent D) → Model D → List (CacheEvent D)
  to_cache [] m = []
  to_cache (reads u ∷ events) m =
      saves (state_of u (place_of u m).0 (place_of u m).1) ∷ to_cache events (update_device u m).0
  to_cache (locates dev plant floor ∷ events) m =
      to_cache events (update_device_meta dev plant floor m).0
  to_cache (writes ∷ events) m = flushes ∷ to_cache events m

  session_cache :
      (events : List (SessionEvent D)) (b : Dashboard D) (w : World)
      → ((session events b w).0.cache, (session events b w).1)
        ≡ run_events S walk (to_cache events b.model) b.cache w
  unfolding session run_events event
  session_cache [] b w = refl
  session_cache (reads u ∷ events) b w =
      session_cache events (reading_received u b) w
      ∙ ap (λ c. run_events S walk (to_cache events (update_device u b.model).0) c w)
          (on_updates-update_device saving u b.model b.cache)
  session_cache (locates dev plant floor ∷ events) b w =
      session_cache events (meta_received dev plant floor b) w
      ∙ ap
          (λ c.
            run_events S walk (to_cache events (update_device_meta dev plant floor b.model).0) c w)
          (on_updates-update_device_meta saving dev plant floor b.model b.cache)
  session_cache (writes ∷ events) b w =
      session_cache events (record b { cache = (flush S walk b.cache w).0 })
        (flush S walk b.cache w).1

  shown_after :
      (u : Update D) (m : Model D) (dev sen : Text) (t : CachedDeviceState D)
      (old : Option (CachedDeviceState D))
      → update_of t ≡ u
      → shown_in dev sen m.devices ≡ reading_in old
      → shown_in dev sen (update_device u m).0.devices
        ≡ reading_in (if is_for dev sen u then some t else old)
  shown_after u m dev sen t old own h =
      shown_in-update_device dev sen u m
      ∙ elim (Bool-cases (is_for dev sen u)) [ inl e ↦ rw e (ap some (sym own)) | inr e ↦ rw e h ]

  session_shown :
      (events : List (SessionEvent D)) (b : Dashboard D) (w : World) (dev sen : Text)
      (old : Option (CachedDeviceState D))
      → shown_in dev sen b.model.devices ≡ reading_in old
      → shown_in dev sen (session events b w).0.model.devices
        ≡ reading_in (last_saved dev sen (to_cache events b.model) old)
  unfolding session last_saved
  session_shown [] b w dev sen old h = h
  session_shown (reads u ∷ events) b w dev sen old h =
      let t = state_of u (place_of u b.model).0 (place_of u b.model).1 in
      session_shown events (reading_received u b) w dev sen
        (if is_for dev sen u then some t else old) (shown_after u b.model dev sen t old refl h)
  session_shown (locates at plant floor ∷ events) b w dev sen old h =
      session_shown events (meta_received at plant floor b) w dev sen old
        (shown_in-update_device_meta dev sen at plant floor b.model ∙ h)
  session_shown (writes ∷ events) b w dev sen old h =
      session_shown events (record b { cache = (flush S walk b.cache w).0 })
        (flush S walk b.cache w).1 dev sen old h

  plain_saves :
      (events : List (SessionEvent D)) (m : Model D)
      → PlainReadings events
      → PlainEvents (to_cache events m)
  plain_saves [] m h = tt
  plain_saves (reads u ∷ events) m h = (h.0, plain_saves events (update_device u m).0 h.1)
  plain_saves (locates dev plant floor ∷ events) m h =
      plain_saves events (update_device_meta dev plant floor m).0 h
  plain_saves (writes ∷ events) m h = plain_saves events m h

  module _ (keys : KeyLaws S) where
    loaded-OneEach : (c : OfflineCache D) (w : World) → OneEach (load_device_states S walk c w).0.1
    unfolding load_device_states
    loaded-OneEach c w = elim (Bool-cases c.is_open) [
      | inl e ↦ rw e (keys.one_each _)
      | inr e ↦ rw e tt
    ]
