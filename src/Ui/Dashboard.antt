-- ===== src/Ui/Dashboard.antt =====
-- How ui/app/main.cpp joins the device model to the offline cache: the restored states of a start, and
-- the slots that readings and metadata reach. QML, windows and logging are left out.
pub mod Offline
pub mod Acks
use forge_sight.Prelude.{none, List, [], ◌∷◌, Text}
use forge_sight.Database.{Run, pure}
use forge_sight.Ui.DeviceModel.{Update, Model, update_device, update_device_meta}
use forge_sight.Ui.DeviceModel.Signals.{on_updates}
use forge_sight.Ui.OfflineCache.{
  CachedDeviceState, Sqlite, OfflineCache, cache, save_device_state, open_cache, flush,
  load_device_states,
}

-- The two objects of main, connected.
pub record Dashboard (D : Type 0) : Type 0 where
  pub model : Model D
  pub cache : OfflineCache D

module _ {D : Type 0} where
  abbrev pub no_devices : Model D
  no_devices = record { devices = []; location = λ dev. none }

  -- The arguments of saveDeviceState, as deviceUpdated passes them.
  abbrev pub state_of : Update D → Text → Text → CachedDeviceState D
  state_of u plant floor = record {
    device_id = u.device_id;
    sensor = u.sensor;
    value = u.value;
    unit = u.unit;
    timestamp = u.timestamp;
    anomaly = u.anomaly;
    plant = plant;
    floor = floor;
  }

  -- The slot of the cache that deviceUpdated is connected to.
  abbrev pub saving : Update D → Text → Text → OfflineCache D → OfflineCache D
  saving u plant floor c = save_device_state (state_of u plant floor) c

  -- The arguments that updateDevice gets for a cached state.
  abbrev pub update_of : CachedDeviceState D → Update D
  update_of t = record {
    device_id = t.device_id;
    sensor = t.sensor;
    value = t.value;
    unit = t.unit;
    timestamp = t.timestamp;
    anomaly = t.anomaly;
  }

  -- The loop over the cached states at the start, when nothing is connected yet.
  unfoldable pub restore : List (CachedDeviceState D) → Model D → Model D
  restore [] m = m
  restore (t ∷ states) m =
      restore states
        (update_device (update_of t) (update_device_meta t.device_id t.plant t.floor m).0).0

  -- readingReceived, from REST or the WebSocket, with what deviceUpdated then does.
  unfoldable pub reading_received : Update D → Dashboard D → Dashboard D
  unfolding on_updates
  reading_received u b =
      let updated = update_device u b.model in
      record { model = updated.0; cache = on_updates saving updated.1 b.cache }

  -- deviceMetaReceived
  unfoldable pub meta_received : Text → Text → Text → Dashboard D → Dashboard D
  unfolding on_updates
  meta_received dev plant floor b =
      let updated = update_device_meta dev plant floor b.model in
      record { model = updated.0; cache = on_updates saving updated.1 b.cache }

module _ {D : Type 0} (S : Sqlite D)
    (walk : List (Text × CachedDeviceState D) → List (Text × CachedDeviceState D)) where
  open S use {World}

  -- Restore the last states from the cache, whether or not it could be opened.
  unfoldable pub restore_from_cache : OfflineCache D → Run World (Dashboard D)
  unfolding restore
  restore_from_cache c w =
      let loaded = load_device_states S walk c w in
      (record { model = restore loaded.0.1 no_devices; cache = loaded.0.0 }, loaded.1)

  unfoldable pub start_dashboard : Text → Run World (Dashboard D)
  unfolding restore_from_cache
  start_dashboard path w =
      let opened = open_cache S walk path cache w in restore_from_cache opened.0.1 opened.1
