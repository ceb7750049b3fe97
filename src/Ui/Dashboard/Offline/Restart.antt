-- ===== src/Ui/Dashboard/Offline/Restart.antt =====
-- The end of a dashboard, whose cache is destroyed, and the start of the next one on the same file.
use forge_sight.Prelude.{
  ◌≡◌, refl, sym, ap, ◌∙◌, subst, inl, inr, Bool, true, false, none, List, [], Text, is_empty,
  Bool-cases, arith,
}
use forge_sight.Ui.DeviceModel.Shown.{shown_in}
use forge_sight.Ui.OfflineCache.{
  CachedDeviceState, Sqlite, OfflineCache, cache, journal_wal, synchronous_normal,
  create_device_states, create_pending_acks, pending_key, write_pending, ensure_schema,
  drop_connection, destroy_cache, open_cache, load_device_states,
}
use forge_sight.Ui.OfflineCache.Hash.{has_separator, hash_find}
use forge_sight.Ui.OfflineCache.Table.{TableLaws, WalkLaws, state_in, over, stored, view}
use forge_sight.Ui.OfflineCache.Reads.{
  IsSound, opened, last_saved, run_events, hash_find-empty, write_pending-Keeps,
}
use forge_sight.Ui.OfflineCache.Reads.LastSaved.{load_device_states-last_saved, run_events-Keeps}
use forge_sight.Ui.Dashboard.{Dashboard, no_devices, restore_from_cache, start_dashboard}
use forge_sight.Ui.Dashboard.Offline.{
  SessionEvent, PlainReadings, reading_in, KeyLaws, session, over-none, restored, to_cache,
  session_cache, session_shown, plain_saves, loaded-OneEach,
}

-- What a restart relies on in SQLite: closing the file keeps the table, opening the same file again
-- finds it, and so do the statements of the schema, whose tables are there.
pub record FileLaws {D : Type 0} (S : Sqlite D) (laws : TableLaws S) (path : Text) : Type 0 where
  pub closes : (w : S.World) → laws.table (S.close_file w) ≡ laws.table w
  pub opens : (w : S.World) → laws.table (S.open_file path w).1 ≡ laws.table w
  pub keeps_wal : (w : S.World) → laws.table (S.run_statement journal_wal w).1 ≡ laws.table w
  pub keeps_sync :
      (w : S.World) → laws.table (S.run_statement synchronous_normal w).1 ≡ laws.table w
  pub keeps_states :
      (w : S.World) → laws.table (S.run_statement create_device_states w).1 ≡ laws.table w
  pub keeps_acks :
      (w : S.World) → laws.table (S.run_statement create_pending_acks w).1 ≡ laws.table w

module _ {D : Type 0} (S : Sqlite D)
    (walk : List (Text × CachedDeviceState D) → List (Text × CachedDeviceState D))
    (laws : TableLaws S) (walks : WalkLaws walk) where
  open S use {World}
  open laws use {table}

  written_out :
      (c : OfflineCache D) (w : World) (k : Text)
      → hash_find k (write_pending S walk (opened c) w).0.pending ≡ none
  unfolding write_pending hash_find
  written_out c w k = elim (Bool-cases (is_empty c.pending)) [
    | inl e ↦ rw e (hash_find-empty k c.pending e)
    | inr e ↦ rw e refl
  ]

  module _ (path : Text) (files : FileLaws S laws path) where
    ensure_schema-table : (w : World) → table (ensure_schema S walk w) ≡ table w
    unfolding ensure_schema
    ensure_schema-table w =
        files.keeps_acks _ ∙ files.keeps_states _ ∙ files.keeps_sync _ ∙ files.keeps_wal w

    drop_connection-table :
        (c : OfflineCache D) (w : World) → table (drop_connection S walk c w) ≡ table w
    drop_connection-table c w = elim (Bool-cases c.valid) [
      | inl e ↦ rw e (files.closes w)
      | inr e ↦ rw e refl
    ]

    -- The destructor leaves in the table what the cache promises.
    destroyed :
        (c : OfflineCache D) (w : World) (d s : Text)
        → has_separator d ≡ false
        → IsSound c
        → stored (table (destroy_cache S walk (opened c) w) d s) ≡ view S walk laws walks c w d s
    unfolding destroy_cache view
    destroyed c w d s plain sound =
        let r = write_pending S walk (opened c) w in
        let k = write_pending-Keeps S walk laws walks c w d s plain sound in
        ap (λ t. stored (t d s)) (drop_connection-table r.0 r.1)
        ∙ ap (λ o. over o (stored (table r.1 d s))) (sym (written_out c w (pending_key d s)))
        ∙ k.shows

    destroyed-view :
        (c : OfflineCache D) (w : World) (d s : Text)
        → has_separator d ≡ false
        → IsSound c
        → c.is_open ≡ true
        → stored (table (destroy_cache S walk c w) d s) ≡ view S walk laws walks c w d s
    unfolding view
    destroyed-view c w d s plain sound ready =
        subst
          (λ (b : Bool).
            stored (table (destroy_cache S walk (record c { is_open = b }) w) d s)
            ≡ view S walk laws walks c w d s)
          (sym ready) (destroyed c w d s plain sound)

    -- A cache that was just opened reads what is in the table.
    opened_reads :
        (w : World) (d s : Text)
        → has_separator d ≡ false
        → (S.open_file path w).0 ≡ true
        → let r = open_cache S walk path cache w in
          state_in d s (load_device_states S walk r.0.1 r.1).0.1 ≡ stored (table w d s)
    unfolding open_cache write_pending view hash_find run_events last_saved
    opened_reads w d s plain opens = rw opens (
        load_device_states-last_saved S walk laws walks []
          (record { valid = true; is_open = true; pending = []; timer = false })
          (ensure_schema S walk (S.open_file path w).1) d s plain tt
          (record { distinct = tt; keyed = λ k t found. ground arith }) refl
        ∙ ap (λ t. stored (t d s)) (ensure_schema-table (S.open_file path w).1 ∙ files.opens w))

    module _ (keys : KeyLaws S) where
      -- The cache of a dashboard is open and sound and agrees with it about a device and sensor, as
      -- where both are empty or the one was restored from the other. Readings and metadata arrive,
      -- and the buffer is written, in any order; no device has U+001F in its name. Then the dashboard
      -- ends, which destroys its cache, and the next one opens the same file with success: it shows
      -- the reading of that device and sensor that the first one showed last.
      pub start_dashboard-session :
          (events : List (SessionEvent D)) (b : Dashboard D) (w : World) (dev sen : Text)
          → has_separator dev ≡ false
          → PlainReadings events
          → IsSound b.cache
          → b.cache.is_open ≡ true
          → shown_in dev sen b.model.devices ≡ reading_in (view S walk laws walks b.cache w dev sen)
          → let r = session S walk events b w in
            let closed = destroy_cache S walk r.0.cache r.1 in
            (S.open_file path closed).0 ≡ true
            → shown_in dev sen (start_dashboard S walk path closed).0.model.devices
              ≡ shown_in dev sen r.0.model.devices
      unfolding start_dashboard restore_from_cache shown_in
      start_dashboard-session events b w dev sen plain h sound ready agrees opens =
          let r = session S walk events b w in
          let closed = destroy_cache S walk r.0.cache r.1 in
          let next = open_cache S walk path cache closed in
          let t = load_device_states S walk next.0.1 next.1 in
          let saves = to_cache S walk events b.model in
          let k =
            run_events-Keeps S walk laws walks saves b.cache w dev sen plain
              (plain_saves S walk events b.model h) sound ready in
          let found =
            destroyed-view (run_events S walk saves b.cache w).0
              (run_events S walk saves b.cache w).1 dev sen plain k.sound k.is_open in
          restored t.0.1 no_devices dev sen (loaded-OneEach S walk keys next.0.1 next.1)
          ∙ over-none (reading_in (state_in dev sen t.0.1))
          ∙ ap reading_in (opened_reads closed dev sen plain opens)
          ∙ ap (λ q. reading_in (stored (table (destroy_cache S walk q.0 q.1) dev sen)))
              (session_cache S walk events b w)
          ∙ ap reading_in (found ∙ k.shows)
          ∙ sym (session_shown S walk events b w dev sen _ agrees)
