-- ===== src/Ui/OfflineCache/Reads/LastSaved.antt =====
-- What a read of the cache returns after a run of events.
use forge_sight.Prelude.{
  ◌≡◌, refl, sym, ap, ◌∙◌, subst, inl, inr, Bool, true, false, Option, none, List, [], ◌∷◌, Text,
  is_empty, Bool-cases, arith,
}
use forge_sight.Ui.OfflineCache.{
  CachedDeviceState, Sqlite, OfflineCache, pending_key, save_device_state, write_pending, flush,
  load_device_states,
}
use forge_sight.Ui.OfflineCache.Hash.{
  has_separator, hash_find, hash_find-insert, hash_insert-DistinctKeys, hash_insert-Keyed,
  text_eq-pending_key,
}
use forge_sight.Ui.OfflineCache.Table.{
  TableLaws, WalkLaws, state_in, state_in-map, stored, over, view,
}
use forge_sight.Ui.OfflineCache.Reads.{
  CacheEvent, saves, flushes, loads, IsSound, PlainEvents, PlainEvents-split, saved, last_saved,
  opened, hash_find-empty, event, run_events, Keeps, write_pending-Keeps,
}

module _ {D : Type 0} (S : Sqlite D)
    (walk : List (Text × CachedDeviceState D) → List (Text × CachedDeviceState D))
    (laws : TableLaws S) (walks : WalkLaws walk) where
  open S use {World, run_statement}
  open laws use {table}

  write_pending-empty :
      (c : OfflineCache D) (w : World) (k : Text)
      → hash_find k (write_pending S walk (opened c) w).0.pending ≡ none
  unfolding write_pending hash_find
  write_pending-empty c w k = elim (Bool-cases (is_empty c.pending)) [
    | inl e ↦ rw e (hash_find-empty k c.pending e)
    | inr e ↦ rw e refl
  ]

  event_ready-Keeps :
      (e : CacheEvent D) (c : OfflineCache D) (w : World) (d s : Text)
      → has_separator d ≡ false
      → PlainEvents (e ∷ [])
      → IsSound c
      → let r = event S walk e (opened c) w in
        Keeps S walk laws walks r.0 r.1 d s (saved d s e (view S walk laws walks c w d s))
  unfolding event save_device_state flush load_device_states view
  event_ready-Keeps (saves t) c w d s plain p h = record {
    sound = record {
      distinct = hash_insert-DistinctKeys _ t c.pending h.distinct;
      keyed = hash_insert-Keyed t c.pending p.0 h.keyed;
    };
    is_open = refl;
    shows =
        rw
          (
            hash_find-insert (pending_key t.device_id t.sensor) (pending_key d s) t c.pending,
            text_eq-pending_key t.device_id d t.sensor s p.0 plain,
          )
          ground arith;
  }
  event_ready-Keeps flushes c w d s plain p h =
      write_pending-Keeps S walk laws walks (record c { timer = false }) w d s plain
        record { distinct = h.distinct; keyed = h.keyed }
  event_ready-Keeps loads c w d s plain p h =
      let k = write_pending-Keeps S walk laws walks c w d s plain h in
      record {
        sound = k.sound;
        is_open = k.is_open;
        shows =
            ap
              (λ t.
                over (hash_find (pending_key d s) (write_pending S walk (opened c) w).0.pending)
                  (stored (t d s)))
              (laws.reads (write_pending S walk (opened c) w).1)
            ∙ k.shows;
      }

  event-Keeps :
      (e : CacheEvent D) (c : OfflineCache D) (w : World) (d s : Text)
      → has_separator d ≡ false
      → PlainEvents (e ∷ [])
      → IsSound c
      → c.is_open ≡ true
      → let r = event S walk e c w in
        Keeps S walk laws walks r.0 r.1 d s (saved d s e (view S walk laws walks c w d s))
  unfolding view
  event-Keeps e c w d s plain p h o =
      subst
        (λ (b : Bool).
          let r = event S walk e (record c { is_open = b }) w in
          Keeps S walk laws walks r.0 r.1 d s (saved d s e (view S walk laws walks c w d s)))
        (sym o) (event_ready-Keeps e c w d s plain p h)

  loaded_ready-view :
      (c : OfflineCache D) (w : World) (d s : Text)
      → has_separator d ≡ false
      → IsSound c
      → state_in d s (load_device_states S walk (opened c) w).0.1 ≡ view S walk laws walks c w d s
  unfolding load_device_states view
  loaded_ready-view c w d s plain h =
      let k = write_pending-Keeps S walk laws walks c w d s plain h in
      state_in-map d s _
      ∙ ap stored (laws.selects (write_pending S walk (opened c) w).1 d s)
      ∙ ap (λ o. over o (stored (table (write_pending S walk (opened c) w).1 d s)))
          (sym (write_pending-empty c w (pending_key d s)))
      ∙ k.shows

  loaded-view :
      (c : OfflineCache D) (w : World) (d s : Text)
      → has_separator d ≡ false
      → IsSound c
      → c.is_open ≡ true
      → state_in d s (load_device_states S walk c w).0.1 ≡ view S walk laws walks c w d s
  unfolding view
  loaded-view c w d s plain h o =
      subst
        (λ (b : Bool).
          state_in d s (load_device_states S walk (record c { is_open = b }) w).0.1
          ≡ view S walk laws walks c w d s)
        (sym o) (loaded_ready-view c w d s plain h)

  pub run_events-Keeps :
      (events : List (CacheEvent D)) (c : OfflineCache D) (w : World) (d s : Text)
      → has_separator d ≡ false
      → PlainEvents events
      → IsSound c
      → c.is_open ≡ true
      → let r = run_events S walk events c w in
        Keeps S walk laws walks r.0 r.1 d s (last_saved d s events (view S walk laws walks c w d s))
  unfolding run_events last_saved
  run_events-Keeps [] c w d s plain p h o = record { sound = h; is_open = o; shows = refl }
  run_events-Keeps (e ∷ events) c w d s plain p h o =
      let (now, later) = PlainEvents-split e events p in
      let k = event-Keeps e c w d s plain now h o in
      let (c, w) = event S walk e c w in
      subst
        (λ (now : Option (CachedDeviceState D)).
          let r = run_events S walk events c w in
          Keeps S walk laws walks r.0 r.1 d s (last_saved d s events now))
        k.shows (run_events-Keeps events c w d s plain later k.sound k.is_open)

  -- A cache is open and its buffer is sound, as after `open`. Whatever states are saved, whenever the
  -- buffer is written in between and in whatever order it is walked, a read then returns for a device
  -- and sensor the state that was saved last, or else what the cache had at first. The names of the
  -- devices must be without U+001F, which joins the two parts of a key.
  pub load_device_states-last_saved :
      (events : List (CacheEvent D)) (c : OfflineCache D) (w : World) (d s : Text)
      → has_separator d ≡ false
      → PlainEvents events
      → IsSound c
      → c.is_open ≡ true
      → let r = run_events S walk events c w in
        state_in d s (load_device_states S walk r.0 r.1).0.1
        ≡ last_saved d s events (view S walk laws walks c w d s)
  load_device_states-last_saved events c w d s plain p h o =
      let k = run_events-Keeps events c w d s plain p h o in
      let (c, w) = run_events S walk events c w in
      loaded-view c w d s plain k.sound k.is_open ∙ k.shows
