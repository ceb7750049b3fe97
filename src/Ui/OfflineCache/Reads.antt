-- ===== src/Ui/OfflineCache/Reads.antt =====
-- A reader of the cache gets what was saved last, whenever the buffer was written.
pub mod LastSaved
use forge_sight.Prelude.{
  ◌≡◌, refl, sym, ap, ◌∙◌, subst, inl, inr, Bool, true, false, ◌&&◌, Option, none, some, List, [],
  ◌∷◌, Text, text_eq, is_empty, Bool-cases, arith, if◌then◌else◌,
}
use forge_sight.Database.{Run}
use forge_sight.Ui.OfflineCache.{
  CachedDeviceState, Sqlite, OfflineCache, transaction, commit, pending_key, save_device_state,
  upsert_all, write_pending, flush, load_device_states,
}
use forge_sight.Ui.OfflineCache.Hash.{
  has_separator, hash_find, DistinctKeys, Keyed, hash_find-insert, hash_insert-DistinctKeys,
  hash_insert-Keyed, text_eq-pending_key,
}
use forge_sight.Ui.OfflineCache.Table.{
  TableLaws, WalkLaws, state_in, state_in-map, stored, over, view, upsert_all-view,
}

-- What happens to a cache that is open: a save, a flush (by a call or by the timer), a read.
pub data CacheEvent (D : Type 0) : Type 0 where
  saves : CachedDeviceState D → CacheEvent D
  flushes loads : CacheEvent D

module _ {D : Type 0} where
  -- The hash of the cache has one entry for a key, under the key of its state.
  pub record IsSound (c : OfflineCache D) : Type 0 where
    pub distinct : DistinctKeys c.pending
    pub keyed : Keyed c.pending

  -- No event saves a state of a device with the separator in its name.
  abbrev pub PlainEvents : List (CacheEvent D) → Type 0
  PlainEvents [] = Unit {0}
  PlainEvents (saves s ∷ events) = (has_separator s.device_id ≡ false) × PlainEvents events
  PlainEvents (e ∷ events) = PlainEvents events

  pub PlainEvents-split :
      (e : CacheEvent D) (events : List (CacheEvent D))
      → PlainEvents (e ∷ events)
      → PlainEvents (e ∷ []) × PlainEvents events
  PlainEvents-split (saves s) events p = ((p.0, tt), p.1)
  PlainEvents-split flushes events p = (tt, p)
  PlainEvents-split loads events p = (tt, p)

  abbrev pub saved :
      Text → Text → CacheEvent D → Option (CachedDeviceState D) → Option (CachedDeviceState D)
  saved d s (saves t) old = if text_eq t.device_id d && text_eq t.sensor s then some t else old
  saved d s flushes old = old
  saved d s loads old = old

  -- The state that the events save last for a device and sensor, or else the old one.
  unfoldable pub last_saved :
      Text
      → Text
      → List (CacheEvent D)
      → Option (CachedDeviceState D)
      → Option (CachedDeviceState D)
  last_saved d s [] old = old
  last_saved d s (e ∷ events) old = last_saved d s events (saved d s e old)

  abbrev pub opened : OfflineCache D → OfflineCache D
  opened c = record c { is_open = true }

  empty-IsSound : (c : OfflineCache D) → IsSound (record c { pending = [] })
  unfolding hash_find
  empty-IsSound c = record { distinct = tt; keyed = λ k s found. ground arith }

  pub hash_find-empty :
      (k : Text) (entries : List (Text × CachedDeviceState D))
      → is_empty entries ≡ true
      → hash_find k entries ≡ none
  unfolding hash_find
  hash_find-empty k [] h = refl
  hash_find-empty k (e ∷ entries) h = ground arith

module _ {D : Type 0} (S : Sqlite D)
    (walk : List (Text × CachedDeviceState D) → List (Text × CachedDeviceState D)) where
  open S use {World}

  unfoldable pub event : CacheEvent D → OfflineCache D → Run World (OfflineCache D)
  event (saves s) c w = (save_device_state s c, w)
  event flushes c w = flush S walk c w
  event loads c w = let (loaded, w) = load_device_states S walk c w in (loaded.0, w)

  unfoldable pub run_events : List (CacheEvent D) → OfflineCache D → Run World (OfflineCache D)
  unfolding event
  run_events [] c w = (c, w)
  run_events (e ∷ events) c w = let (c, w) = event e c w in run_events events c w

module _ {D : Type 0} (S : Sqlite D)
    (walk : List (Text × CachedDeviceState D) → List (Text × CachedDeviceState D))
    (laws : TableLaws S) (walks : WalkLaws walk) where
  open S use {World, run_statement}
  open laws use {table}

  -- A step of an open cache keeps it sound and open, and the map that it promises is `now`.
  pub record Keeps (c : OfflineCache D) (w : World) (d s : Text)
      (now : Option (CachedDeviceState D)) : Type 0 where
    pub sound : IsSound c
    pub is_open : c.is_open ≡ true
    pub shows : view S walk laws walks c w d s ≡ now

  pending_written :
      (c : OfflineCache D) (w : World) (d s : Text)
      → has_separator d ≡ false
      → IsSound c
      → let begun = (run_statement transaction w).1 in
        let done = upsert_all S walk (walk c.pending) begun in
        stored (table (run_statement commit done).1 d s)
        ≡ over (hash_find (pending_key d s) c.pending) (stored (table w d s))
  pending_written c w d s plain h =
      let begun = (run_statement transaction w).1 in
      ap (λ t. stored (t d s)) (laws.commits (upsert_all S walk (walk c.pending) begun))
      ∙ upsert_all-view S walk laws walks (walk c.pending) begun d s
          (walks.visits_once c.pending h.distinct)
          (λ k t found. h.keyed k t (sym (walks.visits c.pending k h.distinct) ∙ found)) plain
      ∙ rw (walks.visits c.pending (pending_key d s) h.distinct, laws.transacts w) refl

  pub write_pending-Keeps :
      (c : OfflineCache D) (w : World) (d s : Text)
      → has_separator d ≡ false
      → IsSound c
      → let r = write_pending S walk (opened c) w in
        Keeps r.0 r.1 d s (view S walk laws walks c w d s)
  unfolding write_pending view hash_find
  write_pending-Keeps c w d s plain h = elim (Bool-cases (is_empty c.pending)) [
    | inl e ↦ rw e record {
      sound = record { distinct = h.distinct; keyed = h.keyed };
      is_open = refl;
      shows = refl;
    }
    | inr e ↦ rw e record {
      sound = empty-IsSound (opened c);
      is_open = refl;
      shows = pending_written c w d s plain h;
    }
  ]
