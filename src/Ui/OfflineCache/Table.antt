-- ===== src/Ui/OfflineCache/Table.antt =====
-- The table device_states, and the map that the cache and the table make together: a state that waits
-- to be written hides the row of its device and sensor.
use forge_sight.Prelude.{
  ◌≡◌, refl, sym, ap, ◌∙◌, inl, inr, false, ◌&&◌, Option, none, some, List, [], ◌∷◌, map, Text,
  text_eq, text_eq_iff, text_eq_refl, Bool-cases, arith, if◌then◌else◌,
}
use forge_sight.Ui.OfflineCache.{
  CachedDeviceState, StateRow, Sqlite, OfflineCache, transaction, commit, upsert_state,
  select_states, pending_key, row_of_state, state_of_row, rows_of, upsert_all,
}
use forge_sight.Ui.OfflineCache.Hash.{
  has_separator, hash_find, DistinctKeys, Keyed, Keyed-tail, text_eq-pending_key,
}

-- The first answer, or the second where there is none.
abbrev pub over {ℓ} : {A : Type ℓ} → Option A → Option A → Option A
over none o = o
over (some a) o = some a

module _ {D : Type 0} where
  unfoldable pub row_in : Text → Text → List (StateRow D) → Option (StateRow D)
  row_in d s [] = none
  row_in d s (r ∷ rows) =
      if text_eq r.device_id d && text_eq r.sensor s then some r else row_in d s rows

  unfoldable pub state_in : Text → Text → List (CachedDeviceState D) → Option (CachedDeviceState D)
  state_in d s [] = none
  state_in d s (t ∷ states) =
      if text_eq t.device_id d && text_eq t.sensor s then some t else state_in d s states

  abbrev pub stored : Option (StateRow D) → Option (CachedDeviceState D)
  stored none = none
  stored (some r) = some (state_of_row r)

  state_of_row-row_of_state : (s : CachedDeviceState D) → state_of_row (row_of_state s) ≡ s
  unfolding state_of_row row_of_state
  state_of_row-row_of_state s = ground arith

  pub state_in-map :
      (d s : Text) (rows : List (StateRow D))
      → state_in d s (map state_of_row rows) ≡ stored (row_in d s rows)
  unfolding state_in row_in state_of_row
  state_in-map d s [] = refl
  state_in-map d s (r ∷ rows) = ground (arith, state_in-map d s rows)

-- What the cache relies on in SQLite while its file is open and no statement fails: the table has at
-- most one row for a device and sensor, an upsert writes that row, and a query reads the table.
pub record TableLaws {D : Type 0} (S : Sqlite D) : Type 0 where
  pub table : S.World → Text → Text → Option (StateRow D)
  pub transacts : (w : S.World) → table (S.run_statement transaction w).1 ≡ table w
  pub commits : (w : S.World) → table (S.run_statement commit w).1 ≡ table w
  pub upserts :
      (r : StateRow D) (w : S.World) (d s : Text)
      → table (S.run_statement (upsert_state r) w).1 d s
        ≡ (if text_eq r.device_id d && text_eq r.sensor s then some r else table w d s)
  pub selects :
      (w : S.World) (d s : Text)
      → row_in d s (rows_of (S.run_statement select_states w).0) ≡ table w d s
  pub reads : (w : S.World) → table (S.run_statement select_states w).1 ≡ table w

-- What it relies on in QHash: a walk visits every entry once, in any order.
pub record WalkLaws {D : Type 0}
    (walk : List (Text × CachedDeviceState D) → List (Text × CachedDeviceState D)) : Type 0 where
  pub visits_once :
      (entries : List (Text × CachedDeviceState D))
      → DistinctKeys entries
      → DistinctKeys (walk entries)
  pub visits :
      (entries : List (Text × CachedDeviceState D)) (k : Text)
      → DistinctKeys entries
      → hash_find k (walk entries) ≡ hash_find k entries

module _ {D : Type 0} (S : Sqlite D)
    (walk : List (Text × CachedDeviceState D) → List (Text × CachedDeviceState D))
    (laws : TableLaws S) (walks : WalkLaws walk) where
  open S use {World, run_statement}
  open laws use {table}

  -- The map from devices and sensors to states that a reader of the cache is promised.
  unfoldable pub view : OfflineCache D → World → Text → Text → Option (CachedDeviceState D)
  view c w d s = over (hash_find (pending_key d s) c.pending) (stored (table w d s))

  pub upsert_all-view :
      (entries : List (Text × CachedDeviceState D)) (w : World) (d s : Text)
      → DistinctKeys entries
      → Keyed entries
      → has_separator d ≡ false
      → stored (table (upsert_all S walk entries w) d s)
        ≡ over (hash_find (pending_key d s) entries) (stored (table w d s))
  unfolding upsert_all hash_find row_of_state
  upsert_all-view [] w d s distinct keyed plain = refl
  upsert_all-view (e ∷ entries) w d s distinct keyed plain =
      let (own_key, own_plain) = keyed e.0 e.1 (rw (text_eq_refl e.0) refl) in
      let test =
        ap (λ k. text_eq k (pending_key d s)) own_key
        ∙ text_eq-pending_key e.1.device_id d e.1.sensor s own_plain plain in
      let written =
        laws.upserts (row_of_state e.1) w d s
        ∙ ap (λ b. if b then some (row_of_state e.1) else table w d s) (sym test) in
      let rest_keyed = Keyed-tail e entries distinct keyed in
      upsert_all-view entries (run_statement (upsert_state (row_of_state e.1)) w).1 d s distinct.1
        rest_keyed plain
      ∙ elim (Bool-cases (text_eq e.0 (pending_key d s))) [
        | inl hit ↦
            let gone =
              ap (λ k. hash_find k entries) (sym ((text_eq_iff e.0 (pending_key d s)).0 hit))
              ∙ distinct.0 in
            rw (gone, written, hit) (ap some (state_of_row-row_of_state e.1))
        | inr miss ↦ rw (written, miss) refl
      ]
