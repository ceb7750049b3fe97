-- ===== src/Ui/DeviceFilterModel/Critical.antt =====
-- The cached count of critical devices.
use forge_sight.Prelude.{
  ◌≡◌, refl, sym, ap, ◌∙◌, inl, inr, Bool, true, false, List, [], ◌∷◌, Text, text_eq, Bool-cases,
  length, ◌==◌, arith, if◌then◌else◌,
}
use forge_sight.Ui.DeviceModel.{DeviceState}
use forge_sight.Ui.DeviceFilterModel.{
  DeviceFilterModel, filter_model, RowSignal, FilterSignal, plant_changed, floor_changed,
  search_changed, data_changed, rows_inserted, rows_removed, model_reset, layout_changed,
  count_critical, schedule_recount, visible, critical_count, notify_count, recount, structural,
  on_row_signal, on_row_signals, announce, source_changed, set_source_devices, set_plant, set_floor,
  set_search,
}

-- What happens to a filter model, and a read of `criticalCount`.
pub data FilterEvent (D : Type 0) : Type 0 where
  changes_rows : List (DeviceState D) → FilterEvent D
  sets_source : List (DeviceState D) → FilterEvent D
  sets_plant sets_floor sets_search : Text → FilterEvent D
  reads_count times_out : FilterEvent D

-- What the model relies on in QSortFilterProxyModel: a change of the rows comes with a signal.
pub record ProxyLaws {D : Type 0}
    (emitted : List (DeviceState D) → List (DeviceState D) → List RowSignal) : Type 0 where
  pub announced : (before after : List (DeviceState D)) → emitted before after ≡ [] → before ≡ after

module _ {D : Type 0} (contains : Text → Text → Bool) where
  -- The cache is marked as stale, or holds the number of critical rows.
  pub record IsFresh (m : DeviceFilterModel D) : Type 0 where
    pub fresh : m.critical_dirty ≡ false → m.critical ≡ count_critical (visible contains m)

  schedule_recount-IsFresh : (m : DeviceFilterModel D) → IsFresh (schedule_recount m)
  unfolding schedule_recount
  schedule_recount-IsFresh m = record { fresh = λ h. ground arith }

  on_row_signal-dirty :
      (s : RowSignal) (m : DeviceFilterModel D)
      → (on_row_signal contains s m).0.critical_dirty ≡ true
  unfolding on_row_signal structural schedule_recount
  on_row_signal-dirty data_changed m = refl
  on_row_signal-dirty rows_inserted m = refl
  on_row_signal-dirty rows_removed m = refl
  on_row_signal-dirty model_reset m = refl
  on_row_signal-dirty layout_changed m = refl

  on_row_signals-dirty :
      (signals : List RowSignal) (m : DeviceFilterModel D)
      → m.critical_dirty ≡ true
      → (on_row_signals contains signals m).0.critical_dirty ≡ true
  unfolding on_row_signals
  on_row_signals-dirty [] m h = h
  on_row_signals-dirty (s ∷ signals) m h =
      on_row_signals-dirty signals (on_row_signal contains s m).0 (on_row_signal-dirty s m)

  dirty-IsFresh : (m : DeviceFilterModel D) → m.critical_dirty ≡ true → IsFresh m
  dirty-IsFresh m d = record { fresh = λ h. ground arith }

  -- The cache after a change that leaves it as it is, and for which some signals come.
  signals-IsFresh :
      (signals : List RowSignal) (before after : DeviceFilterModel D)
      → IsFresh before
      → after.critical ≡ before.critical
      → after.critical_dirty ≡ before.critical_dirty
      → (signals ≡ [] → visible contains before ≡ visible contains after)
      → IsFresh (on_row_signals contains signals after).0
  unfolding on_row_signals
  signals-IsFresh [] before after h c d same = record {
    fresh = λ clean. c ∙ h.fresh (sym d ∙ clean) ∙ ap count_critical (same refl);
  }
  signals-IsFresh (s ∷ signals) before after h c d same = dirty-IsFresh _ (
      on_row_signals-dirty signals (on_row_signal contains s after).0 (on_row_signal-dirty s after))

  critical_count_lem :
      (m : DeviceFilterModel D)
      → IsFresh m
      → ((critical_count contains m).0 ≡ count_critical (visible contains m))
        × IsFresh (critical_count contains m).1
  unfolding critical_count visible
  critical_count_lem m h = elim (Bool-cases m.critical_dirty) [
    | inl e ↦ simp e (refl, record { fresh = λ clean. refl })
    | inr e ↦ simp e (h.fresh e, h)
  ]

  if-IsFresh :
      (b : Bool) (x y : DeviceFilterModel D × List FilterSignal)
      → IsFresh x.0
      → IsFresh y.0
      → IsFresh (if b then x else y).0
  if-IsFresh true x y h k = h
  if-IsFresh false x y h k = k

  notify_count-IsFresh : (m : DeviceFilterModel D) → IsFresh m → IsFresh (notify_count contains m).0
  unfolding notify_count visible
  notify_count-IsFresh m h =
      if-IsFresh (length (visible contains m) == m.last_count) (m, []) _ h
        (record { fresh = h.fresh })

  recount-IsFresh : (m : DeviceFilterModel D) → IsFresh m → IsFresh (recount contains m).0
  unfolding recount visible
  recount-IsFresh m h =
      notify_count-IsFresh _
        (critical_count_lem (record m { timer = false }) record { fresh = h.fresh }).1

module _ {D : Type 0} (contains : Text → Text → Bool)
    (emitted : List (DeviceState D) → List (DeviceState D) → List RowSignal) where
  pub filter_step : FilterEvent D → DeviceFilterModel D → DeviceFilterModel D
  filter_step (changes_rows rows) m = (source_changed contains emitted rows m).0
  filter_step (sets_source rows) m = (set_source_devices contains emitted rows m).0
  filter_step (sets_plant plant) m = (set_plant contains emitted plant m).0
  filter_step (sets_floor floor) m = (set_floor contains emitted floor m).0
  filter_step (sets_search search) m = (set_search contains emitted search m).0
  filter_step reads_count m = (critical_count contains m).1
  filter_step times_out m = (recount contains m).0

  pub filter_run : List (FilterEvent D) → DeviceFilterModel D → DeviceFilterModel D
  unfolding filter_step
  filter_run [] m = m
  filter_run (e ∷ events) m = filter_run events (filter_step e m)

  module _ (laws : ProxyLaws emitted) where
    announce-IsFresh :
        (before after : DeviceFilterModel D) (last : List FilterSignal)
        → IsFresh contains before
        → after.critical ≡ before.critical
        → after.critical_dirty ≡ before.critical_dirty
        → IsFresh contains (announce contains emitted before after last).0
    unfolding announce
    announce-IsFresh before after last h c d =
        signals-IsFresh contains (emitted (visible contains before) (visible contains after)) before
          after h c d (laws.announced (visible contains before) (visible contains after))

    filter_step-IsFresh :
        (e : FilterEvent D) (m : DeviceFilterModel D)
        → IsFresh contains m
        → IsFresh contains (filter_step e m)
    unfolding filter_step source_changed set_source_devices set_plant set_floor set_search
    filter_step-IsFresh (changes_rows rows) m h =
        announce-IsFresh m (record m { source = rows }) [] h refl refl
    filter_step-IsFresh (sets_source rows) m h =
        schedule_recount-IsFresh contains
          (announce contains emitted m (record m { source = rows }) []).0
    filter_step-IsFresh (sets_plant plant) m h =
        if-IsFresh contains (text_eq plant m.plant) (m, []) _ h
          (announce-IsFresh m (record m { plant = plant }) (plant_changed ∷ []) h refl refl)
    filter_step-IsFresh (sets_floor floor) m h =
        if-IsFresh contains (text_eq floor m.floor) (m, []) _ h
          (announce-IsFresh m (record m { floor = floor }) (floor_changed ∷ []) h refl refl)
    filter_step-IsFresh (sets_search search) m h =
        if-IsFresh contains (text_eq search m.search) (m, []) _ h
          (announce-IsFresh m (record m { search = search }) (search_changed ∷ []) h refl refl)
    filter_step-IsFresh reads_count m h = (critical_count_lem contains m h).1
    filter_step-IsFresh times_out m h = recount-IsFresh contains m h

    filter_run-IsFresh :
        (events : List (FilterEvent D)) (m : DeviceFilterModel D)
        → IsFresh contains m
        → IsFresh contains (filter_run events m)
    unfolding filter_run
    filter_run-IsFresh [] m h = h
    filter_run-IsFresh (e ∷ events) m h =
        filter_run-IsFresh events (filter_step e m) (filter_step-IsFresh e m h)

    -- After any changes of the rows and of the filter, reads and timeouts, `criticalCount` is the number
    -- of rows that the filter shows and whose status is critical, be it cached or counted anew.
    pub critical_count-filter_run :
        (events : List (FilterEvent D))
        → let m = filter_run events filter_model in
          (critical_count contains m).0 ≡ count_critical (visible contains m)
    critical_count-filter_run events =
        (critical_count_lem contains (filter_run events filter_model)
          (filter_run-IsFresh events filter_model (dirty-IsFresh contains filter_model refl))).0
