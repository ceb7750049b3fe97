-- ===== src/Ui/DeviceFilterModel.antt =====
-- ui/include/ui/device_filter_model.h and ui/src/device_filter_model.cpp. Of QSortFilterProxyModel the
-- model uses that its rows are the rows of the source that the filter accepts, in their order, and
-- that a change of the rows is announced: `emitted` gives the signals for the rows before and after a
-- change, and its handlers see the rows after it. `contains` is QString::contains without case.
pub mod Critical
use forge_sight.Prelude.{
  ℕ, zero, suc, ◌+◌, ◌==◌, Bool, true, false, not, ◌&&◌, ◌||◌, List, [], ◌∷◌, ◌++◌, Text, lit,
  text_eq, length, is_empty, if◌then◌else◌,
}
use forge_sight.Ui.DeviceModel.{DeviceState}

-- `timer` is recount_timer_.isActive(); a source that is not set has no rows.
pub record DeviceFilterModel (D : Type 0) : Type 0 where
  pub source : List (DeviceState D)
  pub plant : Text
  pub floor : Text
  pub search : Text
  pub last_count : ℕ
  pub critical : ℕ
  pub critical_dirty : Bool
  pub timer : Bool

pub data RowSignal : Type 0 where
  rows_inserted rows_removed model_reset layout_changed data_changed : RowSignal

pub data FilterSignal : Type 0 where
  source_devices_changed plant_changed floor_changed search_changed : FilterSignal
  count_changed critical_count_changed : FilterSignal

module _ {D : Type 0} where
  abbrev pub filter_model : DeviceFilterModel D
  filter_model = record {
    source = [];
    plant = [];
    floor = [];
    search = [];
    last_count = 0;
    critical = 0;
    critical_dirty = true;
    timer = false;
  }

  unfoldable pub count_critical : List (DeviceState D) → ℕ
  count_critical [] = 0
  count_critical (d ∷ devices) =
      let n = count_critical devices in if text_eq d.status (lit "critical") then n + 1 else n

  unfoldable pub schedule_recount : DeviceFilterModel D → DeviceFilterModel D
  schedule_recount m = record m { critical_dirty = true; timer = true }

module _ {D : Type 0} (contains : Text → Text → Bool) where
  unfoldable pub filter_accepts_row : Text → Text → Text → DeviceState D → Bool
  filter_accepts_row plant floor search d =
      if not (is_empty plant) && not (text_eq d.plant plant)
      then false
      else if not (is_empty floor) && not (text_eq d.floor floor)
      then false
      else if is_empty search
      then true
      else contains d.device_id search || contains d.sensor search

  unfoldable pub accepted_rows : Text → Text → Text → List (DeviceState D) → List (DeviceState D)
  unfolding filter_accepts_row
  accepted_rows plant floor search [] = []
  accepted_rows plant floor search (d ∷ devices) =
      let rest = accepted_rows plant floor search devices in
      if filter_accepts_row plant floor search d then d ∷ rest else rest

  -- The rows of the proxy, and rowCount().
  unfoldable pub visible : DeviceFilterModel D → List (DeviceState D)
  unfolding accepted_rows
  visible m = accepted_rows m.plant m.floor m.search m.source

  unfoldable pub critical_count : DeviceFilterModel D → ℕ × DeviceFilterModel D
  unfolding count_critical visible
  critical_count m =
      let n = count_critical (visible m) in
      if m.critical_dirty
      then (n, record m { critical = n; critical_dirty = false })
      else (m.critical, m)

  -- countChanged, if the count is another than the last one.
  unfoldable pub notify_count : DeviceFilterModel D → DeviceFilterModel D × List FilterSignal
  unfolding visible
  notify_count m =
      let n = length (visible m) in
      if n == m.last_count then (m, []) else (record m { last_count = n }, count_changed ∷ [])

  unfoldable pub recount : DeviceFilterModel D → DeviceFilterModel D × List FilterSignal
  unfolding critical_count notify_count
  recount m =
      let now = critical_count (record m { timer = false }) in
      let counted = notify_count now.1 in
      (counted.0, counted.1 ++ (if now.0 == m.critical then [] else critical_count_changed ∷ []))

  -- The slots that the constructor connects to the proxy's own signals.
  unfoldable pub structural : DeviceFilterModel D → DeviceFilterModel D × List FilterSignal
  unfolding notify_count schedule_recount
  structural m = let counted = notify_count m in (schedule_recount counted.0, counted.1)

  unfoldable pub on_row_signal :
      RowSignal → DeviceFilterModel D → DeviceFilterModel D × List FilterSignal
  unfolding structural schedule_recount
  on_row_signal data_changed m = (schedule_recount m, [])
  on_row_signal _ m = structural m

  unfoldable pub on_row_signals :
      List RowSignal → DeviceFilterModel D → DeviceFilterModel D × List FilterSignal
  unfolding on_row_signal
  on_row_signals [] m = (m, [])
  on_row_signals (s ∷ signals) m =
      let first = on_row_signal s m in
      let others = on_row_signals signals first.0 in (others.0, first.1 ++ others.1)

  module _ (emitted : List (DeviceState D) → List (DeviceState D) → List RowSignal) where
    -- The proxy after a change of its rows or its filter, with its signals and one more.
    unfoldable pub announce :
        DeviceFilterModel D
        → DeviceFilterModel D
        → List FilterSignal
        → DeviceFilterModel D × List FilterSignal
    unfolding visible on_row_signals
    announce before after last =
        let r = on_row_signals (emitted (visible before) (visible after)) after in
        (r.0, r.1 ++ last)

    unfoldable pub source_changed :
        List (DeviceState D) → DeviceFilterModel D → DeviceFilterModel D × List FilterSignal
    unfolding announce
    source_changed rows m = announce m (record m { source = rows }) []

    -- With another source than before.
    unfoldable pub set_source_devices :
        List (DeviceState D) → DeviceFilterModel D → DeviceFilterModel D × List FilterSignal
    unfolding announce schedule_recount
    set_source_devices rows m =
        let r = announce m (record m { source = rows }) [] in
        (schedule_recount r.0, r.1 ++ (source_devices_changed ∷ []))

    unfoldable pub set_plant : Text → DeviceFilterModel D → DeviceFilterModel D × List FilterSignal
    unfolding announce
    set_plant plant m =
        if text_eq plant m.plant
        then (m, [])
        else announce m (record m { plant = plant }) (plant_changed ∷ [])

    unfoldable pub set_floor : Text → DeviceFilterModel D → DeviceFilterModel D × List FilterSignal
    unfolding announce
    set_floor floor m =
        if text_eq floor m.floor
        then (m, [])
        else announce m (record m { floor = floor }) (floor_changed ∷ [])

    unfoldable pub set_search : Text → DeviceFilterModel D → DeviceFilterModel D × List FilterSignal
    unfolding announce
    set_search search m =
        if text_eq search m.search
        then (m, [])
        else announce m (record m { search = search }) (search_changed ∷ [])
