-- ===== src/Ui/AlarmModel/Counts.antt =====
-- The counters of the alarm model and the signals that announce them.
use forge_sight.Prelude.{
  ◌≡◌, refl, inl, inr, ℕ, zero, suc, ◌+◌, Bool, true, false, not, Option, none, some, List, [], ◌∷◌,
  ℤ, Option-cases, get_elem?, set, length, arith, bool_ne, if◌then◌else◌,
}
use forge_sight.Ui.AlarmModel.{
  AlarmEntry, Signal, data_changed, unacknowledged_count_changed, find_alarm, add_alarm, overwrite,
  acknowledge, clear, unacknowledged_count, count_matching,
}
use forge_sight.Ui.AlarmModel.Rows.{lookup_alarm, mark_first, acknowledge-mark_first}

-- The list tells the views that the unacknowledged count may have changed.
unfoldable pub notifies : List Signal → Bool
notifies [] = false
notifies (unacknowledged_count_changed ∷ signals) = true
notifies (_ ∷ signals) = notifies signals

pub data Call (D : Type 0) : Type 0 where
  adds : AlarmEntry D → Call D
  acks : ℤ → Call D
  clears : Call D

module _ {D : Type 0} where
  abbrev pub call : Call D → List (AlarmEntry D) → List (AlarmEntry D) × List Signal
  call (adds a) alarms = add_alarm a alarms
  call (acks id) alarms = acknowledge id alarms
  call clears alarms = clear alarms

  -- 1 for an alarm that waits to be acknowledged.
  abbrev pub pending : Option (AlarmEntry D) → ℕ
  pending none = 0
  pending (some a) = if a.acknowledged then 0 else 1

  count-set :
      (alarms : List (AlarmEntry D)) (row : ℕ) (old a : AlarmEntry D)
      → get_elem? alarms row ≡ some old
      → old.acknowledged ≡ a.acknowledged
      → unacknowledged_count (set alarms row a) ≡ unacknowledged_count alarms
  unfolding unacknowledged_count
  count-set [] row old a e h = refl
  count-set (b ∷ alarms) zero old a e h = ground arith
  count-set (b ∷ alarms) (suc row) old a e h = ground (arith, count-set alarms row old a e h)

  same_flag :
      (row : ℕ) (old a : AlarmEntry D)
      → notifies (
          if bool_ne (not old.acknowledged) (not a.acknowledged)
          then data_changed row ∷ unacknowledged_count_changed ∷ []
          else data_changed row ∷ [])
        ≡ false
      → old.acknowledged ≡ a.acknowledged
  unfolding notifies
  same_flag row old a h = ground arith

  overwrite-notifies :
      (alarms : List (AlarmEntry D)) (row : ℕ) (a : AlarmEntry D)
      → notifies (overwrite alarms row a).1 ≡ false
      → unacknowledged_count (overwrite alarms row a).0 ≡ unacknowledged_count alarms
  unfolding overwrite notifies
  overwrite-notifies alarms row a h = elim (Option-cases (get_elem? alarms row)) [
    | inl e ↦ rw (e, overwrite)
    | inr (old, e) ↦
        rw (e, overwrite)
          (count-set alarms row old a e (same_flag row old a (rw (e, overwrite) at h)))
  ]

  -- No change goes unannounced: a call that does not signal the unacknowledged count leaves it as it
  -- was.
  pub unacknowledged_count_announced :
      (c : Call D) (alarms : List (AlarmEntry D))
      → notifies (call c alarms).1 ≡ false
      → unacknowledged_count (call c alarms).0 ≡ unacknowledged_count alarms
  unfolding add_alarm acknowledge clear notifies
  unacknowledged_count_announced (adds a) alarms h = elim (Option-cases (find_alarm a.id alarms)) [
    | inl e ↦ cc (rw (e, add_alarm) at h)
    | inr (row, e) ↦ rw (e, add_alarm) (overwrite-notifies alarms row a (rw (e, add_alarm) at h))
  ]
  unacknowledged_count_announced (acks id) alarms h = ground arith
  unacknowledged_count_announced clears [] h = refl
  unacknowledged_count_announced clears (a ∷ alarms) h = cc

  count-mark_first :
      (id : ℤ) (alarms : List (AlarmEntry D))
      → unacknowledged_count (mark_first id alarms) + pending (lookup_alarm id alarms)
        ≡ unacknowledged_count alarms
  unfolding unacknowledged_count mark_first lookup_alarm
  count-mark_first id [] = refl
  count-mark_first id (a ∷ alarms) = ground (arith, count-mark_first id alarms)

  -- Acknowledging lowers the unacknowledged count by one if the id has an alarm that was waiting,
  -- and leaves it as it was if the id has none or one that was acknowledged before.
  pub unacknowledged_count-acknowledge :
      (id : ℤ) (alarms : List (AlarmEntry D))
      → unacknowledged_count (acknowledge id alarms).0 + pending (lookup_alarm id alarms)
        ≡ unacknowledged_count alarms
  unacknowledged_count-acknowledge id alarms =
      rw (acknowledge-mark_first id alarms) (count-mark_first id alarms)

  -- With no severity given, `count_matching` counts every alarm, or every unacknowledged one.
  pub count_matching_any :
      (alarms : List (AlarmEntry D))
      → (count_matching alarms [] false ≡ length alarms)
        × (count_matching alarms [] true ≡ unacknowledged_count alarms)
  unfolding count_matching unacknowledged_count
  count_matching_any [] = (refl, refl)
  count_matching_any (a ∷ alarms) =
      let (all, waiting) = count_matching_any alarms in
      (ground (arith, all), ground (arith, waiting))
