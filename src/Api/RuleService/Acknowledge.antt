-- ===== src/Api/RuleService/Acknowledge.antt =====
-- An alarm is acknowledged once.
use forge_sight.Prelude.{
  ◌≡◌, refl, ap, ◌∙◌, ℕ, ◌+◌, Bool, true, false, not, ◌&&◌, some, List, [], ◌∷◌, ℤ, int_eq, Doubles,
  arith, if◌then◌else◌,
}
use forge_sight.Database.{
  Server, Session, Reply, AlarmRow, ack_new_alarm, command_ok, failed, rule_rows, alarm_rows,
  reading_rows, id_cells, device_rows, history_rows,
}
use forge_sight.Api.RuleService.{acknowledge_service_alarm, changed_one}

module _ {D : Type 0} where
  -- WHERE id = $1 AND acknowledged = FALSE
  abbrev waits : ℤ → AlarmRow D → Bool
  waits id a = int_eq a.id id && not a.acknowledged

  -- The rows that the UPDATE changes, and their number.
  unfoldable pub mark_acknowledged : ℤ → List (AlarmRow D) → List (AlarmRow D)
  mark_acknowledged id [] = []
  mark_acknowledged id (a ∷ alarms) =
      (if waits id a then record a { acknowledged = true } else a) ∷ mark_acknowledged id alarms

  unfoldable pub count_waiting : ℤ → List (AlarmRow D) → ℕ
  count_waiting id [] = 0
  count_waiting id (a ∷ alarms) = let n = count_waiting id alarms in if waits id a then n + 1 else n

  none_waits :
      (id : ℤ) (alarms : List (AlarmRow D)) → count_waiting id (mark_acknowledged id alarms) ≡ 0
  unfolding count_waiting mark_acknowledged
  none_waits id [] = refl
  none_waits id (a ∷ alarms) = ground (arith, none_waits id alarms)

-- What the acknowledgement relies on in PostgreSQL: an UPDATE that succeeds tells how many rows it
-- changed.
pub record AckLaws {D : Type 0} (S : Server D) : Type 0 where
  pub alarms : S.World → List (AlarmRow D)
  pub updates :
      (c : Session) (id : ℤ) (w : S.World) (n : ℕ)
      → (S.exec c (ack_new_alarm id) w).0 ≡ command_ok n
      → (n ≡ count_waiting id (alarms w))
        × (alarms (S.exec c (ack_new_alarm id) w).1 ≡ mark_acknowledged id (alarms w))

module _ (F : Doubles) (S : Server (F.Double)) (laws : AckLaws S) where
  open F use {Double}
  open S use {World, exec}
  open laws use {alarms}

  changed_one_lem :
      (c : Session) (id : ℤ) (w : World) (reply : Reply Double)
      → (exec c (ack_new_alarm id) w).0 ≡ reply
      → changed_one F S reply ≡ true
      → (count_waiting id (alarms w) ≡ 1)
        × (alarms (exec c (ack_new_alarm id) w).1 ≡ mark_acknowledged id (alarms w))
  changed_one_lem c id w (command_ok n) e h =
      let (counted, marked) = laws.updates c id w n e in (ground (arith, counted), marked)
  changed_one_lem c id w failed e h = cc
  changed_one_lem c id w (rule_rows rows) e h = cc
  changed_one_lem c id w (alarm_rows rows) e h = cc
  changed_one_lem c id w (reading_rows rows) e h = cc
  changed_one_lem c id w (id_cells cells) e h = cc
  changed_one_lem c id w (device_rows rows) e h = cc
  changed_one_lem c id w (history_rows rows) e h = cc

  refused_lem :
      (c : Session) (id : ℤ) (w : World) (reply : Reply Double)
      → (exec c (ack_new_alarm id) w).0 ≡ reply
      → count_waiting id (alarms w) ≡ 0
      → changed_one F S reply ≡ false
  refused_lem c id w (command_ok n) e h =
      let (counted, marked) = laws.updates c id w n e in ground (arith, counted)
  refused_lem c id w failed e h = refl
  refused_lem c id w (rule_rows rows) e h = refl
  refused_lem c id w (alarm_rows rows) e h = refl
  refused_lem c id w (reading_rows rows) e h = refl
  refused_lem c id w (id_cells cells) e h = refl
  refused_lem c id w (device_rows rows) e h = refl
  refused_lem c id w (history_rows rows) e h = refl

  -- If an acknowledgement returns true then exactly one alarm with the id waited for it, none waits
  -- afterwards, and the same acknowledgement right after it returns false.
  pub acknowledge_once :
      (c : Session) (id : ℤ) (w : World)
      → let ack = acknowledge_service_alarm F S (some c) id in
        (ack w).0 ≡ true
        → (count_waiting id (alarms w) ≡ 1)
          × (count_waiting id (alarms (ack w).1) ≡ 0)
          × ((ack (ack w).1).0 ≡ false)
  unfolding acknowledge_service_alarm
  acknowledge_once c id w h =
      let (one, marked) = changed_one_lem c id w _ refl h in
      let zero_left = ap (count_waiting id) marked ∙ none_waits id (alarms w) in
      (one, zero_left, refused_lem c id _ _ refl zero_left)
