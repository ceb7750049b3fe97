-- ===== src/Tests/Client.antt =====
-- The desktop client's offline cache and its REST client.
use forge_sight.Prelude.{
  ◌≡◌, refl, ℕ, true, false, not, ◌&&◌, map, some, List, [], ◌∷◌, Text, lit, ℤ, pos, arith,
  if◌then◌else◌,
}
use forge_sight.Ui.Dashboard.Acks.{connected_changed, acks_succeeded, acks_synced}
use forge_sight.Ui.AlarmModel.{AlarmEntry}
use forge_sight.Ui.AlarmModel.Rows.{lookup_alarm, marked}
use forge_sight.Ui.ApiClient.{
  alarm_ack, Json, NetworkReply, latest_readings, all_alarms, all_devices, bootstrap, fetch_rules,
  acknowledge_alarm, initial,
}
use forge_sight.Ui.ApiClient.Replies.{finish}
use forge_sight.Ui.ApiClient.Requests.{start}
use forge_sight.Ui.ApiClient.Busy.{
  ApiEvent, calls, finishes, Traffic, IsSettled, count_waiting, api_run, api_run-IsSettled,
}
use forge_sight.Ui.ApiClient.Bootstrap.{
  finished_count, seeds_readings, seeds_alarms, seeds_devices, bootstrap_finished_once,
}
use forge_sight.Ui.OfflineCache.{
  CachedDeviceState, StateRow, CacheStatement, upsert_state, select_states, insert_ack, delete_ack,
  select_acks, CacheReply, affected, states, ack_ids, Sqlite, OfflineCache, load_device_states,
  pending_acks,
}
use forge_sight.Ui.OfflineCache.Hash.{has_separator, hash_find}
use forge_sight.Ui.OfflineCache.Table.{TableLaws, WalkLaws, row_in, state_in, view}
use forge_sight.Ui.OfflineCache.Reads.{
  CacheEvent, saves, flushes, loads, IsSound, run_events, last_saved,
}
use forge_sight.Ui.OfflineCache.Reads.LastSaved.{load_device_states-last_saved}
use forge_sight.Ui.OfflineCache.Acks.{has_ack, insert_id, delete_id, AckQueueLaws}
use forge_sight.Ui.OfflineCache.Schedule.{
  reopens, uses, IsScheduled, run_calls, run_calls-IsScheduled,
}

-- A file with a table, whose newest row hides the older ones of its key, and a queue.
abbrev File : Type 0
File = List (StateRow ℕ) × List ℤ

abbrev file_answer : CacheStatement ℕ → File → CacheReply ℕ × File
file_answer (upsert_state r) w = (affected 1, (r ∷ w.0, w.1))
file_answer select_states w = (states w.0, w)
file_answer (insert_ack id) w = (
  affected (if has_ack id w.1 then 0 else 1),
  (w.0, if has_ack id w.1 then w.1 else insert_id id w.1),
)
file_answer (delete_ack id) w =
    (affected (if has_ack id w.1 then 1 else 0), (w.0, delete_id id w.1))
file_answer select_acks w = (ack_ids w.1, w)
file_answer _ w = (affected 0, w)

abbrev file : Sqlite ℕ
file = record {
  World = File;
  run_statement = file_answer;
  open_file = λ path w. (true, w);
  close_file = λ w. w;
}

abbrev table_laws : TableLaws file
table_laws = record {
  table = λ w d s. row_in d s w.0;
  transacts = λ w. refl;
  commits = λ w. refl;
  upserts = λ r w d s. unfold row_in in refl;
  selects = λ w d s. refl;
  reads = λ w. refl;
}

abbrev as_it_stands : List (Text × CachedDeviceState ℕ) → List (Text × CachedDeviceState ℕ)
as_it_stands entries = entries

abbrev walk_laws : WalkLaws as_it_stands
walk_laws = record { visits_once = λ entries h. h; visits = λ entries k h. refl }

abbrev queue_laws : AckQueueLaws file
queue_laws = record {
  queue = λ w. w.1;
  inserts = λ id w. (refl, refl);
  deletes = λ id w. (refl, refl);
  selects = λ w. refl;
}

abbrev cached : ℕ → CachedDeviceState ℕ
cached n = record {
  device_id = lit "p";
  sensor = lit "t";
  value = n;
  unit = lit "C";
  timestamp = lit "T";
  anomaly = false;
  plant = lit "A";
  floor = lit "1";
}

abbrev opened : OfflineCache ℕ
opened = record { valid = true; is_open = true; pending = []; timer = false }

opened-IsSound : IsSound opened
unfolding hash_find
opened-IsSound = record { distinct = tt; keyed = λ k s found. ground arith }

abbrev burst : List (CacheEvent ℕ)
burst = saves (cached 1) ∷ flushes ∷ saves (cached 2) ∷ loads ∷ saves (cached 3) ∷ []

load_device_states-last_saved_example :
    let r = run_events file as_it_stands burst opened ([], []) in
    state_in (lit "p") (lit "t") (load_device_states file as_it_stands r.0 r.1).0.1
    ≡ last_saved
        (lit "p")
        (lit "t")
        burst
        (view file as_it_stands table_laws walk_laws opened ([], []) (lit "p") (lit "t"))
unfolding has_separator
load_device_states-last_saved_example =
    load_device_states-last_saved file as_it_stands table_laws walk_laws burst opened ([], [])
      (lit "p") (lit "t") refl (refl, (refl, (refl, tt))) opened-IsSound refl

opened-IsScheduled : IsScheduled opened
opened-IsScheduled = record { scheduled = λ h. ground arith }

run_calls-IsScheduled_example :
    IsScheduled
      (run_calls file as_it_stands
        (uses (saves (cached 1)) ∷ uses loads ∷ reopens (lit "f") ∷ uses (saves (cached 2)) ∷ [])
        opened
        ([], [])).0
run_calls-IsScheduled_example =
    run_calls-IsScheduled file as_it_stands
      (uses (saves (cached 1)) ∷ uses loads ∷ reopens (lit "f") ∷ uses (saves (cached 2)) ∷ [])
      opened ([], []) opened-IsScheduled

-- Every body is an array of one object, which has no members.
abbrev json : Json ℕ
json = record {
  Object = ℕ;
  array = λ body. some (0 ∷ []);
  text = λ o key. [];
  double = λ o key. 0;
  flag = λ o key. false;
  int64 = λ o key. pos 0;
  number = λ n. lit "7";
  rule_body = λ dev sen condition threshold severity. lit "{}";
}

abbrev ok_reply : NetworkReply
ok_reply = record { no_error = true; status = 200; error_string = []; body = lit "[]" }

abbrev lost : NetworkReply
lost = record { no_error = false; status = 0; error_string = lit "timeout"; body = [] }

abbrev quiet : Traffic
quiet = record { client = initial; waiting = [] }

quiet-IsSettled : IsSettled quiet
unfolding count_waiting
quiet-IsSettled = record { pending_counts = refl; idle = λ h. refl }

-- The rules come back before the bootstrap is done, and an acknowledgement is lost.
abbrev session : List (ApiEvent ℕ)
session =
    calls bootstrap
    ∷ calls fetch_rules
    ∷ finishes 3 ok_reply
    ∷ finishes 1 ok_reply
    ∷ calls (acknowledge_alarm (pos 7))
    ∷ finishes 2 lost
    ∷ finishes 0 ok_reply
    ∷ []

api_run-IsSettled_example : IsSettled (api_run json session quiet)
api_run-IsSettled_example = api_run-IsSettled json session quiet quiet-IsSettled

bootstrap_finished_once_example :
    let begun = (start json bootstrap initial).0 in
    let first = finish json all_alarms lost begun.0 in
    let second = finish json latest_readings ok_reply first.0 in
    let third = finish json all_devices ok_reply second.0 in
    (finished_count begun.1 ≡ 0)
    × (finished_count first.1 ≡ 0)
    × (finished_count second.1 ≡ 0)
    × (finished_count third.1 ≡ 1)
bootstrap_finished_once_example =
    bootstrap_finished_once json initial all_alarms latest_readings all_devices lost ok_reply
      ok_reply refl seeds_alarms seeds_readings seeds_devices

abbrev waiting_alarm : ℤ → AlarmEntry ℕ
waiting_alarm id = record {
  id = id;
  device_id = lit "p";
  sensor = lit "t";
  value = 5;
  severity = lit "critical";
  message = lit "m";
  timestamp = lit "T";
  acknowledged = false;
}

abbrev waiting_alarms : List (AlarmEntry ℕ)
waiting_alarms = waiting_alarm (pos 7) ∷ waiting_alarm (pos 8) ∷ []

abbrev queued : File
queued = ([], pos 7 ∷ pos 8 ∷ [])

acks_synced_example :
    (map (λ r. r.0) (connected_changed json file as_it_stands true opened initial queued).0.1
      ≡ latest_readings
        ∷ all_alarms
        ∷ all_devices
        ∷ map alarm_ack (pending_acks file as_it_stands opened queued).0)
    × ((ids : List ℤ) (j : ℤ)
        → let r = acks_succeeded json file as_it_stands ids opened waiting_alarms queued in
          (has_ack j (pending_acks file as_it_stands opened r.1).0
            ≡ (has_ack j (pending_acks file as_it_stands opened queued).0 && not (has_ack j ids)))
          × (lookup_alarm j r.0 ≡ (
              if has_ack j ids
              then marked (lookup_alarm j waiting_alarms)
              else lookup_alarm j waiting_alarms)))
acks_synced_example =
    acks_synced json file as_it_stands queue_laws opened initial waiting_alarms queued refl
