-- ===== src/Tests/Fixtures.antt =====
-- Doubles and databases that can be computed with.
use forge_sight.Prelude.{
  ◌≡◌, inl, refl, sym, ap, append-nil, ℕ, ◌+◌, ◌%◌, Bool, true, false, ltb, leb, ◌==◌, Option, none,
  some, List, [], ◌∷◌, ◌++◌, lit, pos, negsuc, rows_after, Ascending, Doubles, arith,
}
use forge_sight.Ingestion.Reading.{PolledReading}
use forge_sight.Database.{
  Server, Statement, Reply, RuleRow, AlarmRow, begin, commit, rollback, detach_alarms, remove_rule,
  select_rules, insert_alarm, select_readings_after, ack_new_alarm, max_reading_id, failed,
  command_ok, rule_rows, reading_rows, readings_of, id_cells, is_command_ok,
}
use forge_sight.Database.Laws.{ReadingsLaws, Tables, TransactionLaws, detach, drop_rule}
use forge_sight.Database.Follow.{id_of_row}
use forge_sight.Api.RuleService.Acknowledge.{AckLaws, count_waiting, mark_acknowledged}

-- Doubles that are small whole numbers, printed as one digit.
abbrev pub naturals : Doubles
naturals = record {
  Double = ℕ;
  lt = ltb;
  le = leb;
  eq = ◌==◌;
  print = λ n. (48 + n % 10) ∷ [];
  to_string = λ n. (48 + n % 10) ∷ [];
}

abbrev pub reading : ℕ → PolledReading ℕ
reading n = record {
  id = pos n;
  reading = record {
    device_id = lit "p";
    sensor = lit "t";
    value = n;
    unit = lit "C";
    timestamp = lit "T";
    anomaly = false;
  };
}

abbrev pub hot_row : RuleRow ℕ
hot_row = record {
  id = pos 7;
  device_id = lit "p";
  sensor = lit "t";
  condition = lit "gte";
  threshold = 2;
  severity = lit "critical";
}

-- A readings table of one row that has two after a wait.
abbrev pub table : Bool → List (PolledReading ℕ)
table false = reading 1 ∷ []
table true = reading 1 ∷ reading 2 ∷ []

abbrev pub answer : Statement → Bool → Reply ℕ
answer (select_readings_after k) w = reading_rows (rows_after id_of_row k (table w))
answer select_rules w = rule_rows (hot_row ∷ [])
answer max_reading_id w = id_cells (some (pos 1) ∷ [])
answer (insert_alarm rule dev sen value severity message timestamp) w = command_ok 1
answer _ w = failed

abbrev pub growing : Server ℕ
growing = record { World = Bool; exec = λ c st w. (answer st w, w); wait = λ w. true }

pub growing_wait : (w : Bool) → (new : List (PolledReading ℕ)) × (table true ≡ table w ++ new)
growing_wait false = (reading 2 ∷ [], refl)
growing_wait true = ([], refl)

pub table_ascends : (w : Bool) → Ascending id_of_row (negsuc 0) (table w)
table_ascends false = ground arith
table_ascends true = ground arith

abbrev pub growing_laws : ReadingsLaws growing
growing_laws = record {
  readings = table;
  first = negsuc 0;
  ascends = table_ascends;
  exec_grows = λ c st w. ([], sym (append-nil (table w)));
  wait_grows = growing_wait;
  selects = λ c k w rows e. sym (ap readings_of e);
}

-- One client's transactions on the tables: what is committed, and what it works on.
pub record Ledger : Type 0 where
  pub committed : Tables ℕ
  pub working : Option (Tables ℕ)

abbrev pub change : (Tables ℕ → Tables ℕ) → Ledger → Reply ℕ × Ledger
change f l = elim l.working [
  | none ↦ (failed, l)
  | some t ↦ (command_ok 1, record l { working = some (f t) })
]

abbrev pub ledger_exec : Statement → Ledger → Reply ℕ × Ledger
ledger_exec begin l = elim l.working [
  | none ↦ (command_ok 0, record l { working = some l.committed })
  | some t ↦ (failed, l)
]
ledger_exec (detach_alarms id) l = change (λ t. record t { alarms = detach id t.alarms }) l
ledger_exec (remove_rule id) l = change (λ t. record t { rules = drop_rule id t.rules }) l
ledger_exec commit l = elim l.working [
  | none ↦ (failed, l)
  | some t ↦ (command_ok 0, record { committed = t; working = none })
]
ledger_exec rollback l = (command_ok 0, record l { working = none })
ledger_exec _ l = (failed, l)

abbrev pub ledger : Server ℕ
ledger = record { World = Ledger; exec = λ c. ledger_exec; wait = λ w. w }

abbrev pub sees : Ledger → Tables ℕ
sees l = elim l.working [ none ↦ l.committed | some t ↦ t ]

abbrev pub IsOpen : Ledger → Type 0
IsOpen l = elim l.working [ none ↦ ⊥ | some t ↦ Unit {0} ]

abbrev pub at : Tables ℕ → Option (Tables ℕ) → Ledger
at committed working = record { committed = committed; working = working }

pub ledger_begins :
    (t : Tables ℕ) (o : Option (Tables ℕ))
    → is_command_ok (ledger_exec begin (at t o)).0 ≡ true
    → let l = (ledger_exec begin (at t o)).1 in IsOpen l × (l.committed ≡ t) × (sees l ≡ t)
ledger_begins t none h = (tt, refl, refl)
ledger_begins t (some v) h = cc

pub ledger_changes :
    (f : Tables ℕ → Tables ℕ) (t : Tables ℕ) (o : Option (Tables ℕ))
    → IsOpen (at t o)
    → let l = (change f (at t o)).1 in IsOpen l × (l.committed ≡ t) × (sees l ≡ f (sees (at t o)))
ledger_changes f t none h = absurd h
ledger_changes f t (some v) h = (tt, refl, refl)

pub ledger_commits :
    (t : Tables ℕ) (o : Option (Tables ℕ))
    → IsOpen (at t o)
    → (ledger_exec commit (at t o)).1.committed ≡ sees (at t o)
ledger_commits t none h = absurd h
ledger_commits t (some v) h = refl

-- Only a COMMIT that succeeds changes what is committed.
pub ledger_refuses :
    (st : Statement) (t : Tables ℕ) (o : Option (Tables ℕ))
    → is_command_ok (ledger_exec st (at t o)).0 ≡ false
    → (ledger_exec st (at t o)).1.committed ≡ t
ledger_refuses begin t none h = refl
ledger_refuses begin t (some v) h = refl
ledger_refuses (detach_alarms id) t none h = refl
ledger_refuses (detach_alarms id) t (some v) h = refl
ledger_refuses (remove_rule id) t none h = refl
ledger_refuses (remove_rule id) t (some v) h = refl
ledger_refuses commit t none h = refl
ledger_refuses commit t (some v) h = cc
ledger_refuses rollback t o h = refl
ledger_refuses _ t o h = refl

pub ledger_in_doubt :
    (t : Tables ℕ) (o : Option (Tables ℕ))
    → is_command_ok (ledger_exec commit (at t o)).0 ≡ false
    → (ledger_exec commit (at t o)).1.committed ≡ t
ledger_in_doubt t none h = refl
ledger_in_doubt t (some v) h = cc

abbrev pub ledger_laws : TransactionLaws ledger
ledger_laws = record {
  tables = λ l. l.committed;
  view = λ c. sees;
  Open = λ c. IsOpen;
  begins = λ c w h. ledger_begins w.committed w.working h;
  detaches = λ c id w o h.
      ledger_changes (λ t. record t { alarms = detach id t.alarms }) w.committed w.working o;
  removes = λ c id w o h.
      ledger_changes (λ t. record t { rules = drop_rule id t.rules }) w.committed w.working o;
  commits = λ c w o h. ledger_commits w.committed w.working o;
  in_doubt = λ c w o h. inl (ledger_in_doubt w.committed w.working h);
  rolls_back = λ c w. refl;
  refuses = λ c st w k h. ledger_refuses st w.committed w.working h;
}

abbrev pub acknowledging : Server ℕ
acknowledging = record {
  World = List (AlarmRow ℕ);
  exec = λ c st w. elim st [
    | ack_new_alarm id ↦ (command_ok (count_waiting id w), mark_acknowledged id w)
    | _ ↦ (failed, w)
  ];
  wait = λ w. w;
}

abbrev command_count : Reply ℕ → ℕ
command_count (command_ok n) = n
command_count _ = 0

abbrev pub acknowledging_laws : AckLaws acknowledging
acknowledging_laws = record {
  alarms = λ w. w;
  updates = λ c id w n e. (sym (ap command_count e), refl);
}
