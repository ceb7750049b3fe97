-- ===== src/Tests/Session.antt =====
-- A session of the dashboard, over a table with a primary key.
use forge_sight.Prelude.{
  ◌≡◌, refl, sym, ap, ◌∙◌, inl, inr, ℕ, Bool, true, false, ◌&&◌, none, List, [], ◌∷◌, map, Text,
  lit, text_eq, text_eq_refl, Bool-cases, arith, if◌then◌else◌,
}
use forge_sight.Ui.DeviceModel.{Update}
use forge_sight.Ui.DeviceModel.Shown.{shown_in, both_names}
use forge_sight.Ui.OfflineCache.{
  CachedDeviceState, StateRow, CacheStatement, CacheReply, upsert_state, select_states, affected,
  states, Sqlite, state_of_row, destroy_cache,
}
use forge_sight.Ui.OfflineCache.Hash.{has_separator, hash_find}
use forge_sight.Ui.OfflineCache.Table.{
  TableLaws, WalkLaws, row_in, state_in, state_in-map, stored, view,
}
use forge_sight.Ui.OfflineCache.Reads.{IsSound}
use forge_sight.Ui.Dashboard.{Dashboard, no_devices, start_dashboard}
use forge_sight.Ui.Dashboard.Offline.{
  SessionEvent, reads, locates, writes, OneEach, KeyLaws, session,
}
use forge_sight.Ui.Dashboard.Offline.Restart.{FileLaws, start_dashboard-session}

abbrev has_key : Text → Text → StateRow ℕ → Bool
has_key d s r = text_eq r.device_id d && text_eq r.sensor s

drop_key : Text → Text → List (StateRow ℕ) → List (StateRow ℕ)
drop_key d s [] = []
drop_key d s (r ∷ rows) = let rest = drop_key d s rows in if has_key d s r then rest else r ∷ rest

once_each : List (StateRow ℕ) → List (StateRow ℕ)
unfolding drop_key
once_each [] = []
once_each (r ∷ rows) = r ∷ drop_key r.device_id r.sensor (once_each rows)

-- A row of one key does not hide another.
other_row :
    (d s d' s' : Text) (r : StateRow ℕ)
    → (text_eq d d' && text_eq s s') ≡ false
    → has_key d s r ≡ true
    → has_key d' s' r ≡ false
other_row d s d' s' r h e = elim (Bool-cases (has_key d' s' r)) [
  | inr f ↦ f
  | inl f ↦
      let (a, b) = both_names r.device_id d r.sensor s e in
      ap (λ n. text_eq n d' && text_eq r.sensor s') a ∙ ap (λ n. text_eq d d' && text_eq n s') b ∙ h
]

not_same :
    (d s d' s' : Text) (r : StateRow ℕ)
    → has_key d s r ≡ false
    → has_key d' s' r ≡ true
    → (text_eq d d' && text_eq s s') ≡ false
not_same d s d' s' r e g = elim (Bool-cases (text_eq d d' && text_eq s s')) [
  | inr f ↦ f
  | inl f ↦
      let (a, b) = both_names d d' s s' f in
      let miss : has_key d' s' r ≡ false =
        ap (λ n. text_eq r.device_id n && text_eq r.sensor s') (sym a)
        ∙ ap (λ n. text_eq r.device_id d && text_eq r.sensor n) (sym b)
        ∙ e in
      absurd (cc)
]

row_in-drop_key :
    (d s d' s' : Text) (rows : List (StateRow ℕ))
    → row_in d' s' (drop_key d s rows)
      ≡ (if text_eq d d' && text_eq s s' then none else row_in d' s' rows)
unfolding row_in drop_key
row_in-drop_key d s d' s' [] = ground arith
row_in-drop_key d s d' s' (r ∷ rows) =
    let ih = row_in-drop_key d s d' s' rows in
    elim (Bool-cases (has_key d s r)) [
      | inl e ↦ elim (Bool-cases (text_eq d d' && text_eq s s')) [
        | inl f ↦ rw (drop_key, e, f) (ih ∙ rw f refl)
        | inr f ↦ rw (drop_key, e, f, other_row d s d' s' r f e) (ih ∙ rw f refl)
      ]
      | inr e ↦ elim (Bool-cases (has_key d' s' r)) [
        | inl g ↦ rw (drop_key, e, g, not_same d s d' s' r e g) refl
        | inr g ↦ rw (drop_key, e, g) ih
      ]
    ]

row_in-once_each :
    (d s : Text) (rows : List (StateRow ℕ)) → row_in d s (once_each rows) ≡ row_in d s rows
unfolding row_in once_each
row_in-once_each d s [] = refl
row_in-once_each d s (r ∷ rows) = elim (Bool-cases (has_key d s r)) [
  | inl e ↦ rw e refl
  | inr e ↦
      rw e (
        row_in-drop_key r.device_id r.sensor d s (once_each rows)
        ∙ rw e (row_in-once_each d s rows))
]

abbrev EachOnce : List (StateRow ℕ) → Type 0
EachOnce rows = OneEach (map state_of_row rows)

missing :
    (d s : Text) (rows : List (StateRow ℕ))
    → row_in d s rows ≡ none
    → state_in d s (map state_of_row rows) ≡ none
missing d s rows h = state_in-map d s rows ∙ ap stored h

present :
    (d s : Text) (rows : List (StateRow ℕ))
    → state_in d s (map state_of_row rows) ≡ none
    → row_in d s rows ≡ none
unfolding row_in state_in state_of_row
present d s [] h = refl
present d s (r ∷ rows) h = elim (Bool-cases (has_key d s r)) [
  | inl e ↦ absurd (ground (arith, h, e))
  | inr e ↦ rw e (present d s rows (ground (arith, h, e)))
]

EachOnce-drop_key :
    (d s : Text) (rows : List (StateRow ℕ)) → EachOnce rows → EachOnce (drop_key d s rows)
unfolding drop_key state_of_row
EachOnce-drop_key d s [] h = tt
EachOnce-drop_key d s (r ∷ rows) h = elim (Bool-cases (has_key d s r)) [
  | inl e ↦ rw e (EachOnce-drop_key d s rows h.1)
  | inr e ↦ rw e (
    missing r.device_id r.sensor (drop_key d s rows) (
        row_in-drop_key d s r.device_id r.sensor rows
        ∙ rw (present r.device_id r.sensor rows h.0) (ground arith)),
    EachOnce-drop_key d s rows h.1,
  )
]

EachOnce-once_each : (rows : List (StateRow ℕ)) → EachOnce (once_each rows)
unfolding once_each state_of_row
EachOnce-once_each [] = tt
EachOnce-once_each (r ∷ rows) = (
  missing r.device_id r.sensor (drop_key r.device_id r.sensor (once_each rows)) (
      row_in-drop_key r.device_id r.sensor r.device_id r.sensor (once_each rows)
      ∙ rw (text_eq_refl r.device_id, text_eq_refl r.sensor) refl),
  EachOnce-drop_key r.device_id r.sensor (once_each rows) (EachOnce-once_each rows),
)

abbrev keyed_answer : CacheStatement ℕ → List (StateRow ℕ) → CacheReply ℕ × List (StateRow ℕ)
keyed_answer (upsert_state r) rows = (affected 1, r ∷ rows)
keyed_answer select_states rows = (states (once_each rows), rows)
keyed_answer _ rows = (affected 0, rows)

abbrev keyed_file : Sqlite ℕ
keyed_file = record {
  World = List (StateRow ℕ);
  run_statement = keyed_answer;
  open_file = λ path rows. (true, rows);
  close_file = λ rows. rows;
}

abbrev keyed_laws : TableLaws keyed_file
keyed_laws = record {
  table = λ rows d s. row_in d s rows;
  transacts = λ rows. refl;
  commits = λ rows. refl;
  upserts = λ r rows d s. unfold row_in in refl;
  selects = λ rows d s. row_in-once_each d s rows;
  reads = λ rows. refl;
}

abbrev key_laws : KeyLaws keyed_file
key_laws = record { one_each = EachOnce-once_each }

abbrev in_order : List (Text × CachedDeviceState ℕ) → List (Text × CachedDeviceState ℕ)
in_order entries = entries

abbrev in_order_laws : WalkLaws in_order
in_order_laws = record { visits_once = λ entries h. h; visits = λ entries k h. refl }

abbrev fresh_dashboard : Dashboard ℕ
fresh_dashboard = record {
  model = no_devices;
  cache = record { valid = true; is_open = true; pending = []; timer = false };
}

fresh_cache-IsSound : IsSound fresh_dashboard.cache
unfolding hash_find
fresh_cache-IsSound = record { distinct = tt; keyed = λ k s found. ground arith }

abbrev measured : ℕ → Update ℕ
measured n = record {
  device_id = lit "p";
  sensor = lit "t";
  value = n;
  unit = lit "C";
  timestamp = lit "T";
  anomaly = false;
}

abbrev working_day : List (SessionEvent ℕ)
working_day =
    reads (measured 1) ∷ locates (lit "p") (lit "A") (lit "1") ∷ writes ∷ reads (measured 2) ∷ []

plain_day : (has_separator (lit "p") ≡ false) × (has_separator (lit "p") ≡ false) × Unit {0}
unfolding has_separator
plain_day = (refl, refl, tt)

nothing_yet : shown_in (lit "p") (lit "t") fresh_dashboard.model.devices ≡ none
unfolding shown_in
nothing_yet = refl

abbrev file_laws : FileLaws keyed_file keyed_laws (lit "cache.db")
file_laws = record {
  closes = λ rows. refl;
  opens = λ rows. refl;
  keeps_wal = λ rows. refl;
  keeps_sync = λ rows. refl;
  keeps_states = λ rows. refl;
  keeps_acks = λ rows. refl;
}

start_dashboard-session_example :
    let r = session keyed_file in_order working_day fresh_dashboard [] in
    let closed = destroy_cache keyed_file in_order r.0.cache r.1 in
    shown_in
      (lit "p")
      (lit "t")
      (start_dashboard keyed_file in_order (lit "cache.db") closed).0.model.devices
    ≡ shown_in (lit "p") (lit "t") r.0.model.devices
unfolding view row_in hash_find
start_dashboard-session_example =
    start_dashboard-session keyed_file in_order keyed_laws in_order_laws (lit "cache.db") file_laws
      key_laws working_day fresh_dashboard [] (lit "p") (lit "t") plain_day.0
      (plain_day.0, (plain_day.1, tt)) fresh_cache-IsSound refl nothing_yet refl
