-- ===== src/Ui/OfflineCache.antt =====
-- ui/include/ui/offline_cache.h and ui/src/offline_cache.cpp. SQLite, reached through QtSql, is a
-- parameter: `Sqlite` is its files and connections with the answer to each statement. The hash of
-- pending states is a list of its entries; the order in which it is walked is the argument `walk`.
pub mod Hash
pub mod Schedule
pub mod Table
pub mod Reads
pub mod Acks
use forge_sight.Prelude.{
  ℕ, Bool, true, false, not, ltb, Option, none, some, List, [], ◌∷◌, ◌++◌, map, Text, text_eq,
  length, is_empty, ℤ, if◌then◌else◌,
}
use forge_sight.Database.{Run, pure, ◌>>=◌, ◌>>◌}

pub record CachedDeviceState (D : Type 0) : Type 0 where
  pub device_id : Text
  pub sensor : Text
  pub value : D
  pub unit : Text
  pub timestamp : Text
  pub anomaly : Bool
  pub plant : Text
  pub floor : Text

-- A row of device_states as it is bound and read, with its flag as an INTEGER.
pub record StateRow (D : Type 0) : Type 0 where
  pub device_id : Text
  pub sensor : Text
  pub value : D
  pub unit : Text
  pub timestamp : Text
  pub anomaly : ℕ
  pub plant : Text
  pub floor : Text

pub data CacheStatement (D : Type 0) : Type 0 where
  journal_wal synchronous_normal create_device_states create_pending_acks : CacheStatement D
  read_journal_mode : CacheStatement D
  transaction commit : CacheStatement D
  -- INSERT INTO device_states ... ON CONFLICT (device_id, sensor) DO UPDATE SET ...
  upsert_state : StateRow D → CacheStatement D
  select_states : CacheStatement D
  -- INSERT OR IGNORE INTO pending_acks, DELETE FROM pending_acks, SELECT ... ORDER BY alarm_id
  insert_ack delete_ack : ℤ → CacheStatement D
  select_acks : CacheStatement D

-- A statement that failed, or the number of rows that it changed, or what it selected.
pub data CacheReply (D : Type 0) : Type 0 where
  refused : CacheReply D
  affected : ℕ → CacheReply D
  texts : List Text → CacheReply D
  states : List (StateRow D) → CacheReply D
  ack_ids : List ℤ → CacheReply D

pub record Sqlite (D : Type 0) : Type 1 where
  pub World : Type 0
  pub run_statement : CacheStatement D → World → CacheReply D × World
  -- addDatabase, setDatabaseName and open; close and removeDatabase
  pub open_file : Text → World → Bool × World
  pub close_file : World → World

-- The members of the class but its connection name: `valid` is db_.isValid(), `timer` is
-- flush_timer_.isActive().
pub record OfflineCache (D : Type 0) : Type 0 where
  pub valid : Bool
  pub is_open : Bool
  pub pending : List (Text × CachedDeviceState D)
  pub timer : Bool

-- The signal pendingAckCountChanged is emitted, or not.
abbrev pub Emitted : Type 0
Emitted = Bool

pub pending_key : Text → Text → Text
pending_key device_id sensor = device_id ++ (31 ∷ sensor)

module _ {D : Type 0} where
  abbrev pub cache : OfflineCache D
  cache = record { valid = false; is_open = false; pending = []; timer = false }

  -- QHash::insert replaces the value of a key that is there.
  unfoldable pub hash_insert :
      Text
      → CachedDeviceState D
      → List (Text × CachedDeviceState D)
      → List (Text × CachedDeviceState D)
  hash_insert k s [] = (k, s) ∷ []
  hash_insert k s (e ∷ entries) =
      if text_eq e.0 k then (k, s) ∷ entries else e ∷ hash_insert k s entries

  unfoldable pub save_device_state : CachedDeviceState D → OfflineCache D → OfflineCache D
  unfolding hash_insert pending_key
  save_device_state s c = if not c.is_open then c else record c {
    pending = hash_insert (pending_key s.device_id s.sensor) s c.pending;
    timer = true;
  }

  abbrev pub pending_write_count : OfflineCache D → ℕ
  pending_write_count c = length c.pending

  unfoldable pub row_of_state : CachedDeviceState D → StateRow D
  row_of_state s = record {
    device_id = s.device_id;
    sensor = s.sensor;
    value = s.value;
    unit = s.unit;
    timestamp = s.timestamp;
    anomaly = if s.anomaly then 1 else 0;
    plant = s.plant;
    floor = s.floor;
  }

  unfoldable pub state_of_row : StateRow D → CachedDeviceState D
  state_of_row r = record {
    device_id = r.device_id;
    sensor = r.sensor;
    value = r.value;
    unit = r.unit;
    timestamp = r.timestamp;
    anomaly = ltb 0 r.anomaly;
    plant = r.plant;
    floor = r.floor;
  }

  -- The rows of the loop `while (query.next())`.
  abbrev pub rows_of : CacheReply D → List (StateRow D)
  rows_of (states rows) = rows
  rows_of _ = []

  abbrev pub ids_of : CacheReply D → List ℤ
  ids_of (ack_ids ids) = ids
  ids_of _ = []

  abbrev pub first_text : CacheReply D → Text
  first_text (texts (t ∷ rest)) = t
  first_text _ = []

  abbrev pub changed_rows : CacheReply D → Emitted
  changed_rows (affected n) = ltb 0 n
  changed_rows _ = false

module _ {D : Type 0} (S : Sqlite D)
    (walk : List (Text × CachedDeviceState D) → List (Text × CachedDeviceState D)) where
  open S use {World, run_statement, open_file, close_file}

  -- The loop over the hash, whose answers are not looked at.
  unfoldable pub upsert_all : List (Text × CachedDeviceState D) → World → World
  unfolding row_of_state
  upsert_all [] w = w
  upsert_all (e ∷ entries) w =
      upsert_all entries (run_statement (upsert_state (row_of_state e.1)) w).1

  unfoldable pub write_pending : OfflineCache D → Run World (OfflineCache D)
  unfolding upsert_all
  write_pending c w =
      if is_empty c.pending
      then (c, w)
      else if not c.is_open
      then (record c { pending = [] }, w)
      else let w = (run_statement transaction w).1 in
        let w = upsert_all (walk c.pending) w in
        let w = (run_statement commit w).1 in (record c { pending = [] }, w)

  unfoldable pub ensure_schema : World → World
  ensure_schema w =
      let w = (run_statement journal_wal w).1 in
      let w = (run_statement synchronous_normal w).1 in
      let w = (run_statement create_device_states w).1 in (run_statement create_pending_acks w).1

  abbrev pub drop_connection : OfflineCache D → World → World
  drop_connection c w = if c.valid then close_file w else w

  unfoldable pub open_cache : Text → OfflineCache D → Run World (Bool × OfflineCache D)
  unfolding write_pending ensure_schema
  open_cache path c w =
      let (c, w) = write_pending c w in
      let w = drop_connection c w in
      let (opened, w) = open_file path w in
      let w = if opened then ensure_schema w else w in
      ((opened, record c { valid = true; is_open = opened }), w)

  -- The destructor.
  unfoldable pub destroy_cache : OfflineCache D → World → World
  unfolding write_pending
  destroy_cache c w = let (c, w) = write_pending c w in drop_connection c w

  unfoldable pub flush : OfflineCache D → Run World (OfflineCache D)
  unfolding write_pending
  flush c = write_pending (record c { timer = false })

  unfoldable pub journal_mode : OfflineCache D → Run World Text
  journal_mode c w =
      if not c.is_open
      then ([], w)
      else let (reply, w) = run_statement read_journal_mode w in (first_text reply, w)

  unfoldable pub load_device_states :
      OfflineCache D → Run World (OfflineCache D × List (CachedDeviceState D))
  unfolding write_pending state_of_row
  load_device_states c w =
      if not c.is_open
      then ((c, []), w)
      else let (c, w) = write_pending c w in
        let (reply, w) = run_statement select_states w in ((c, map state_of_row (rows_of reply)), w)

  unfoldable pub queue_ack : ℤ → OfflineCache D → Run World Emitted
  queue_ack id c w =
      if not c.is_open
      then (false, w)
      else let (reply, w) = run_statement (insert_ack id) w in (changed_rows reply, w)

  unfoldable pub clear_ack : ℤ → OfflineCache D → Run World Emitted
  clear_ack id c w =
      if not c.is_open
      then (false, w)
      else let (reply, w) = run_statement (delete_ack id) w in (changed_rows reply, w)

  unfoldable pub pending_acks : OfflineCache D → Run World (List ℤ)
  pending_acks c w =
      if not c.is_open
      then ([], w)
      else let (reply, w) = run_statement select_acks w in (ids_of reply, w)

  unfoldable pub pending_ack_count : OfflineCache D → Run World ℕ
  unfolding pending_acks
  pending_ack_count c w = let (ids, w) = pending_acks c w in (length ids, w)
