-- ===== src/Ui/OfflineCache/Acks.antt =====
-- The queue of acknowledgements that wait for the API, and its signal.
use forge_sight.Prelude.{
  ◌≡◌, refl, sym, ap, ◌∙◌, subst, inl, inr, Bool, true, false, ◌||◌, Text, bool_ne, List, [], ◌∷◌,
  ltb, ℤ, int_eq, int_eq_iff, int_lt, Bool-cases, arith, if◌then◌else◌,
}
use forge_sight.Database.{Run}
use forge_sight.Ui.OfflineCache.{
  CachedDeviceState, Sqlite, OfflineCache, Emitted, insert_ack, delete_ack, select_acks, affected,
  ack_ids, queue_ack, clear_ack, pending_acks,
}

unfoldable pub has_ack : ℤ → List ℤ → Bool
has_ack id [] = false
has_ack id (i ∷ ids) = int_eq i id || has_ack id ids

-- A new id in its place of ORDER BY alarm_id.
unfoldable pub insert_id : ℤ → List ℤ → List ℤ
insert_id id [] = id ∷ []
insert_id id (i ∷ ids) =
    let rest = insert_id id ids in if int_lt id i then id ∷ i ∷ ids else i ∷ rest

-- DELETE ... WHERE alarm_id = ?
unfoldable pub delete_id : ℤ → List ℤ → List ℤ
delete_id id [] = []
delete_id id (i ∷ ids) = let rest = delete_id id ids in if int_eq i id then rest else i ∷ rest

has_ack-insert_id :
    (id j : ℤ) (ids : List ℤ) → has_ack j (insert_id id ids) ≡ (int_eq id j || has_ack j ids)
unfolding has_ack insert_id
has_ack-insert_id id j [] = refl
has_ack-insert_id id j (i ∷ ids) = ground (arith, has_ack-insert_id id j ids, int_eq_iff i id)

kept_head :
    (id i j : ℤ) (b : Bool)
    → int_eq i id ≡ false
    → (int_eq i j || (if int_eq id j then false else b))
      ≡ (if int_eq id j then false else int_eq i j || b)
kept_head id i j b miss = elim (Bool-cases (int_eq id j)) [
  | inl hit ↦ rw (hit, sym ((int_eq_iff id j).0 hit), miss) refl
  | inr other ↦ rw other refl
]

gone_head :
    (id i j : ℤ) (b : Bool)
    → i ≡ id
    → (if int_eq id j then false else b) ≡ (if int_eq id j then false else int_eq i j || b)
gone_head id i j b e = elim (Bool-cases (int_eq id j)) [
  | inl hit ↦ rw hit refl
  | inr miss ↦ rw (e, miss) refl
]

has_ack-delete_id :
    (id j : ℤ) (ids : List ℤ)
    → has_ack j (delete_id id ids) ≡ (if int_eq id j then false else has_ack j ids)
unfolding has_ack delete_id
has_ack-delete_id id j [] = ground arith
has_ack-delete_id id j (i ∷ ids) = elim (Bool-cases (int_eq i id)) [
  | inl hit ↦
      rw (hit, has_ack-delete_id id j ids)
        (gone_head id i j (has_ack j ids) ((int_eq_iff i id).0 hit))
  | inr miss ↦ rw (miss, has_ack-delete_id id j ids) (kept_head id i j (has_ack j ids) miss)
]

delete_id_missing : (id : ℤ) (ids : List ℤ) → has_ack id ids ≡ false → delete_id id ids ≡ ids
unfolding has_ack delete_id
delete_id_missing id [] h = refl
delete_id_missing id (i ∷ ids) h = ground (arith, delete_id_missing id ids)

-- What the queue relies on in SQLite while the file is open and no statement fails. A PRIMARY KEY
-- keeps an id once, and a statement tells how many rows it changed.
pub record AckQueueLaws {D : Type 0} (S : Sqlite D) : Type 0 where
  pub queue : S.World → List ℤ
  pub inserts :
      (id : ℤ) (w : S.World)
      → ((S.run_statement (insert_ack id) w).0 ≡ affected (if has_ack id (queue w) then 0 else 1))
        × (queue (S.run_statement (insert_ack id) w).1
            ≡ (if has_ack id (queue w) then queue w else insert_id id (queue w)))
  pub deletes :
      (id : ℤ) (w : S.World)
      → ((S.run_statement (delete_ack id) w).0 ≡ affected (if has_ack id (queue w) then 1 else 0))
        × (queue (S.run_statement (delete_ack id) w).1 ≡ delete_id id (queue w))
  pub selects : (w : S.World) → (S.run_statement select_acks w).0 ≡ ack_ids (queue w)

pub data AckCall : Type 0 where
  queues clears : ℤ → AckCall

abbrev id_of_call : AckCall → ℤ
id_of_call (queues id) = id
id_of_call (clears id) = id

abbrev pub asked : ℤ → AckCall → Bool → Bool
asked j (queues id) old = if int_eq id j then true else old
asked j (clears id) old = if int_eq id j then false else old

-- Whether the calls leave an id queued.
unfoldable pub last_asked : ℤ → List AckCall → Bool → Bool
last_asked j [] old = old
last_asked j (call ∷ calls) old = last_asked j calls (asked j call old)

module _ {D : Type 0} (S : Sqlite D)
    (walk : List (Text × CachedDeviceState D) → List (Text × CachedDeviceState D)) where
  open S use {World}

  unfoldable pub ack_call : AckCall → OfflineCache D → Run World Emitted
  ack_call (queues id) = queue_ack S walk id
  ack_call (clears id) = clear_ack S walk id

  unfoldable pub ack_calls : List AckCall → OfflineCache D → World → World
  unfolding ack_call
  ack_calls [] c w = w
  ack_calls (call ∷ calls) c w = ack_calls calls c (ack_call call c w).1

-- What a call tells, and what it leaves of the queue.
pub record AckStep (call : AckCall) (before : List ℤ) (emitted : Emitted) (after : List ℤ)
    : Type 0 where
  pub tells : emitted ≡ bool_ne (has_ack (id_of_call call) before) (has_ack (id_of_call call) after)
  pub quiet : emitted ≡ false → after ≡ before
  pub leaves : (j : ℤ) → has_ack j after ≡ asked j call (has_ack j before)

int_eq_refl : (a : ℤ) → int_eq a a ≡ true
int_eq_refl a = (int_eq_iff a a).1 refl

already :
    (id j : ℤ) (ids : List ℤ)
    → has_ack id ids ≡ true
    → has_ack j ids ≡ (if int_eq id j then true else has_ack j ids)
already id j ids there = elim (Bool-cases (int_eq id j)) [
  | inl same ↦ rw same (ap (λ k. has_ack k ids) (sym ((int_eq_iff id j).0 same)) ∙ there)
  | inr other ↦ rw other refl
]

inserted-AckStep :
    (id : ℤ) (ids : List ℤ)
    → AckStep
        (queues id)
        ids
        (ltb 0 (if has_ack id ids then 0 else 1))
        (if has_ack id ids then ids else insert_id id ids)
inserted-AckStep id ids = elim (Bool-cases (has_ack id ids)) [
  | inl there ↦
      rw there
        record { tells = rw there refl; quiet = λ h. refl; leaves = λ j. already id j ids there }
  | inr new ↦ rw new record {
    tells = rw (new, has_ack-insert_id id id ids, int_eq_refl id) refl;
    quiet = λ h. ground arith;
    leaves = λ j. rw (has_ack-insert_id id j ids) ground arith;
  }
]

deleted-AckStep :
    (id : ℤ) (ids : List ℤ)
    → AckStep (clears id) ids (ltb 0 (if has_ack id ids then 1 else 0)) (delete_id id ids)
deleted-AckStep id ids = record {
  tells = rw (has_ack-delete_id id id ids, int_eq_refl id) ground arith;
  quiet = λ h. delete_id_missing id ids (ground arith);
  leaves = λ j. has_ack-delete_id id j ids;
}

module _ {D : Type 0} (S : Sqlite D)
    (walk : List (Text × CachedDeviceState D) → List (Text × CachedDeviceState D))
    (laws : AckQueueLaws S) where
  open S use {World}
  open laws use {queue}

  abbrev opened : OfflineCache D → OfflineCache D
  opened c = record c { is_open = true }

  pending_acks-queue :
      (c : OfflineCache D) (w : World) → (pending_acks S walk (opened c) w).0 ≡ queue w
  unfolding pending_acks
  pending_acks-queue c w = rw (laws.selects w) refl

  ack_call_ready-AckStep :
      (call : AckCall) (c : OfflineCache D) (w : World)
      → let r = ack_call S walk call (opened c) w in AckStep call (queue w) r.0 (queue r.1)
  unfolding ack_call queue_ack clear_ack
  ack_call_ready-AckStep (queues id) c w =
      rw ((laws.inserts id w).0, (laws.inserts id w).1) (inserted-AckStep id (queue w))
  ack_call_ready-AckStep (clears id) c w =
      rw ((laws.deletes id w).0, (laws.deletes id w).1) (deleted-AckStep id (queue w))

  -- A call on a cache that is open signals a change exactly if it queues the id or takes it from the
  -- queue. Without a signal the queue stays as it is, and no other id is queued or removed.
  pub ack_call-AckStep :
      (call : AckCall) (c : OfflineCache D) (w : World)
      → c.is_open ≡ true
      → let r = ack_call S walk call c w in
        AckStep call (pending_acks S walk c w).0 r.0 (pending_acks S walk c r.1).0
  ack_call-AckStep call c w o =
      subst
        (λ (b : Bool).
          let c = record c { is_open = b } in
          let r = ack_call S walk call c w in
          AckStep call (pending_acks S walk c w).0 r.0 (pending_acks S walk c r.1).0)
        (sym o)
        (rw (pending_acks-queue c w, pending_acks-queue c (ack_call S walk call (opened c) w).1)
          (ack_call_ready-AckStep call c w))

  -- On a cache that is open, after any calls of `queueAck` and `clearAck`, an id is among the pending
  -- acknowledgements if the last call for it queued it, or if there was none and it was there before.
  pub pending_acks-last_asked :
      (calls : List AckCall) (c : OfflineCache D) (w : World) (j : ℤ)
      → c.is_open ≡ true
      → has_ack j (pending_acks S walk c (ack_calls S walk calls c w)).0
        ≡ last_asked j calls (has_ack j (pending_acks S walk c w).0)
  unfolding ack_calls last_asked
  pending_acks-last_asked [] c w j o = refl
  pending_acks-last_asked (call ∷ calls) c w j o =
      pending_acks-last_asked calls c (ack_call S walk call c w).1 j o
      ∙ ap (last_asked j calls) ((ack_call-AckStep call c w o).leaves j)
