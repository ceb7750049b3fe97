-- ===== src/Ui/AlarmModel/Rows.antt =====
-- The model as a map from ids to alarms: one row for each id, whatever is added and acknowledged.
use forge_sight.Prelude.{
  ◌≡◌, ◌≢◌, refl, sym, ap, inl, inr, ℕ, suc, true, Option, none, some, List, [], ◌∷◌, ◌++◌, ℤ,
  int_eq, int_eq_iff, Bool-cases, get_elem?, set, arith, if◌then◌else◌,
}
use forge_sight.Ui.AlarmModel.{
  AlarmEntry, find_alarm, add_alarm, overwrite, acknowledge, acknowledge_row,
}

module _ {D : Type 0} where
  -- The alarm of an id.
  unfoldable pub lookup_alarm : ℤ → List (AlarmEntry D) → Option (AlarmEntry D)
  lookup_alarm id [] = none
  lookup_alarm id (a ∷ alarms) = if int_eq a.id id then some a else lookup_alarm id alarms

  abbrev pub marked : Option (AlarmEntry D) → Option (AlarmEntry D)
  marked none = none
  marked (some a) = some (record a { acknowledged = true })

  abbrev Absent : ℤ → List (AlarmEntry D) → Type 0
  Absent id [] = Unit {0}
  Absent id (a ∷ alarms) = (a.id ≢ id) × Absent id alarms

  -- No two rows have one id.
  abbrev pub Distinct : List (AlarmEntry D) → Type 0
  Distinct [] = Unit {0}
  Distinct (a ∷ alarms) = Absent a.id alarms × Distinct alarms

  -- `add_alarm` and `acknowledge` by recursion: change the first row of the id; `add_alarm` appends
  -- where there is none.
  put : ℤ → AlarmEntry D → List (AlarmEntry D) → List (AlarmEntry D)
  put id a [] = a ∷ []
  put id a (b ∷ alarms) = if int_eq b.id id then a ∷ alarms else b ∷ put id a alarms

  abbrev mark : AlarmEntry D → AlarmEntry D
  mark a = record a { acknowledged = true }

  unfoldable pub mark_first : ℤ → List (AlarmEntry D) → List (AlarmEntry D)
  mark_first id [] = []
  mark_first id (b ∷ alarms) = if int_eq b.id id then mark b ∷ alarms else b ∷ mark_first id alarms

  -- The search finds no row, or a row that holds an alarm.
  data Found (id : ℤ) (alarms : List (AlarmEntry D)) : Type 0 where
    missing :
        find_alarm id alarms ≡ none
        → ((a : AlarmEntry D) → put id a alarms ≡ alarms ++ (a ∷ []))
        → mark_first id alarms ≡ alarms
        → Found id alarms
    found :
        (row : ℕ) (old : AlarmEntry D)
        → find_alarm id alarms ≡ some row
        → get_elem? alarms row ≡ some old
        → ((a : AlarmEntry D) → put id a alarms ≡ set alarms row a)
        → mark_first id alarms ≡ acknowledge_row alarms row
        → Found id alarms

  find_alarm-Found : (id : ℤ) (alarms : List (AlarmEntry D)) → Found id alarms
  unfolding find_alarm put mark_first acknowledge_row
  find_alarm-Found id [] = missing refl (λ a. refl) refl
  find_alarm-Found id (b ∷ alarms) = elim (Bool-cases (int_eq b.id id)) [
    | inl hit ↦ found 0 b (rw hit) refl (λ a. rw hit) (rw hit)
    | inr miss ↦ elim (find_alarm-Found id alarms) [
      | missing e p m ↦ missing (rw (miss, e)) (λ a. rw miss (ap (◌∷◌ b) (p a))) (rw (miss, m))
      | found row old e g p m ↦
          found (suc row) old (rw (miss, e)) g (λ a. rw miss (ap (◌∷◌ b) (p a))) (rw (miss, m))
    ]
  ]

  add_alarm-put :
      (a : AlarmEntry D) (alarms : List (AlarmEntry D)) → (add_alarm a alarms).0 ≡ put a.id a alarms
  unfolding add_alarm
  add_alarm-put a alarms = elim (find_alarm-Found a.id alarms) [
    | missing e p m ↦ rw (e, add_alarm) (sym (p a))
    | found row old e g p m ↦ rw (e, add_alarm, g, overwrite) (sym (p a))
  ]

  pub acknowledge-mark_first :
      (id : ℤ) (alarms : List (AlarmEntry D)) → (acknowledge id alarms).0 ≡ mark_first id alarms
  unfolding acknowledge
  acknowledge-mark_first id alarms = elim (find_alarm-Found id alarms) [
    | missing e p m ↦ rw (e, acknowledge) (sym m)
    | found row old e g p m ↦ rw (e, acknowledge) (sym m)
  ]

  lookup-put :
      (a : AlarmEntry D) (j : ℤ) (alarms : List (AlarmEntry D))
      → lookup_alarm j (put a.id a alarms)
        ≡ (if int_eq a.id j then some a else lookup_alarm j alarms)
  unfolding lookup_alarm put
  lookup-put a j [] = refl
  lookup-put a j (b ∷ alarms) =
      ground
        (arith, int_eq_iff b.id a.id, int_eq_iff b.id j, int_eq_iff a.id j, lookup-put a j alarms)

  lookup-mark_first :
      (id j : ℤ) (alarms : List (AlarmEntry D))
      → lookup_alarm j (mark_first id alarms)
        ≡ (if int_eq id j then marked (lookup_alarm j alarms) else lookup_alarm j alarms)
  unfolding lookup_alarm mark_first
  lookup-mark_first id j [] = ground arith
  lookup-mark_first id j (b ∷ alarms) =
      ground (
        arith,
        int_eq_iff b.id id,
        int_eq_iff b.id j,
        int_eq_iff id j,
        lookup-mark_first id j alarms,
      )

  -- After `add_alarm` the new alarm stands under its id, and every other id has the alarm that it had.
  pub lookup-add_alarm :
      (a : AlarmEntry D) (j : ℤ) (alarms : List (AlarmEntry D))
      → lookup_alarm j (add_alarm a alarms).0
        ≡ (if int_eq a.id j then some a else lookup_alarm j alarms)
  lookup-add_alarm a j alarms = rw (add_alarm-put a alarms) (lookup-put a j alarms)

  -- `acknowledge` marks the alarm of its id, if there is one; every other id has the alarm that it had.
  pub lookup-acknowledge :
      (id j : ℤ) (alarms : List (AlarmEntry D))
      → lookup_alarm j (acknowledge id alarms).0
        ≡ (if int_eq id j then marked (lookup_alarm j alarms) else lookup_alarm j alarms)
  lookup-acknowledge id j alarms =
      rw (acknowledge-mark_first id alarms) (lookup-mark_first id j alarms)

  Absent-put :
      (i : ℤ) (a : AlarmEntry D) (alarms : List (AlarmEntry D))
      → a.id ≢ i
      → Absent i alarms
      → Absent i (put a.id a alarms)
  unfolding put
  Absent-put i a [] h k = (h, tt)
  Absent-put i a (b ∷ alarms) h k = ground (arith, Absent-put i a alarms h k.1)

  put-Distinct :
      (a : AlarmEntry D) (alarms : List (AlarmEntry D))
      → Distinct alarms
      → Distinct (put a.id a alarms)
  unfolding put
  put-Distinct a [] d = (tt, tt)
  put-Distinct a (b ∷ alarms) d = elim (Bool-cases (int_eq b.id a.id)) [
    | inl hit ↦ rw hit (rw ((int_eq_iff b.id a.id).0 hit) at d.0, d.1)
    | inr miss ↦ rw miss (
      Absent-put b.id a alarms (λ e. cc (miss, (int_eq_iff b.id a.id).1 (sym e))) d.0,
      put-Distinct a alarms d.1,
    )
  ]

  Absent-mark_first :
      (i id : ℤ) (alarms : List (AlarmEntry D)) → Absent i alarms → Absent i (mark_first id alarms)
  unfolding mark_first
  Absent-mark_first i id [] h = tt
  Absent-mark_first i id (b ∷ alarms) h = ground (arith, Absent-mark_first i id alarms h.1)

  mark_first-Distinct :
      (id : ℤ) (alarms : List (AlarmEntry D)) → Distinct alarms → Distinct (mark_first id alarms)
  unfolding mark_first
  mark_first-Distinct id [] d = tt
  mark_first-Distinct id (b ∷ alarms) d = elim (Bool-cases (int_eq b.id id)) [
    | inl hit ↦ rw hit d
    | inr miss ↦ rw miss (Absent-mark_first b.id id alarms d.0, mark_first-Distinct id alarms d.1)
  ]

  -- A model with one row for each id stays one when an alarm is added.
  pub add_alarm-Distinct :
      (a : AlarmEntry D) (alarms : List (AlarmEntry D))
      → Distinct alarms
      → Distinct (add_alarm a alarms).0
  add_alarm-Distinct a alarms d = rw (add_alarm-put a alarms) (put-Distinct a alarms d)

  -- A model with one row for each id stays one when an alarm is acknowledged.
  pub acknowledge-Distinct :
      (id : ℤ) (alarms : List (AlarmEntry D)) → Distinct alarms → Distinct (acknowledge id alarms).0
  acknowledge-Distinct id alarms d =
      rw (acknowledge-mark_first id alarms) (mark_first-Distinct id alarms d)
