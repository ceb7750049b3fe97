-- ===== src/AlarmEngine/Store/Delete.antt =====
-- `delete_rule` is one transaction.
use forge_sight.Prelude.{
  ◌≡◌, ◌≢◌, ◌⊎◌, ◌&&◌, not, subst, refl, sym, ap, ◌∙◌, inl, inr, Bool, true, false, Option, none,
  some, List, [], ◌∷◌, map, ℤ, int_eq, int_eq_iff, Doubles, Bool-cases, arith, if◌then◌else◌,
}
use forge_sight.Database.{
  Server, Session, RuleRow, AlarmRow, begin, commit, detach_alarms, remove_rule, is_command_ok,
}
use forge_sight.Database.Laws.{Tables, TransactionLaws, detach, drop_rule, refers_to}
use forge_sight.AlarmEngine.Store.{delete_rule}

-- The rule of an id, as the tables hold it.
pub find_rule : {D : Type 0} → ℤ → List (RuleRow D) → Option (RuleRow D)
find_rule id [] = none
find_rule id (r ∷ rules) = if int_eq r.id id then some r else find_rule id rules

-- An alarm without its reference to a rule.
abbrev pub history_of : {D : Type 0} → AlarmRow D → AlarmRow D
history_of a = record a { rule_id = none }

-- No alarm refers to the rule.
abbrev pub Unreferenced : {D : Type 0} → ℤ → List (AlarmRow D) → Type 0
Unreferenced id [] = Unit {0}
Unreferenced id (a ∷ alarms) = (a.rule_id ≢ some id) × Unreferenced id alarms

-- What the deletion of a rule means: the rule is gone, the other rules are as they were, the history
-- of alarms is complete, and none of it refers to the rule.
pub record Deleted {D : Type 0} (id : ℤ) (before after : Tables D) : Type 0 where
  pub gone : find_rule id after.rules ≡ none
  pub others : (j : ℤ) → j ≢ id → find_rule j after.rules ≡ find_rule j before.rules
  pub history : map history_of after.alarms ≡ map history_of before.alarms
  pub unreferenced : Unreferenced id after.alarms

refers_some : (o : Option ℤ) (id : ℤ) → refers_to o id ≡ false → o ≢ some id
refers_some none id h e = cc
refers_some (some i) id h e = ground (arith, int_eq_iff i id)

module _ {D : Type 0} where
  gone_lem : (id : ℤ) (rules : List (RuleRow D)) → find_rule id (drop_rule id rules) ≡ none
  unfolding find_rule drop_rule
  gone_lem id [] = refl
  gone_lem id (r ∷ rules) = ground (arith, gone_lem id rules)

  others_lem :
      (id j : ℤ) (rules : List (RuleRow D))
      → j ≢ id
      → find_rule j (drop_rule id rules) ≡ find_rule j rules
  unfolding find_rule drop_rule
  others_lem id j [] h = refl
  others_lem id j (r ∷ rules) h = elim (Bool-cases (int_eq r.id id)) [
    | inl e ↦ elim (Bool-cases (int_eq r.id j)) [
      | inl f ↦ absurd (h (sym ((int_eq_iff r.id j).0 f) ∙ (int_eq_iff r.id id).0 e))
      | inr f ↦ rw (e, f) (others_lem id j rules h)
    ]
    | inr e ↦ rw e (
        ap (λ (o : Option (RuleRow D)). if int_eq r.id j then some r else o)
          (others_lem id j rules h))
  ]

  history_lem :
      (id : ℤ) (alarms : List (AlarmRow D))
      → map history_of (detach id alarms) ≡ map history_of alarms
  unfolding detach
  history_lem id [] = refl
  history_lem id (a ∷ alarms) = elim (Bool-cases (refers_to a.rule_id id)) [
    | inl e ↦ rw e (ap (◌∷◌ (history_of a)) (history_lem id alarms))
    | inr e ↦ rw e (ap (◌∷◌ (history_of a)) (history_lem id alarms))
  ]

  unreferenced_lem : (id : ℤ) (alarms : List (AlarmRow D)) → Unreferenced id (detach id alarms)
  unfolding detach
  unreferenced_lem id [] = tt
  unreferenced_lem id (a ∷ alarms) = elim (Bool-cases (refers_to a.rule_id id)) [
    | inl e ↦ rw e ((λ h. cc), unreferenced_lem id alarms)
    | inr e ↦ rw e (refers_some a.rule_id id e, unreferenced_lem id alarms)
  ]

  Deleted_lem :
      (id : ℤ) (t : Tables D)
      → Deleted id t (record { rules = drop_rule id t.rules; alarms = detach id t.alarms })
  Deleted_lem id t = record {
    gone = gone_lem id t.rules;
    others = λ j h. others_lem id j t.rules h;
    history = history_lem id t.alarms;
    unreferenced = unreferenced_lem id t.alarms;
  }

-- The committed tables after a call of `delete_rule`, by its result and by whether it came to a COMMIT
-- that was not answered well.
abbrev pub Outcome : {D : Type 0} → ℤ → Bool → Bool → Tables D → Tables D → Type 0
Outcome id true doubt before after = Deleted id before after
Outcome id false false before after = after ≡ before
Outcome id false true before after = (after ≡ before) ⊎ Deleted id before after

either_way :
    {D : Type 0} {last committed between before whole : Tables D}
    → last ≡ committed
    → between ≡ before
    → (committed ≡ between) ⊎ (committed ≡ whole)
    → (last ≡ before) ⊎ (last ≡ whole)
either_way e f (inl g) = inl (e ∙ g ∙ f)
either_way e f (inr g) = inr (e ∙ g)

module _ {D : Type 0} (S : Server D) where
  -- Both updates of the transaction succeed, and its COMMIT does not.
  unfoldable pub commit_fails : Session → ℤ → S.World → Bool
  commit_fails c id w =
      let begun = S.exec c begin w in
      let upd = S.exec c (detach_alarms id) begun.1 in
      let res = S.exec c (remove_rule id) upd.1 in
      is_command_ok begun.0
      && (is_command_ok upd.0
          && (is_command_ok res.0 && not (is_command_ok (S.exec c commit res.1).0)))

module _ (F : Doubles) (S : Server (F.Double)) (laws : TransactionLaws S) where
  open F use {Double}
  open S use {World, exec}
  open laws use {tables, view}

  in_doubt_Outcome :
      (id : ℤ) (before after committed : Tables Double)
      → Deleted id before committed
      → (after ≡ before) ⊎ (after ≡ committed)
      → Outcome id false true before after
  in_doubt_Outcome id before after committed d (inl e) = inl e
  in_doubt_Outcome id before after committed d (inr e) = inr (subst (Deleted id before) (sym e) d)

  -- If `delete_rule` returns true the rule is deleted and its alarms stay, detached from it. If it
  -- returns false the committed tables are as they were, at whatever statement before the COMMIT it
  -- failed; if the COMMIT was not answered well they are as they were or the rule is deleted as a
  -- whole.
  pub delete_rule_atomic :
      (c : Session) (id : ℤ) (w : World)
      → let r = delete_rule F S (some c) id w in
        Outcome id r.0 (commit_fails S c id w) (tables w) (tables r.1)
  unfolding delete_rule commit_fails
  delete_rule_atomic c id w =
      let w1 = (exec c begin w).1 in
      let w2 = (exec c (detach_alarms id) w1).1 in
      let w3 = (exec c (remove_rule id) w2).1 in
      let w4 = (exec c commit w3).1 in
      elim (Bool-cases (is_command_ok (exec c begin w).0)) [
        | inr no1 ↦ rw no1 (laws.refuses c begin w tt no1)
        | inl yes1 ↦
            let (open1, same1, view1) = laws.begins c w yes1 in
            elim (Bool-cases (is_command_ok (exec c (detach_alarms id) w1).0)) [
              | inr no2 ↦
                  rw (yes1, no2)
                    (laws.rolls_back c w2 ∙ (laws.refuses c (detach_alarms id) w1 tt no2 ∙ same1))
              | inl yes2 ↦
                  let (open2, same2, view2) = laws.detaches c id w1 open1 yes2 in
                  elim (Bool-cases (is_command_ok (exec c (remove_rule id) w2).0)) [
                    | inr no3 ↦
                        rw (yes1, yes2, no3)
                          (laws.rolls_back c w3
                            ∙ (laws.refuses c (remove_rule id) w2 tt no3 ∙ (same2 ∙ same1)))
                    | inl yes3 ↦
                        let (open3, same3, view3) = laws.removes c id w2 open2 yes3 in
                        let deleted : Deleted id (tables w) (view c w3) =
                          rw (view3, view2, view1) (Deleted_lem id (tables w)) in
                        elim (Bool-cases (is_command_ok (exec c commit w3).0)) [
                          | inr no4 ↦
                              rw (yes1, yes2, yes3, no4)
                                (in_doubt_Outcome id (tables w) _ (view c w3) deleted (
                                  either_way (laws.rolls_back c w4) (same3 ∙ (same2 ∙ same1))
                                    (laws.in_doubt c w3 open3 no4)))
                          | inl yes4 ↦
                              rw (yes1, yes2, yes3, yes4)
                                (subst (Deleted id (tables w)) (sym (laws.commits c w3 open3 yes4))
                                  deleted)
                        ]
                  ]
            ]
      ]
