-- ===== src/AlarmEngine/Seed/Table.antt =====
-- The table of rules, and what the loop of seed_default_rules leaves in it.
use forge_sight.Prelude.{
  ◌≡◌, refl, sym, ap, ◌∙◌, ◌⊎◌, ℕ, suc, ◌+◌, ◌≤◌, Bool, true, false, some, List, [], ◌∷◌, ◌++◌, map,
  append_assoc, append-nil, length, Text, ℤ, pos, Doubles, arith, if◌then◌else◌,
}
use forge_sight.Database.{
  Server, Session, RuleRow, failed, rule_rows, select_rules, insert_rule, is_command_ok, store_conn,
}
use forge_sight.AlarmEngine.Types.{
  Rule, condition_to_string, severity_to_string, from_string-to_string,
}
use forge_sight.AlarmEngine.Store.{rule_of_row, add_rule}
use forge_sight.AlarmEngine.Seed.{add_rules}

-- The table `alarm_rules` in order of id. `read` is how a threshold is read from the text sent: an
-- accepted INSERT appends its row with a new id, the query for the rules changes nothing, and its
-- answer is the table or an error.
pub record RuleTable {D : Type 0} (S : Server D) (read : Text → D) : Type 0 where
  pub rules : S.World → List (RuleRow D)
  pub selects :
      (c : Session) (w : S.World)
      → ((S.exec c select_rules w).0 ≡ failed) ⊎ ((S.exec c select_rules w).0 ≡ rule_rows (rules w))
  pub keeps : (c : Session) (w : S.World) → rules (S.exec c select_rules w).1 ≡ rules w
  pub inserts :
      (c : Session) (dev sen condition threshold severity template : Text) (w : S.World)
      → let r = S.exec c (insert_rule dev sen condition threshold severity template) w in
        is_command_ok r.0 ≡ true
        → (new : ℤ) × (rules r.1
            ≡ rules w
              ++ (record {
                id = new;
                device_id = dev;
                sensor = sen;
                condition = condition;
                threshold = read threshold;
                severity = severity;
              }
                  ∷ []))

-- A rule as it is read back, up to its id: without its message template.
abbrev pub without_template : {D : Type 0} → Rule D → Rule D
without_template r = record r { id = pos 0; message_template = [] }

-- A loaded rule up to its id.
abbrev pub without_id : {D : Type 0} → Rule D → Rule D
without_id r = record r { id = pos 0 }

abbrev pub bare : {D : Type 0} → List (RuleRow D) → List (Rule D)
bare rows = map (λ row. without_id (rule_of_row row)) rows

-- The thresholds are read back from the text that to_string prints.
abbrev pub IsExact : (F : Doubles) → (Text → F.Double) → List (Rule (F.Double)) → Type 0
IsExact F read [] = Unit {0}
IsExact F read (r ∷ rules) = (read (F.to_string r.threshold) ≡ r.threshold) × IsExact F read rules

counted : (added : Bool) (count : ℕ) → (if added then count + 1 else count) ≤ count + 1
counted true count = omega arith
counted false count = omega arith

all_accepted :
    (added : Bool) (count others total : ℕ)
    → total ≤ (if added then count + 1 else count) + others
    → total ≡ count + suc others
    → added ≡ true
all_accepted true count others total most all = refl
all_accepted false count others total most all = absurd (omega (arith, most, all))

counted_all :
    (added : Bool) (count others total : ℕ)
    → added ≡ true
    → total ≡ count + suc others
    → total ≡ (if added then count + 1 else count) + others
counted_all true count others total e all = omega (arith, all)
counted_all false count others total e all = absurd (cc)

module _ (F : Doubles) (S : Server (F.Double)) (read : Text → F.Double)
    (laws : RuleTable S read) where
  open F use {Double, to_string}
  open S use {World, exec}
  open laws use {rules}

  add_rules_most :
      (rs : List (Rule Double)) (count : ℕ) (w : World)
      → (add_rules F S rs count w).0 ≤ count + length rs
  unfolding add_rules
  add_rules_most [] count w = omega arith
  add_rules_most (r ∷ rs) count w =
      let added = add_rule F S (some store_conn) r w in
      let next = if added.0 then count + 1 else count in
      omega (arith, add_rules_most rs next added.1, counted added.0 count)

  bare-append : (xs ys : List (RuleRow Double)) → bare (xs ++ ys) ≡ bare xs ++ bare ys
  bare-append [] ys = refl
  bare-append (x ∷ xs) ys = ap (◌∷◌ (without_id (rule_of_row x))) (bare-append xs ys)

  add_rule-rules :
      (r : Rule Double) (w : World)
      → read (to_string r.threshold) ≡ r.threshold
      → (add_rule F S (some store_conn) r w).0 ≡ true
      → bare (rules (add_rule F S (some store_conn) r w).1)
        ≡ bare (rules w) ++ (without_template r ∷ [])
  unfolding add_rule rule_of_row
  add_rule-rules r w exact accepted =
      let stored = from_string-to_string r.condition r.severity in
      let (new, e) =
        laws.inserts store_conn r.device_id r.sensor (condition_to_string r.condition)
          (to_string r.threshold) (severity_to_string r.severity) r.message_template w accepted in
      ap bare e ∙ bare-append (rules w) _ ∙ rw (exact, stored.0, stored.1) refl

  pub add_rules-rules :
      (rs : List (Rule Double)) (count : ℕ) (w : World)
      → IsExact F read rs
      → (add_rules F S rs count w).0 ≡ count + length rs
      → bare (rules (add_rules F S rs count w).1) ≡ bare (rules w) ++ map without_template rs
  unfolding add_rules
  add_rules-rules [] count w exact all = sym (append-nil _)
  add_rules-rules (r ∷ rs) count w exact all =
      let added = add_rule F S (some store_conn) r w in
      let next = if added.0 then count + 1 else count in
      let accepted =
        all_accepted added.0 count (length rs) _ (add_rules_most rs next added.1) all in
      add_rules-rules rs next added.1 exact.1 (counted_all added.0 count (length rs) _ accepted all)
      ∙ ap (λ rows. rows ++ map without_template rs) (add_rule-rules r w exact.0 accepted)
      ∙ append_assoc (bare (rules w)) (without_template r ∷ []) (map without_template rs)
