-- ===== src/AlarmEngine/Seed/Loaded.antt =====
-- What the alarm engine loads after the default rules were seeded.
use forge_sight.Prelude.{
  ◌≡◌, refl, sym, ap, ◌∙◌, ◌⊎◌, inl, inr, ℕ, ◌+◌, true, false, none, some, List, [], ◌∷◌, ◌++◌, map,
  length, Text, Doubles, Bool-cases, is_empty, arith,
}
use forge_sight.Database.{Server, RuleRow, failed, rule_rows, select_rules, store_conn}
use forge_sight.AlarmEngine.Types.{Rule}
use forge_sight.AlarmEngine.Store.{rule_of_row, try_load_rules, load_rules}
use forge_sight.AlarmEngine.Seed.{default_rules, add_rules, seed_default_rules}
use forge_sight.AlarmEngine.Seed.Table.{
  RuleTable, IsExact, without_id, without_template, bare, add_rules-rules,
}

is_empty-nil : {A : Type 0} → (xs : List A) → is_empty xs ≡ true → xs ≡ []
is_empty-nil [] e = refl
is_empty-nil (x ∷ xs) e = absurd (cc)

is_empty-map : {A B : Type 0} → (f : A → B) (xs : List A) → is_empty (map f xs) ≡ is_empty xs
is_empty-map f [] = refl
is_empty-map f (x ∷ xs) = refl

zero_or_eight : (n : ℕ) → n ≡ 0 → n ≡ 8 → ⊥
zero_or_eight n e f = omega (arith, e, f)

none_or_some : {A : Type 0} → {x : A} → none ≡ some x → ⊥
none_or_some e = cc

some_rules : {A : Type 0} → {x y : A} → some x ≡ some y → x ≡ y
some_rules e = cc

map_twice :
    {D : Type 0} → (rows : List (RuleRow D)) → map without_id (map rule_of_row rows) ≡ bare rows
map_twice [] = refl
map_twice (row ∷ rows) = ap (◌∷◌ (without_id (rule_of_row row))) (map_twice rows)

eight_rules : {D : Type 0} → (tenths : ℕ → D) → 0 + length (default_rules tenths) ≡ 8
unfolding default_rules
eight_rules tenths = refl

module _ (F : Doubles) (S : Server (F.Double)) (read : Text → F.Double)
    (laws : RuleTable S read) where
  open F use {Double, to_string}
  open S use {World, exec}
  open laws use {rules}

  try_load_rules-failed :
      (w : World)
      → (exec store_conn select_rules w).0 ≡ failed
      → (try_load_rules F S (some store_conn) w).0 ≡ none
  unfolding try_load_rules
  try_load_rules-failed w e = rw e refl

  try_load_rules-rows :
      (w : World)
      → (exec store_conn select_rules w).0 ≡ rule_rows (rules w)
      → (try_load_rules F S (some store_conn) w).0 ≡ some (map rule_of_row (rules w))
  unfolding try_load_rules
  try_load_rules-rows w e = rw e refl

  load_rules-rows :
      (w : World)
      → (exec store_conn select_rules w).0 ≡ rule_rows (rules w)
      → (load_rules F S (some store_conn) w).0 ≡ map rule_of_row (rules w)
  unfolding load_rules try_load_rules
  load_rules-rows w e = rw (load_rules, try_load_rules, e) refl

  load_rules-rules :
      (w : World) → bare (rules (load_rules F S (some store_conn) w).1) ≡ bare (rules w)
  unfolding load_rules try_load_rules
  load_rules-rules w = ap bare (laws.keeps store_conn w)

  loaded_rules :
      (w : World) (loaded : List (Rule Double))
      → (try_load_rules F S (some store_conn) w).0 ≡ some loaded
      → map without_id loaded ≡ bare (rules w)
  loaded_rules w loaded e = elim (laws.selects store_conn w) [
    | inl failing ↦ absurd (none_or_some (sym (try_load_rules-failed w failing) ∙ e))
    | inr rows ↦
        ap (λ rs. map without_id rs) (some_rules (sym e ∙ try_load_rules-rows w rows))
        ∙ map_twice (rules w)
  ]

  existing_none :
      (w : World)
      → is_empty (load_rules F S (some store_conn) w).0 ≡ true
      → (rules w ≡ []) ⊎ ((exec store_conn select_rules w).0 ≡ failed)
  existing_none w e = elim (laws.selects store_conn w) [
    | inl failing ↦ inr failing
    | inr rows ↦ inl (
        is_empty-nil (rules w) (
          sym (is_empty-map rule_of_row (rules w))
          ∙ (ap is_empty (sym (load_rules-rows w rows)) ∙ e)))
  ]

  seed_default_rules-adds :
      (tenths : ℕ → Double) (w : World)
      → is_empty (load_rules F S (some store_conn) w).0 ≡ true
      → (seed_default_rules F S tenths w).0
        ≡ (add_rules F S (default_rules tenths) 0 (load_rules F S (some store_conn) w).1).0
  unfolding seed_default_rules
  seed_default_rules-adds tenths w e = rw (seed_default_rules, e) refl

  seed_default_rules-rules :
      (tenths : ℕ → Double) (w : World)
      → IsExact F read (default_rules tenths)
      → is_empty (load_rules F S (some store_conn) w).0 ≡ true
      → (seed_default_rules F S tenths w).0 ≡ 8
      → bare (rules (seed_default_rules F S tenths w).1)
        ≡ bare (rules w) ++ map without_template (default_rules tenths)
  unfolding seed_default_rules
  seed_default_rules-rules tenths w exact e seeded =
      let before = load_rules F S (some store_conn) w in
      rw (seed_default_rules, e)
        (add_rules-rules F S read laws (default_rules tenths) 0 before.1 exact
            (sym (seed_default_rules-adds tenths w e) ∙ seeded ∙ sym (eight_rules tenths))
          ∙ ap (λ rows. rows ++ map without_template (default_rules tenths)) (load_rules-rules w))

  seed_default_rules-nothing :
      (tenths : ℕ → Double) (w : World)
      → is_empty (load_rules F S (some store_conn) w).0 ≡ false
      → (seed_default_rules F S tenths w).0 ≡ 0
  unfolding seed_default_rules
  seed_default_rules-nothing tenths w e = rw (seed_default_rules, e) refl

  -- If `seed_default_rules` reports eight rules, then the rules that the alarm engine loads next are
  -- those of before, followed by the eight default rules in order, each with its device, sensor,
  -- condition, threshold and severity and without its message template; and either there were no
  -- rules before, or the query for them had failed.
  pub load_rules-seed_default_rules :
      (tenths : ℕ → Double) (w : World) (loaded : List (Rule Double))
      → IsExact F read (default_rules tenths)
      → (seed_default_rules F S tenths w).0 ≡ 8
      → (try_load_rules F S (some store_conn) (seed_default_rules F S tenths w).1).0 ≡ some loaded
      → (map without_id loaded ≡ bare (rules w) ++ map without_template (default_rules tenths))
        × ((rules w ≡ []) ⊎ ((exec store_conn select_rules w).0 ≡ failed))
  unfolding seed_default_rules
  load_rules-seed_default_rules tenths w loaded exact seeded reads =
      elim (Bool-cases (is_empty (load_rules F S (some store_conn) w).0)) [
        | inl e ↦ (
          loaded_rules _ loaded reads ∙ seed_default_rules-rules tenths w exact e seeded,
          existing_none w e,
        )
        | inr e ↦ absurd (zero_or_eight _ (seed_default_rules-nothing tenths w e) seeded)
      ]
