-- ===== src/Api/RuleService/Delete.antt =====
-- The service deletes a rule as the alarm engine does.
use forge_sight.Prelude.{◌≡◌, refl, Bool, false, Option, none, some, ℤ, Doubles}
use forge_sight.Database.{Server, Session}
use forge_sight.Database.Laws.{TransactionLaws}
use forge_sight.AlarmEngine.Store
use forge_sight.AlarmEngine.Store.{delete_rule}
use forge_sight.AlarmEngine.Store.Delete.{Outcome, commit_fails, delete_rule_atomic}
use forge_sight.Api.RuleService.{delete_service_rule, roll_back}

module _ (F : Doubles) (S : Server (F.Double)) where
  same_as_engine :
      (c : Option Session) (id : ℤ) (w : S.World)
      → delete_service_rule F S c id w ≡ delete_rule F S c id w
  unfolding delete_service_rule delete_rule roll_back Store.roll_back
  same_as_engine none id w = refl
  same_as_engine (some c) id w = refl

  -- Whether the transaction fails in its COMMIT; without a connection there is none.
  unfoldable pub deletion_in_doubt : Option Session → ℤ → S.World → Bool
  deletion_in_doubt none id w = false
  deletion_in_doubt (some c) id w = commit_fails S c id w

  module _ (laws : TransactionLaws S) where
    open laws use {tables}

    -- If `RuleService::delete_rule` returns true the rule is deleted and its alarms stay, detached from
    -- it. If it returns false, at whatever statement before the COMMIT it failed or without a
    -- connection, the committed tables are as they were; if the COMMIT was not answered well they are
    -- as they were or the rule is deleted as a whole.
    pub delete_service_rule_atomic :
        (c : Option Session) (id : ℤ) (w : S.World)
        → let r = delete_service_rule F S c id w in
          Outcome id r.0 (deletion_in_doubt c id w) (tables w) (tables r.1)
    unfolding delete_service_rule deletion_in_doubt
    delete_service_rule_atomic none id w = refl
    delete_service_rule_atomic (some c) id w =
        rw (same_as_engine (some c) id w) (delete_rule_atomic F S laws c id w)
