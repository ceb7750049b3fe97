-- ===== src/Api/Routes/Access.antt =====
-- What a request without the key, or without a database, can do.
use forge_sight.Prelude.{
  ◌≡◌, ◌≢◌, ◌⊎◌, refl, inl, inr, Bool, true, false, Option, none, some, [], ◌∷◌, Text, text_eq,
  text_eq_iff, ℤ, Doubles, Bool-cases, if◌then◌else◌,
}
use forge_sight.Database.{Server, Session}
use forge_sight.Database.Laws.{Tables, TransactionLaws}
use forge_sight.AlarmEngine.Store.Delete.{Deleted, Outcome}
use forge_sight.Api.RuleService.{delete_service_rule}
use forge_sight.Api.RuleService.Delete.{deletion_in_doubt, delete_service_rule_atomic}
use forge_sight.Api.Routes.{
  Route, get_devices, get_latest, get_history_of, get_alarms, get_rules, post_rule, health,
  get_rule_by, put_rule, delete_rule_by, post_ack, Request, Status, ok, unauthorized, not_found,
  nothing, status_ok, Response, is_authorized, handle, serve,
}

-- The answer that a request without the right key gets.
pub refusal : {D : Type 0} → Route → Response D
refusal health = (ok, status_ok)
refusal _ = (unauthorized, nothing)

not_authorized :
    (api_key : Text) (r : Request)
    → api_key ≢ []
    → r.api_key ≢ api_key
    → is_authorized api_key r ≡ false
unfolding is_authorized
not_authorized [] r h k = absurd (h refl)
not_authorized (c ∷ key) r h k = elim (Bool-cases (text_eq r.api_key (c ∷ key))) [
  | inl e ↦ absurd (k ((text_eq_iff r.api_key (c ∷ key)).0 e))
  | inr e ↦ e
]

module _ (F : Doubles) (S : Server (F.Double)) (to_long_long to_int : Text → Option ℤ)
    (text : Text → Text → Text) (double : Text → Text → F.Double) where
  -- Every lambda but the health check answers 401 and leaves the database alone.
  pub serve_refuses :
      (api_key : Text) (c : Option Session) (route : Route) (r : Request) (w : S.World)
      → api_key ≢ []
      → r.api_key ≢ api_key
      → serve F S to_long_long to_int text double api_key c route r w ≡ (refusal route, w)
  unfolding serve refusal handle
  serve_refuses api_key c health r w h k = refl
  serve_refuses api_key c get_devices r w h k = rw (not_authorized api_key r h k)
  serve_refuses api_key c get_latest r w h k = rw (not_authorized api_key r h k)
  serve_refuses api_key c (get_history_of dev sen) r w h k = rw (not_authorized api_key r h k)
  serve_refuses api_key c get_alarms r w h k = rw (not_authorized api_key r h k)
  serve_refuses api_key c get_rules r w h k = rw (not_authorized api_key r h k)
  serve_refuses api_key c post_rule r w h k = rw (not_authorized api_key r h k)
  serve_refuses api_key c (get_rule_by arg) r w h k = rw (not_authorized api_key r h k)
  serve_refuses api_key c (put_rule arg) r w h k = rw (not_authorized api_key r h k)
  serve_refuses api_key c (delete_rule_by arg) r w h k = rw (not_authorized api_key r h k)
  serve_refuses api_key c (post_ack arg) r w h k = rw (not_authorized api_key r h k)

-- What an answer to DELETE says of the committed tables: 200 that the rule of the id is deleted, 404
-- after a COMMIT in doubt that it is deleted or nothing changed, any other that nothing changed.
abbrev pub Answered : {D : Type 0} → Status → Bool → Option ℤ → Tables D → Tables D → Type 0
Answered ok doubt (some id) before after = Deleted id before after
Answered ok doubt none before after = ⊥
Answered not_found true (some id) before after = (after ≡ before) ⊎ Deleted id before after
Answered _ doubt id before after = after ≡ before

module _ (F : Doubles) (S : Server (F.Double)) where
  -- Whether the deletion of the parsed id fails in its COMMIT.
  unfoldable pub in_doubt : Option Session → Option ℤ → S.World → Bool
  in_doubt c none w = false
  in_doubt c (some id) w = deletion_in_doubt F S c id w

module _ (F : Doubles) (S : Server (F.Double)) (to_long_long to_int : Text → Option ℤ)
    (text : Text → Text → Text) (double : Text → Text → F.Double) (laws : TransactionLaws S) where
  open laws use {tables}

  answered_lem :
      (id : ℤ) (before after : Tables (F.Double)) (b doubt : Bool)
      → Outcome id b doubt before after
      → Answered (if b then ok else not_found) doubt (some id) before after
  answered_lem id before after true doubt h = h
  answered_lem id before after false false h = h
  answered_lem id before after false true h = h

  delete_arg :
      (api_key : Text) (c : Option Session) (arg : Text) (r : Request) (w : S.World)
      (parsed : Option ℤ)
      → to_long_long arg ≡ parsed
      → is_authorized api_key r ≡ true
      → let res = serve F S to_long_long to_int text double api_key c (delete_rule_by arg) r w in
        Answered res.0.0 (in_doubt F S c parsed w) parsed (tables w) (tables res.1)
  unfolding serve handle in_doubt
  delete_arg api_key c arg r w none e h = rw (h, e, handle)
  delete_arg api_key c arg r w (some id) e h =
      rw (h, e, handle)
        (answered_lem id (tables w) (tables (delete_service_rule F S c id w).1)
          (delete_service_rule F S c id w).0 (in_doubt F S c (some id) w)
          (delete_service_rule_atomic F S laws c id w))

  -- Whatever a DELETE request for a rule carries: an answer with status 200 means that the rule of
  -- the id in its path is deleted with its alarms kept, and any other status that the committed tables
  -- are as they were, except that after a COMMIT that was not answered well the rule may be deleted.
  pub serve_deletes :
      (api_key : Text) (c : Option Session) (arg : Text) (r : Request) (w : S.World)
      → let res = serve F S to_long_long to_int text double api_key c (delete_rule_by arg) r w in
        Answered res.0.0
          (in_doubt F S c (to_long_long arg) w)
          (to_long_long arg)
          (tables w)
          (tables res.1)
  unfolding serve
  serve_deletes api_key c arg r w = elim (Bool-cases (is_authorized api_key r)) [
    | inl h ↦ delete_arg api_key c arg r w (to_long_long arg) refl h
    | inr h ↦ rw h
  ]
