-- ===== src/Ui/ApiClient/Bootstrap.antt =====
-- The signal bootstrapFinished of a client that seeds the models.
use forge_sight.Prelude.{
  ◌≡◌, refl, ap, ◌∙◌, inl, inr, ℕ, ◌+◌, ◌-◌, leb, List, [], ◌∷◌, ◌++◌, map, Text, Bool-cases,
  Option-cases, arith, if◌then◌else◌,
}
use forge_sight.Ui.ApiClient.{
  Json, ApiClient, NetworkReply, Waiting, latest_readings, all_alarms, all_devices, ApiSignal,
  bootstrap_finished, bootstrap, set_busy, begin_pending, end_pending, is_ok,
}
use forge_sight.Ui.ApiClient.Replies.{finish_get, for_each, finish}
use forge_sight.Ui.ApiClient.Requests.{get_json, start}
use forge_sight.Ui.ApiClient.Busy.{finish_lem}

-- The requests of a bootstrap.
pub data Seeds : Waiting → Type 0 where
  seeds_readings : Seeds latest_readings
  seeds_alarms : Seeds all_alarms
  seeds_devices : Seeds all_devices

module _ {D : Type 0} where
  abbrev is_finished : ApiSignal D → ℕ
  is_finished bootstrap_finished = 1
  is_finished _ = 0

  -- How often bootstrapFinished is emitted.
  unfoldable pub finished_count : List (ApiSignal D) → ℕ
  finished_count [] = 0
  finished_count (s ∷ signals) = is_finished s + finished_count signals

  finished_count_append :
      (a b : List (ApiSignal D)) → finished_count (a ++ b) ≡ finished_count a + finished_count b
  unfolding finished_count
  finished_count_append [] b = omega arith
  finished_count_append (s ∷ a) b = omega (arith, finished_count_append a b)

  finished_count-map :
      {A : Type 0} (f : A → ApiSignal D) (xs : List A)
      → ((x : A) → is_finished (f x) ≡ 0)
      → finished_count (map f xs) ≡ 0
  unfolding finished_count
  finished_count-map f [] h = refl
  finished_count-map f (x ∷ xs) h = omega (arith, h x, finished_count-map f xs h)

end_pending-finished :
    (D : Type 0) (c : ApiClient)
    → finished_count {D = D} (end_pending (bootstrap_finished ∷ []) c).1
      ≡ (if leb c.pending 1 then 1 else 0)
unfolding finished_count end_pending set_busy
end_pending-finished D c = ground arith

zero_add : (n : ℕ) → 0 + n ≡ n
zero_add n = omega arith

module _ {D : Type 0} (J : Json D) where
  open J use {Object, array}

  for_each-finished :
      (f : Object → ApiSignal D) (complaint body : Text)
      → ((o : Object) → is_finished (f o) ≡ 0)
      → finished_count (for_each J f complaint body) ≡ 0
  unfolding for_each finished_count
  for_each-finished f complaint body h = elim (Option-cases (array body)) [
    | inl e ↦ rw (e, finished_count) refl
    | inr (objects, e) ↦ rw (e, for_each) (finished_count-map f objects h)
  ]

  finish_get-finished :
      (on_ok : Text → List (ApiSignal D)) (r : NetworkReply) (c : ApiClient)
      → ((t : Text) → finished_count (on_ok t) ≡ 0)
      → finished_count (finish_get J on_ok r c).1 ≡ (if leb c.pending 1 then 1 else 0)
  unfolding finish_get finished_count
  finish_get-finished on_ok r c h =
      finished_count_append _ (end_pending (bootstrap_finished ∷ []) c).1
      ∙ elim (Bool-cases (is_ok r)) [
        | inl e ↦ rw (e, h r.body) (zero_add _ ∙ end_pending-finished D c)
        | inr e ↦ rw (e, finished_count) (zero_add _ ∙ end_pending-finished D c)
      ]

  finish-finished :
      (w : Waiting) (r : NetworkReply) (c : ApiClient)
      → Seeds w
      → finished_count (finish J w r c).1 ≡ (if leb c.pending 1 then 1 else 0)
  unfolding finish
  finish-finished _ r c seeds_readings =
      finish_get-finished _ r c (λ t. for_each-finished _ _ t (λ o. refl))
  finish-finished _ r c seeds_alarms =
      finish_get-finished _ r c (λ t. for_each-finished _ _ t (λ o. refl))
  finish-finished _ r c seeds_devices =
      finish_get-finished _ r c (λ t. for_each-finished _ _ t (λ o. refl))

  finish_seed-pending :
      (w : Waiting) (r : NetworkReply) (c : ApiClient)
      → Seeds w
      → (finish J w r c).0.pending ≡ c.pending - 1
  finish_seed-pending w r c seeds_readings = (finish_lem J latest_readings r c).0
  finish_seed-pending w r c seeds_alarms = (finish_lem J all_alarms r c).0
  finish_seed-pending w r c seeds_devices = (finish_lem J all_devices r c).0

  begun_pending : (c : ApiClient) → c.pending ≡ 0 → (start J bootstrap c).0.0.pending ≡ 3
  unfolding start get_json begin_pending set_busy
  begun_pending c e = ground arith

  begun_finished : (c : ApiClient) → finished_count (start J bootstrap c).0.1 ≡ 0
  unfolding finished_count start get_json begin_pending set_busy
  begun_finished c = ground arith

  -- A client without pending requests seeds the models. Its three requests may be answered in any order
  -- and with any replies, failures and invalid payloads included: bootstrapFinished is emitted once, by
  -- the last of the three.
  pub bootstrap_finished_once :
      (c : ApiClient) (w₁ w₂ w₃ : Waiting) (r₁ r₂ r₃ : NetworkReply)
      → c.pending ≡ 0
      → Seeds w₁
      → Seeds w₂
      → Seeds w₃
      → let begun = (start J bootstrap c).0 in
        let first = finish J w₁ r₁ begun.0 in
        let second = finish J w₂ r₂ first.0 in
        let third = finish J w₃ r₃ second.0 in
        (finished_count begun.1 ≡ 0)
        × (finished_count first.1 ≡ 0)
        × (finished_count second.1 ≡ 0)
        × (finished_count third.1 ≡ 1)
  bootstrap_finished_once c w₁ w₂ w₃ r₁ r₂ r₃ e s₁ s₂ s₃ =
      let begun = (start J bootstrap c).0 in
      let first = finish J w₁ r₁ begun.0 in
      let second = finish J w₂ r₂ first.0 in
      let three : begun.0.pending ≡ 3 = begun_pending c e in
      let two : first.0.pending ≡ 2 =
        finish_seed-pending w₁ r₁ begun.0 s₁ ∙ ap (λ n. n - 1) three in
      let last : second.0.pending ≡ 1 =
        finish_seed-pending w₂ r₂ first.0 s₂ ∙ ap (λ n. n - 1) two in
      (
        begun_finished c,
        finish-finished w₁ r₁ begun.0 s₁ ∙ ap (λ n. if leb n 1 then 1 else 0) three,
        finish-finished w₂ r₂ first.0 s₂ ∙ ap (λ n. if leb n 1 then 1 else 0) two,
        finish-finished w₃ r₃ second.0 s₃ ∙ ap (λ n. if leb n 1 then 1 else 0) last,
      )
