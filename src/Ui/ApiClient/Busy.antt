-- ===== src/Ui/ApiClient/Busy.antt =====
-- The count of pending requests and the flag `busy`, in any run of calls and replies.
use forge_sight.Prelude.{
  ◌≡◌, ◌≤◌, refl, ℕ, zero, suc, ◌+◌, ◌-◌, true, false, List, [], ◌∷◌, ◌++◌, append_assoc,
  append-nil, map, is_empty, arith,
}
use forge_sight.Ui.ApiClient.{
  Json, ApiClient, NetworkReply, HttpRequest, Waiting, latest_readings, all_alarms, all_devices,
  history, all_rules, rule_mutation, alarm_ack, ApiSignal, bootstrap_finished, ApiCall,
  fetch_latest_readings, fetch_alarms, fetch_devices, fetch_rules, bootstrap, fetch_history,
  create_rule, update_rule, delete_rule, acknowledge_alarm, set_busy, begin_pending, end_pending,
}
use forge_sight.Ui.ApiClient.Replies.{finish_get, finish}
use forge_sight.Ui.ApiClient.Requests.{get_json, start}

-- A call, or the reply of the request at a place in the list of those in flight.
pub data ApiEvent (D : Type 0) : Type 0 where
  calls : ApiCall D → ApiEvent D
  finishes : ℕ → NetworkReply → ApiEvent D

-- Requests of `get_json`, `post_json` and `handle_rule_mutation` are counted.
abbrev counted : Waiting → ℕ
counted history = 0
counted all_rules = 0
counted _ = 1

unfoldable pub count_waiting : List Waiting → ℕ
count_waiting [] = 0
count_waiting (w ∷ waiting) = counted w + count_waiting waiting

count_waiting_append :
    (a b : List Waiting) → count_waiting (a ++ b) ≡ count_waiting a + count_waiting b
unfolding count_waiting
count_waiting_append [] b = omega arith
count_waiting_append (w ∷ a) b = omega (arith, count_waiting_append a b)

count_waiting_empty : (waiting : List Waiting) → is_empty waiting ≡ true → count_waiting waiting ≡ 0
unfolding count_waiting
count_waiting_empty [] h = refl
count_waiting_empty (w ∷ waiting) h = ground arith

abbrev waiting_of : List (Waiting × HttpRequest) → List Waiting
waiting_of requests = map (λ r. r.0) requests

-- The client with the requests in flight.
pub record Traffic : Type 0 where
  pub client : ApiClient
  pub waiting : List Waiting

-- `pending` is the number of counted requests in flight, and with none in flight the client is not
-- busy.
pub record IsSettled (t : Traffic) : Type 0 where
  pub pending_counts : t.client.pending ≡ count_waiting t.waiting
  pub idle : is_empty t.waiting ≡ true → t.client.busy ≡ false

module _ {D : Type 0} (J : Json D) where
  -- The request at a place leaves the list; with none there, nothing happens.
  finish_at : ℕ → NetworkReply → ApiClient → List Waiting → List Waiting → Traffic
  finish_at n r c left [] = record { client = c; waiting = left }
  finish_at zero r c left (w ∷ waiting) = record {
    client = (finish J w r c).0;
    waiting = left ++ waiting;
  }
  finish_at (suc n) r c left (w ∷ waiting) = finish_at n r c (left ++ (w ∷ [])) waiting

  pub api_step : ApiEvent D → Traffic → Traffic
  unfolding finish_at
  api_step (calls e) t =
      let s = start J e t.client in record { client = s.0.0; waiting = t.waiting ++ waiting_of s.1 }
  api_step (finishes n r) t = finish_at n r t.client [] t.waiting

  pub api_run : List (ApiEvent D) → Traffic → Traffic
  api_run [] t = t
  api_run (e ∷ events) t = api_run events (api_step e t)

  end_pending_lem :
      (drained : List (ApiSignal D)) (c : ApiClient)
      → ((end_pending drained c).0.pending ≡ c.pending - 1)
        × (c.pending ≤ 1 → (end_pending drained c).0.busy ≡ false)
  unfolding end_pending set_busy
  end_pending_lem drained c = ground arith

  pub finish_lem :
      (w : Waiting) (r : NetworkReply) (c : ApiClient)
      → ((finish J w r c).0.pending ≡ c.pending - counted w)
        × (c.pending ≤ counted w → (finish J w r c).0.busy ≡ false)
  unfolding finish finish_get set_busy
  finish_lem latest_readings r c = end_pending_lem (bootstrap_finished ∷ []) c
  finish_lem all_alarms r c = end_pending_lem (bootstrap_finished ∷ []) c
  finish_lem all_devices r c = end_pending_lem (bootstrap_finished ∷ []) c
  finish_lem history r c = ground arith
  finish_lem all_rules r c = ground arith
  finish_lem rule_mutation r c = end_pending_lem [] c
  finish_lem (alarm_ack id) r c = end_pending_lem [] c

  pub start_lem :
      (e : ApiCall D) (c : ApiClient)
      → let s = start J e c in
        (s.0.0.pending ≡ c.pending + count_waiting (waiting_of s.1)) × (is_empty s.1 ≡ false)
  unfolding start get_json begin_pending set_busy count_waiting
  start_lem fetch_latest_readings c = ground arith
  start_lem fetch_alarms c = ground arith
  start_lem fetch_devices c = ground arith
  start_lem fetch_rules c = ground arith
  start_lem bootstrap c = ground arith
  start_lem (fetch_history dev sen since) c = ground arith
  start_lem (create_rule f) c = ground arith
  start_lem (update_rule id f) c = ground arith
  start_lem (delete_rule id) c = ground arith
  start_lem (acknowledge_alarm id) c = ground arith

  is_empty-append_cons :
      (a : List Waiting) (requests : List (Waiting × HttpRequest))
      → is_empty requests ≡ false
      → is_empty (a ++ waiting_of requests) ≡ false
  is_empty-append_cons [] [] h = h
  is_empty-append_cons [] (r ∷ requests) h = refl
  is_empty-append_cons (w ∷ a) requests h = refl

  finish_at-IsSettled :
      (n : ℕ) (r : NetworkReply) (c : ApiClient) (left waiting : List Waiting)
      → IsSettled (record { client = c; waiting = left ++ waiting })
      → IsSettled (finish_at n r c left waiting)
  unfolding finish_at
  finish_at-IsSettled n r c left [] h = rw (append-nil left) at h
  finish_at-IsSettled zero r c left (w ∷ waiting) h =
      let whole = count_waiting_append left (w ∷ waiting) in
      let apart = count_waiting_append left waiting in
      let head : count_waiting (w ∷ waiting) ≡ counted w + count_waiting waiting =
        unfold count_waiting in refl in
      let done = finish_lem w r c in
      let counts = h.pending_counts in
      record {
        pending_counts = omega (arith, done.0);
        idle = λ e. let none_left = count_waiting_empty (left ++ waiting) e in done.1 (omega arith);
      }
  finish_at-IsSettled (suc n) r c left (w ∷ waiting) h =
      finish_at-IsSettled n r c (left ++ (w ∷ [])) waiting
        (rw (append_assoc left (w ∷ []) waiting) h)

  api_step-IsSettled : (e : ApiEvent D) (t : Traffic) → IsSettled t → IsSettled (api_step e t)
  unfolding api_step
  api_step-IsSettled (calls e) t h =
      let begun = start_lem e t.client in
      let more = count_waiting_append t.waiting (waiting_of (start J e t.client).1) in
      let counts = h.pending_counts in
      let waits = is_empty-append_cons t.waiting (start J e t.client).1 begun.1 in
      record { pending_counts = omega (arith, begun.0); idle = λ e. ground arith }
  api_step-IsSettled (finishes n r) t h = finish_at-IsSettled n r t.client [] t.waiting h

  -- From a client without requests in flight, and after any calls and replies in any order, the count
  -- of pending requests is that of the counted requests in flight, and whenever nothing is in flight
  -- the client is not busy.
  pub api_run-IsSettled :
      (events : List (ApiEvent D)) (t : Traffic) → IsSettled t → IsSettled (api_run events t)
  unfolding api_run
  api_run-IsSettled [] t h = h
  api_run-IsSettled (e ∷ events) t h =
      api_run-IsSettled events (api_step e t) (api_step-IsSettled e t h)
