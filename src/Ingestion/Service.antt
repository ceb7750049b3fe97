-- ===== src/Ingestion/Service.antt =====
-- ingestion/main.cpp, src/event_bus.cpp, src/kafka_producer.cpp and src/reading_json.cpp with their
-- headers. A subscriber of the bus is a function on what the subscribers change, `K`. The clock, JSON
-- printing and librdkafka are arguments. A task of the pool is the reading that its lambda holds; the
-- mutexes of the bus and of the writer make each call one step.
pub mod Arguments
pub mod Places
pub mod Accepted
pub mod Pipeline
pub mod Delivery
use forge_sight.Prelude.{
  ℕ, zero, suc, ◌+◌, ltb, Bool, true, false, Option, none, some, List, [], ◌∷◌, ◌++◌, Text, lit,
  length, is_empty, Doubles, if◌then◌else◌,
}
use forge_sight.Ingestion.Reading.{Reading}
use forge_sight.Ingestion.ReadingParser.{Json, reading, error, thrown, parse}
use forge_sight.Ingestion.ThreadPool.{ThreadPool, Worker, running, submit, shutdown, wake}
use forge_sight.Ingestion.DbWriter.{DbWriter, write, flush, close}
use forge_sight.Database.{Server}

pub record ReadingEvent (D T : Type 0) : Type 0 where
  pub reading : Reading D
  pub received_at : T

pub record EventBus (E K : Type 0) : Type 0 where
  pub handlers : List (E → K → K)

module _ {E K : Type 0} where
  abbrev pub event_bus : EventBus E K
  event_bus = record { handlers = [] }

  unfoldable pub subscribe : (E → K → K) → EventBus E K → EventBus E K
  subscribe handler bus = record { handlers = bus.handlers ++ (handler ∷ []) }

  unfoldable pub call_handlers : E → List (E → K → K) → K → K
  call_handlers event [] k = k
  call_handlers event (handler ∷ handlers) k = call_handlers event handlers (handler event k)

  unfoldable pub publish : E → EventBus E K → K → K
  unfolding call_handlers
  publish event bus k = call_handlers event bus.handlers k

  abbrev pub subscriber_count : EventBus E K → ℕ
  subscriber_count bus = length bus.handlers

-- A member of the JSON object that is printed.
pub data JsonMember (D : Type 0) : Type 0 where
  text_member : Text → Text → JsonMember D
  double_member : Text → D → JsonMember D
  bool_member : Text → Bool → JsonMember D

unfoldable pub reading_to_json : {D : Type 0} → (List (JsonMember D) → Text) → Reading D → Text
reading_to_json dump r = dump (
    text_member (lit "device_id") r.device_id
    ∷ text_member (lit "sensor") r.sensor
    ∷ double_member (lit "value") r.value
    ∷ text_member (lit "unit") r.unit
    ∷ text_member (lit "timestamp") r.timestamp
    ∷ bool_member (lit "anomaly") r.anomaly
    ∷ [])

-- `produce` with topic, key and payload.
pub record KafkaClient (K : Type 0) : Type 0 where
  pub produce : Text → Text → Text → K → Bool × K

pub record KafkaReadingSink (K : Type 0) : Type 0 where
  pub client : Option (KafkaClient K)
  pub topic : Text

unfoldable pub sink_publish :
    {D K : Type 0} → (List (JsonMember D) → Text) → KafkaReadingSink K → Reading D → K → K
unfolding reading_to_json
sink_publish dump sink r k = elim sink.client [
  | none ↦ k
  | some client ↦ (client.produce sink.topic r.device_id (reading_to_json dump r) k).1
]

-- librdkafka: whether it takes the bootstrap servers, the handle or null, and rd_kafka_producev with
-- the poll that follows.
pub record RdKafka (K : Type 0) : Type 1 where
  pub Handle : Type 0
  pub conf_set : Text → Bool
  pub create : Text → Option Handle
  pub producev : Handle → Text → Text → Text → K → Bool × K

unfoldable pub make_rdkafka_client : {K : Type 0} → RdKafka K → Text → Option (KafkaClient K)
make_rdkafka_client R brokers =
    if is_empty brokers
    then none
    else if R.conf_set brokers
    then elim (R.create brokers) [
      | none ↦ none
      | some handle ↦ some (record { produce = R.producev handle })
    ]
    else none

module _ {D : Type 0} (J : Json D) where
  -- IngestionCallback::message_arrived. `none` is an exception: that of the JSON library, or that of
  -- `submit` on a pool that is shut down.
  unfoldable pub message_arrived : Text → ThreadPool (Reading D) → Option (ThreadPool (Reading D))
  message_arrived payload pool = elim (parse J payload) [
    | error reason ↦ some pool
    | thrown ↦ none
    | reading r ↦ submit r pool
  ]

-- What happens while the service runs: a message arrives; a free worker takes the next task; one of
-- the workers that have not written writes its reading; one of those that have publishes it at
-- some time, and is free; the main loop flushes; the pool is shut down.
pub data ServiceEvent (T : Type 0) : Type 0 where
  arrives : Text → ServiceEvent T
  starts flushes shuts_down : ServiceEvent T
  writes : ℕ → ServiceEvent T
  publishes : ℕ → T → ServiceEvent T

-- The readings whose tasks have started and not written, and those written and not published, one
-- for each busy worker.
pub record Intake (D W K : Type 0) : Type 0 where
  pub pool : ThreadPool (Reading D)
  pub unwritten : List (Reading D)
  pub unpublished : List (Reading D)
  pub writer : DbWriter D
  pub world : W
  pub sink : K

abbrev pub put_back : {A : Type 0} → A → Option (A × List A) → Option (A × List A)
put_back x none = none
put_back x (some (y, ys)) = some (y, x ∷ ys)

-- The element at a place, and the others.
unfoldable pub take_out : {A : Type 0} → ℕ → List A → Option (A × List A)
take_out i [] = none
take_out zero (x ∷ xs) = some (x, xs)
take_out (suc i) (x ∷ xs) = put_back x (take_out i xs)

module _ (F : Doubles) (S : Server (F.Double)) (J : Json (F.Double)) {T K : Type 0}
    (bus : EventBus (ReadingEvent (F.Double) T) K) (workers : ℕ) where
  open F use {Double}
  open S use {World}

  abbrev pub State : Type 0
  State = Intake Double World K

  abbrev pub queue_task : State → Option (ThreadPool (Reading Double)) → Option State
  queue_task s none = none
  queue_task s (some pool) = some (record s { pool = pool })

  abbrev pub begin_task :
      State → Option (Worker (Reading Double) × ThreadPool (Reading Double)) → Option State
  begin_task s (some (running r, pool)) =
      some (record s { pool = pool; unwritten = s.unwritten ++ (r ∷ []) })
  begin_task s _ = none

  -- db_.write(r)
  unfoldable pub write_task : State → Option (Reading Double × List (Reading Double)) → Option State
  write_task s none = none
  write_task s (some (r, others)) =
      let written = write F S r s.writer s.world in
      some (record s {
        unwritten = others;
        unpublished = s.unpublished ++ (r ∷ []);
        writer = written.0.1;
        world = written.1;
      })

  -- bus_.publish({std::move(r), std::chrono::system_clock::now()})
  unfoldable pub publish_task :
      T → State → Option (Reading Double × List (Reading Double)) → Option State
  unfolding publish
  publish_task now s none = none
  publish_task now s (some (r, others)) = some (record s {
    unpublished = others;
    sink = publish (record { reading = r; received_at = now }) bus s.sink;
  })

  -- `none` where the event cannot happen, and where an exception leaves the callback.
  unfoldable pub service_step : ServiceEvent T → State → Option State
  unfolding message_arrived write_task publish_task take_out
  service_step (arrives payload) s = queue_task s (message_arrived J payload s.pool)
  service_step starts s =
      if ltb (length s.unwritten + length s.unpublished) workers
      then begin_task s (wake s.pool)
      else none
  service_step (writes i) s = write_task s (take_out i s.unwritten)
  service_step (publishes i now) s = publish_task now s (take_out i s.unpublished)
  service_step flushes s =
      let flushed = flush F S s.writer s.world in
      some (record s { writer = flushed.0.1; world = flushed.1 })
  service_step shuts_down s = some (record s { pool = shutdown s.pool })

  unfoldable pub service : List (ServiceEvent T) → State → Option State
  unfolding service_step
  service [] s = some s
  service (e ∷ events) s = elim (service_step e s) [ none ↦ none | some t ↦ service events t ]

  -- The end of `main`, where the writer is destroyed.
  unfoldable pub stop_service : State → World
  stop_service s = (close F S s.writer s.world).1
