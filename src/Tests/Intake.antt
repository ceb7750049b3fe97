-- ===== src/Tests/Intake.antt =====
-- The thread pool and the parser of the ingestion service.
use forge_sight.Prelude.{
  map, ◌≡◌, ◌↔◌, refl, ℕ, Bool, true, false, Option, none, some, List, [], ◌∷◌, ◌++◌, length, Text,
  lit, text_eq, if◌then◌else◌,
}
use forge_sight.Ingestion.Reading.{Reading}
use forge_sight.Ingestion.ThreadPool.{
  ThreadPool, Worker, waiting, running, exited, Threads, thread_pool, submit, shutdown, wake, Steps,
  stay, also,
}
use forge_sight.Ingestion.ThreadPool
use forge_sight.Ingestion.ThreadPool.Workers.{all_exited}
use forge_sight.Ingestion.ThreadPool.Drain.{started_in_order, exits_drained}
use mathlib.Core.List.{Perm}
use forge_sight.Ingestion.Service.{
  message_arrived, KafkaReadingSink, JsonMember, ServiceEvent, arrives, starts, writes, publishes,
  flushes, shuts_down, sink_publish, service, service_step, stop_service, write_task, publish_task,
  take_out, publish, call_handlers,
}
use forge_sight.Ingestion.Service.Accepted.{accepted, take_all}
use forge_sight.Ingestion.Service.Pipeline.{bus, Service}
use forge_sight.Ingestion.Service.Delivery.{starting, service_delivers}
use forge_sight.Ingestion.DbWriter.{sent, write, flush, insert_batch}
use forge_sight.Ingestion.DbWriter.Batches.{logged, rows_sent, writer}
use forge_sight.Database.{Statement, insert_readings, ingest_conn}
use forge_sight.Tests.Fixtures.{naturals, growing}
use forge_sight.Ingestion.ReadingParser.{Json, decoded, reading, parse, read_members}
use forge_sight.Ingestion.ReadingParser.Accepts.{Accepts, parse-Accepts}

abbrev pool : Bool → List ℕ → ThreadPool ℕ
pool stopped tasks = record { stopped = stopped; tasks = tasks }

abbrev threads : ThreadPool ℕ → Worker ℕ → List ℕ → List ℕ → List ℕ → Threads ℕ
threads p w accepted started finished = record {
  pool = p;
  workers = w ∷ [];
  accepted = accepted;
  started = started;
  finished = finished;
}

-- One worker: task 5 is submitted and started, the pool is shut down while it runs, the worker
-- finishes it and leaves.
abbrev last : Threads ℕ
last = threads (pool true []) exited (5 ∷ []) (5 ∷ []) (5 ∷ [])

lifetime : Steps (thread_pool 1) last
unfolding submit shutdown wake
lifetime =
    also
      (also
        (also
          (also
            (also (stay (thread_pool 1))
              (ThreadPool.submits (thread_pool 1) 5 (pool false (5 ∷ [])) refl))
            (ThreadPool.starts (threads (pool false (5 ∷ [])) waiting (5 ∷ []) [] []) [] [] 5
              (pool false []) refl refl))
          (ThreadPool.shuts_down (threads (pool false []) (running 5) (5 ∷ []) (5 ∷ []) [])))
        (ThreadPool.finishes (threads (pool true []) (running 5) (5 ∷ []) (5 ∷ []) []) [] [] 5
          refl))
      (ThreadPool.exits (threads (pool true []) waiting (5 ∷ []) (5 ∷ []) (5 ∷ [])) [] []
        (pool true []) refl refl)

started_in_order_example : last.started ++ last.pool.tasks ≡ last.accepted
started_in_order_example = started_in_order 0 last lifetime

exits_drained_example :
    (true ≡ true) × (last.started ≡ last.accepted) × (length last.finished ≡ length last.accepted)
exits_drained_example = exits_drained 0 last lifetime (unfold all_exited in refl)

pub data Member : Type 0 where
  object : Member
  text : Text → Member
  digit : ℕ → Member

abbrev pub text_of : Member → Option Text
text_of (text t) = some t
text_of _ = none

abbrev pub digit_of : Member → Option ℕ
digit_of (digit n) = some n
digit_of _ = none

abbrev pub member_of : Text → Option Member
member_of key =
    if text_eq key (lit "anomaly")
    then none
    else if text_eq key (lit "value")
    then some (digit 5)
    else some (text key)

-- Every text decodes to an object whose value is 5 and whose other members hold their own names.
abbrev pub json : Json ℕ
json = record {
  Value = Member;
  decode = λ payload. decoded object;
  is_object = λ v. true;
  field = λ v. member_of;
  string = text_of;
  number = digit_of;
  boolean = λ v. none;
}

abbrev pub named : Reading ℕ
named = record {
  device_id = lit "device_id";
  sensor = lit "sensor";
  value = 5;
  unit = lit "unit";
  timestamp = lit "timestamp";
  anomaly = false;
}

parse-Accepts_example : (parse json (lit "{}") ≡ reading named) ↔ Accepts json (lit "{}") named
parse-Accepts_example = parse-Accepts json (lit "{}") named

-- A sink that keeps the keys of the messages.
abbrev keys : KafkaReadingSink (List Text)
keys = record {
  client = some (record { produce = λ topic key payload k. (true, k ++ (key ∷ [])) });
  topic = lit "forgesight.readings";
}

abbrev print_nothing : List (JsonMember ℕ) → Text
print_nothing members = []

-- An empty payload between two good ones; the second worker overtakes the first.
abbrev busy_hour : List (ServiceEvent ℕ)
busy_hour =
    arrives (lit "{}")
    ∷ starts
    ∷ arrives []
    ∷ arrives (lit "{ }")
    ∷ starts
    ∷ writes 1
    ∷ flushes
    ∷ publishes 0 1
    ∷ writes 0
    ∷ publishes 0 2
    ∷ shuts_down
    ∷ []

abbrev kafka : Reading ℕ → List Text → List Text
kafka = sink_publish print_nothing keys

abbrev morning : Service naturals growing json ℕ kafka 2
morning = starting naturals growing json ℕ kafka 2 ingest_conn 2 [] (false, [])

abbrev keeps_rows : List Statement
keeps_rows = insert_readings (sent naturals growing named ∷ []) ∷ []

abbrev evening : Service naturals growing json ℕ kafka 2
evening = record {
  pool = record { stopped = true; tasks = [] };
  unwritten = [];
  unpublished = [];
  writer = writer naturals growing ingest_conn 2 (named ∷ []);
  world = (false, keeps_rows);
  sink = lit "device_id" ∷ lit "device_id" ∷ [];
}

whole_day :
    service naturals (logged growing) json (bus naturals growing json ℕ kafka 2) 2 busy_hour morning
    ≡ some evening
unfolding service service_step message_arrived parse read_members submit wake shutdown write_task
    publish_task take_out text_eq publish call_handlers write flush insert_batch sink_publish
whole_day = refl

service_delivers_example :
    (written : List (Reading ℕ)) × (published : List (Reading ℕ)) × Perm
      (accepted json busy_hour)
      written
    × Perm written published
    × (rows_sent
          (stop_service naturals
            (logged growing)
            json
            (bus naturals growing json ℕ kafka 2)
            2
            evening).1
        ≡ [] ++ map (sent naturals growing) written)
    × (lit "device_id" ∷ lit "device_id" ∷ [] ≡ take_all kafka published [])
unfolding rows_sent
service_delivers_example =
    service_delivers naturals growing json ℕ kafka 2 busy_hour ingest_conn 2 [] (false, []) evening
      whole_day refl refl refl
