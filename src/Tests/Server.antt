-- ===== src/Tests/Server.antt =====
-- The API server and the ingestion service.
use forge_sight.Prelude.{
  ◌≢◌, ap, Text, Option, ℕ, ◌-◌, is_empty, if◌then◌else◌, ◌≡◌, text_eq, refl, true, false, none,
  some, List, [], ◌∷◌, ◌++◌, map, lit, ℤ, pos, rows_after, arith,
}
use forge_sight.Ingestion.DbWriter.{sent, write_all}
use forge_sight.Ingestion.DbWriter.Batches.{logged, rows_sent, writer, write_all-sent}
use forge_sight.Database.{AlarmRow, api_conn, ingest_conn}
use forge_sight.Database.Laws.{Tables}
use forge_sight.Database.Follow.{id_of_row}
use forge_sight.Api.RuleService.{acknowledge_service_alarm}
use forge_sight.Api.RuleService.Acknowledge.{count_waiting, acknowledge_once}
use forge_sight.Api.Broadcaster.{adds, removes, sends, deliveries, initial}
use forge_sight.Api.Broadcaster.Delivery.{received, expected, received-deliveries}
use forge_sight.Api.Routes.{Request, delete_rule_by, serve}
use forge_sight.Api.GrpcServer.{unauthenticated, acknowledge_alarm_rpc, serve_rpc}
use forge_sight.Api.Accept.{on_new_websocket_connection}
use forge_sight.Api.Strangers.{AreStrangers, strangers_refused}
use forge_sight.Api.Routes.Access.{refusal, Answered, in_doubt, serve_deletes}
use forge_sight.Api.Polling.{Cursors, ServerEvent, polls, hears, server_events}
use forge_sight.Api.Polling.Cover.{heard, payload}
use forge_sight.Api.Polling.Bridged.{by_timer, by_bridge, accepted_of, server_events_cover}
use forge_sight.Ingestion.ReadingParser.{parse, read_members}
use forge_sight.Tests.Intake.{json, named}
use forge_sight.Tests.Fixtures.{
  naturals, reading, hot_row, table, growing, growing_laws, ledger, ledger_laws, at, acknowledging,
  acknowledging_laws,
}

abbrev cursors : Cursors
cursors = record { last_reading_id = some (pos 0); last_alarm_id = none }

-- The timer runs out before and after a payload that the bridge accepts.
abbrev arrivals : List ServerEvent
arrivals = polls (lit "T1") ∷ hears (lit "{}") ∷ polls (lit "T2") ∷ []

heard_named : accepted_of json arrivals ≡ named ∷ []
unfolding accepted_of parse read_members text_eq
heard_named = refl

server_events_cover_example :
    let r = server_events naturals growing json arrivals cursors false in
    (c' : ℤ) × (r.0.1.last_reading_id ≡ some c')
    × (heard (by_timer r.0.0) ++ map payload (rows_after id_of_row c' (table r.1))
        ≡ map payload (rows_after id_of_row (pos 0) (table r.1)))
    × (by_bridge r.0.0 ≡ accepted_of json arrivals)
server_events_cover_example =
    server_events_cover naturals growing json growing_laws arrivals (pos 0) cursors false refl

abbrev waiting : AlarmRow ℕ
waiting = record {
  id = pos 1;
  rule_id = some (pos 7);
  device_id = lit "p";
  sensor = lit "t";
  value = 2;
  severity = lit "critical";
  message = lit "m";
  timestamp = lit "T";
  acknowledged = false;
}

abbrev tables : Tables ℕ
tables = record { rules = hot_row ∷ []; alarms = waiting ∷ [] }

acknowledges :
    (acknowledge_service_alarm naturals acknowledging (some api_conn) (pos 1) (waiting ∷ [])).0
    ≡ true
unfolding acknowledge_service_alarm count_waiting
acknowledges = refl

acknowledge_once_example :
    let ack = acknowledge_service_alarm naturals acknowledging (some api_conn) (pos 1) in
    (count_waiting (pos 1) (waiting ∷ []) ≡ 1)
    × (count_waiting (pos 1) (ack (waiting ∷ [])).1 ≡ 0)
    × ((ack (ack (waiting ∷ [])).1).0 ≡ false)
acknowledge_once_example =
    acknowledge_once naturals acknowledging acknowledging_laws api_conn (pos 1) (waiting ∷ [])
      acknowledges

-- Three readings and one that waited, in batches of two.
write_all-sent_example :
    rows_sent
      (write_all naturals
        (logged growing)
        ((reading 2).reading ∷ (reading 3).reading ∷ (reading 4).reading ∷ [])
        (writer naturals growing ingest_conn 2 ((reading 1).reading ∷ []))
        (false, [])).1.1
    ≡ map
        (sent naturals growing)
        ((reading 1).reading ∷ (reading 2).reading ∷ (reading 3).reading ∷ (reading 4).reading ∷ [])
unfolding rows_sent
write_all-sent_example =
    write_all-sent naturals growing
      ((reading 2).reading ∷ (reading 3).reading ∷ (reading 4).reading ∷ [])
      ((reading 1).reading ∷ []) ingest_conn 2 (false, [])

abbrev request : Text → Request
request key = record { api_key = key; query = λ item. []; body = lit "{}" }

abbrev one_digit : Text → Option ℤ
one_digit [] = none
one_digit (c ∷ rest) = if is_empty rest then some (pos (c - 48)) else none

abbrev no_text : Text → Text → Text
no_text body key = []

abbrev zero_double : Text → Text → ℕ
zero_double body key = 0

abbrev head_of : Text → ℕ
head_of [] = 0
head_of (c ∷ rest) = c

key_differs : lit "x" ≢ lit "k"
key_differs e = omega (arith, ap head_of e)

strangers_refused_example :
    (serve naturals ledger one_digit one_digit no_text zero_double
        (lit "k")
        (some api_conn)
        (delete_rule_by (lit "7"))
        (request (lit "x"))
        (at tables none)
      ≡ (refusal (delete_rule_by (lit "7")), at tables none))
    × (serve_rpc naturals ledger
          (lit "k")
          (some api_conn)
          (some [])
          (acknowledge_alarm_rpc (pos 7))
          (at tables none)
        ≡ (unauthenticated, at tables none))
    × ((on_new_websocket_connection (lit "k") (none ∷ some [] ∷ []) initial).1 ≡ initial)
unfolding AreStrangers
strangers_refused_example =
    strangers_refused naturals ledger one_digit one_digit no_text zero_double (lit "k")
      (some api_conn) (delete_rule_by (lit "7")) (request (lit "x")) (acknowledge_alarm_rpc (pos 7))
      (some []) (none ∷ some [] ∷ []) initial (at tables none) (λ e. cc) key_differs (λ e. cc)
      ((λ e. cc), tt)

serve_deletes_example :
    let res =
      serve naturals ledger one_digit one_digit no_text zero_double
        (lit "k")
        (some api_conn)
        (delete_rule_by (lit "7"))
        (request (lit "k"))
        (at tables none) in
    Answered res.0.0
      (in_doubt naturals ledger (some api_conn) (some (pos 7)) (at tables none))
      (some (pos 7))
      tables
      res.1.committed
serve_deletes_example =
    serve_deletes naturals ledger one_digit one_digit no_text zero_double ledger_laws (lit "k")
      (some api_conn) (lit "7") (request (lit "k")) (at tables none)

-- The second client joins after the first message and leaves before the third.
received-deliveries_example :
    received 1 (
      deliveries
        (adds ∷ sends (lit "a") ∷ adds ∷ sends (lit "b") ∷ removes 1 ∷ sends (lit "c") ∷ [])
        initial)
    ≡ lit "b" ∷ []
unfolding expected
received-deliveries_example =
    received-deliveries 1
      (adds ∷ sends (lit "a") ∷ adds ∷ sends (lit "b") ∷ removes 1 ∷ sends (lit "c") ∷ [])
