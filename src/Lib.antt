-- ===== src/Lib.antt =====
-- ForgeSight watches the sensors of a factory. Devices publish readings over MQTT; ingestion/
-- stores them in PostgreSQL and hands them to Kafka; alarm-engine/ polls the stored readings,
-- evaluates rules and stores alarms; api/ serves all of it over REST, gRPC and WebSocket and polls
-- the same tables to broadcast what is new; ui/ is the desktop client. The parts meet in the
-- database and on the network.
--
-- PostgreSQL is a parameter, `Database.Server`: a state and the answer to each statement that the
-- source sends. What the theorems need of it is in Database/Laws.antt, and Database/Follow.antt says
-- how a cursor follows a table that grows at its end; Database/Connections.antt opens and closes
-- connections over libpq, a parameter. Doubles are the parameter `Doubles` of
-- Prelude/Floats.antt, with no law. QUrl, the JSON parser and the printing of numbers and times are
-- arguments where they are used; SQLite, Qt's network and librdkafka are parameters of the parts that
-- call them. A method that talks to the database takes its state and returns it.
--
--   AlarmEngine/Types      alarm-engine/include/alarm-engine/types.h, alarm-engine/src/types.cpp
--   AlarmEngine/Evaluator  alarm-engine/src/rule_evaluator.cpp
--   AlarmEngine/Store      alarm-engine/src/alarm_store.cpp
--   AlarmEngine/Poll       alarm-engine/src/reading_cursor.cpp, rule_reload.h, alarm-engine/main.cpp
--   AlarmEngine/Seed       seed_default_rules of alarm-engine/main.cpp
--   AlarmEngine/Start      parse_args and main of alarm-engine/main.cpp
--   Ingestion/DbWriter     ingestion/src/db_writer.cpp
--   Ingestion/ReadingParser  ingestion/src/reading_parser.cpp
--   Ingestion/ThreadPool   ingestion/src/thread_pool.cpp
--   Ingestion/Service      ingestion/main.cpp, src/event_bus.cpp, src/kafka_producer.cpp
--   Api/RuleService        api/src/rule_service.cpp
--   Api/DeviceService      api/src/device_service.cpp, with the SQL that thins out history
--   Api/Polling            the poll timer of api/src/api_server.cpp, its two queries, and MqttBridge
--   Api/Routes             authorization and routes of api/src/api_server.cpp
--   Api/Accept             the WebSocket clients of api/src/api_server.cpp
--   Api/Strangers          all three ways into the API server for those without its key
--   Api/Broadcaster        api/src/ws_broadcaster.cpp
--   Api/GrpcServer         api/src/grpc_server.cpp
--   Api/Start              api/main.cpp and the start of api/src/api_server.cpp
--   Ui/AlarmModel          ui/src/alarm_model.cpp
--   Ui/DeviceModel         ui/src/device_model.cpp
--   Ui/DeviceFilterModel   ui/src/device_filter_model.cpp
--   Ui/PlantLayout         ui/src/plant_layout.cpp
--   Ui/PlantSceneModel     ui/src/plant_scene_model.cpp
--   Ui/PlantInstancing     ui/app/plant_instancing.cpp
--   Ui/WsClient            ui/src/ws_client.cpp
--   Ui/ApiClient           ui/src/api_client.cpp
--   Ui/OfflineCache        ui/src/offline_cache.cpp
--   Ui/Dashboard           ui/app/main.cpp: the models, the offline cache and the client joined
--   Ui/Csv                 ui/src/csv_export.cpp
--
-- A function keeps the source's name; where two classes share one, the second says whose it is
-- (`delete_rule` of the store, `delete_service_rule` of the service). Texts are lists of code points.
-- Ids are signed and unbounded, as are the counters: BIGSERIAL ids stay far below 2^63. The only fuel
-- is that of `replace`, one round more than the message has characters, which is enough since each
-- round moves past at least one of them. A mutex makes each locked method one step.
--
-- Not modelled: the MQTT, Kafka, gRPC, HTTP and WebSocket libraries, event loops and signals, and the
-- MQTT side of the start of ingestion; of ui/ the rule and history lists, which only append and clear,
-- the stateless helpers for statistics, chart zoom, time labels and display options, QML and PDF
-- painting; the simulators and the web site.
mod Prelude
pub mod Database
pub mod Ingestion
pub mod AlarmEngine
pub mod Api
pub mod Ui
pub mod Tests
