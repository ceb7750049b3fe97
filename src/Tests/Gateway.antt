-- ===== src/Tests/Gateway.antt =====
-- The rest of the API server: devices, history, WebSocket clients and gRPC.
use forge_sight.Prelude.{
  ◌≡◌, ◌≢◌, ◌≤◌, sym, ap, ℕ, ◌+◌, Option, none, some, List, [], ◌∷◌, length, Text, lit, ℤ, pos,
  arith,
}
use forge_sight.Ingestion.Reading.{Reading}
use forge_sight.Database.{
  Server, Statement, Reply, api_conn, select_history, select_history_part, failed, history_rows,
}
use forge_sight.Api.DeviceService.{get_history, history_of}
use forge_sight.Api.DeviceService.History.{anomalies, last_or, history_part, history_part_lem}
use forge_sight.Api.DeviceService.Bounds.{HistoryLaws, get_history_bounded}
use forge_sight.Api.Routes.{Request}
use forge_sight.Tests.Fixtures.{naturals, reading}

abbrev archive : List (Reading ℕ)
archive = (reading 1).reading ∷ (reading 2).reading ∷ (reading 3).reading ∷ (reading 4).reading ∷ []

abbrev archive_answer : Statement → Reply ℕ
archive_answer (select_history dev sen since) = history_rows archive
archive_answer (select_history_part dev sen since (pos m)) = history_rows (history_part m archive)
archive_answer _ = failed

abbrev archiving : Server ℕ
archiving = record { World = ℕ; exec = λ c st w. (archive_answer st, w); wait = λ w. w }

abbrev history_laws : HistoryLaws archiving
history_laws = record {
  matching = λ w dev sen since. archive;
  selects = λ c dev sen since w rows e. sym (ap history_of e);
  selects_part = λ c dev sen since m w rows e. sym (ap history_of e);
}

history_part_lem_example :
    (anomalies (history_part 2 archive) ≡ anomalies archive)
    × (last_or none (history_part 2 archive) ≡ last_or none archive)
    × (length archive ≤ 2 → history_part 2 archive ≡ archive)
history_part_lem_example = history_part_lem 2 archive

get_history_bounded_example :
    length
      (get_history naturals archiving (some api_conn) (lit "p") (lit "t") (lit "T") (pos 2) 0).0
    ≤ 2 + length (anomalies archive) + 1
get_history_bounded_example =
    get_history_bounded naturals archiving history_laws api_conn (lit "p") (lit "t") (lit "T") 2 0
      (omega arith)

abbrev missing : Option Text
missing = none

no_key : missing ≢ some (lit "k")
no_key e = cc

abbrev no_number : Text → Option ℤ
no_number t = none

abbrev no_text : Text → Text → Text
no_text body key = []

abbrev zero_double : Text → Text → ℕ
zero_double body key = 0

abbrev plain_request : Request
plain_request = record { api_key = lit "k"; query = λ key. []; body = [] }
