-- ===== src/Ingestion/Service/Accepted.antt =====
-- The readings that the parser accepts, and a sink that takes readings from the bus.
use forge_sight.Prelude.{◌≡◌, refl, List, [], ◌∷◌, ◌++◌}
use forge_sight.Ingestion.Reading.{Reading}
use forge_sight.Ingestion.ReadingParser.{Json, ParseResult, reading, parse}
use forge_sight.Ingestion.Service.{ReadingEvent, EventBus, ServiceEvent, arrives}

module _ {D : Type 0} (J : Json D) where
  abbrev pub accepted_one : ParseResult D → List (Reading D)
  accepted_one (reading r) = r ∷ []
  accepted_one _ = []

  -- The readings of the payloads that the parser accepts, in the order of their arrival.
  unfoldable pub accepted : {T : Type 0} → List (ServiceEvent T) → List (Reading D)
  accepted [] = []
  accepted (arrives payload ∷ events) = accepted_one (parse J payload) ++ accepted events
  accepted (e ∷ events) = accepted events

module _ {D K : Type 0} where
  -- A sink takes readings one after the other.
  unfoldable pub take_all : (Reading D → K → K) → List (Reading D) → K → K
  take_all sink [] k = k
  take_all sink (r ∷ readings) k = take_all sink readings (sink r k)

  pub take_all_snoc :
      (sink : Reading D → K → K) (readings : List (Reading D)) (r : Reading D) (k : K)
      → take_all sink (readings ++ (r ∷ [])) k ≡ sink r (take_all sink readings k)
  unfolding take_all
  take_all_snoc sink [] r k = refl
  take_all_snoc sink (x ∷ readings) r k = take_all_snoc sink readings r (sink x k)

-- The bus as `main` sets it up with Kafka: its one subscriber hands the reading to the sink.
abbrev pub sink_bus : {D T K : Type 0} → (Reading D → K → K) → EventBus (ReadingEvent D T) K
sink_bus {D} {T} sink = record {
  handlers = (λ (event : ReadingEvent D T). sink event.reading) ∷ [];
}
