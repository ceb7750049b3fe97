-- ===== src/Ingestion/Service/Delivery.antt =====
-- Whatever is accepted reaches the database and Kafka once.
use mathlib.Core.List.{Perm}
use mathlib.Core.List.Perm
use mathlib.Core.Option.{some-injective}
use forge_sight.Prelude.{
  ◌≡◌, refl, sym, ap, ◌∙◌, subst, ℕ, Bool, true, false, none, some, List, [], ◌∷◌, ◌++◌, map,
  append_assoc, append-nil, Doubles, if◌then◌else◌,
}
use forge_sight.Ingestion.Reading.{Reading}
use forge_sight.Ingestion.ReadingParser.{Json, parse}
use forge_sight.Ingestion.ThreadPool.{shutdown, wake}
use forge_sight.Ingestion.ThreadPool.Drain.{shutdown_tasks}
use forge_sight.Ingestion.DbWriter.{sent, close}
use forge_sight.Ingestion.DbWriter.Batches.{logged, rows_sent, writer, close-writer}
use forge_sight.Database.{Server, Session, Statement}
use forge_sight.Ingestion.Service.{
  message_arrived, ServiceEvent, arrives, starts, writes, publishes, flushes, shuts_down, take_out,
  begin_task, service_step, service, stop_service,
}
use forge_sight.Ingestion.Service.Places.{take_out-Perm}
use forge_sight.Ingestion.Service.Accepted.{accepted, accepted_one, take_all}
use forge_sight.Ingestion.Service.Pipeline.{
  bus, Service, Sound, same_readings, arrived, begun, wrote, sent_on, flushed,
}

module _ (F : Doubles) (S : Server (F.Double)) (J : Json (F.Double)) (T : Type 0) {K : Type 0}
    (sink : Reading (F.Double) → K → K) (workers : ℕ) where
  open F use {Double}
  open S use {World}

  -- The service before the first message, with an empty buffer.
  abbrev pub starting : Session → ℕ → K → World × List Statement → Service F S J T sink workers
  starting c n k w = record {
    pool = record { stopped = false; tasks = [] };
    unwritten = [];
    unpublished = [];
    writer = writer F S c n [];
    world = w;
    sink = k;
  }

  module _ (c : Session) (n : ℕ) (log : List Statement) (k : K) where
    started :
        (b : Bool) (all : List (Reading Double)) (s t : Service F S J T sink workers)
        → (if b
            then begin_task F (logged S) J (bus F S J T sink workers) workers s (wake s.pool)
            else none)
          ≡ some t
        → Sound F S J T sink workers c n log k all s
        → Sound F S J T sink workers c n log k all t
    started true all s t h v = begun F S J T sink workers c n log k all s t (wake s.pool) refl h v
    started false all s t h v = cc

    -- The readings that an event brings.
    abbrev brought : ServiceEvent T → List (Reading Double)
    brought e = accepted J (e ∷ [])

    service_step-Sound :
        (e : ServiceEvent T) (all : List (Reading Double)) (s t : Service F S J T sink workers)
        → service_step F (logged S) J (bus F S J T sink workers) workers e s ≡ some t
        → Sound F S J T sink workers c n log k all s
        → Sound F S J T sink workers c n log k (all ++ brought e) t
    unfolding service_step message_arrived accepted
    service_step-Sound (arrives payload) all s t h v =
        subst (λ l. Sound F S J T sink workers c n log k (all ++ l) t) (sym (append-nil _))
          (arrived F S J T sink workers c n log k all s t (parse J payload) h v)
    service_step-Sound starts all s t h v =
        subst (λ l. Sound F S J T sink workers c n log k l t) (sym (append-nil all))
          (started _ all s t h v)
    service_step-Sound (writes i) all s t h v =
        subst (λ l. Sound F S J T sink workers c n log k l t) (sym (append-nil all))
          (wrote F S J T sink workers c n log k all s t (take_out i s.unwritten)
            (take_out-Perm i s.unwritten) h v)
    service_step-Sound (publishes i now) all s t h v =
        subst (λ l. Sound F S J T sink workers c n log k l t) (sym (append-nil all))
          (sent_on F S J T sink workers c n log k now all s t (take_out i s.unpublished)
            (take_out-Perm i s.unpublished) h v)
    service_step-Sound flushes all s t h v =
        subst (λ l. Sound F S J T sink workers c n log k l t) (sym (append-nil all))
          (flushed F S J T sink workers c n log k all s t h v)
    service_step-Sound shuts_down all s t h v =
        subst (λ l. Sound F S J T sink workers c n log k l t) (sym (append-nil all))
          (subst (Sound F S J T sink workers c n log k all) (some-injective _ _ h) (
            same_readings F S J T sink workers c n log k all s (shutdown s.pool)
              (shutdown_tasks s.pool) v))

    brought_first :
        (e : ServiceEvent T) (events : List (ServiceEvent T))
        → accepted J (e ∷ events) ≡ brought e ++ accepted J events
    unfolding accepted
    brought_first (arrives payload) events =
        ap (λ l. l ++ accepted J events) (sym (append-nil (accepted_one J (parse J payload))))
    brought_first starts events = refl
    brought_first (writes i) events = refl
    brought_first (publishes i now) events = refl
    brought_first flushes events = refl
    brought_first shuts_down events = refl

    service-Sound :
        (events : List (ServiceEvent T)) (all : List (Reading Double))
        (s t : Service F S J T sink workers)
        → service F (logged S) J (bus F S J T sink workers) workers events s ≡ some t
        → Sound F S J T sink workers c n log k all s
        → Sound F S J T sink workers c n log k (all ++ accepted J events) t
    unfolding service accepted
    service-Sound [] all s t h v =
        subst (λ l. Sound F S J T sink workers c n log k l t) (sym (append-nil all))
          (subst (Sound F S J T sink workers c n log k all) (some-injective _ _ h) v)
    service-Sound (e ∷ events) all s t h v =
        (elim (service_step F (logged S) J (bus F S J T sink workers) workers e s)
            as (λ o.
              service_step F (logged S) J (bus F S J T sink workers) workers e s ≡ o
              → (elim o [
                | none ↦ none
                | some u ↦ service F (logged S) J (bus F S J T sink workers) workers events u
              ])
                ≡ some t
              → Sound F S J T sink workers c n log k (all ++ accepted J (e ∷ events)) t) [
                | none ↦ λ q f. cc
                | some u ↦ λ q f.
                    subst (λ l. Sound F S J T sink workers c n log k l t)
                      (append_assoc all (brought e) (accepted J events)
                        ∙ ap (◌++◌ all) (sym (brought_first e events)))
                      (service-Sound events (all ++ brought e) u t f
                        (service_step-Sound e all s u q v))
              ])
          refl h

  starting-Sound :
      (c : Session) (n : ℕ) (k : K) (w : World × List Statement)
      → Sound F S J T sink workers c n w.1 k [] (starting c n k w)
  unfolding take_all
  starting-Sound c n k w = record {
    written = [];
    published = [];
    buffer = [];
    is_writer = refl;
    all_sent = refl;
    taken = refl;
    in_hand = Perm.refl [];
    to_kafka = Perm.refl [];
  }

  -- With any number of workers, messages arrive, for none of which an exception leaves the callback,
  -- and the service goes on in any order of its steps, until no task is queued and every worker is
  -- free, and the writer, empty at first, is destroyed. Then the INSERTs carry the readings of the
  -- payloads that the parser accepts, each once, in the order in which they were written; and the
  -- Kafka sink is given them each once, in the order in which they were published.
  pub service_delivers :
      (events : List (ServiceEvent T)) (c : Session) (n : ℕ) (k : K) (w : World × List Statement)
      (t : Service F S J T sink workers)
      → service F (logged S) J (bus F S J T sink workers) workers events (starting c n k w) ≡ some t
      → t.pool.tasks ≡ []
      → t.unwritten ≡ []
      → t.unpublished ≡ []
      → (written : List (Reading Double)) × (published : List (Reading Double)) × Perm
          (accepted J events)
          written
        × Perm written published
        × (rows_sent (stop_service F (logged S) J (bus F S J T sink workers) workers t).1
            ≡ rows_sent w.1 ++ map (sent F S) written)
        × (t.sink ≡ take_all sink published k)
  unfolding stop_service
  service_delivers events c n k w t h queue unwritten unpublished =
      let v = service-Sound c n w.1 k events [] (starting c n k w) t h (starting-Sound c n k w) in
      let nothing : t.unwritten ++ t.pool.tasks ≡ [] =
        ap (λ l. l ++ t.pool.tasks) unwritten ∙ queue in
      (
        v.written,
        v.published,
        subst (Perm (accepted J events)) (ap (◌++◌ v.written) nothing ∙ append-nil v.written)
            v.in_hand,
        subst (Perm v.written) (ap (◌++◌ v.published) unpublished ∙ append-nil v.published)
            v.to_kafka,
        ap (λ d. rows_sent (close F (logged S) d t.world).1.1) v.is_writer
            ∙ close-writer F S c n v.buffer t.world
            ∙ v.all_sent,
        v.taken,
      )
