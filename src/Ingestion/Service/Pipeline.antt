-- ===== src/Ingestion/Service/Pipeline.antt =====
-- From payloads to the database and to Kafka, whatever the workers do between each other.
use mathlib.Core.List.{Perm}
use mathlib.Core.List.Perm
use mathlib.Core.Option.{some-injective}
use forge_sight.Prelude.{
  ◌≡◌, refl, sym, ap, ◌∙◌, subst, ℕ, Option, none, some, List, [], ◌∷◌, ◌++◌, map, append_assoc,
  append-nil, Doubles,
}
use forge_sight.Ingestion.Reading.{Reading}
use forge_sight.Ingestion.ReadingParser.{Json, ParseResult, reading, error, thrown}
use forge_sight.Ingestion.ThreadPool.{ThreadPool, Worker, waiting, running, exited, submit, wake}
use forge_sight.Ingestion.ThreadPool.Drain.{submit_lem, wake_starts}
use forge_sight.Ingestion.DbWriter.{DbWriter, sent, write, flush}
use forge_sight.Ingestion.DbWriter.Batches.{
  logged, rows_sent, map-append, writer, Written, insert_batch-Written, write-Written,
}
use forge_sight.Database.{Server, Session, Statement}
use forge_sight.Ingestion.Service.{
  ReadingEvent, EventBus, publish, call_handlers, flushes, State, queue_task, begin_task,
  write_task, publish_task, service_step,
}
use forge_sight.Ingestion.Service.Places.{snoc_right, moved}
use forge_sight.Ingestion.Service.Accepted.{accepted_one, take_all, take_all_snoc, sink_bus}

module _ (F : Doubles) (S : Server (F.Double)) (J : Json (F.Double)) (T : Type 0) {K : Type 0}
    (sink : Reading (F.Double) → K → K) (workers : ℕ) where
  open F use {Double}
  open S use {World}

  abbrev pub bus : EventBus (ReadingEvent Double T) K
  bus = sink_bus sink

  abbrev pub Service : Type 0
  Service = State F (logged S) J bus workers

  module _ (c : Session) (n : ℕ) (log : List Statement) (k : K) where
    -- Where the accepted readings are: what is written and what is published.
    pub record Sound (all : List (Reading Double)) (s : Service) : Type 0 where
      pub written : List (Reading Double)
      pub published : List (Reading Double)
      pub buffer : List (Reading Double)
      pub is_writer : s.writer ≡ writer F S c n buffer
      pub all_sent :
          rows_sent s.world.1 ++ map (sent F S) buffer ≡ rows_sent log ++ map (sent F S) written
      pub taken : s.sink ≡ take_all sink published k
      pub in_hand : Perm all (written ++ (s.unwritten ++ s.pool.tasks))
      pub to_kafka : Perm written (published ++ s.unpublished)

    pub same_readings :
        (all : List (Reading Double)) (s : Service) (pool : ThreadPool (Reading Double))
        → pool.tasks ≡ s.pool.tasks
        → Sound all s
        → Sound all (record s { pool = pool })
    same_readings all s pool e v = record {
      written = v.written;
      published = v.published;
      buffer = v.buffer;
      is_writer = v.is_writer;
      all_sent = v.all_sent;
      taken = v.taken;
      in_hand = subst (λ l. Perm all (v.written ++ (s.unwritten ++ l))) (sym e) v.in_hand;
      to_kafka = v.to_kafka;
    }

    pub queued :
        (r : Reading Double) (all : List (Reading Double)) (s t : Service)
        (o : Option (ThreadPool (Reading Double)))
        → submit r s.pool ≡ o
        → queue_task F (logged S) J bus workers s o ≡ some t
        → Sound all s
        → Sound (all ++ (r ∷ [])) t
    queued r all s t none e h v = cc
    queued r all s t (some pool) e h v =
        subst (Sound (all ++ (r ∷ []))) (some-injective _ _ h) record {
          written = v.written;
          published = v.published;
          buffer = v.buffer;
          is_writer = v.is_writer;
          all_sent = v.all_sent;
          taken = v.taken;
          in_hand =
              subst (λ l. Perm (all ++ (r ∷ [])) (v.written ++ (s.unwritten ++ l)))
                (sym (submit_lem r s.pool pool e).2)
                (snoc_right v.written s.unwritten s.pool.tasks r v.in_hand);
          to_kafka = v.to_kafka;
        }

    pub arrived :
        (all : List (Reading Double)) (s t : Service) (p : ParseResult Double)
        → queue_task F
            (logged S)
            J
            bus
            workers
            s
            (elim p [ error reason ↦ some s.pool | thrown ↦ none | reading r ↦ submit r s.pool ])
          ≡ some t
        → Sound all s
        → Sound (all ++ accepted_one J p) t
    arrived all s t (error reason) h v =
        subst (λ l. Sound l t) (sym (append-nil all))
          (subst (Sound all) (some-injective _ _ h) (same_readings all s s.pool refl v))
    arrived all s t thrown h v = cc
    arrived all s t (reading r) h v = queued r all s t (submit r s.pool) refl h v

    pub begun :
        (all : List (Reading Double)) (s t : Service)
        (o : Option (Worker (Reading Double) × ThreadPool (Reading Double)))
        → wake s.pool ≡ o
        → begin_task F (logged S) J bus workers s o ≡ some t
        → Sound all s
        → Sound all t
    begun all s t none w h v = cc
    begun all s t (some (waiting, pool)) w h v = cc
    begun all s t (some (exited, pool)) w h v = cc
    begun all s t (some (running r, pool)) w h v = subst (Sound all) (some-injective _ _ h) record {
      written = v.written;
      published = v.published;
      buffer = v.buffer;
      is_writer = v.is_writer;
      all_sent = v.all_sent;
      taken = v.taken;
      in_hand =
          subst (λ l. Perm all (v.written ++ l))
            (ap (◌++◌ s.unwritten) (wake_starts s.pool pool r w).1
              ∙ sym (append_assoc s.unwritten (r ∷ []) pool.tasks))
            v.in_hand;
      to_kafka = v.to_kafka;
    }

    written_lem :
        (b : List (Reading Double)) (d : DbWriter Double) (r : Reading Double)
        (w : World × List Statement)
        → d ≡ writer F S c n b
        → let res = write F (logged S) r d w in Written F S c n (b ++ (r ∷ [])) w.1 res.0.1 res.1.1
    written_lem b d r w e =
        subst
          (λ d.
            let res = write F (logged S) r d w in
            Written F S c n (b ++ (r ∷ [])) w.1 res.0.1 res.1.1)
          (sym e) (write-Written F S c n b r w)

    pub wrote :
        (all : List (Reading Double)) (s t : Service)
        (o : Option (Reading Double × List (Reading Double)))
        → ((r : Reading Double) (others : List (Reading Double))
            → o ≡ some (r, others)
            → Perm s.unwritten (r ∷ others))
        → write_task F (logged S) J bus workers s o ≡ some t
        → Sound all s
        → Sound all t
    unfolding write_task
    wrote all s t none p h v = cc
    wrote all s t (some (r, others)) p h v =
        let one = written_lem v.buffer s.writer r s.world v.is_writer in
        subst (Sound all) (some-injective _ _ h) record {
          written = v.written ++ (r ∷ []);
          published = v.published;
          buffer = one.buffer;
          is_writer = one.is_writer;
          all_sent =
              one.all_sent
              ∙ ap (◌++◌ (rows_sent s.world.1)) (map-append (sent F S) v.buffer (r ∷ []))
              ∙ sym (append_assoc (rows_sent s.world.1) (map (sent F S) v.buffer) _)
              ∙ ap (λ l. l ++ map (sent F S) (r ∷ [])) v.all_sent
              ∙ append_assoc (rows_sent log) (map (sent F S) v.written) _
              ∙ ap (◌++◌ (rows_sent log)) (sym (map-append (sent F S) v.written (r ∷ [])));
          taken = v.taken;
          in_hand = Perm.trans v.in_hand (moved v.written s.pool.tasks r (p r others refl));
          to_kafka =
              subst (Perm (v.written ++ (r ∷ []))) (append_assoc v.published s.unpublished (r ∷ []))
                (Perm.append_right (r ∷ []) v.to_kafka);
        }

    pub sent_on :
        (now : T) (all : List (Reading Double)) (s t : Service)
        (o : Option (Reading Double × List (Reading Double)))
        → ((r : Reading Double) (others : List (Reading Double))
            → o ≡ some (r, others)
            → Perm s.unpublished (r ∷ others))
        → publish_task F (logged S) J bus workers now s o ≡ some t
        → Sound all s
        → Sound all t
    unfolding publish_task publish call_handlers
    sent_on now all s t none p h v = cc
    sent_on now all s t (some (r, others)) p h v = subst (Sound all) (some-injective _ _ h) record {
      written = v.written;
      published = v.published ++ (r ∷ []);
      buffer = v.buffer;
      is_writer = v.is_writer;
      all_sent = v.all_sent;
      taken = ap (sink r) v.taken ∙ sym (take_all_snoc sink v.published r k);
      in_hand = v.in_hand;
      to_kafka = Perm.trans v.to_kafka (
          subst (Perm (v.published ++ s.unpublished))
            (sym (append_assoc v.published (r ∷ []) others))
            (Perm.append_left v.published (p r others refl)));
    }

    flush_writer :
        (b : List (Reading Double)) (w : World × List Statement)
        → let res = flush F (logged S) (writer F S c n b) w in
          (res.0.1 ≡ writer F S c n []) × (rows_sent res.1.1 ≡ rows_sent w.1 ++ map (sent F S) b)
    unfolding flush
    flush_writer [] w = (refl, sym (append-nil _))
    flush_writer (r ∷ b) w = insert_batch-Written F S c n (r ∷ b) w

    flushed_lem :
        (b : List (Reading Double)) (d : DbWriter Double) (w : World × List Statement)
        → d ≡ writer F S c n b
        → let res = flush F (logged S) d w in
          (res.0.1 ≡ writer F S c n []) × (rows_sent res.1.1 ≡ rows_sent w.1 ++ map (sent F S) b)
    flushed_lem b d w e =
        subst
          (λ d.
            let res = flush F (logged S) d w in
            (res.0.1 ≡ writer F S c n []) × (rows_sent res.1.1 ≡ rows_sent w.1 ++ map (sent F S) b))
          (sym e) (flush_writer b w)

    pub flushed :
        (all : List (Reading Double)) (s t : Service)
        → service_step F (logged S) J bus workers flushes s ≡ some t
        → Sound all s
        → Sound all t
    unfolding service_step
    flushed all s t h v =
        let one = flushed_lem v.buffer s.writer s.world v.is_writer in
        subst (Sound all) (some-injective _ _ h) record {
          written = v.written;
          published = v.published;
          buffer = [];
          is_writer = one.0;
          all_sent = append-nil _ ∙ one.1 ∙ v.all_sent;
          taken = v.taken;
          in_hand = v.in_hand;
          to_kafka = v.to_kafka;
        }
