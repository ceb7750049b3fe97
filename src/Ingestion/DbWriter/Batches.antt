-- ===== src/Ingestion/DbWriter/Batches.antt =====
-- The batches that the writer sends.
use forge_sight.Prelude.{
  ◌≡◌, ◌≤◌, ◌<◌, refl, sym, ap, ◌∙◌, inl, inr, ℕ, leb, some, List, [], ◌∷◌, ◌++◌, map, length,
  append_assoc, append-nil, Doubles, Bool-cases, arith,
}
use forge_sight.Ingestion.Reading.{Reading}
use forge_sight.Database.{Server, Session, SentReading, Statement, insert_readings}
use forge_sight.Ingestion.DbWriter.{DbWriter, sent, insert_batch, write, flush, close, write_all}

-- The same server, with a record of the statements that were sent to it.
abbrev pub logged : {D : Type 0} → Server D → Server D
logged S = record {
  World = S.World × List Statement;
  exec = λ c st w. let r = S.exec c st w.0 in (r.0, (r.1, w.1 ++ (st ∷ [])));
  wait = λ w. (S.wait w.0, w.1);
}

-- The rows of all the INSERTs, in order.
unfoldable pub rows_sent : List Statement → List SentReading
rows_sent [] = []
rows_sent (insert_readings rows ∷ log) = rows ++ rows_sent log
rows_sent (_ ∷ log) = rows_sent log

rows_sent_snoc :
    (log : List Statement) (rows : List SentReading)
    → rows_sent (log ++ (insert_readings rows ∷ [])) ≡ rows_sent log ++ rows
unfolding rows_sent
rows_sent_snoc [] rows = append-nil rows
rows_sent_snoc (insert_readings new ∷ log) rows =
    ap (◌++◌ new) (rows_sent_snoc log rows) ∙ sym (append_assoc new (rows_sent log) rows)
rows_sent_snoc (_ ∷ log) rows = rows_sent_snoc log rows

pub map-append :
    {A B : Type 0} (f : A → B) (xs ys : List A) → map f (xs ++ ys) ≡ map f xs ++ map f ys
map-append f [] ys = refl
map-append f (x ∷ xs) ys = ap (◌∷◌ (f x)) (map-append f xs ys)

module _ (F : Doubles) (S : Server (F.Double)) where
  open F use {Double}
  open S use {World}

  abbrev pub writer : Session → ℕ → List (Reading Double) → DbWriter Double
  writer c n buffer = record { conn = some c; batch_size = n; buffer = buffer }

  -- What is known of a call of `write` or of `insert_batch` on the readings that wait: those that
  -- wait after it, that no reading was dropped or sent twice, and that the buffer is in its bounds.
  pub record Written (c : Session) (n : ℕ) (waiting : List (Reading Double)) (log : List Statement)
      (after : DbWriter Double) (log' : List Statement) : Type 0 where
    pub buffer : List (Reading Double)
    pub is_writer : after ≡ writer c n buffer
    pub all_sent : rows_sent log' ++ map (sent F S) buffer ≡ rows_sent log ++ map (sent F S) waiting
    pub bounded : 1 ≤ n → length buffer < n

  pub insert_batch-Written :
      (c : Session) (n : ℕ) (b : List (Reading Double)) (w : World × List Statement)
      → let r = insert_batch F (logged S) (writer c n b) w in
        (r.0.1 ≡ writer c n []) × (rows_sent r.1.1 ≡ rows_sent w.1 ++ map (sent F S) b)
  unfolding insert_batch
  insert_batch-Written c n [] w = (refl, sym (append-nil _))
  insert_batch-Written c n (r ∷ b) w = (refl, rows_sent_snoc w.1 (map (sent F S) (r ∷ b)))

  pub write-Written :
      (c : Session) (n : ℕ) (b : List (Reading Double)) (r : Reading Double)
      (w : World × List Statement)
      → let res = write F (logged S) r (writer c n b) w in
        Written c n (b ++ (r ∷ [])) w.1 res.0.1 res.1.1
  unfolding write
  write-Written c n b r w = elim (Bool-cases (leb n (length (b ++ (r ∷ []))))) [
    | inl full ↦
        let (emptied, all) = insert_batch-Written c n (b ++ (r ∷ [])) w in
        rw full (record {
          buffer = [];
          is_writer = emptied;
          all_sent = append-nil _ ∙ all;
          bounded = λ h. omega (arith, h);
        })
    | inr room ↦ rw room (record {
      buffer = b ++ (r ∷ []);
      is_writer = refl;
      all_sent = refl;
      bounded = λ h. ground arith;
    })
  ]

  pub rest_lem :
      (readings b : List (Reading Double)) (r : Reading Double) (b' : List (Reading Double))
      (before after : List SentReading)
      → after ++ map (sent F S) b' ≡ before ++ map (sent F S) (b ++ (r ∷ []))
      → after ++ map (sent F S) (b' ++ readings) ≡ before ++ map (sent F S) (b ++ (r ∷ readings))
  rest_lem readings b r b' before after e =
      let tail = map (sent F S) readings in
      rw (map-append (sent F S) b' readings) (
        sym (append_assoc after (map (sent F S) b') tail)
        ∙ (ap (λ (l : List SentReading). l ++ tail) e
            ∙ (append_assoc before (map (sent F S) (b ++ (r ∷ []))) tail
                ∙ ap (◌++◌ before) (
                    sym (map-append (sent F S) (b ++ (r ∷ [])) readings)
                    ∙ ap (map (sent F S)) (append_assoc b (r ∷ []) readings)))))

  pub close-writer :
      (c : Session) (n : ℕ) (b : List (Reading Double)) (w : World × List Statement)
      → rows_sent (close F (logged S) (writer c n b) w).1.1 ≡ rows_sent w.1 ++ map (sent F S) b
  unfolding close flush insert_batch
  close-writer c n [] w = sym (append-nil _)
  close-writer c n (r ∷ b) w = rows_sent_snoc w.1 (map (sent F S) (r ∷ b))

  -- A connected writer with `b` in its buffer takes any readings and is closed. Then the INSERTs that
  -- it sent, whether they succeeded or failed, carry `b` and the readings, each once and in order.
  pub write_all-sent :
      (readings b : List (Reading Double)) (c : Session) (n : ℕ) (w : World × List Statement)
      → rows_sent (write_all F (logged S) readings (writer c n b) w).1.1
        ≡ rows_sent w.1 ++ map (sent F S) (b ++ readings)
  unfolding write_all
  write_all-sent [] b c n w = rw (append-nil b) (close-writer c n b w)
  write_all-sent (r ∷ readings) b c n w =
      let first = write F (logged S) r (writer c n b) w in
      let k = write-Written c n b r w in
      ap (λ (d : DbWriter Double). rows_sent (write_all F (logged S) readings d first.1).1.1)
        k.is_writer
      ∙ write_all-sent readings k.buffer c n first.1
      ∙ rest_lem readings b r k.buffer (rows_sent w.1) (rows_sent first.1.1) k.all_sent

  -- After a write with a batch size of at least one the buffer is below that size.
  pub write_bounded :
      (c : Session) (n : ℕ) (b : List (Reading Double)) (r : Reading Double)
      (w : World × List Statement)
      → 1 ≤ n
      → length (write F (logged S) r (writer c n b) w).0.1.buffer < n
  write_bounded c n b r w h = let k = write-Written c n b r w in rw k.is_writer (k.bounded h)
