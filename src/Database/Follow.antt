-- ===== src/Database/Follow.antt =====
-- Following the readings table by its primary key, which the alarm engine and the API server do.
use forge_sight.Prelude.{
  ◌≡◌, refl, sym, ap, ◌∙◌, List, [], ◌++◌, append_assoc, append-nil, ℤ, back_id, rows_after,
  Ascending, rows_after_cover,
}
use forge_sight.Ingestion.Reading.{PolledReading}
use forge_sight.Database.{
  Server, Session, Reply, failed, reading_rows, readings_of, select_readings_after,
}
use forge_sight.Database.Laws.{ReadingsLaws}

abbrev pub id_of_row : {D : Type 0} → PolledReading D → ℤ
id_of_row r = r.id

module _ {D : Type 0} where
  -- The second table holds the rows of the first and perhaps more.
  abbrev pub Extends : List (PolledReading D) → List (PolledReading D) → Type 0
  Extends xs ys = (new : List (PolledReading D)) × (ys ≡ xs ++ new)

  pub Extends-refl : (xs : List (PolledReading D)) → Extends xs xs
  Extends-refl xs = ([], sym (append-nil xs))

  pub Extends-trans :
      (xs ys zs : List (PolledReading D)) → Extends xs ys → Extends ys zs → Extends xs zs
  Extends-trans xs ys zs (m, e) (n, f) =
      (m ++ n, f ∙ ap (λ (l : List (PolledReading D)). l ++ n) e ∙ append_assoc xs m n)

module _ {D : Type 0} (S : Server D) (laws : ReadingsLaws S) where
  open S use {World, exec}
  open laws use {readings, first}

  -- The rows that a cursor `c` has still to see are those seen by now and those that `c'` has still
  -- to see, in the table as it is and however it grows.
  abbrev pub Covers : ℤ → List (PolledReading D) → ℤ → World → Type 0
  Covers c seen c' w =
      (later : List (PolledReading D))
      → Ascending id_of_row first later
      → Extends (readings w) later
      → seen ++ rows_after id_of_row c' later ≡ rows_after id_of_row c later

  -- A query by id, answered or refused, moves the cursor to the last row that it brought.
  pub reply_Covers :
      (s : Session) (c : ℤ) (w : World) (reply : Reply D)
      → (exec s (select_readings_after c) w).0 ≡ reply
      → Covers c (readings_of reply) (back_id id_of_row c (readings_of reply)) w
  unfolding back_id
  reply_Covers s c w (reading_rows rows) e later asc (new, grown) =
      rw (laws.selects s c w rows e, grown)
        (rows_after_cover id_of_row first c (readings w) new (rw grown at asc))
  reply_Covers s c w failed e later asc ext = refl
  reply_Covers s c w _ e later asc ext = refl
