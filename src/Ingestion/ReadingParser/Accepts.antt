-- ===== src/Ingestion/ReadingParser/Accepts.antt =====
-- Which payloads the parser accepts.
use forge_sight.Prelude.{
  ◌≡◌, ◌≢◌, ◌↔◌, refl, sym, ap, inl, inr, Bool, true, false, subst, Option, none, some, [], ◌∷◌,
  ◌++◌, Text, lit, Bool-cases, if◌then◌else◌,
}
use forge_sight.Ingestion.Reading.{Reading}
use forge_sight.Ingestion.ReadingParser.{
  Json, Decoded, decoded, parse_error, out_of_range, ParseResult, reading, error, thrown, member,
  anomaly_of, read_members, parse_object, parse,
}

abbrev reading_or : {D : Type 0} → Reading D → ParseResult D → Reading D
reading_or r (reading x) = x
reading_or r (error what) = r
reading_or r thrown = r

module _ {D : Type 0} (J : Json D) where
  open J use {Value, decode, is_object, field, string, number, boolean}

  -- The object has the key, and what stands there converts to the value.
  abbrev pub Has : {A : Type 0} → (Value → Option A) → Value → Text → A → Type 0
  Has convert j key x = (v : Value) × (field j key ≡ some v) × (convert v ≡ some x)

  -- The object holds the reading: five members of the right types, and an anomaly flag that is true
  -- exactly where the object has a member "anomaly" that is the Boolean true.
  pub record Holds (j : Value) (r : Reading D) : Type 0 where
    pub device_id : Has string j (lit "device_id") r.device_id
    pub sensor : Has string j (lit "sensor") r.sensor
    pub value : Has number j (lit "value") r.value
    pub unit : Has string j (lit "unit") r.unit
    pub timestamp : Has string j (lit "timestamp") r.timestamp
    pub anomaly : (r.anomaly ≡ true) ↔ Has boolean j (lit "anomaly") true

  Has-member :
      {A : Type 0} (convert : Value → Option A) (j : Value) (key : Text) (x : A)
      → Has convert j key x
      → member J convert j key ≡ some x
  Has-member convert j key x (v, e, f) = rw (member, e) f

  member_has_lem :
      {A : Type 0} (convert : Value → Option A) (j : Value) (key : Text) (x : A)
      (found : Option Value)
      → field j key ≡ found
      → (elim found [ none ↦ none | some v ↦ convert v ]) ≡ some x
      → Has convert j key x
  member_has_lem convert j key x none e h = cc
  member_has_lem convert j key x (some v) e h = (v, e, h)

  member-Has :
      {A : Type 0} (convert : Value → Option A) (j : Value) (key : Text) (x : A)
      → member J convert j key ≡ some x
      → Has convert j key x
  member-Has convert j key x h = member_has_lem convert j key x (field j key) refl h

  flag_true : (o : Option Bool) → (elim o [ none ↦ false | some b ↦ b ]) ≡ true → o ≡ some true
  flag_true none h = cc
  flag_true (some b) h = ap some h

  anomaly_of_iff : (j : Value) → (anomaly_of J j ≡ true) ↔ Has boolean j (lit "anomaly") true
  anomaly_of_iff j = (
    λ h.
        member-Has boolean j (lit "anomaly") true
          (flag_true (member J boolean j (lit "anomaly")) h),
    λ has. rw (anomaly_of, Has-member boolean j (lit "anomaly") true has) refl,
  )

  same_flag : (a b : Bool) (P : Type 0) → (a ≡ true) ↔ P → (b ≡ true) ↔ P → a ≡ b
  same_flag true b P f g = sym (g.1 (f.0 refl))
  same_flag false true P f g = cc (f.1 (g.0 refl))
  same_flag false false P f g = refl

  -- The payload is the text of an object that holds the reading.
  pub record Accepts (payload : Text) (r : Reading D) : Type 0 where
    pub object : Value
    pub decodes : decode payload ≡ Decoded.decoded object
    pub not_empty : payload ≢ []
    pub is_one : is_object object ≡ true
    pub holds : Holds object r

  complete : (payload : Text) (r : Reading D) → Accepts payload r → parse J payload ≡ reading r
  unfolding parse parse_object read_members
  complete [] r a = absurd (a.not_empty refl)
  complete (c ∷ payload) r a =
      let h = a.holds in
      rw (
        a.decodes,
        parse_object,
        a.is_one,
        Has-member string a.object (lit "device_id") r.device_id h.device_id,
        Has-member string a.object (lit "sensor") r.sensor h.sensor,
        Has-member number a.object (lit "value") r.value h.value,
        Has-member string a.object (lit "unit") r.unit h.unit,
        Has-member string a.object (lit "timestamp") r.timestamp h.timestamp,
        same_flag (anomaly_of J a.object) r.anomaly _ (anomaly_of_iff a.object) h.anomaly,
      )

  members_lem :
      (dev sen : Option Text) (v : Option D) (unit stamp : Option Text) (anomaly : Bool)
      (r : Reading D)
      → read_members dev sen v unit stamp anomaly ≡ reading r
      → (dev ≡ some r.device_id)
        × (sen ≡ some r.sensor)
        × (v ≡ some r.value)
        × (unit ≡ some r.unit)
        × (stamp ≡ some r.timestamp)
        × (r.anomaly ≡ anomaly)
  unfolding read_members
  members_lem none sen v unit stamp anomaly r e = cc
  members_lem (some dev) none v unit stamp anomaly r e = cc
  members_lem (some dev) (some sen) none unit stamp anomaly r e = cc
  members_lem (some dev) (some sen) (some v) none stamp anomaly r e = cc
  members_lem (some dev) (some sen) (some v) (some unit) none anomaly r e = cc
  members_lem (some dev) (some sen) (some v) (some unit) (some stamp) anomaly r e =
      let same = ap (reading_or r) e in
      (
        ap (λ (x : Reading D). some x.device_id) same,
        ap (λ (x : Reading D). some x.sensor) same,
        ap (λ (x : Reading D). some x.value) same,
        ap (λ (x : Reading D). some x.unit) same,
        ap (λ (x : Reading D). some x.timestamp) same,
        ap (λ (x : Reading D). x.anomaly) (sym same),
      )

  object_lem : (j : Value) (r : Reading D) → parse_object J j ≡ reading r → Holds j r
  unfolding parse_object
  object_lem j r e =
      let (dev, sen, v, unit, stamp, flag) = members_lem _ _ _ _ _ _ r e in
      record {
        device_id = member-Has string j (lit "device_id") r.device_id dev;
        sensor = member-Has string j (lit "sensor") r.sensor sen;
        value = member-Has number j (lit "value") r.value v;
        unit = member-Has string j (lit "unit") r.unit unit;
        timestamp = member-Has string j (lit "timestamp") r.timestamp stamp;
        anomaly =
            subst (λ b. (b ≡ true) ↔ Has boolean j (lit "anomaly") true) (sym flag)
              (anomaly_of_iff j);
      }

  sound_lem :
      (payload : Text) (d : Decoded Value) (r : Reading D)
      → decode payload ≡ d
      → payload ≢ []
      → (elim d [
        | parse_error what ↦ error (lit "invalid JSON: " ++ what)
        | out_of_range ↦ thrown
        | decoded j ↦
            if is_object j then parse_object J j else error (lit "payload is not a JSON object")
      ])
        ≡ reading r
      → Accepts payload r
  sound_lem payload (parse_error what) r e n h = cc
  sound_lem payload out_of_range r e n h = cc
  sound_lem payload (decoded j) r e n h = elim (Bool-cases (is_object j)) [
    | inl is ↦ record {
      object = j;
      decodes = e;
      not_empty = n;
      is_one = is;
      holds = object_lem j r (rw is at h);
    }
    | inr other ↦ cc (rw other at h)
  ]

  sound : (payload : Text) (r : Reading D) → parse J payload ≡ reading r → Accepts payload r
  unfolding parse
  sound [] r h = cc
  sound (c ∷ payload) r h = sound_lem (c ∷ payload) (decode (c ∷ payload)) r refl (λ e. cc) h

  -- The parser returns a reading exactly for the payloads that are not empty, decode to an object and
  -- hold the reading: five members of the right types, and an anomaly flag that is true exactly where
  -- the object has a member "anomaly" that is the Boolean true.
  pub parse-Accepts :
      (payload : Text) (r : Reading D) → (parse J payload ≡ reading r) ↔ Accepts payload r
  parse-Accepts payload r = (sound payload r, complete payload r)
