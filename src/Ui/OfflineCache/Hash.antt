-- ===== src/Ui/OfflineCache/Hash.antt =====
-- The hash of pending states as a map, and its keys.
use forge_sight.Prelude.{
  ◌≡◌, refl, sym, ap, ◌∙◌, subst, inl, inr, Bool, false, ◌&&◌, ◌||◌, ◌==◌, Option, none, some, List,
  [], ◌∷◌, Text, text_eq, text_eq_iff, Bool-cases, arith, if◌then◌else◌,
}
use mathlib.Core.Option.{some-injective}
use forge_sight.Ui.OfflineCache.{CachedDeviceState, pending_key, hash_insert}

-- The separator of `pending_key` is in the text.
unfoldable pub has_separator : Text → Bool
has_separator [] = false
has_separator (c ∷ t) = (c == 31) || has_separator t

-- Keys of devices whose names have no separator are told apart.
pub text_eq-pending_key :
    (d d' s s' : Text)
    → has_separator d ≡ false
    → has_separator d' ≡ false
    → text_eq (pending_key d s) (pending_key d' s') ≡ (text_eq d d' && text_eq s s')
unfolding text_eq pending_key has_separator
text_eq-pending_key [] [] s s' h h' = refl
text_eq-pending_key [] (c' ∷ d') s s' h h' = ground arith
text_eq-pending_key (c ∷ d) [] s s' h h' = ground arith
text_eq-pending_key (c ∷ d) (c' ∷ d') s s' h h' = ground (arith, text_eq-pending_key d d' s s')

text_eq_sym : (s t : Text) → text_eq s t ≡ text_eq t s
unfolding text_eq
text_eq_sym [] [] = refl
text_eq_sym [] (d ∷ t) = refl
text_eq_sym (c ∷ s) [] = refl
text_eq_sym (c ∷ s) (d ∷ t) = ground (arith, text_eq_sym s t)

module _ {D : Type 0} where
  unfoldable pub hash_find : Text → List (Text × CachedDeviceState D) → Option (CachedDeviceState D)
  hash_find k [] = none
  hash_find k (e ∷ entries) = if text_eq e.0 k then some e.1 else hash_find k entries

  abbrev pub DistinctKeys : List (Text × CachedDeviceState D) → Type 0
  DistinctKeys [] = Unit {0}
  DistinctKeys (e ∷ entries) = (hash_find e.0 entries ≡ none) × DistinctKeys entries

  -- Every entry stands under the key of its own device and sensor.
  abbrev pub Keyed : List (Text × CachedDeviceState D) → Type 0
  Keyed entries =
      (k : Text) (s : CachedDeviceState D)
      → hash_find k entries ≡ some s
      → (k ≡ pending_key s.device_id s.sensor) × (has_separator s.device_id ≡ false)

  hit-insert :
      (k j : Text) (s t : CachedDeviceState D) (o : Option (CachedDeviceState D)) (b : Bool)
      → b ≡ text_eq k j
      → (if text_eq k j then some s else o)
        ≡ (if text_eq k j then some s else if b then some t else o)
  hit-insert k j s t o b h = ground arith

  -- An entry under another key is no answer to a key that is asked for.
  miss-insert :
      (k j : Text) (s : CachedDeviceState D) (e : Text × CachedDeviceState D)
      (o : Option (CachedDeviceState D))
      → text_eq e.0 k ≡ false
      → (if text_eq e.0 j then some e.1 else if text_eq k j then some s else o)
        ≡ (if text_eq k j then some s else if text_eq e.0 j then some e.1 else o)
  miss-insert k j s e o h = elim (Bool-cases (text_eq e.0 j)) [
    | inl same ↦
        rw (same, text_eq_sym k j, ap (λ t. text_eq t k) (sym ((text_eq_iff e.0 j).0 same)), h) refl
    | inr other ↦ rw other refl
  ]

  pub hash_find-insert :
      (k j : Text) (s : CachedDeviceState D) (entries : List (Text × CachedDeviceState D))
      → hash_find j (hash_insert k s entries)
        ≡ (if text_eq k j then some s else hash_find j entries)
  unfolding hash_find hash_insert
  hash_find-insert k j s [] = refl
  hash_find-insert k j s (e ∷ entries) = elim (Bool-cases (text_eq e.0 k)) [
    | inl h ↦ rw h (
        hit-insert k j s e.1 (hash_find j entries) (text_eq e.0 j)
          (ap (λ t. text_eq t j) ((text_eq_iff e.0 k).0 h)))
    | inr h ↦ rw (h, hash_find-insert k j s entries) (miss-insert k j s e (hash_find j entries) h)
  ]

  pub hash_insert-DistinctKeys :
      (k : Text) (s : CachedDeviceState D) (entries : List (Text × CachedDeviceState D))
      → DistinctKeys entries
      → DistinctKeys (hash_insert k s entries)
  unfolding hash_find hash_insert
  hash_insert-DistinctKeys k s [] h = (refl, tt)
  hash_insert-DistinctKeys k s (e ∷ entries) h = elim (Bool-cases (text_eq e.0 k)) [
    | inl hit ↦ rw hit (ap (λ t. hash_find t entries) (sym ((text_eq_iff e.0 k).0 hit)) ∙ h.0, h.1)
    | inr miss ↦ rw miss (
      hash_find-insert k e.0 s entries ∙ rw (text_eq_sym k e.0, miss) h.0,
      hash_insert-DistinctKeys k s entries h.1,
    )
  ]

  pub Keyed-tail :
      (e : Text × CachedDeviceState D) (entries : List (Text × CachedDeviceState D))
      → DistinctKeys (e ∷ entries)
      → Keyed (e ∷ entries)
      → Keyed entries
  unfolding hash_find
  Keyed-tail e entries d h k s found = elim (Bool-cases (text_eq e.0 k)) [
    | inl hit ↦
        let same = ap (λ t. hash_find t entries) ((text_eq_iff e.0 k).0 hit) in let gone = d.0 in cc
    | inr miss ↦ h k s (rw miss found)
  ]

  pub hash_insert-Keyed :
      (s : CachedDeviceState D) (entries : List (Text × CachedDeviceState D))
      → has_separator s.device_id ≡ false
      → Keyed entries
      → Keyed (hash_insert (pending_key s.device_id s.sensor) s entries)
  hash_insert-Keyed s entries plain h k t found =
      let found = sym (hash_find-insert (pending_key s.device_id s.sensor) k s entries) ∙ found in
      elim (Bool-cases (text_eq (pending_key s.device_id s.sensor) k)) [
        | inl hit ↦
            let new = some-injective s t (rw hit at found) in
            subst
              (λ (t : CachedDeviceState D).
                (k ≡ pending_key t.device_id t.sensor) × (has_separator t.device_id ≡ false))
              new (sym ((text_eq_iff _ k).0 hit), plain)
        | inr miss ↦ h k t (rw miss at found)
      ]
