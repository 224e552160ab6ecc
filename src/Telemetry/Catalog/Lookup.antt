-- ===== src/Telemetry/Catalog/Lookup.antt =====
-- telemetry/catalog.py: what a catalog that was built holds.
use mathlib.Core.List.{append_assoc, append-nil, map-append}
use tuner_os.Prelude.{
  String, ◌≡◌, refl, sym, ap, subst, ◌∙◌, inl, inr, false, none, some, List, [], ◌∷◌, ◌++◌, map,
  arith, ◌==◌, ok, nat_eq, >>=-eq-ok, ok_injective, ok-ne-err, Option-cases,
}
use tuner_os.Prelude.Dict.{Dict, get, put, put_absent, get-snoc_none}
use tuner_os.Can.Metadata.{CanDatabaseMetadata, CanMessageMetadata, CanSignalMetadata}
use tuner_os.Telemetry.Models.{SignalKey, key_eq, key_beq_iff}
use tuner_os.Telemetry.Catalog.{
  SignalDefinition, SignalCatalog, definition_of, with_definition, add_signal, add_signals,
  add_message, add_messages, no_signals, signal_catalog,
}

abbrev pub keyed : List SignalDefinition → Dict SignalKey SignalDefinition
keyed = map (λ d. (d.key, d))

-- Every signal of the metadata, in order.
abbrev pub definitions_of : List CanMessageMetadata → List SignalDefinition
definitions_of [] = []
definitions_of (m ∷ ms) = map (definition_of m) m.signals ++ definitions_of ms

-- No two definitions have one key.
abbrev pub IsUnique : List SignalDefinition → Type 0
IsUnique [] = Unit {0}
IsUnique (d ∷ ds) = (get (keyed ds) d.key ≡ none) × IsUnique ds

pub record IsCatalog (c : SignalCatalog) : Type 0 where
  pub indexed : c.definitions_by_key ≡ keyed c.definitions
  pub unique : IsUnique c.definitions

IsUnique-snoc :
    (ds : List SignalDefinition) (d : SignalDefinition)
    → IsUnique ds
    → get (keyed ds) d.key ≡ none
    → IsUnique (ds ++ d ∷ [])
unfolding get
IsUnique-snoc [] d u h = (refl, tt)
IsUnique-snoc (x ∷ ds) d u h =
    let (other, absent) = absent_parts x ds d h in
    (
      subst (λ l. get l x.key ≡ none)
          (sym (map-append {B = SignalKey × SignalDefinition} (λ y. (y.key, y)) ds (d ∷ [])))
          (get-snoc_none (keyed ds) x.key d.key d u.0 other),
      IsUnique-snoc ds d u.1 absent,
    )
  where
    absent_parts :
        (x : SignalDefinition) (ds : List SignalDefinition) (d : SignalDefinition)
        → get (keyed (x ∷ ds)) d.key ≡ none
        → ((x.key == d.key) ≡ false) × (get (keyed ds) d.key ≡ none)
    absent_parts x ds d h = ground arith

pub key_of_find :
    (ds : List SignalDefinition) (k : SignalKey) (d : SignalDefinition)
    → get (keyed ds) k ≡ some d
    → d.key ≡ k
unfolding get
key_of_find [] k d h = cc
key_of_find (x ∷ ds) k d h = ground (arith, key_beq_iff x.key k, key_of_find ds k d)

-- The definitions after adding some are those before, and then the new ones.
abbrev Adds : SignalCatalog → List SignalDefinition → SignalCatalog → Type 0
Adds c ds c' = IsCatalog c' × (c'.definitions ≡ c.definitions ++ ds)

with_definition-IsCatalog :
    (d : SignalDefinition) (name : String) (c : SignalCatalog)
    → IsCatalog c
    → get c.definitions_by_key d.key ≡ none
    → IsCatalog (with_definition d name c)
unfolding with_definition
with_definition-IsCatalog d name c v h = record {
  indexed =
      put_absent c.definitions_by_key d.key d h
      ∙ ap (λ l. l ++ (d.key, d) ∷ []) v.indexed
      ∙ sym
          (map-append {B = SignalKey × SignalDefinition} (λ y. (y.key, y)) c.definitions (d ∷ []));
  unique = IsUnique-snoc c.definitions d v.unique (subst (λ l. get l d.key ≡ none) v.indexed h);
}

add_signal-Adds :
    (m : CanMessageMetadata) (s : CanSignalMetadata) (c c' : SignalCatalog)
    → IsCatalog c
    → add_signal m s c ≡ ok c'
    → Adds c (definition_of m s ∷ []) c'
unfolding add_signal
add_signal-Adds m s c c' v h =
    elim (Option-cases (get c.definitions_by_key (definition_of m s).key)) [
      | inl absent ↦
          subst (Adds c (definition_of m s ∷ [])) (ok_injective (rw absent at h))
            (with_definition-IsCatalog (definition_of m s) s.signal_name c v absent, refl)
      | inr (old, e) ↦ absurd (ok-ne-err (sym (rw e at h)))
    ]

add_signals-Adds :
    (m : CanMessageMetadata) (ss : List CanSignalMetadata) (c c' : SignalCatalog)
    → IsCatalog c
    → add_signals m ss c ≡ ok c'
    → Adds c (map (definition_of m) ss) c'
unfolding add_signals
add_signals-Adds m [] c c' v h =
    subst (Adds c []) (ok_injective h) (v, sym (append-nil c.definitions))
add_signals-Adds m (s ∷ ss) c c' v h =
    let (mid, first, rest) = >>=-eq-ok (add_signal m s c) (add_signals m ss) h in
    let (valid, added) = add_signal-Adds m s c mid v first in
    let (valid', added') = add_signals-Adds m ss mid c' valid rest in
    (
      valid',
      added' ∙ ap (λ l. l ++ map (definition_of m) ss) added ∙ append_assoc c.definitions _ _,
    )

add_message-Adds :
    (m : CanMessageMetadata) (c c' : SignalCatalog)
    → IsCatalog c
    → add_message m c ≡ ok c'
    → Adds c (map (definition_of m) m.signals) c'
unfolding add_message
add_message-Adds m c c' v h = elim (Option-cases (get c.messages_by_id m.arbitration_id)) [
  | inl absent ↦
      add_signals-Adds m m.signals
        (record c { messages_by_id = put c.messages_by_id m.arbitration_id m }) c'
        (record { indexed = v.indexed; unique = v.unique }) (rw absent at h)
  | inr (old, e) ↦ absurd (ok-ne-err (sym (rw e at h)))
]

add_messages-Adds :
    (ms : List CanMessageMetadata) (c c' : SignalCatalog)
    → IsCatalog c
    → add_messages ms c ≡ ok c'
    → Adds c (definitions_of ms) c'
unfolding add_messages
add_messages-Adds [] c c' v h =
    subst (Adds c []) (ok_injective h) (v, sym (append-nil c.definitions))
add_messages-Adds (m ∷ ms) c c' v h =
    let (mid, first, rest) = >>=-eq-ok (add_message m c) (add_messages ms) h in
    let (valid, added) = add_message-Adds m c mid v first in
    let (valid', added') = add_messages-Adds ms mid c' valid rest in
    (
      valid',
      added'
          ∙ ap (λ l. l ++ definitions_of ms) added
          ∙ append_assoc c.definitions (map (definition_of m) m.signals) (definitions_of ms),
    )

-- A catalog that was built from metadata defines every signal of every message, in order and
-- nothing else; its index holds exactly these definitions, each under its own key, and no two of
-- them share a key.
pub signal_catalog-definitions :
    (metadata : CanDatabaseMetadata) (c : SignalCatalog)
    → signal_catalog metadata ≡ ok c
    → (c.definitions ≡ definitions_of metadata.messages)
      × (c.definitions_by_key ≡ keyed c.definitions)
      × IsUnique c.definitions
unfolding signal_catalog
signal_catalog-definitions metadata c h =
    let (valid, added) =
      add_messages-Adds metadata.messages no_signals c (record { indexed = refl; unique = tt }) h in
    (added, valid.indexed, valid.unique)
