-- ===== src/Cbor/Destructure.antt =====
-- `destructure_cbor_map!` against the lookups of a BTreeMap, which its documentation promises, and
-- against the fields of `cbor_map_options!`.
use open_sk.Common.{◌≡◌, refl, sym, arith, List, [], ◌∷◌, Option, none, some, Ordering}
use open_sk.Cbor.Values.{KeyType, Value, Entries, no_entries, entry, cmp}
use open_sk.Cbor.Order.{cmp-swap, cmp_trans, cmp_refl, cmp-eq}
use open_sk.Cbor.Insert.{append, append-no_entries, append_assoc, AreBelow, AreBelow-append}
use open_sk.Cbor.Insert.{insert-append}
use open_sk.Cbor.Macros.{Field, insert_fields, peek_value}
use open_sk.Cbor.Macros.{destructure_cbor_map}

-- `BTreeMap::get`
unfoldable pub lookup : KeyType → Entries → Option Value
lookup k no_entries = none
lookup k (entry j v es) = elim (cmp j k) [ Ordering.eq ↦ some v | _ ↦ lookup k es ]

-- The keys of a BTreeMap ascend. All of them are above `k`.
abbrev pub AreAbove : KeyType → Entries → Type 0
AreAbove k no_entries = Unit
AreAbove k (entry j v es) = (cmp k j ≡ Ordering.lt) × AreAbove k es

abbrev pub AreAscending : Entries → Type 0
AreAscending no_entries = Unit
AreAscending (entry k v es) = AreAbove k es × AreAscending es

abbrev pub KeysAreAbove : KeyType → List KeyType → Type 0
KeysAreAbove k [] = Unit
KeysAreAbove k (j ∷ keys) = (cmp k j ≡ Ordering.lt) × KeysAreAbove k keys

abbrev pub KeysAreAscending : List KeyType → Type 0
KeysAreAscending [] = Unit
KeysAreAscending (k ∷ keys) = KeysAreAbove k keys × KeysAreAscending keys

abbrev pub lookups : List KeyType → Entries → List (Option Value)
lookups [] es = []
lookups (k ∷ keys) es = lookup k es ∷ lookups keys es

AreAbove-trans :
    (j k : KeyType) (es : Entries) → cmp j k ≡ Ordering.lt → AreAbove k es → AreAbove j es
AreAbove-trans j k no_entries h a = tt
AreAbove-trans j k (entry i v es) h a = (cmp_trans j k i h a.0, AreAbove-trans j k es h a.1)

lookup-AreAbove : (k : KeyType) (es : Entries) → AreAbove k es → lookup k es ≡ none
unfolding lookup
lookup-AreAbove k no_entries a = refl
lookup-AreAbove k (entry j v es) a = ground (arith, cmp-swap k j, lookup-AreAbove k es a.1)

lookup-peek_value :
    (k : KeyType) (es : Entries) → AreAscending es → (peek_value k es).0 ≡ lookup k es
unfolding lookup peek_value
lookup-peek_value k no_entries a = refl
lookup-peek_value k (entry j v es) a =
    ground
      (arith, cmp-swap j k, lookup-AreAbove k es, AreAbove-trans k j es, lookup-peek_value k es a.1)

peek_value-AreAscending :
    (k : KeyType) (es : Entries) → AreAscending es → AreAscending (peek_value k es).1
unfolding peek_value
peek_value-AreAscending k no_entries a = tt
peek_value-AreAscending k (entry j v es) a = ground (arith, peek_value-AreAscending k es a.1)

-- What a later key finds is still there.
lookup-peek_value_rest :
    (k later : KeyType) (es : Entries)
    → cmp k later ≡ Ordering.lt
    → lookup later (peek_value k es).1 ≡ lookup later es
unfolding lookup peek_value
lookup-peek_value_rest k later no_entries h = refl
lookup-peek_value_rest k later (entry j v es) h =
    ground (arith, cmp_trans j k later, cmp-eq j k, lookup-peek_value_rest k later es h)

lookups-rest :
    (k : KeyType) (keys : List KeyType) (es : Entries)
    → KeysAreAbove k keys
    → lookups keys (peek_value k es).1 ≡ lookups keys es
lookups-rest k [] es h = refl
lookups-rest k (j ∷ keys) es h =
    rw (lookup-peek_value_rest k j es h.0, lookups-rest k keys es h.1) refl

-- Where the keys ascend, destructuring a map gives what looking each of the keys up gives.
pub destructure-eq-lookups :
    (keys : List KeyType) (es : Entries)
    → KeysAreAscending keys
    → AreAscending es
    → destructure_cbor_map keys es ≡ lookups keys es
unfolding destructure_cbor_map
destructure-eq-lookups [] es h a = refl
destructure-eq-lookups (k ∷ keys) es h a =
    rw
      (
        lookup-peek_value k es a,
        destructure-eq-lookups keys (peek_value k es).1 h.1 (peek_value-AreAscending k es a),
        lookups-rest k keys es h.0,
      )
      refl

abbrev pub keys_of : List Field → List KeyType
keys_of [] = []
keys_of ((k, o) ∷ fields) = k ∷ keys_of fields

abbrev pub values_of : List Field → List (Option Value)
values_of [] = []
values_of ((k, o) ∷ fields) = o ∷ values_of fields

abbrev pub entries_of : List Field → Entries
entries_of [] = no_entries
entries_of ((k, none) ∷ fields) = entries_of fields
entries_of ((k, some v) ∷ fields) = entry k v (entries_of fields)

-- The entries are below the key of every field.
abbrev pub AreBelowAll : List Field → Entries → Type 0
AreBelowAll [] es = Unit
AreBelowAll ((k, o) ∷ fields) es = AreBelow k es × AreBelowAll fields es

AreBelowAll-append :
    (k : KeyType) (v : Value) (fields : List Field) (es : Entries)
    → KeysAreAbove k (keys_of fields)
    → AreBelowAll fields es
    → AreBelowAll fields (append es (entry k v no_entries))
AreBelowAll-append k v [] es h b = tt
AreBelowAll-append k v ((j, o) ∷ fields) es h b =
    (AreBelow-append j k v es b.0 h.0, AreBelowAll-append k v fields es h.1 b.1)

insert_fields-append :
    (fields : List Field) (es : Entries)
    → KeysAreAscending (keys_of fields)
    → AreBelowAll fields es
    → insert_fields fields es ≡ append es (entries_of fields)
insert_fields-append [] es h b = sym (append-no_entries es)
insert_fields-append ((k, none) ∷ fields) es h b = insert_fields-append fields es h.1 b.1
insert_fields-append ((k, some v) ∷ fields) es h b =
    rw
      (
        insert-append k v es b.0,
        insert_fields-append fields (append es (entry k v no_entries)) h.1
            (AreBelowAll-append k v fields es h.0 b.1),
        append_assoc es (entry k v no_entries) (entries_of fields),
      )
      refl

AreBelowAll-no_entries : (fields : List Field) → AreBelowAll fields no_entries
AreBelowAll-no_entries [] = tt
AreBelowAll-no_entries ((k, o) ∷ fields) = (tt, AreBelowAll-no_entries fields)

AreAbove-entries_of :
    (k : KeyType) (fields : List Field)
    → KeysAreAbove k (keys_of fields)
    → AreAbove k (entries_of fields)
AreAbove-entries_of k [] h = tt
AreAbove-entries_of k ((j, none) ∷ fields) h = AreAbove-entries_of k fields h.1
AreAbove-entries_of k ((j, some v) ∷ fields) h = (h.0, AreAbove-entries_of k fields h.1)

peek_value-AreAbove : (k : KeyType) (es : Entries) → AreAbove k es → peek_value k es ≡ (none, es)
unfolding peek_value
peek_value-AreAbove k no_entries a = refl
peek_value-AreAbove k (entry j v es) a = rw (peek_value, cmp-swap k j, a.0) refl

peek_value-field :
    (k : KeyType) (o : Option Value) (fields : List Field)
    → KeysAreAbove k (keys_of fields)
    → peek_value k (entries_of ((k, o) ∷ fields)) ≡ (o, entries_of fields)
unfolding peek_value
peek_value-field k none fields h =
    peek_value-AreAbove k (entries_of fields) (AreAbove-entries_of k fields h)
peek_value-field k (some v) fields h = rw (peek_value, cmp_refl k) refl

destructure-entries_of :
    (fields : List Field)
    → KeysAreAscending (keys_of fields)
    → destructure_cbor_map (keys_of fields) (entries_of fields) ≡ values_of fields
unfolding destructure_cbor_map
destructure-entries_of [] h = refl
destructure-entries_of ((k, o) ∷ fields) h =
    rw (peek_value-field k o fields h.0, destructure-entries_of fields h.1) refl

-- Destructuring by ascending keys takes out of the map what `cbor_map_options!` has put under them.
pub destructure-cbor_map_options :
    (fields : List Field)
    → KeysAreAscending (keys_of fields)
    → destructure_cbor_map (keys_of fields) (insert_fields fields no_entries) ≡ values_of fields
destructure-cbor_map_options fields h =
    rw (insert_fields-append fields no_entries h (AreBelowAll-no_entries fields))
      (destructure-entries_of fields h)
