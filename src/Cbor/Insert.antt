-- ===== src/Cbor/Insert.antt =====
-- Insertion into the BTreeMap of a map, in the ascending order in which the reader inserts.
use open_sk.Common.{◌≡◌, refl, ap, Option, none, some, Ordering, arith}
use open_sk.Cbor.Values.{KeyType, Value, Entries, no_entries, entry, cmp}
use open_sk.Cbor.Order.{cmp-swap, cmp_trans}
use open_sk.Cbor.Reader.{insert}
use open_sk.Cbor.Encoding.{Follows}

abbrev pub append : Entries → Entries → Entries
append no_entries fs = fs
append (entry k v es) fs = entry k v (append es fs)

pub append-no_entries : (es : Entries) → append es no_entries ≡ es
append-no_entries no_entries = refl
append-no_entries (entry k v es) = ap (entry k v) (append-no_entries es)

pub append_assoc : (es fs gs : Entries) → append (append es fs) gs ≡ append es (append fs gs)
append_assoc no_entries fs gs = refl
append_assoc (entry k v es) fs gs = ap (entry k v) (append_assoc es fs gs)

-- Every key of the entries is below `k`.
abbrev pub AreBelow : KeyType → Entries → Type 0
AreBelow k no_entries = Unit
AreBelow k (entry j w es) = (cmp j k ≡ Ordering.lt) × AreBelow k es

pub AreBelow-trans :
    (j k : KeyType) (es : Entries) → cmp j k ≡ Ordering.lt → AreBelow j es → AreBelow k es
AreBelow-trans j k no_entries h b = tt
AreBelow-trans j k (entry i w es) h b = (cmp_trans i j k b.0 h, AreBelow-trans j k es h b.1)

pub AreBelow-append :
    (k j : KeyType) (v : Value) (es : Entries)
    → AreBelow k es
    → cmp j k ≡ Ordering.lt
    → AreBelow k (append es (entry j v no_entries))
AreBelow-append k j v no_entries b h = (h, tt)
AreBelow-append k j v (entry i w es) b h = (b.0, AreBelow-append k j v es b.1 h)

-- The key that comes last in the entries read so far, and all keys are at most that one.
abbrev pub EndsIn : Option KeyType → Entries → Type 0
EndsIn none es = es ≡ no_entries
EndsIn (some last) es = (k : KeyType) → cmp last k ≡ Ordering.lt → AreBelow k es

pub Follows-AreBelow :
    (last : Option KeyType) (k : KeyType) (es : Entries)
    → EndsIn last es
    → Follows last k
    → AreBelow k es
Follows-AreBelow none k es e h = rw e tt
Follows-AreBelow (some last) k es e h = e k h

-- A key above all others is inserted at the end.
pub insert-append :
    (k : KeyType) (v : Value) (es : Entries)
    → AreBelow k es
    → insert k v es ≡ append es (entry k v no_entries)
unfolding insert
insert-append k v no_entries b = refl
insert-append k v (entry j w es) b = ground (arith, cmp-swap j k, insert-append k v es b.1)

pub EndsIn-insert :
    (last : Option KeyType) (k : KeyType) (v : Value) (es : Entries)
    → EndsIn last es
    → Follows last k
    → EndsIn (some k) (append es (entry k v no_entries))
EndsIn-insert last k v es e h m above =
    AreBelow-append m k v es (AreBelow-trans k m es above (Follows-AreBelow last k es e h)) above
