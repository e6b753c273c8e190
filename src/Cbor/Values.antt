-- ===== src/Cbor/Values.antt =====
-- libraries/cbor/src/values.rs: CBOR values, map keys and the canonical order of keys.
use open_sk.Common.{ℕ, Bool, List, [], ◌∷◌, length, compare, Ordering}
use open_sk.Common.{Option, none, some, ◌==◌, if◌then◌else◌}
use open_sk.Common.Int.{ℤ, pos, negsuc}

-- `negative` holds an i64. A byte string and a text are lists of bytes; a Rust `String` is valid
-- UTF-8, which `WfKey` of Wf states.
pub data KeyType : Type 0 where
  unsigned : ℕ → KeyType
  negative : ℤ → KeyType
  byte_string : List ℕ → KeyType
  text_string : List ℕ → KeyType

pub data SimpleValue : Type 0 where
  false_value true_value null_value undefined : SimpleValue

-- `Items` is the vector of an array. `Entries` is the BTreeMap of a map: its entries in the order
-- of iteration.
mutual
  pub data Value : Type 0 where
    key_value : KeyType → Value
    array : Items → Value
    map : Entries → Value
    simple : SimpleValue → Value

  pub data Items : Type 0 where
    no_items : Items
    item : Value → Items → Items

  pub data Entries : Type 0 where
    no_entries : Entries
    entry : KeyType → Value → Entries → Entries

unfoldable pub bool_value : Bool → Value
bool_value b = if b then simple true_value else simple false_value

-- `SimpleValue as u64`, from the discriminants of the enum.
unfoldable pub simple_code : SimpleValue → ℕ
simple_code false_value = 20
simple_code true_value = 21
simple_code null_value = 22
simple_code undefined = 23

unfoldable pub from_integer : ℕ → Option SimpleValue
from_integer n =
    if n == 20
    then some false_value
    else if n == 21
    then some true_value
    else if n == 22
    then some null_value
    else if n == 23
    then some undefined
    else none

unfoldable pub key_type_label : KeyType → ℕ
key_type_label (unsigned n) = 0
key_type_label (negative z) = 1
key_type_label (byte_string b) = 2
key_type_label (text_string t) = 3

unfoldable pub type_label : Value → ℕ
type_label (key_value k) = key_type_label k
type_label (array xs) = 4
type_label (map es) = 5
type_label (simple s) = 7

-- `KeyType::integer` takes an i64.
unfoldable pub integer : ℤ → KeyType
integer (pos n) = unsigned n
integer (negsuc n) = negative (negsuc n)

-- `Ordering::then` and `Ordering::reverse` of Rust's core.
abbrev pub then_cmp : Ordering → Ordering → Ordering
then_cmp Ordering.eq o = o
then_cmp Ordering.lt o = Ordering.lt
then_cmp Ordering.gt o = Ordering.gt

abbrev pub reverse : Ordering → Ordering
reverse Ordering.lt = Ordering.gt
reverse Ordering.eq = Ordering.eq
reverse Ordering.gt = Ordering.lt

-- The order of i64 and the lexicographic order of byte slices.
abbrev pub cmp_int : ℤ → ℤ → Ordering
cmp_int (pos a) (pos b) = compare a b
cmp_int (pos a) (negsuc b) = Ordering.gt
cmp_int (negsuc a) (pos b) = Ordering.lt
cmp_int (negsuc a) (negsuc b) = compare b a

unfoldable pub cmp_bytes : List ℕ → List ℕ → Ordering
cmp_bytes [] [] = Ordering.eq
cmp_bytes [] (y ∷ ys) = Ordering.lt
cmp_bytes (x ∷ xs) [] = Ordering.gt
cmp_bytes (x ∷ xs) (y ∷ ys) = then_cmp (compare x y) (cmp_bytes xs ys)

-- The last `match` of `cmp`, reached with equal labels only; the source's `unreachable!()` is the
-- catch-all.
unfoldable pub cmp_same : KeyType → KeyType → Ordering
cmp_same (unsigned a) (unsigned b) = compare a b
cmp_same (negative a) (negative b) = reverse (cmp_int a b)
cmp_same (byte_string a) (byte_string b) = then_cmp (compare (length a) (length b)) (cmp_bytes a b)
cmp_same (text_string a) (text_string b) = then_cmp (compare (length a) (length b)) (cmp_bytes a b)
cmp_same _ _ = Ordering.eq

unfoldable pub cmp : KeyType → KeyType → Ordering
unfolding cmp_same cmp_bytes key_type_label
cmp a b =
    let la = key_type_label a in
    let lb = key_type_label b in if la == lb then cmp_same a b else compare la lb
