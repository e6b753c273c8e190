-- ===== src/Cbor/Loops.antt =====
-- The loops of the reader over arrays and maps, on a machine with a 64-bit usize.
use open_sk.Common.{ℕ, zero, suc, ◌^◌, ◌≤◌, ◌<◌, ◌≡◌, refl, ap, ◌∙◌, sym, arith}
use open_sk.Common.{true, List, ◌++◌, append_assoc, some, none, Option}
use open_sk.Common.{All, All-append_right, subst}
use open_sk.Common.{Option-cases, Bool-cases, inl, inr}
use open_sk.Common.Bits.{IsByte}
use open_sk.Cbor.Values.{KeyType}
use open_sk.Cbor.Values.{Value, Items, Entries, key_value}
use open_sk.Cbor.Values.{no_entries, entry}
use open_sk.Cbor.Writer.{items_len, entries_len}
use open_sk.Cbor.Reader.{ok, read_items, read_entries, in_order, is_ge, as_key, insert}
use open_sk.Cbor.Reader.{Reader}
use open_sk.Cbor.Reader.{Result}
use open_sk.Cbor.Encoding.{head, encoding_key, encoding, encoding_items, encoding_entries}
use open_sk.Cbor.Encoding.{depth, depth_items, depth_entries, IsWf, AreWf, AreSorted, Follows}
use open_sk.Cbor.Insert.{
  append, EndsIn, Follows-AreBelow, insert-append, EndsIn-insert, append-no_entries,
}
use open_sk.Cbor.Insert
use open_sk.Cbor.Content.{Reads, IsSound}
use open_sk.Common.{◌⊎◌}
use open_sk.Cbor.Reader.{read_array_content, read_map_content, err, DecoderError}

pub Result-cases :
    {A : Type 0} (r : Result A) → ((a : A) × (r ≡ ok a)) ⊎ ((e : DecoderError) × (r ≡ err e))
Result-cases (ok a) = inl (a, refl)
Result-cases (err e) = inr (e, refl)

-- The bytes that are left are bytes of the input.
pub rest-IsByte : (bs front rest : List ℕ) → bs ≡ front ++ rest → All IsByte bs → All IsByte rest
rest-IsByte bs front rest split all =
    All-append_right IsByte front rest (subst (All IsByte) split all)

module _ (d : ℕ) (decode : Reader Value) (sound : IsSound d decode) where
  read_items-Reads :
      (n : ℕ) (bs : List ℕ) (xs : Items) (rest : List ℕ)
      → All IsByte bs
      → read_items decode n bs ≡ ok (xs, rest)
      → (bs ≡ encoding_items xs ++ rest) × AreWf 64 xs × (depth_items xs ≤ d) × (items_len xs ≡ n)
  unfolding read_items encoding IsWf depth
  read_items-Reads zero bs xs rest all h = ground arith
  read_items-Reads (suc n) bs xs rest all h = elim (Result-cases (decode bs)) [
    | inr (e, failed) ↦ cc (rw (failed, read_items) at h)
    | inl ((v, bs₁), e) ↦
        let (split, wf, flat) = sound bs v bs₁ all e in
        let all₁ : All IsByte bs₁ = rest-IsByte bs (encoding v) bs₁ split all in
        elim (Result-cases (read_items decode n bs₁)) [
          | inr (e', failed) ↦ cc (rw (e, failed, read_items) at h)
          | inl ((ys, bs₂), e') ↦ ground (
            arith,
            e,
            e',
            split,
            wf,
            flat,
            read_items-Reads n bs₁ ys bs₂ all₁ e',
            append_assoc (encoding v) (encoding_items ys) bs₂,
          )
        ]
  ]

as_key-eq : (v : Value) (k : KeyType) → as_key v ≡ some k → v ≡ key_value k
unfolding as_key
as_key-eq (key_value j) k h = ground arith
as_key-eq _ k h = cc

in_order→Follows : (last : Option KeyType) (k : KeyType) → in_order last k ≡ true → Follows last k
unfolding in_order is_ge
in_order→Follows none k h = tt
in_order→Follows (some last) k h = ground arith

-- What a round of the loop over the entries of a map has seen when the loop succeeds.
read_entries-round :
    (decode : Reader Value) (n : ℕ) (last : Option KeyType) (es : Entries) (bs : List ℕ)
    {r : Entries × List ℕ}
    → read_entries decode (suc n) last es bs ≡ ok r
    → (k : KeyType) × (bs₁ : List ℕ) × (w : Value) × (bs₂ : List ℕ) × (decode bs
        ≡ ok (key_value k, bs₁))
      × Follows last k
      × (decode bs₁ ≡ ok (w, bs₂))
      × (read_entries decode n (some k) (insert k w es) bs₂ ≡ ok r)
unfolding read_entries
read_entries-round decode n last es bs h = elim (Result-cases (decode bs)) [
  | inr (e, failed) ↦ ground arith
  | inl ((v, bs₁), e) ↦ elim (Option-cases (as_key v)) [
    | inl no_key ↦ ground arith
    | inr (k, is_key) ↦ elim (Bool-cases (in_order last k)) [
      | inr disorder ↦ ground arith
      | inl order ↦ elim (Result-cases (decode bs₁)) [
        | inr (e', failed) ↦ ground arith
        | inl ((w, bs₂), e') ↦ (
          k,
          bs₁,
          w,
          bs₂,
          ground (arith, as_key-eq v k is_key),
          in_order→Follows last k order,
          e',
          ground arith,
        )
      ]
    ]
  ]
]

-- The entries that the loop adds behind those it was called with.
abbrev Adds : ℕ → ℕ → Option KeyType → Entries → List ℕ → Entries → List ℕ → Entries → Type 0
Adds d n last before bs fs rest new =
    (fs ≡ append before new)
    × (bs ≡ encoding_entries new ++ rest)
    × AreSorted 64 last new
    × (depth_entries new ≤ d)
    × (entries_len new ≡ n)

module _ (d : ℕ) (decode : Reader Value) (sound : IsSound d decode) where
  read_entries-Adds :
      (n : ℕ) (last : Option KeyType) (before : Entries) (bs : List ℕ) (fs : Entries)
      (rest : List ℕ)
      → All IsByte bs
      → EndsIn last before
      → read_entries decode n last before bs ≡ ok (fs, rest)
      → (new : Entries) × Adds d n last before bs fs rest new
  unfolding encoding IsWf depth
  read_entries-Adds zero last before bs fs rest all ends h =
      unfold read_entries in
      (no_entries, (ground (arith, append-no_entries before), ground arith, tt, ground arith, refl))
  read_entries-Adds (suc n) last before bs fs rest all ends h =
      let (k, bs₁, w, bs₂, e, follows, e', h') = read_entries-round decode n last before bs h in
      let (split, key, one) = sound bs (key_value k) bs₁ all e in
      let all₁ : All IsByte bs₁ = rest-IsByte bs (encoding_key k) bs₁ split all in
      let (split', wf, flat) = sound bs₁ w bs₂ all₁ e' in
      let all₂ : All IsByte bs₂ = rest-IsByte bs₁ (encoding w) bs₂ split' all₁ in
      let inserted : insert k w before ≡ append before (entry k w no_entries) =
        insert-append k w before (Follows-AreBelow last k before ends follows) in
      let (new, adds) =
        read_entries-Adds n (some k) (append before (entry k w no_entries)) bs₂ fs rest all₂
          (EndsIn-insert last k w before ends follows) (rw inserted at h') in
      let (sum, split'', sorted, flat', len) = adds in
      (
        entry k w new,
        (
          sum ∙ Insert.append_assoc before (entry k w no_entries) new,
          split
              ∙ ap (λ t. encoding_key k ++ t) (split' ∙ ap (λ t. encoding w ++ t) split'')
              ∙ ap (λ t. encoding_key k ++ t)
                  (sym (append_assoc (encoding w) (encoding_entries new) rest))
              ∙ sym (append_assoc (encoding_key k) (encoding w ++ encoding_entries new) rest),
          (follows, key, wf, sorted),
          omega (arith, flat, flat'),
          omega (arith, len),
        ),
      )

  pub array-Reads :
      (size : ℕ) (bs : List ℕ) (v : Value) (rest : List ℕ)
      → size < 2 ^ 64
      → All IsByte bs
      → read_array_content decode size bs ≡ ok (v, rest)
      → Reads (suc d) (head 4 size ++ bs) v rest
  unfolding encoding IsWf depth read_array_content
  array-Reads size bs v rest hs all h = elim (Result-cases (read_items decode size bs)) [
    | inr (e, failed) ↦ ground arith
    | inl ((xs, rest'), e) ↦
        let facts = read_items-Reads d decode sound size bs xs rest' all e in
        ground (arith, e, facts, append_assoc (head 4 size) (encoding_items xs) rest')
  ]

  pub map-Reads :
      (size : ℕ) (bs : List ℕ) (v : Value) (rest : List ℕ)
      → size < 2 ^ 64
      → All IsByte bs
      → read_map_content decode size bs ≡ ok (v, rest)
      → Reads (suc d) (head 5 size ++ bs) v rest
  unfolding encoding IsWf depth read_map_content
  map-Reads size bs v rest hs all h =
      elim (Result-cases (read_entries decode size none no_entries bs)) [
        | inr (e, failed) ↦ ground arith
        | inl ((es, rest'), e) ↦
            let (new, facts) = read_entries-Adds size none no_entries bs es rest' all refl e in
            ground (arith, e, facts, append_assoc (head 5 size) (encoding_entries new) rest')
      ]
