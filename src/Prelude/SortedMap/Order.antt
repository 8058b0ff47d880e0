-- ===== src/Prelude/SortedMap/Order.antt =====
-- A map keeps its entries in the order of their keys, so it is known by what it finds.
use Prim.Native.Nat.{ℕ}
use mathlib.Core.Bool.{true, false}
use mathlib.Core.List.{[], ◌∷◌}
use mathlib.Core.Logic.{inl, inr}
use mathlib.Core.Option.{none, some}
use mathlib.Core.Path.{◌≡◌, refl, sym, ◌∙◌, ap, ap₂}
use native.Mathlib.Omega.{arith}
use huasi.Prelude.Tests.{if◌then◌else◌, Bool-cases}
use huasi.Prelude.Lists.{All}
use huasi.Prelude.ByteStrings.{Bytes, bytes_eq, bytes_lt}
use huasi.Prelude.SortedMap.{Key, SortedMap, bytes_key, nat_key, lookup, insert}

-- The keys are in a strict order, and any two of them that differ are comparable.
pub record Order (K : Type 0) ⦃key : Key K⦄ : Type 0 where
  pub lt_irrefl : (a : K) → key.lt a a ≡ false
  pub lt_trans : (a b c : K) → key.lt a b ≡ true → key.lt b c ≡ true → key.lt a c ≡ true
  pub lt_total : (a b : K) → key.eq a b ≡ false → key.lt a b ≡ false → key.lt b a ≡ true

bytes_lt_irrefl : (a : Bytes) → bytes_lt a a ≡ false
unfolding bytes_lt
bytes_lt_irrefl [] = refl
bytes_lt_irrefl (x ∷ a) = ground (arith, bytes_lt_irrefl a)

bytes_lt_trans : (a b c : Bytes) → bytes_lt a b ≡ true → bytes_lt b c ≡ true → bytes_lt a c ≡ true
unfolding bytes_lt
bytes_lt_trans [] [] c h k = k
bytes_lt_trans [] (y ∷ b) [] h k = k
bytes_lt_trans [] (y ∷ b) (z ∷ c) h k = refl
bytes_lt_trans (x ∷ a) [] c h k = cc
bytes_lt_trans (x ∷ a) (y ∷ b) [] h k = k
bytes_lt_trans (x ∷ a) (y ∷ b) (z ∷ c) h k = ground (arith, bytes_lt_trans a b c)

bytes_lt_total : (a b : Bytes) → bytes_eq a b ≡ false → bytes_lt a b ≡ false → bytes_lt b a ≡ true
unfolding bytes_lt bytes_eq
bytes_lt_total [] [] h k = cc
bytes_lt_total [] (y ∷ b) h k = cc
bytes_lt_total (x ∷ a) [] h k = refl
bytes_lt_total (x ∷ a) (y ∷ b) h k = ground (arith, bytes_lt_total a b)

instance pub bytes_order : Order Bytes
bytes_order = record {
  lt_irrefl = bytes_lt_irrefl;
  lt_trans = bytes_lt_trans;
  lt_total = bytes_lt_total;
}

instance pub nat_order : Order ℕ
nat_order = ground arith

module _ {K V : Type 0} ⦃key : Key K⦄ where
  -- All keys of the map are greater.
  abbrev pub Above : K → SortedMap K V → Type 0
  Above k m = All (λ (e : K × V). key.lt k e.0 ≡ true) m

  abbrev pub IsSorted : SortedMap K V → Type 0
  IsSorted [] = Unit {0}
  IsSorted ((k, v) ∷ m) = Above k m × IsSorted m

module _ {K V : Type 0} ⦃key : Key K⦄ ⦃order : Order K⦄ where
  Above-trans : (j k : K) (m : SortedMap K V) → key.lt j k ≡ true → Above k m → Above j m
  Above-trans j k [] h a = tt
  Above-trans j k ((i, v) ∷ m) h (a, rest) = (order.lt_trans j k i h a, Above-trans j k m h rest)

  Above-insert :
      (j k : K) (v : V) (m : SortedMap K V) → key.lt j k ≡ true → Above j m → Above j (insert k v m)
  unfolding insert
  Above-insert j k v [] h a = (h, tt)
  Above-insert j k v ((i, w) ∷ m) h (a, rest) = ground (arith, Above-insert j k v m h rest)

  -- `m[k] = v` keeps the order.
  pub insert-IsSorted : (k : K) (v : V) (m : SortedMap K V) → IsSorted m → IsSorted (insert k v m)
  unfolding insert
  insert-IsSorted k v [] s = (tt, tt)
  insert-IsSorted k v ((j, w) ∷ m) (above, s) = elim (Bool-cases (key.eq j k)) [
    | inl same ↦ rw same (above, s)
    | inr other ↦ rw other (elim (Bool-cases (key.lt k j)) [
      | inl before ↦ rw before ((before, Above-trans k j m before above), (above, s))
      | inr behind ↦
          let differ : key.eq k j ≡ false = ground (arith, key.eq_iff j k, key.eq_iff k j) in
          rw behind
            (Above-insert j k v m (order.lt_total k j differ behind) above, insert-IsSorted k v m s)
    ])
  ]

  pub lookup-Above : (k : K) (m : SortedMap K V) → Above k m → lookup k m ≡ none
  unfolding lookup
  lookup-Above k [] a = refl
  lookup-Above k ((j, v) ∷ m) (a, rest) =
      ground (arith, lookup-Above k m rest, key.eq_iff j k, order.lt_irrefl k)

  -- Behind the first entry, nothing has its key.
  lookup_behind :
      (i j : K) (v : V) (m : SortedMap K V)
      → Above j m
      → lookup i m ≡ (if key.eq j i then none else lookup i ((j, v) ∷ m))
  unfolding lookup
  lookup_behind i j v m a = elim (Bool-cases (key.eq j i)) [
    | inl same ↦
        let e : j ≡ i = (key.eq_iff j i).0 same in
        rw same (ap (λ k. lookup k m) (sym e) ∙ lookup-Above j m a)
    | inr other ↦ rw other refl
  ]

  lookup_head : (j : K) (v : V) (m : SortedMap K V) → lookup j ((j, v) ∷ m) ≡ some v
  unfolding lookup
  lookup_head j v m = rw ((key.eq_iff j j).1 refl) refl

  -- The first key of a map that finds it is not behind that of another one.
  head_not_before :
      (j k : K) (v w : V) (m n : SortedMap K V)
      → Above k n
      → lookup j ((k, w) ∷ n) ≡ some v
      → key.lt j k ≡ false
  head_not_before j k v w m n a found = elim (Bool-cases (key.lt j k)) [
    | inl before ↦
        let missing = lookup-Above j ((k, w) ∷ n) (before, Above-trans j k n before a) in cc
    | inr e ↦ e
  ]

  heads_equal :
      (j k : K) (v w : V) (m n : SortedMap K V)
      → Above j m
      → Above k n
      → ((i : K) → lookup i ((j, v) ∷ m) ≡ lookup i ((k, w) ∷ n))
      → (j ≡ k) × (v ≡ w)
  heads_equal j k v w m n a b same =
      let not_less = head_not_before j k v w m n b (sym (same j) ∙ lookup_head j v m) in
      let not_more = head_not_before k j w v n m a (same k ∙ lookup_head k w n) in
      let e : j ≡ k = elim (Bool-cases (key.eq j k)) [
        | inl equal ↦ (key.eq_iff j k).0 equal
        | inr other ↦ let more = order.lt_total j k other not_less in cc
      ] in
      let found : some v ≡ some w =
        sym (lookup_head j v m) ∙ same j ∙ ap (λ i. lookup i ((k, w) ∷ n)) e ∙ lookup_head k w n in
      (e, cc)

  -- Two maps in order that find the same under every key are the same.
  pub IsSorted-ext :
      (m n : SortedMap K V) → IsSorted m → IsSorted n → ((i : K) → lookup i m ≡ lookup i n) → m ≡ n
  unfolding lookup
  IsSorted-ext [] [] s t same = refl
  IsSorted-ext [] ((k, w) ∷ n) s t same = let found = same k ∙ lookup_head k w n in cc
  IsSorted-ext ((j, v) ∷ m) [] s t same = let found = sym (same j) ∙ lookup_head j v m in cc
  IsSorted-ext ((j, v) ∷ m) ((k, w) ∷ n) (a, s) (b, t) same =
      let (keys, values) = heads_equal j k v w m n a b same in
      let rest : (i : K) → lookup i m ≡ lookup i n = λ i.
        lookup_behind i j v m a
        ∙ ap (λ r. if key.eq j i then none else r) (same i)
        ∙ ap (λ h. if key.eq h i then none else lookup i ((k, w) ∷ n)) keys
        ∙ sym (lookup_behind i k w n b) in
      ap₂ ◌∷◌ (ap₂ (λ x y. (x, y)) keys values) (IsSorted-ext m n s t rest)
