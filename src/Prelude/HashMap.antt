-- ===== src/Prelude/HashMap.antt =====
-- `std::collections::HashMap` as an association list. The order of the list is the order in which
-- the map is iterated, which Rust leaves open: theorems about loops over a map hold for every list.
-- A map with unique keys (`IsMap`) holds a key once; each operation keeps that.
use read_rpc.Prelude.Tests.{Eq, is_some, Option-cases}
use Prim.Native.Nat.{ℕ, ◌+◌}
use mathlib.Core.Path.{◌≡◌, refl}
use mathlib.Core.Logic.{ite, inl, inr}
use mathlib.Core.Bool.{Bool}
use mathlib.Core.List.{List, [], ◌∷◌, map}
use mathlib.Core.Option.{Option, none, some}
use native.Mathlib.Omega.{arith}

abbrev pub HashMap {ℓ} : Type ℓ → Type ℓ → Type ℓ
HashMap K V = List (K × V)

module _ {ℓ} {K V : Type ℓ} where
  abbrev pub keys : HashMap K V → List K
  keys m = map (λ e. e.0) m

  abbrev pub values : HashMap K V → List V
  values m = map (λ e. e.1) m

module _ {ℓ} {K V : Type ℓ} ⦃e : Eq K⦄ where
  unfoldable pub lookup : K → HashMap K V → Option V
  lookup k [] = none
  lookup k ((j, v) ∷ m) = ite (e.dec k j) (some v) (lookup k m)

  unfoldable pub insert : K → V → HashMap K V → HashMap K V
  insert k v [] = (k, v) ∷ []
  insert k v ((j, w) ∷ m) = ite (e.dec k j) ((k, v) ∷ m) ((j, w) ∷ insert k v m)

  unfoldable pub remove : K → HashMap K V → HashMap K V
  remove k [] = []
  remove k ((j, w) ∷ m) = let rest = remove k m in ite (e.dec k j) rest ((j, w) ∷ rest)

  abbrev pub contains_key : K → HashMap K V → Bool
  contains_key k m = is_some (lookup k m)

  -- `entry(k).and_modify(f).or_insert(v)`
  unfoldable pub upsert : K → (V → V) → V → HashMap K V → HashMap K V
  upsert k f v m = elim (lookup k m) [ none ↦ insert k v m | some w ↦ insert k (f w) m ]

  -- `entry(k).and_modify(f)`
  unfoldable pub modify : K → (V → V) → HashMap K V → HashMap K V
  modify k f m = elim (lookup k m) [ none ↦ m | some w ↦ insert k (f w) m ]

  -- `extend`: the entries of the first list are inserted in order.
  unfoldable pub extend : HashMap K V → HashMap K V → HashMap K V
  extend [] m = m
  extend ((k, v) ∷ l) m = extend l (insert k v m)

  abbrev pub IsMap : HashMap K V → Type ℓ
  IsMap [] = Unit
  IsMap ((k, v) ∷ m) = (lookup k m ≡ none) × IsMap m

  pub lookup-nil : (k : K) → lookup k [] ≡ none
  unfolding lookup
  lookup-nil k = refl

  pub lookup-insert :
      (k j : K) (v : V) (m : HashMap K V)
      → lookup j (insert k v m) ≡ ite (e.dec k j) (some v) (lookup j m)
  unfolding lookup insert
  lookup-insert k j v [] = ground arith
  lookup-insert k j v (x ∷ m) = ground (arith, lookup-insert k j v m)

  pub lookup-remove :
      (k j : K) (m : HashMap K V) → lookup j (remove k m) ≡ ite (e.dec k j) none (lookup j m)
  unfolding lookup remove
  lookup-remove k j [] = ground arith
  lookup-remove k j (x ∷ m) = ground (arith, lookup-remove k j m)

  pub lookup-upsert :
      (k j : K) (f : V → V) (v : V) (m : HashMap K V)
      → lookup j (upsert k f v m)
        ≡ ite (e.dec k j) (some (elim (lookup k m) [ none ↦ v | some w ↦ f w ])) (lookup j m)
  unfolding upsert
  lookup-upsert k j f v m = elim (Option-cases (lookup k m)) [
    | inl missing ↦ rw (missing, upsert) (lookup-insert k j v m)
    | inr (w, found) ↦ rw (found, upsert) (lookup-insert k j (f w) m)
  ]

  pub lookup-modify :
      (k j : K) (f : V → V) (m : HashMap K V)
      → lookup j (modify k f m)
        ≡ ite (e.dec k j) (elim (lookup k m) [ none ↦ none | some w ↦ some (f w) ]) (lookup j m)
  unfolding modify
  lookup-modify k j f m = elim (Option-cases (lookup k m)) [
    | inl missing ↦ ground (arith, missing)
    | inr (w, found) ↦ rw (found, modify) (lookup-insert k j (f w) m)
  ]

  pub remove_absent : (k : K) (m : HashMap K V) → lookup k m ≡ none → remove k m ≡ m
  unfolding lookup remove
  remove_absent k [] h = refl
  remove_absent k (x ∷ m) h = ground (arith, remove_absent k m)

  pub insert-IsMap : (k : K) (v : V) (m : HashMap K V) → IsMap m → IsMap (insert k v m)
  unfolding insert lookup
  insert-IsMap k v [] h = (refl, tt)
  insert-IsMap k v ((j, w) ∷ m) h = elim (e.dec k j) [
    | yes p ↦ ground arith
    | no p ↦ ground (arith, lookup-insert k j v m, insert-IsMap k v m)
  ]

  pub remove-IsMap : (k : K) (m : HashMap K V) → IsMap m → IsMap (remove k m)
  unfolding remove lookup
  remove-IsMap k [] h = tt
  remove-IsMap k ((j, w) ∷ m) h = ground (arith, lookup-remove k j m, remove-IsMap k m)

module _ {ℓ} {V : Type ℓ} ⦃f : Eq V⦄ where
  abbrev pub tally : V → V → ℕ
  tally v w = elim (f.dec v w) [ yes _ ↦ 1 | no _ ↦ 0 ]

  abbrev pub tally? : V → Option V → ℕ
  tally? v none = 0
  tally? v (some w) = tally v w

module _ {ℓ} {K V : Type ℓ} ⦃f : Eq V⦄ where
  -- How many keys the map sends to `v`.
  unfoldable pub count : V → HashMap K V → ℕ
  count v [] = 0
  count v ((j, w) ∷ m) = tally v w + count v m

module _ {ℓ} {K V : Type ℓ} ⦃e : Eq K⦄ ⦃f : Eq V⦄ where
  pub count-insert :
      (v w : V) (k : K) (m : HashMap K V)
      → count v (insert k w m) + tally? v (lookup k m) ≡ count v m + tally v w
  unfolding count insert lookup
  count-insert v w k [] = ground arith
  count-insert v w k ((j, x) ∷ m) = ground (arith, count-insert v w k m)

  pub count-remove :
      (v : V) (k : K) (m : HashMap K V)
      → IsMap m
      → count v (remove k m) + tally? v (lookup k m) ≡ count v m
  unfolding count remove lookup
  count-remove v k [] h = ground arith
  count-remove v k ((j, x) ∷ m) h = ground (arith, count-remove v k m, remove_absent j m)
