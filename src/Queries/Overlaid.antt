-- ===== src/Queries/Overlaid.antt =====
-- rpc-server/src/modules/queries/methods.rs: the state items that are answered for the optimistic
-- block, as a map.
use read_rpc.Prelude.{
  ◌≡◌, refl, sym, ap, ◌∙◌, ◌⊎◌, inl, inr, Option, none, some, Option-cases, List, [], ◌∷◌, ◌++◌,
  Bytes, ite, if_pos, if_neg, arith, text_eq,
}
use read_rpc.Prelude.HashMap.{HashMap, IsMap, lookup, remove, lookup-remove, remove-IsMap}
use read_rpc.Blocks.Latest.{or_else}
use read_rpc.Queries.{StateItem, with_item, current, overlay, optimistic_items}

abbrev pub joined : Option (Option Bytes) → Option Bytes
joined none = none
joined (some value) = value

lookup-with_item :
    (key k : Bytes) (value : Option Bytes) (items : List StateItem)
    → lookup k items ≡ none
    → lookup key (with_item k value items) ≡ ite (text_eq.dec key k) value (lookup key items)
unfolding lookup
lookup-with_item key k none items absent = elim (text_eq.dec key k) [
  | yes same ↦
      rw (if_pos (text_eq.dec key k) same none (lookup key items))
        (ap (λ j. lookup j items) same ∙ absent)
  | no other ↦ ground arith
]
lookup-with_item key k (some value) items absent = refl

with_item-IsMap :
    (k : Bytes) (value : Option Bytes) (items : List StateItem)
    → lookup k items ≡ none
    → IsMap items
    → IsMap (with_item k value items)
with_item-IsMap k none items absent map = map
with_item-IsMap k (some value) items absent map = (absent, map)

-- A key that the database does not have is in no item that is taken from it.
overlay_absent :
    (key : Bytes) (m : HashMap Bytes Bytes) (changes : HashMap Bytes (Option Bytes))
    → lookup key m ≡ none
    → lookup key (overlay m changes).0 ≡ none
unfolding overlay lookup
overlay_absent key [] changes absent = refl
overlay_absent key ((k, v) ∷ m) changes absent =
    ground (arith, overlay_absent key m (remove k changes), Option-cases (lookup k changes))

overlay-items :
    (key : Bytes) (m : HashMap Bytes Bytes) (changes : HashMap Bytes (Option Bytes))
    → IsMap m
    → lookup key (overlay m changes).0
      ≡ elim (lookup key m) [ none ↦ none | some v ↦ current (lookup key changes) (some v) ]
unfolding overlay lookup
overlay-items key [] changes map = refl
overlay-items key ((k, v) ∷ m) changes map =
    lookup-with_item key k (current (lookup k changes) (some v)) (overlay m (remove k changes)).0
      (overlay_absent k m (remove k changes) map.0)
    ∙ ground (
      arith,
      overlay-items key m (remove k changes) map.1,
      lookup-remove k key changes,
      ap (λ (j : Bytes). lookup j changes),
      Option-cases (lookup key m),
    )

-- What is left of the changes where the database has the value.
abbrev left_over : Option (Option Bytes) → Option Bytes → Option (Option Bytes)
left_over change none = change
left_over change (some value) = none

overlay-rest :
    (key : Bytes) (m : HashMap Bytes Bytes) (changes : HashMap Bytes (Option Bytes))
    → lookup key (overlay m changes).1 ≡ left_over (lookup key changes) (lookup key m)
unfolding overlay lookup
overlay-rest key [] changes = refl
overlay-rest key ((k, v) ∷ m) changes = ground (
  arith,
  overlay-rest key m (remove k changes),
  lookup-remove k key changes,
  Option-cases (lookup key m),
)

lookup-optimistic_items :
    (key : Bytes) (m : HashMap Bytes (Option Bytes))
    → IsMap m
    → lookup key (optimistic_items m) ≡ joined (lookup key m)
unfolding optimistic_items lookup
lookup-optimistic_items key [] map = refl
lookup-optimistic_items key ((k, v) ∷ m) map =
    lookup-with_item key k v (optimistic_items m)
      (lookup-optimistic_items k m map.1 ∙ ap joined map.0)
    ∙ ground (arith, lookup-optimistic_items key m map.1)

overlay-items-IsMap :
    (m : HashMap Bytes Bytes) (changes : HashMap Bytes (Option Bytes))
    → IsMap m
    → IsMap (overlay m changes).0
unfolding overlay
overlay-items-IsMap [] changes map = tt
overlay-items-IsMap ((k, v) ∷ m) changes map =
    with_item-IsMap k _ (overlay m (remove k changes)).0
      (overlay_absent k m (remove k changes) map.0) (overlay-items-IsMap m (remove k changes) map.1)

overlay-rest-IsMap :
    (m : HashMap Bytes Bytes) (changes : HashMap Bytes (Option Bytes))
    → IsMap changes
    → IsMap (overlay m changes).1
unfolding overlay
overlay-rest-IsMap [] changes map = map
overlay-rest-IsMap ((k, v) ∷ m) changes map =
    overlay-rest-IsMap m (remove k changes) (remove-IsMap k changes map)

optimistic_items-IsMap : (m : HashMap Bytes (Option Bytes)) → IsMap m → IsMap (optimistic_items m)
unfolding optimistic_items
optimistic_items-IsMap [] map = tt
optimistic_items-IsMap ((k, v) ∷ m) map =
    with_item-IsMap k v (optimistic_items m) (lookup-optimistic_items k m map.1 ∙ ap joined map.0)
      (optimistic_items-IsMap m map.1)

lookup-append :
    (key : Bytes) (xs ys : List StateItem)
    → lookup key (xs ++ ys) ≡ or_else (lookup key xs) (lookup key ys)
unfolding lookup
lookup-append key [] ys = refl
lookup-append key (x ∷ xs) ys = ground (arith, lookup-append key xs ys)

append-IsMap :
    (xs ys : List StateItem)
    → IsMap xs
    → IsMap ys
    → ((key : Bytes) → (lookup key xs ≡ none) ⊎ (lookup key ys ≡ none))
    → IsMap (xs ++ ys)
unfolding lookup
append-IsMap [] ys hx hy apart = hy
append-IsMap ((k, v) ∷ xs) ys hx hy apart = (
  lookup-append k xs ys ∙ ground (arith, hx.0, apart k),
  append-IsMap xs ys hx.1 hy (λ key. still key (text_eq.dec key k)),
)
  where
    still : (key : Bytes) → Dec (key ≡ k) → (lookup key xs ≡ none) ⊎ (lookup key ys ≡ none)
    still key (yes same) = inl (ap (λ (j : Bytes). lookup j xs) same ∙ hx.0)
    still key (no other) = elim (apart key) [
      | inl absent ↦ inl (sym (if_neg (text_eq.dec key k) other (some v) (lookup key xs)) ∙ absent)
      | inr absent ↦ inr absent
    ]

-- The items are a map, which holds under each key the optimistic change, or else what the database
-- has.
pub items_lem :
    (m : HashMap Bytes Bytes) (changes : HashMap Bytes (Option Bytes))
    → IsMap m
    → IsMap changes
    → let (items, rest) = overlay m changes in
      IsMap (items ++ optimistic_items rest)
      × ((key : Bytes)
          → lookup key (items ++ optimistic_items rest)
            ≡ current (lookup key changes) (lookup key m))
items_lem m changes hm hc =
    let (items, rest) = overlay m changes in
    let rest_map = overlay-rest-IsMap m changes hc in
    (
      append-IsMap items (optimistic_items rest) (overlay-items-IsMap m changes hm)
          (optimistic_items-IsMap rest rest_map) (λ key. apart key (lookup key m) refl),
      λ key.
          lookup-append key items (optimistic_items rest)
          ∙ ground (
            arith,
            overlay-items key m changes hm,
            overlay-rest key m changes,
            lookup-optimistic_items key rest rest_map,
            Option-cases (lookup key m),
            Option-cases (lookup key changes),
          ),
    )
  where
    apart :
        (key : Bytes) (found : Option Bytes)
        → lookup key m ≡ found
        → (lookup key (overlay m changes).0 ≡ none)
          ⊎ (lookup key (optimistic_items (overlay m changes).1) ≡ none)
    apart key none e = inl (overlay_absent key m changes e)
    apart key (some v) e = inr (
        lookup-optimistic_items key (overlay m changes).1 (overlay-rest-IsMap m changes hc)
        ∙ ap joined (overlay-rest key m changes)
        ∙ ap (λ (v : Option Bytes). joined (left_over (lookup key changes) v)) e)
