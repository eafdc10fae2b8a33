-- ===== src/Base/Dict.antt =====
-- Go's `map[string]V` as an association list with one entry for each key. The order of the entries
-- is one that a `range` loop over the map may take.
use crypto_price_aggregator.Base.Tests.{if◌then◌else◌, Bool-cases}
use crypto_price_aggregator.Base.Lists.{All}
use Prim.Native.String.{String}
use mathlib.Core.Path.{◌≡◌, refl, subst}
use mathlib.Core.Logic.{◌≢◌, inl, inr}
use mathlib.Core.List.{List, [], ◌∷◌, ◌++◌}
use mathlib.Core.Option.{Option, none, some}
use native.Mathlib.Omega.{arith}
use text.Mathlib.Text.{◌==◌}
use text.Mathlib.TextEquality.{eq_iff}

module _ {ℓ} {V : Type ℓ} where
  -- `m[key]`, with `none` where the key is missing.
  unfoldable pub lookup : String → List (String × V) → Option V
  lookup key [] = none
  lookup key (entry ∷ entries) = if entry.0 == key then some entry.1 else lookup key entries

  -- `m[key] = value`
  unfoldable pub insert : String → V → List (String × V) → List (String × V)
  insert key value [] = (key, value) ∷ []
  insert key value (entry ∷ entries) =
      if entry.0 == key then (key, value) ∷ entries else entry ∷ insert key value entries

  -- `delete(m, k)`
  unfoldable pub erase : String → List (String × V) → List (String × V)
  erase k [] = []
  erase k ((j, w) ∷ m) = if j == k then m else (j, w) ∷ erase k m

  -- `m[k] = append(m[k], v)`, for a map of slices.
  unfoldable pub append_to : String → V → List (String × List V) → List (String × List V)
  append_to k v [] = (k, v ∷ []) ∷ []
  append_to k v ((j, w) ∷ m) = if j == k then (k, w ++ v ∷ []) ∷ m else (j, w) ∷ append_to k v m

  -- `m[k]` for a map of slices, where a missing key reads as an empty slice.
  unfoldable pub entries_at : String → List (String × List V) → List V
  entries_at k [] = []
  entries_at k ((j, w) ∷ m) = if j == k then w else entries_at k m

  pub entries_at-append_to :
      (k j : String) (v : V) (m : List (String × List V))
      → entries_at j (append_to k v m)
        ≡ (if k == j then entries_at j m ++ v ∷ [] else entries_at j m)
  unfolding entries_at append_to
  entries_at-append_to k j v [] = ground (arith, eq_iff k j)
  entries_at-append_to k j v ((i, w) ∷ m) =
      ground (arith, eq_iff k j, eq_iff i k, eq_iff i j, entries_at-append_to k j v m)

  -- What a write makes of a read.
  pub lookup-insert :
      (key other : String) (value : V) (entries : List (String × V))
      → lookup other (insert key value entries)
        ≡ (if key == other then some value else lookup other entries)
  unfolding insert lookup
  lookup-insert key other value [] = refl
  lookup-insert key other value (entry ∷ entries) =
      let rest = lookup-insert key other value entries in
      ground (arith, rest, eq_iff entry.0 other, eq_iff entry.0 key, eq_iff key other)

  -- What holds of all entries holds of one that is found.
  pub lookup-All {κ} :
      (P : String → V → Type κ) (key : String) (v : V) (entries : List (String × V))
      → All (λ entry. P entry.0 entry.1) entries
      → lookup key entries ≡ some v
      → P key v
  unfolding lookup
  lookup-All P key v [] h e = ground arith
  lookup-All P key v ((k, w) ∷ entries) h e = elim (Bool-cases (k == key)) [
    | inl t ↦
        let same : k ≡ key = ground (arith, t, eq_iff k key) in
        let found : w ≡ v = ground (arith, t, e) in subst (λ j. P j v) same (subst (P k) found h.0)
    | inr f ↦ lookup-All P key v entries h.1 (ground (arith, f, e))
  ]

  -- No key stands twice.
  abbrev pub IsDict : List (String × V) → Type ℓ
  IsDict [] = Unit
  IsDict ((j, v) ∷ m) = (lookup j m ≡ none) × IsDict m

  pub insert-IsDict :
      (k : String) (v : V) (m : List (String × V)) → IsDict m → IsDict (insert k v m)
  unfolding insert lookup
  insert-IsDict k v [] d = (refl, tt)
  insert-IsDict k v ((i, w) ∷ m) d =
      ground (arith, eq_iff i k, eq_iff k i, insert-IsDict k v m d.1, lookup-insert k i v m)

  pub lookup-erase_ne :
      (k j : String) (m : List (String × V)) → k ≢ j → lookup j (erase k m) ≡ lookup j m
  unfolding lookup erase
  lookup-erase_ne k j [] h = refl
  lookup-erase_ne k j ((i, w) ∷ m) h =
      ground (arith, eq_iff i k, eq_iff i j, lookup-erase_ne k j m h)

  pub lookup-erase_self :
      (k : String) (m : List (String × V)) → IsDict m → lookup k (erase k m) ≡ none
  unfolding lookup erase
  lookup-erase_self k [] d = refl
  lookup-erase_self k ((i, w) ∷ m) d = ground (arith, eq_iff i k, lookup-erase_self k m d.1)

  pub erase-IsDict : (k : String) (m : List (String × V)) → IsDict m → IsDict (erase k m)
  unfolding erase
  erase-IsDict k [] d = tt
  erase-IsDict k ((i, w) ∷ m) d =
      ground (arith, eq_iff i k, eq_iff k i, erase-IsDict k m d.1, lookup-erase_ne k i m)
