-- ===== src/Prelude/Map/Sorted.antt =====
-- `std::map` with integer keys: an association list in ascending order of the keys.
use mathlib.Core.Path.{◌≡◌, refl}
use mathlib.Core.Logic.{inl, inr}
use mathlib.Core.Option.{Option, none, some}
use mathlib.Core.List.{List, [], ◌∷◌}
use native.Mathlib.Omega.{arith}
use smart_quant.Prelude.Tests.{if◌then◌else◌, Bool-cases}
use smart_quant.Prelude.Int.{ℤ, ◌≤ℤ◌, ◌<ℤ◌, ltb_ℤ, ◌==ℤ◌, ==ℤ_refl}

module _ {V : Type 0} where
  unfoldable pub find : ℤ → List (ℤ × V) → Option V
  find k [] = none
  find k ((j, v) ∷ m) = if j ==ℤ k then some v else find k m

  -- `m[k] = v`: a new key goes to its place in the order.
  unfoldable pub insert : ℤ → V → List (ℤ × V) → List (ℤ × V)
  insert k v [] = (k, v) ∷ []
  insert k v ((j, w) ∷ m) =
      if ltb_ℤ k j
      then (k, v) ∷ (j, w) ∷ m
      else (if j ==ℤ k then (k, v) ∷ m else (j, w) ∷ insert k v m)

  unfoldable pub erase : ℤ → List (ℤ × V) → List (ℤ × V)
  erase k [] = []
  erase k ((j, v) ∷ m) = let rest = erase k m in if j ==ℤ k then rest else (j, v) ∷ rest

  -- The key at `begin()`.
  unfoldable pub first_key? : List (ℤ × V) → Option ℤ
  first_key? [] = none
  first_key? ((k, v) ∷ m) = some k

  -- The key at `rbegin()`.
  unfoldable pub last_key? : List (ℤ × V) → Option ℤ
  last_key? [] = none
  last_key? ((k, v) ∷ []) = some k
  last_key? (_ ∷ x ∷ m) = last_key? (x ∷ m)

  abbrev pub Above : ℤ → List (ℤ × V) → Type 0
  Above k [] = Unit
  Above k ((j, v) ∷ m) = (k <ℤ j) × Above k m

  abbrev pub IsSorted : List (ℤ × V) → Type 0
  IsSorted [] = Unit
  IsSorted ((k, v) ∷ m) = Above k m × IsSorted m

  pub find-insert :
      (k j : ℤ) (v : V) (m : List (ℤ × V))
      → find j (insert k v m) ≡ (if k ==ℤ j then some v else find j m)
  unfolding find insert
  find-insert k j v [] = refl
  find-insert k j v ((i, w) ∷ m) = ground (arith, find-insert k j v m)

  pub find-erase :
      (k j : ℤ) (m : List (ℤ × V)) → find j (erase k m) ≡ (if k ==ℤ j then none else find j m)
  unfolding find erase
  find-erase k j [] = ground arith
  find-erase k j ((i, w) ∷ m) = ground (arith, find-erase k j m)

  Above-insert : (i k : ℤ) (v : V) (m : List (ℤ × V)) → i <ℤ k → Above i m → Above i (insert k v m)
  unfolding insert
  Above-insert i k v [] h a = (h, tt)
  Above-insert i k v ((j, w) ∷ m) h a = ground (arith, Above-insert i k v m)

  Above-mono : (i k : ℤ) (m : List (ℤ × V)) → i <ℤ k → Above k m → Above i m
  Above-mono i k [] h a = tt
  Above-mono i k ((j, w) ∷ m) h (b, a) = (omega arith, Above-mono i k m h a)

  pub insert-IsSorted : (k : ℤ) (v : V) (m : List (ℤ × V)) → IsSorted m → IsSorted (insert k v m)
  unfolding insert
  insert-IsSorted k v [] h = (tt, tt)
  insert-IsSorted k v ((j, w) ∷ m) h =
      ground (arith, insert-IsSorted k v m, Above-insert j k v m, Above-mono k j m)

  Above-erase : (i k : ℤ) (m : List (ℤ × V)) → Above i m → Above i (erase k m)
  unfolding erase
  Above-erase i k [] a = tt
  Above-erase i k ((j, w) ∷ m) a = ground (arith, Above-erase i k m)

  pub erase-IsSorted : (k : ℤ) (m : List (ℤ × V)) → IsSorted m → IsSorted (erase k m)
  unfolding erase
  erase-IsSorted k [] h = tt
  erase-IsSorted k ((j, w) ∷ m) h = ground (arith, erase-IsSorted k m, Above-erase j k m)

  pub Above-find : (i k : ℤ) (m : List (ℤ × V)) {v : V} → Above i m → find k m ≡ some v → i <ℤ k
  unfolding find
  Above-find i k [] a h = absurd (cc)
  Above-find i k ((j, w) ∷ m) {v} a h = ground (arith, Above-find i k m {v = v})

  -- The last key is there, and no key is above it.
  pub last_key?-find :
      (m : List (ℤ × V)) {j : ℤ} → last_key? m ≡ some j → (v : V) × (find j m ≡ some v)
  unfolding last_key? find
  last_key?-find [] h = absurd (cc)
  last_key?-find ((k, v) ∷ []) h = (v, ground arith)
  last_key?-find ((k, v) ∷ x ∷ m) {j} h = elim (Bool-cases (k ==ℤ j)) [
    | inl t ↦ (v, rw t)
    | inr f ↦ let (w, q) = last_key?-find (x ∷ m) h in (w, rw f q)
  ]

  pub last_key?-max :
      (m : List (ℤ × V)) (k : ℤ) {v : V}
      → IsSorted m
      → find k m ≡ some v
      → (j : ℤ) × (last_key? m ≡ some j) × (k ≤ℤ j)
  unfolding last_key? find
  last_key?-max [] k s h = absurd (cc)
  last_key?-max ((i, w) ∷ []) k s h = (i, refl, ground arith)
  last_key?-max ((i, w) ∷ (i', w') ∷ m) k s h = elim (Bool-cases (i ==ℤ k)) [
    | inl t ↦
        let (j, q, le) = last_key?-max ((i', w') ∷ m) i' {v = w'} s.1 (rw ==ℤ_refl refl) in
        (j, q, ground arith)
    | inr f ↦ last_key?-max ((i', w') ∷ m) k s.1 (rw f at h)
  ]

  pub first_key?-find :
      (m : List (ℤ × V)) {j : ℤ} → first_key? m ≡ some j → (v : V) × (find j m ≡ some v)
  unfolding first_key? find
  first_key?-find [] h = absurd (cc)
  first_key?-find ((k, v) ∷ m) h = (v, ground arith)

  pub first_key?-min :
      (m : List (ℤ × V)) (k : ℤ) {v : V}
      → IsSorted m
      → find k m ≡ some v
      → (j : ℤ) × (first_key? m ≡ some j) × (j ≤ℤ k)
  unfolding first_key? find
  first_key?-min [] k s h = absurd (cc)
  first_key?-min ((i, w) ∷ m) k {v} s h = (i, refl, ground (arith, Above-find i k m {v = v}))
