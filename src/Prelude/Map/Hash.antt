-- ===== src/Prelude/Map/Hash.antt =====
-- `std::unordered_map`: an association list with one entry for each key.
use mathlib.Core.Path.{◌≡◌, refl, subst, sym, ◌∙◌}
use mathlib.Core.Logic.{◌≢◌, inl, inr}
use mathlib.Core.Bool.{true, false}
use mathlib.Core.Option.{Option, none, some}
use mathlib.Core.List.{List, [], ◌∷◌}
use smart_quant.Prelude.Tests.{if◌then◌else◌, Bool-cases}
use smart_quant.Prelude.Lists.{All}
use smart_quant.Prelude.Eq.{Eq, beq_refl, beq_false}

module _ {ℓ κ} {K : Type ℓ} {V : Type κ} ⦃e : Eq K⦄ where
  unfoldable pub find : K → List (K × V) → Option V
  find k [] = none
  find k ((j, v) ∷ m) = if e.beq j k then some v else find k m

  unfoldable pub erase : K → List (K × V) → List (K × V)
  erase k [] = []
  erase k ((j, v) ∷ m) = let rest = erase k m in if e.beq j k then rest else (j, v) ∷ rest

  -- `m[k] = v`.
  unfoldable pub insert : K → V → List (K × V) → List (K × V)
  insert k v m = (k, v) ∷ erase k m

  -- No key occurs twice.
  abbrev pub IsMap : List (K × V) → Type κ
  IsMap [] = Unit
  IsMap ((k, v) ∷ m) = (find k m ≡ none) × IsMap m

  pub find-erase_self : (k : K) (m : List (K × V)) → find k (erase k m) ≡ none
  unfolding find erase
  find-erase_self k [] = refl
  find-erase_self k ((j, v) ∷ m) = elim (Bool-cases (e.beq j k)) [
    | inl t ↦ rw t (find-erase_self k m)
    | inr f ↦ rw f (rw f (find-erase_self k m))
  ]

  pub find-erase_ne : (k j : K) (m : List (K × V)) → k ≢ j → find j (erase k m) ≡ find j m
  unfolding find erase
  find-erase_ne k j [] h = refl
  find-erase_ne k j ((i, v) ∷ m) h = elim (Bool-cases (e.beq i k)) [
    | inl t ↦ rw (t, beq_false i j (λ q. h (sym ((e.beq_iff i k).0 t) ∙ q))) (find-erase_ne k j m h)
    | inr f ↦
        rw f (elim (Bool-cases (e.beq i j)) [
          | inl t ↦ rw t refl
          | inr g ↦ rw g (find-erase_ne k j m h)
        ])
  ]

  pub find-insert_self : (k : K) (v : V) (m : List (K × V)) → find k (insert k v m) ≡ some v
  unfolding find insert
  find-insert_self k v m = rw (beq_refl k)

  pub find-insert_ne :
      (k j : K) (v : V) (m : List (K × V)) → k ≢ j → find j (insert k v m) ≡ find j m
  unfolding find insert
  find-insert_ne k j v m h = rw (beq_false k j h) (find-erase_ne k j m h)

  find-erase-none : (k j : K) (m : List (K × V)) → find j m ≡ none → find j (erase k m) ≡ none
  find-erase-none k j m h = elim (Bool-cases (e.beq k j)) [
    | inl t ↦ subst (λ i. find i (erase k m) ≡ none) ((e.beq_iff k j).0 t) (find-erase_self k m)
    | inr f ↦ find-erase_ne k j m (λ q. absurd_test f q) ∙ h
  ]
    where
      absurd_test : e.beq k j ≡ false → k ≡ j → ⊥
      absurd_test f q = let t = (e.beq_iff k j).1 q in cc

  pub erase-IsMap : (k : K) (m : List (K × V)) → IsMap m → IsMap (erase k m)
  unfolding erase
  erase-IsMap k [] h = tt
  erase-IsMap k ((j, v) ∷ m) (hj, hm) = elim (Bool-cases (e.beq j k)) [
    | inl t ↦ rw t (erase-IsMap k m hm)
    | inr f ↦ rw f (find-erase-none k j m hj, erase-IsMap k m hm)
  ]

  pub insert-IsMap : (k : K) (v : V) (m : List (K × V)) → IsMap m → IsMap (insert k v m)
  unfolding insert
  insert-IsMap k v m h = (find-erase_self k m, erase-IsMap k m h)

  -- Erasing a key that is not there changes nothing.
  pub erase_missing : (k : K) (m : List (K × V)) → find k m ≡ none → erase k m ≡ m
  unfolding find erase
  erase_missing k [] = λ _. refl
  erase_missing k ((j, v) ∷ m) =
      elim (e.beq j k)
        as (λ b.
          (if b then some v else find k m) ≡ none
          → (if b then erase k m else (j, v) ∷ erase k m) ≡ (j, v) ∷ m) [
            | true ↦ λ h. cc
            | false ↦ λ h. rw (erase_missing k m h)
          ]

  pub All-erase {μ} : (P : K × V → Type μ) (k : K) (m : List (K × V)) → All P m → All P (erase k m)
  unfolding erase
  All-erase P k [] h = tt
  All-erase P k ((j, v) ∷ m) (p, ps) = elim (Bool-cases (e.beq j k)) [
    | inl t ↦ rw t (All-erase P k m ps)
    | inr f ↦ rw f (p, All-erase P k m ps)
  ]

  -- A property of all entries holds of the one that is found.
  pub All-find {μ} :
      (P : K × V → Type μ) (k : K) (m : List (K × V)) {v : V}
      → All P m
      → find k m ≡ some v
      → P (k, v)
  unfolding find
  All-find P k [] h q = absurd (cc)
  All-find P k ((j, w) ∷ m) {v} (p, ps) q = elim (Bool-cases (e.beq j k)) [
    | inl t ↦ found t (rw t at q)
    | inr f ↦ All-find P k m ps (rw f at q)
  ]
    where
      found : e.beq j k ≡ true → some w ≡ some v → P (k, v)
      found t r = subst (λ i. P (i, v)) ((e.beq_iff j k).0 t) (subst (λ x. P (j, x)) (cc) p)

  -- Entering a new key and erasing it gives the map back.
  pub erase-insert :
      (k : K) (v : V) (m : List (K × V)) → find k m ≡ none → erase k (insert k v m) ≡ m
  unfolding erase insert
  erase-insert k v m h = rw (beq_refl k) (rw (erase_missing k m h) (erase_missing k m h))
