-- ===== src/Alpha/CancelFactor/Standard.antt =====
-- The score of src/alpha/cancel_factor.cpp in the terms of statistics.
use smart_quant.Prelude.{suc, ◌≡◌, refl, sym, ap, ◌∙◌, if◌then◌else◌, List, [], ◌∷◌, length}
use smart_quant.Alpha.Buckets.{sum_by}
use smart_quant.Prelude.{ap₂, map}
use smart_quant.Prelude.Int.{pos}
use smart_quant.Prelude.Double.{Double}
use smart_quant.Alpha.Buckets.{Bucket}
use smart_quant.Alpha.CancelFactor.{z_score}

module _ {F : Type 0} ⦃d : Double F⦄ where
  -- Added up from the first on, and divided by their number.
  abbrev pub total : F → List F → F
  total acc [] = acc
  total acc (y ∷ ys) = total (d.add acc y) ys

  abbrev pub mean : List F → F
  mean ys = d.div (total (d.literal 0 1) ys) (d.of_int (pos (length ys)))

  -- The mean of the squares less the square of the mean.
  abbrev pub variance : List F → F
  variance ys = d.sub (mean (map (λ y. d.mul y y) ys)) (d.mul (mean ys) (mean ys))

  -- The root of the variance, or 1 if that is not positive.
  abbrev pub deviation : List F → F
  deviation ys = if d.lt (d.literal 0 1) (variance ys) then d.sqrt (variance ys) else d.literal 1 1

  -- How many deviations a count is above the mean of the counts.
  abbrev pub standard : F → List F → F
  standard y ys = d.div (d.sub y (mean ys)) (deviation ys)

  sum_by-total :
      (f : Bucket F → F) (acc : F) (xs : List (Bucket F)) → sum_by f acc xs ≡ total acc (map f xs)
  sum_by-total f acc [] = refl
  sum_by-total f acc (x ∷ xs) = sum_by-total f (d.add acc (f x)) xs

  pub length-map : (f : Bucket F → F) (xs : List (Bucket F)) → length (map f xs) ≡ length xs
  length-map f [] = refl
  length-map f (x ∷ xs) = ap suc (length-map f xs)

  map-map :
      (g : F → F) (f : Bucket F → F) (xs : List (Bucket F))
      → map g (map f xs) ≡ map (λ x. g (f x)) xs
  map-map g f [] = refl
  map-map g f (x ∷ xs) = ap (λ ys. g (f x) ∷ ys) (map-map g f xs)

  mean-map :
      (f : Bucket F → F) (xs : List (Bucket F))
      → d.div (sum_by f (d.literal 0 1) xs) (d.of_int (pos (length xs))) ≡ mean (map f xs)
  mean-map f xs =
      ap₂ (λ t n. d.div t (d.of_int (pos n))) (sum_by-total f (d.literal 0 1) xs)
        (sym (length-map f xs))

  pub z_score-standard :
      (f : Bucket F → F) (x : Bucket F) (xs : List (Bucket F))
      → z_score f (d.of_int (pos (length xs))) x xs ≡ standard (f x) (map f xs)
  z_score-standard f x xs =
      ap₂
        (λ m q. d.div (d.sub (f x) m) (
          if d.lt (d.literal 0 1) (d.sub q (d.mul m m))
          then d.sqrt (d.sub q (d.mul m m))
          else d.literal 1 1))
        (mean-map f xs)
        (mean-map (λ y. d.mul (f y) (f y)) xs ∙ ap mean (sym (map-map (λ y. d.mul y y) f xs)))
