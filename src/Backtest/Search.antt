-- ===== src/Backtest/Search.antt =====
-- The search in the price history of src/apps/backtest/main.cpp finds the first point of a time or
-- later.
use smart_quant.Prelude.{
  ℕ, zero, suc, ◌+◌, ◌/◌, ◌≤◌, ◌≡◌, refl, sym, ap, ap₂, ◌∙◌, false, ltb, if◌then◌else◌, Option,
  none, some, List, [], ◌∷◌, ◌++◌, length, take, drop, All, arith, Bool-cases, inl, inr, subst,
}
use smart_quant.Backtest.{PricePoint, halve, halving, lower_bound}

-- The first point at the target or later.
abbrev pub first_from : ℕ → List PricePoint → Option PricePoint
first_from target [] = none
first_from target (p ∷ ps) =
    let rest = first_from target ps in if ltb p.ts_ns target then rest else some p

-- No point is later than one behind it.
abbrev pub InOrder : List PricePoint → Type 0
InOrder [] = Unit {0}
InOrder (p ∷ ps) = All (λ (q : PricePoint). p.ts_ns ≤ q.ts_ns) ps × InOrder ps

-- The points before the middle one, and those behind it.
split_at :
    (xs ys : List PricePoint) (mid : PricePoint)
    → InOrder (xs ++ mid ∷ ys)
    → InOrder xs × InOrder ys × All (λ (q : PricePoint). q.ts_ns ≤ mid.ts_ns) xs
split_at [] ys mid (ps, o) = (tt, o, tt)
split_at (x ∷ xs) ys mid (ps, o) =
    let (front, back, below) = split_at xs ys mid o in
    let (earlier, le) = all_before xs ps in ((earlier, front), back, (le, below))
  where
    all_before :
        (zs : List PricePoint)
        → All (λ (q : PricePoint). x.ts_ns ≤ q.ts_ns) (zs ++ mid ∷ ys)
        → All (λ (q : PricePoint). x.ts_ns ≤ q.ts_ns) zs × (x.ts_ns ≤ mid.ts_ns)
    all_before [] (p, ps) = (tt, p)
    all_before (z ∷ zs) (p, ps) = let (qs, le) = all_before zs ps in ((p, qs), le)

-- The middle point decides which half has the first point.
first_from-split :
    (target : ℕ) (xs ys : List PricePoint) (mid : PricePoint)
    → All (λ (q : PricePoint). q.ts_ns ≤ mid.ts_ns) xs
    → first_from target (xs ++ mid ∷ ys)
      ≡ halve target mid (first_from target xs) (first_from target ys)
first_from-split target [] ys mid below = elim (Bool-cases (ltb mid.ts_ns target)) [
  | inl t ↦ rw t refl
  | inr f ↦ rw f refl
]
first_from-split target (x ∷ xs) ys mid (le, below) =
    let rest = first_from-split target xs ys mid below in
    elim (Bool-cases (ltb x.ts_ns target)) [
      | inl t ↦ rw t rest
      | inr f ↦ let g : ltb mid.ts_ns target ≡ false = ground arith in rw f (rw g refl)
    ]

take-drop : (n : ℕ) (ps : List PricePoint) → take n ps ++ drop n ps ≡ ps
take-drop zero ps = refl
take-drop (suc n) [] = refl
take-drop (suc n) (p ∷ ps) = ap (λ qs. p ∷ qs) (take-drop n ps)

length-take : (n : ℕ) (ps : List PricePoint) → length (take n ps) ≤ n
length-take zero ps = omega arith
length-take (suc n) [] = omega arith
length-take (suc n) (p ∷ ps) = let le = length-take n ps in omega arith

length-drop : (n : ℕ) (ps : List PricePoint) → n ≤ length ps → length (drop n ps) + n ≡ length ps
length-drop zero ps h = omega arith
length-drop (suc n) [] h = absurd (omega arith)
length-drop (suc n) (p ∷ ps) h = let e = length-drop n ps (omega arith) in omega arith

none_left : (target : ℕ) (ps : List PricePoint) → length ps ≡ 0 → first_from target ps ≡ none
none_left target [] e = refl
none_left target (p ∷ ps) e = absurd (omega arith)

-- A round of the search, if the rounds behind it are right.
halving_step :
    (target fuel : ℕ) (ps : List PricePoint)
    → ((qs : List PricePoint)
        → length qs ≤ fuel
        → InOrder qs
        → halving target fuel qs ≡ first_from target qs)
    → length ps ≤ suc fuel
    → InOrder ps
    → (back : List PricePoint) → drop (length ps / 2) ps ≡ back
    → halving target (suc fuel) ps ≡ first_from target ps
unfolding halving
halving_step target fuel ps ih h o [] e =
    let all = length-drop (length ps / 2) ps (omega arith) in
    let few : length ps ≡ 0 = omega (arith, all, ap length e) in
    rw (e, halving) (sym (none_left target ps few))
halving_step target fuel ps ih h o (mid ∷ rest) e =
    let front = take (length ps / 2) ps in
    let parts : front ++ mid ∷ rest ≡ ps =
      ap (λ b. front ++ b) (sym e) ∙ take-drop (length ps / 2) ps in
    let all = length-drop (length ps / 2) ps (omega arith) in
    let (before, behind, below) = split_at front rest mid (subst InOrder (sym parts) o) in
    let small = length-take (length ps / 2) ps in
    let earlier = ih front (omega (arith, small, all, ap length e)) before in
    let later = ih rest (omega (arith, all, ap length e)) behind in
    rw (e, halving)
      (ap₂ (halve target mid) earlier later
        ∙ sym (first_from-split target front rest mid below)
        ∙ ap (first_from target) parts)

halving-first_from :
    (target fuel : ℕ) (ps : List PricePoint)
    → length ps ≤ fuel
    → InOrder ps
    → halving target fuel ps ≡ first_from target ps
unfolding halving
halving-first_from target zero [] h o = refl
halving-first_from target zero (p ∷ ps) h o = absurd (omega arith)
halving-first_from target (suc fuel) ps h o =
    halving_step target fuel ps (halving-first_from target fuel) h o (drop (length ps / 2) ps) refl

-- On a history in order the search finds the first point at the target or later, or that there is
-- none.
pub lower_bound-first_from :
    (target : ℕ) (ps : List PricePoint) → InOrder ps → lower_bound target ps ≡ first_from target ps
unfolding lower_bound
lower_bound-first_from target ps o = halving-first_from target (length ps) ps (omega arith) o
