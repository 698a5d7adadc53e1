-- ===== src/Alpha/Buckets/Ring.antt =====
-- What the ring of src/alpha/delta_factor.cpp and src/alpha/cancel_factor.cpp stands for: all the
-- buckets so far, the newest first.
use smart_quant.Prelude.{
  ℕ, zero, suc, ◌+◌, ◌-◌, ◌*◌, ◌/◌, ◌%◌, ◌^◌, ◌<◌, ◌≡◌, refl, sym, ap, ◌∙◌, false, ltb, ◌==◌,
  if◌then◌else◌, arith, List, [], ◌∷◌, length, length-set, get_or, set, get_or-set_self,
  get_or-set_ne, min, ==_of_ne, Bool-cases, inl, inr, length-replicate,
}
use native.Mathlib.Nat.{mod-lt, mod-eq_of_lt, mod-eq-sub-mod}
use smart_quant.Prelude.Word.{add_64, sub_64}
use smart_quant.Prelude.Double.{Double}
use smart_quant.Alpha.Buckets.{
  Bucket, Buckets, bucket_at, no_buckets, current, bucket_before, add_bucket, add_buckets, advance,
}
use smart_quant.Alpha.Buckets.Slots.{before_next, other_slot, counted_next, older_valid}

module _ {F : Type 0} ⦃d : Double F⦄ where
  -- The ring shows as many of the newest buckets as it has slots.
  pub record Shows (slots : ℕ) (b : Buckets F) (xs : List (Bucket F)) : Type 0 where
    pub slotted : length b.buckets ≡ slots
    pub head_in : b.head < slots
    pub counted : b.count ≡ min (length xs) slots
    pub shown : (i : ℕ) → i < b.count → bucket_before slots b i ≡ get_or xs i (bucket_at 0)

  -- The buckets that the loop adds, without a limit on how many are kept.
  abbrev pub newer : ℕ → ℕ → ℕ → ℕ → List (Bucket F) → List (Bucket F)
  newer step start zero i xs = xs
  newer step start (suc n) i xs =
      newer step start n (i + 1) (bucket_at (add_64 start ((i + 1) * step % 2 ^ 64)) ∷ xs)

  -- `advance_time` without a limit on how many buckets are kept.
  abbrev pub timeline : ℕ → ℕ → ℕ → List (Bucket F) → List (Bucket F)
  timeline step most now_ns [] = bucket_at now_ns ∷ []
  timeline step most now_ns (x ∷ xs) =
      let later = newer step x.ts_ns (min (sub_64 now_ns x.ts_ns / step) most) 0 (x ∷ xs) in
      if ltb now_ns (add_64 x.ts_ns step) then x ∷ xs else later

  first_slot : (slots : ℕ) (b : Buckets F) → b.head < slots → bucket_before slots b 0 ≡ current b
  first_slot slots b h = ap (λ i. get_or b.buckets i (bucket_at 0)) round_trip
    where
      round_trip : (b.head + slots - 0) % slots ≡ b.head
      round_trip =
          ap (λ i. i % slots) (omega arith)
          ∙ mod-eq-sub-mod {n = b.head + slots} {m = slots} (omega arith)
          ∙ ap (λ i. i % slots) (omega arith)
          ∙ mod-eq_of_lt h

  add_bucket-Shows :
      (slots step start k : ℕ) (b : Buckets F) (xs : List (Bucket F))
      → Shows slots b xs
      → Shows slots
          (add_bucket slots step start k b)
          (bucket_at (add_64 start (k * step % 2 ^ 64)) ∷ xs)
  unfolding add_bucket
  add_bucket-Shows slots step start k b xs s = record {
    slotted = length-set b.buckets next new ∙ s.slotted;
    head_in = next_in;
    counted = counted_next slots b.count (length xs) s.counted;
    shown = shown_in;
  }
    where
      next : ℕ
      next = (b.head + 1) % slots

      new : Bucket F
      new = bucket_at (add_64 start (k * step % 2 ^ 64))

      next_in : next < slots
      next_in = mod-lt (b.head + 1) (omega (arith, s.head_in))

      b' : Buckets F
      b' = add_bucket slots step start k b

      shown_in :
          (i : ℕ) → i < b'.count → bucket_before slots b' i ≡ get_or (new ∷ xs) i (bucket_at 0)
      shown_in zero h =
          first_slot slots b' next_in
          ∙ get_or-set_self b.buckets next new (bucket_at 0) (omega (arith, s.slotted, next_in))
      shown_in (suc i) h =
          let (inside, older) = older_valid slots b.count (length xs) i s.counted h in
          let (same, apart) = before_next slots b.head i s.head_in inside in
          ap (λ j. get_or b'.buckets j (bucket_at 0)) same
          ∙ get_or-set_ne b.buckets next ((b.head + slots - i) % slots) new (bucket_at 0) apart
          ∙ s.shown i older

  add_buckets-Shows :
      (slots step start n i : ℕ) (b : Buckets F) (xs : List (Bucket F))
      → Shows slots b xs
      → Shows slots (add_buckets slots step start n i b) (newer step start n i xs)
  unfolding add_buckets
  add_buckets-Shows slots step start zero i b xs s = s
  add_buckets-Shows slots step start (suc n) i b xs s =
      add_buckets-Shows slots step start n (i + 1) (add_bucket slots step start (i + 1) b) _
        (add_bucket-Shows slots step start (i + 1) b xs s)

  -- The first bucket is the current one.
  pub current-Shows :
      (slots : ℕ) (b : Buckets F) (x : Bucket F) (xs : List (Bucket F))
      → Shows slots b (x ∷ xs)
      → current b ≡ x
  current-Shows slots b x xs s =
      sym (first_slot slots b s.head_in) ∙ s.shown 0 (omega (arith, s.counted, s.head_in))

  first-Shows :
      (slots now_ns : ℕ) (b : Buckets F) (xs : List (Bucket F))
      → Shows slots b xs
      → Shows slots
          (record { buckets = set b.buckets 0 (bucket_at now_ns); head = 0; count = 1 })
          (bucket_at now_ns ∷ [])
  first-Shows slots now_ns b xs s = record {
    slotted = length-set b.buckets 0 (bucket_at now_ns) ∙ s.slotted;
    head_in = omega (arith, s.head_in);
    counted = omega (arith, s.head_in);
    shown = shown_in;
  }
    where
      b' : Buckets F
      b' = record { buckets = set b.buckets 0 (bucket_at now_ns); head = 0; count = 1 }

      shown_in :
          (i : ℕ)
          → i < 1
          → bucket_before slots b' i ≡ get_or (bucket_at now_ns ∷ []) i (bucket_at 0)
      shown_in zero h =
          first_slot slots b' (omega (arith, s.head_in))
          ∙ get_or-set_self b.buckets 0 _ (bucket_at 0) (omega (arith, s.slotted, s.head_in))
      shown_in (suc i) h = absurd (omega arith)

  -- Writing the current bucket changes the first.
  pub set_current-Shows :
      (slots : ℕ) (b : Buckets F) (x y : Bucket F) (xs : List (Bucket F))
      → Shows slots b (x ∷ xs)
      → Shows slots (record b { buckets = set b.buckets b.head y }) (y ∷ xs)
  set_current-Shows slots b x y xs s = record {
    slotted = length-set b.buckets b.head y ∙ s.slotted;
    head_in = s.head_in;
    counted = s.counted;
    shown = shown_in;
  }
    where
      b' : Buckets F
      b' = record b { buckets = set b.buckets b.head y }

      shown_in : (i : ℕ) → i < b.count → bucket_before slots b' i ≡ get_or (y ∷ xs) i (bucket_at 0)
      shown_in zero h =
          first_slot slots b' s.head_in
          ∙ get_or-set_self b.buckets b.head y (bucket_at 0) (omega (arith, s.slotted, s.head_in))
      shown_in (suc i) h =
          get_or-set_ne b.buckets b.head ((b.head + slots - suc i) % slots) y (bucket_at 0)
            (other_slot slots b.head i s.head_in (omega (arith, s.counted)))
          ∙ s.shown (suc i) h

  -- A ring that has no bucket yet.
  pub no_buckets-Shows : (slots : ℕ) → 0 < slots → Shows slots (no_buckets slots) []
  no_buckets-Shows slots p = record {
    slotted = length-replicate slots (bucket_at 0);
    head_in = p;
    counted = omega arith;
    shown = λ i h. absurd (omega arith);
  }

  pub advance-Shows :
      (slots step most now_ns : ℕ) (b : Buckets F) (xs : List (Bucket F))
      → Shows slots b xs
      → Shows slots (advance slots step most now_ns b) (timeline step most now_ns xs)
  unfolding advance
  advance-Shows slots step most now_ns b [] s =
      let none_left : b.count ≡ 0 = omega (arith, s.counted) in
      rw none_left (first-Shows slots now_ns b [] s)
  advance-Shows slots step most now_ns b (x ∷ xs) s =
      let some_left : (b.count == 0) ≡ false =
        ==_of_ne b.count 0 (λ e. omega (arith, s.counted, s.head_in)) in
      rw some_left (
        rw (current-Shows slots b x xs s) (elim (Bool-cases (ltb now_ns (add_64 x.ts_ns step))) [
          | inl t ↦ rw t s
          | inr f ↦ rw f (
              add_buckets-Shows slots step x.ts_ns (min (sub_64 now_ns x.ts_ns / step) most) 0 b
                (x ∷ xs) s)
        ]))

  newer-∷ :
      (step start n i : ℕ) (x : Bucket F) (xs : List (Bucket F))
      → (y : Bucket F) × (ys : List (Bucket F)) × (newer step start n i (x ∷ xs) ≡ y ∷ ys)
  newer-∷ step start zero i x xs = (x, xs, refl)
  newer-∷ step start (suc n) i x xs = newer-∷ step start n (i + 1) _ (x ∷ xs)

  pub timeline-∷ :
      (step most now_ns : ℕ) (xs : List (Bucket F))
      → (y : Bucket F) × (ys : List (Bucket F)) × (timeline step most now_ns xs ≡ y ∷ ys)
  timeline-∷ step most now_ns [] = (_, _, refl)
  timeline-∷ step most now_ns (x ∷ xs) = elim (Bool-cases (ltb now_ns (add_64 x.ts_ns step))) [
    | inl t ↦ (x, xs, rw t refl)
    | inr f ↦
        let (y, ys, e) = newer-∷ step x.ts_ns (min (sub_64 now_ns x.ts_ns / step) most) 0 x xs in
        (y, ys, rw f e)
  ]
