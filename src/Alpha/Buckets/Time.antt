-- ===== src/Alpha/Buckets/Time.antt =====
-- Where the current bucket of src/alpha/delta_factor.cpp and src/alpha/cancel_factor.cpp stands after
-- time has gone on.
use smart_quant.Prelude.{
  ℕ, zero, suc, ◌+◌, ◌-◌, ◌*◌, ◌/◌, ◌%◌, ◌^◌, ◌≤◌, ◌<◌, ◌≡◌, ◌↔◌, refl, ap, ◌∙◌, false, ltb,
  if◌then◌else◌, arith, length, length-set, get_or-set_self, min, ==_of_ne,
}
use native.Mathlib.Nat.{mod-lt, div-add-mod', mul-le-mul_right, min-eq_left, min-eq_right, suc-mul}
use native.Mathlib.Decide.{dec_lt}
use smart_quant.Prelude.Word.{IsWord, add_64, sub_64_of_le}
use smart_quant.Prelude.Double.{Double}
use smart_quant.Alpha.Buckets.{Buckets, current, add_bucket, add_buckets, advance}

pub record InRing {F : Type 0} (slots : ℕ) (b : Buckets F) : Type 0 where
  pub slotted : length b.buckets ≡ slots
  pub head_in : b.head < slots
  pub count_in : b.count ≤ slots

module _ {F : Type 0} ⦃d : Double F⦄ where
  add_bucket-InRing :
      (slots step start k : ℕ) (b : Buckets F)
      → InRing slots b
      → InRing slots (add_bucket slots step start k b)
        × ((current (add_bucket slots step start k b)).ts_ns ≡ add_64 start (k * step % 2 ^ 64))
  unfolding add_bucket
  add_bucket-InRing slots step start k b r = (
    record {
      slotted = length-set b.buckets next _ ∙ r.slotted;
      head_in = next_in;
      count_in = counted;
    },
    ap (λ x. x.ts_ns) (get_or-set_self b.buckets next _ _ (omega (arith, r.slotted, next_in))),
  )
    where
      next : ℕ
      next = (b.head + 1) % slots

      next_in : next < slots
      next_in = mod-lt (b.head + 1) (omega (arith, r.head_in))

      counted : (if ltb b.count slots then b.count + 1 else b.count) ≤ slots
      counted = let c = r.count_in in ground arith

  add_buckets-InRing :
      (slots step start n i : ℕ) (b : Buckets F)
      → InRing slots b
      → (current b).ts_ns ≡ add_64 start (i * step % 2 ^ 64)
      → InRing slots (add_buckets slots step start n i b)
        × ((current (add_buckets slots step start n i b)).ts_ns
            ≡ add_64 start ((i + n) * step % 2 ^ 64))
  unfolding add_buckets
  add_buckets-InRing slots step start zero i b r e =
      let same : i + 0 ≡ i = omega arith in (r, rw same e)
  add_buckets-InRing slots step start (suc n) i b r e =
      let (r', e') = add_bucket-InRing slots step start (i + 1) b r in
      let shift : i + suc n ≡ i + 1 + n = omega arith in
      rw shift (
        add_buckets-InRing slots step start n (i + 1) (add_bucket slots step start (i + 1) b) r' e')

-- The steps that are taken end at or before `now`, and less than a step before it unless there were
-- too many.
pub steps_taken :
    (start step most now_ns : ℕ)
    → 0 < step
    → start ≤ now_ns
    → let n = min ((now_ns - start) / step) most in
      (start + n * step ≤ now_ns)
      × ((now_ns < start + n * step + step) ↔ (now_ns < start + most * step + step))
steps_taken start step most now_ns p le = elim (dec_lt most ((now_ns - start) / step)) [
  | yes far ↦
      let over : most * step + step ≤ (now_ns - start) / step * step =
        omega (arith, mul-le-mul_right {m = suc most} step far, suc-mul most step) in
      rw (min-eq_right {n = most} {m = (now_ns - start) / step} (omega arith))
        (omega (arith, whole, over), ((λ h. h), (λ h. h)))
  | no near ↦
      let under : (now_ns - start) / step * step ≤ most * step =
        mul-le-mul_right step (omega arith) in
      rw (min-eq_left {n = (now_ns - start) / step} {m = most} (omega arith))
        (omega (arith, whole), ((λ h. omega (arith, under)), (λ h. omega (arith, whole, rest))))
]
  where
    whole : (now_ns - start) / step * step + (now_ns - start) % step ≡ now_ns - start
    whole = div-add-mod' (now_ns - start) step

    rest : (now_ns - start) % step < step
    rest = mod-lt (now_ns - start) p

module _ {F : Type 0} ⦃d : Double F⦄ where
  advance_later :
      (slots step most now_ns : ℕ) (b : Buckets F)
      → 0 < b.count
      → (current b).ts_ns + step ≤ now_ns
      → IsWord now_ns
      → advance slots step most now_ns b
        ≡ add_buckets slots step
            (current b).ts_ns
            (min ((now_ns - (current b).ts_ns) / step) most)
            0
            b
  unfolding advance
  advance_later slots step most now_ns b some_left over w =
      rw (==_of_ne b.count 0 (λ e. omega arith))
        (rw not_yet (rw (sub_64_of_le now_ns (current b).ts_ns (omega arith) w) refl))
    where
      not_yet : ltb now_ns (add_64 (current b).ts_ns step) ≡ false
      not_yet = ground arith

  -- Away from the wrap-around of the clock, and once the current bucket is over, the ring stays a
  -- ring, the new current bucket starts at or before the time given, and it is the bucket of that
  -- time exactly if the gap was no longer than the buckets that may be added: after a longer gap the
  -- events of the present go to a bucket of the past.
  pub advance-InRing :
      (slots step most now_ns : ℕ) (b : Buckets F)
      → InRing slots b
      → 0 < b.count
      → 0 < step
      → (current b).ts_ns + step ≤ now_ns
      → IsWord now_ns
      → let start = (current b).ts_ns in
        let b' = advance slots step most now_ns b in
        let start' = (current b').ts_ns in
        InRing slots b'
        × (start' ≤ now_ns)
        × ((now_ns < start' + step) ↔ (now_ns < start + most * step + step))
  advance-InRing slots step most now_ns b r some_left p over w =
      let start = (current b).ts_ns in
      let n = min ((now_ns - start) / step) most in
      let (fits, caught_up) = steps_taken start step most now_ns p (omega arith) in
      let (ring, at_step) = add_buckets-InRing slots step start n 0 b r (omega arith) in
      let all : 0 + n ≡ n = omega arith in
      let lands : (current (add_buckets slots step start n 0 b)).ts_ns ≡ start + n * step =
        omega (arith, rw all at at_step, fits) in
      rw (advance_later slots step most now_ns b some_left over w)
        (ring, rw lands fits, rw lands caught_up)
