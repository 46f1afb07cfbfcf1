-- ===== src/Histogram/Error.antt =====
-- How far a slot's value is from the samples that fall into it, src/bench/bench_timer.c.
use native.Mathlib.Nat.{
  pow-suc, pow-le-pow_right, one-le-pow, le-div_iff_mul-le, div-lt_iff_lt-mul, div-mul-le_self,
  mul-le-mul_right, mod-eq_of_lt,
}
use native.Mathlib.Numerals.{towards_suc}
use native.Mathlib.Decide.{dec_lt}
use mars_memory_allocator.Base.{
  ℕ, zero, suc, ◌+◌, ◌-◌, ◌*◌, ◌/◌, ◌%◌, ◌^◌, ◌≤◌, ◌<◌, ◌≡◌, ap, ◌∙◌, inl, inr, arith, false, ltb,
  leb, lt→ltb, refl, if◌then◌else◌, ◌==◌, Bool-cases,
}
use mars_memory_allocator.Histogram.{msb_from, hist_index, hist_value_at, hist_slots}

msb_from_bounds :
    (k v : ℕ)
    → 0 < v
    → v < 2 ^ suc k
    → (2 ^ msb_from k v ≤ v) × (v < 2 ^ suc (msb_from k v)) × (msb_from k v ≤ k)
unfolding msb_from
msb_from_bounds zero v h l = (omega arith, omega arith, omega arith)
msb_from_bounds (suc k) v h l =
    let pos = one-le-pow (suc k) 2 (omega arith) in
    let two : v / 2 ^ suc k < 2 = (div-lt_iff_lt-mul pos).1 (omega (arith, pow-suc 2 (suc k))) in
    elim (Bool-cases (v / 2 ^ suc k % 2 == 0)) [
      | inl z ↦
          let low : v / 2 ^ suc k < 1 = ground arith in
          let less : v < 2 ^ suc k = omega (arith, (div-lt_iff_lt-mul {y = 1} pos).0 low) in
          let (a, b, c) = msb_from_bounds k v h less in rw z (a, b, omega arith)
      | inr n ↦
          let one : 1 ≤ v / 2 ^ suc k = ground arith in
          rw n (omega (arith, (le-div_iff_mul-le pos).0 one), l, omega arith)
    ]

octave : (s : ℕ) → 2 ^ (s + 7) ≡ 2 ^ s * 128
octave s = simp towards_suc (omega arith)

slot_index :
    (v s d : ℕ)
    → 256 ≤ v
    → d < 256
    → s ≤ 56
    → (if ltb v 256
        then v
        else if leb hist_slots ((s + 1) * 256 + d % 256)
        then hist_slots - 1
        else (s + 1) * 256 + d % 256)
      ≡ (s + 1) * 256 + d
slot_index v s d h b t = ground arith

slot_value :
    (s d : ℕ)
    → s ≤ 56
    → d < 256
    → d * 2 ^ s < 2 ^ 64
    → hist_value_at ((s + 1) * 256 + d) ≡ d * 2 ^ s
unfolding hist_value_at
slot_value s d t b w =
    let q : ((s + 1) * 256 + d) / 256 - 1 ≡ s = omega arith in
    let r : ((s + 1) * 256 + d) % 256 ≡ d = omega arith in
    let n : ltb ((s + 1) * 256 + d) 256 ≡ false = ground arith in rw (q, r, n) (mod-eq_of_lt w)

-- with `unit` values to a slot, and at least 128 of them below it
slot_error :
    (v unit d : ℕ) → 128 ≤ d → d * unit ≤ v → v < (d + 1) * unit → 128 * (v - d * unit) < d * unit
slot_error v unit d h l u = grind (arith, mul-le-mul_right unit h)

-- A sample of more than sub_bits bits: the shift s, and the place within its octave.
slot_of_large :
    (v : ℕ)
    → 256 ≤ v
    → v < 2 ^ 64
    → (s : ℕ) × (s ≤ 56)
      × (128 ≤ v / 2 ^ s)
      × (v / 2 ^ s < 256)
      × (hist_index v ≡ (s + 1) * 256 + v / 2 ^ s)
unfolding hist_index
slot_of_large v h l =
    let k = msb_from 63 v in
    let (lo, hi, top) = msb_from_bounds 63 v (omega arith) l in
    let big : 8 ≤ k = elim (dec_lt k 8) [
      | no ge ↦ omega arith
      | yes lt ↦ absurd (
          omega (
            arith,
            pow-le-pow_right {n = 2} (omega arith) (let le : suc k ≤ 8 = omega arith in le),
          ))
    ] in
    let s = k - 7 in
    let q : k - 8 + 1 ≡ s = omega arith in
    let e : k ≡ s + 7 = omega arith in
    let p : 2 ^ k ≡ 2 ^ s * 128 = ap (λ (t : ℕ). 2 ^ t) e ∙ octave s in
    let pos = one-le-pow s 2 (omega arith) in
    let a : 128 ≤ v / 2 ^ s = (le-div_iff_mul-le pos).1 (omega arith) in
    let b : v / 2 ^ s < 256 = (div-lt_iff_lt-mul pos).1 (omega (arith, pow-suc 2 k)) in
    (s, omega arith, a, b, rw (q, slot_index v s (v / 2 ^ s) h b (omega arith)) refl)

index_small : (v : ℕ) → v < 256 → hist_index v ≡ v
unfolding hist_index
index_small v h = rw (lt→ltb v 256 h) refl

value_small : (v : ℕ) → v < 256 → hist_value_at v ≡ v
unfolding hist_value_at
value_small v h = rw (lt→ltb v 256 h) refl

-- A sample of 64 bits falls into a slot of the array. The value that the slot stands for is not
-- above the sample, is the sample itself below 256, and from there on is short of it by less than
-- a 128th of that value.
pub hist_value_at-hist_index :
    (v : ℕ)
    → v < 2 ^ 64
    → (hist_index v < hist_slots)
      × (hist_value_at (hist_index v) ≤ v)
      × (v < 256 → hist_value_at (hist_index v) ≡ v)
      × (256 ≤ v → 128 * (v - hist_value_at (hist_index v)) < hist_value_at (hist_index v))
hist_value_at-hist_index v l = elim (dec_lt v 256) [
  | yes small ↦
      rw (index_small v small, value_small v small)
        (omega arith, omega arith, λ _. refl, λ h. absurd (omega arith))
  | no large ↦
      let (s, top, lo, hi, e) = slot_of_large v (omega arith) l in
      let pos = one-le-pow s 2 (omega arith) in
      let below = div-mul-le_self v (2 ^ s) in
      let w = slot_value s (v / 2 ^ s) top hi (omega arith) in
      let near =
        slot_error v (2 ^ s) (v / 2 ^ s) lo below ((div-lt_iff_lt-mul pos).0 (omega arith)) in
      rw (e, w) (omega arith, below, λ h. absurd (omega arith), λ h. near)
]
