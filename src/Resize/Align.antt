-- ===== src/Resize/Align.antt =====
-- Where memalign_unlocked of src/mm_core.c cuts.
use native.Mathlib.Decide.{dec_lt}
use native.Mathlib.Nat.{
  pow-le-pow_right, mod-lt, one-le-pow, mod-add-div, mul-mod_right, add-mod_right,
}
use mars_memory_allocator.Base.Bits.{bit_and_high}
use mars_memory_allocator.Base.{
  ℕ, zero, suc, ◌+◌, ◌-◌, ◌*◌, ◌/◌, ◌%◌, ◌^◌, ◌≤◌, ◌<◌, ◌≡◌, refl, ◌∙◌, inl, inr, arith, ltb,
  ltb→lt, Bool-cases,
}
use mars_memory_allocator.Layout.{
  fast, hardened, paranoid, Profile, min_block, round_up, round_units, size_for, hdr_size, trail,
  alignment, size_max,
}
use mars_memory_allocator.Resize.{room_in_front, aligned_at}
use mars_memory_allocator.State.{sub64, add64}

small_power : (k a : ℕ) → a ≡ 2 ^ k → a < 2 ^ 64 → k < 64
small_power k a e l = elim (dec_lt k 64) [
  | yes s ↦ s
  | no g ↦
      absurd
        (omega (arith, e, pow-le-pow_right {n = 2} (omega arith) {i = 64} {j = k} (omega arith)))
]

-- Rounding up to a power of two, where nothing wraps
round_up-Fits :
    (n k : ℕ)
    → n + 2 ^ k ≤ 2 ^ 64
    → k < 64
    → (round_up n (2 ^ k) % 2 ^ k ≡ 0) × (n ≤ round_up n (2 ^ k)) × (round_up n (2 ^ k) < n + 2 ^ k)
round_up-Fits n k l u =
    let a = 2 ^ k in
    let h : 0 < a = one-le-pow k 2 (omega arith) in
    let m : (n + a + 2 ^ 64 - 1) % 2 ^ 64 ≡ n + a - 1 = omega arith in
    let mask : (2 ^ 64 - a) % 2 ^ 64 ≡ 2 ^ 64 - a = omega arith in
    let high = bit_and_high k 64 (n + a - 1) (omega arith) (omega arith) in
    let low = mod-lt (n + a - 1) {m = a} h in
    let e : n + a - 1 - (n + a - 1) % a ≡ a * ((n + a - 1) / a) =
      omega (arith, mod-add-div (n + a - 1) a) in
    let z : (n + a - 1 - (n + a - 1) % a) % a ≡ 0 = rw e (mul-mod_right a ((n + a - 1) / a)) in
    rw (m, mask, high) (z, omega arith, omega arith)

-- With the alignment of a unit, it is what the sizes are rounded with.
round_up-units : (n : ℕ) → n + alignment ≤ 2 ^ 64 → round_up n alignment ≡ round_units n
round_up-units n l =
    let m : (n + 16 + 2 ^ 64 - 1) % 2 ^ 64 ≡ n + 16 - 1 = omega arith in
    let s : (n + 16 - 1) % 2 ^ 64 ≡ n + 16 - 1 = omega arith in
    rw (m, s) (bit_and_high 4 64 (n + 16 - 1) (omega arith) (omega arith))

module _ (p : Profile) where
  -- the loop of memalign_unlocked, with enough rounds left, stops at a multiple of the alignment
  -- that leaves a block in front
  room_in_front-Fits :
      (rounds raw want align : ℕ)
      → 0 < align
      → raw ≤ want
      → want < raw + align + min_block p
      → raw + 2 * align + min_block p ≤ 2 ^ 64
      → raw + min_block p ≤ want + rounds
      → (room_in_front p rounds raw want align % align ≡ want % align)
        × (raw + min_block p ≤ room_in_front p rounds raw want align)
        × (room_in_front p rounds raw want align < raw + align + min_block p)
  unfolding room_in_front
  room_in_front-Fits zero raw want align h l u k r = (refl, omega arith, u)
  room_in_front-Fits (suc rounds) raw want align h l u k r =
      let gap : sub64 want raw ≡ want - raw = omega arith in
      elim (Bool-cases (ltb (sub64 want raw) (min_block p))) [
        | inl e ↦
            let near : want - raw < min_block p = rw gap at (ltb→lt _ _ e) in
            let next : add64 want align ≡ want + align = omega arith in
            let f =
              room_in_front-Fits rounds raw (want + align) align h (omega arith) (omega arith) k
                (omega arith) in
            rw (e, next) (f.0 ∙ add-mod_right want align, f.1, f.2)
        | inr e ↦ let far : min_block p ≤ want - raw = ground arith in rw e (refl, omega arith, u)
      ]

  -- the address that the loop ends with
  aligned_at-Fits :
      (raw align k : ℕ)
      → align ≡ 2 ^ k
      → k < 64
      → 0 < align
      → raw + 2 * align + min_block p ≤ 2 ^ 64
      → (aligned_at p raw align % align ≡ 0)
        × (raw + min_block p ≤ aligned_at p raw align)
        × (aligned_at p raw align < raw + align + min_block p)
  unfolding aligned_at
  aligned_at-Fits raw align e a u h k =
      let r = rw (← a) at (round_up-Fits raw e (omega (arith, a)) u) in
      let r1 = r.1 in
      let r2 = r.2 in
      let f =
        room_in_front-Fits (min_block p) raw (round_up raw align) align h r.1 (omega arith) k
          (omega arith) in
      (f.0 ∙ r.0, f.1, f.2)

-- The slack that memalign_unlocked asks for is enough to cut
fits_after_cut :
    (p : Profile) (front align size : ℕ)
    → 32 ≤ align
    → front < align + min_block p
    → size + 2 * align + min_block p + hdr_size p + trail p + alignment ≤ size_max
    → front + size_for p size ≤ size_for p (size + 2 * align + min_block p)
unfolding size_for
fits_after_cut fast front align size h l k = ground arith
fits_after_cut hardened front align size h l k = ground arith
fits_after_cut paranoid front align size h l k = ground arith

-- For an alignment that is a power of two of at least 32, where neither the addresses nor the
-- request overflow, the loop of memalign_unlocked ends within MM_MIN_BLOCK rounds at a multiple of
-- the alignment with room for a whole block in front, and the front together with the block for
-- the request fits the block that was allocated for the request and its padding.
pub aligned_at-Cuts :
    (p : Profile) (raw align k size : ℕ)
    → align ≡ 2 ^ k
    → 32 ≤ align
    → raw + 2 * align + min_block p ≤ 2 ^ 64
    → size + 2 * align + min_block p + hdr_size p + trail p + alignment ≤ size_max
    → (aligned_at p raw align % align ≡ 0)
      × (raw + min_block p ≤ aligned_at p raw align)
      × (aligned_at p raw align - raw + size_for p size
          ≤ size_for p (size + 2 * align + min_block p))
aligned_at-Cuts p raw align k size e h l m =
    let word : k < 64 = small_power k align e (omega arith) in
    let f = aligned_at-Fits p raw align k e word (omega arith) l in
    let front = aligned_at p raw align - raw in
    let near : front < align + min_block p = omega (arith, f) in
    (f.0, f.1, fits_after_cut p front align size h near m)
