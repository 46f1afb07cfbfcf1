-- ===== src/Histogram/Merge.antt =====
-- Merging two histograms, src/bench/bench_timer.c.
use mathlib.Core.Path.{fun_ext}
use mars_memory_allocator.Base.{
  ℕ, ◌+◌, ◌-◌, ◌*◌, ◌/◌, ◌%◌, ◌^◌, ◌<◌, ◌≡◌, refl, inl, inr, List, [], ◌∷◌, arith, ltb, leb, lt→ltb,
  ◌==◌, ==_iff, if◌then◌else◌, Bool-cases,
}
use mars_memory_allocator.Bitmap.{update}
use mars_memory_allocator.State.{add64}
use mars_memory_allocator.Histogram.{
  Hist, hist_reset, hist_record, hist_merge, hist_index, hist_slots, sub_count, sub_bits, msb_from,
}

-- the samples recorded one after the other
abbrev pub record_all : Hist → List ℕ → Hist
record_all h [] = h
record_all h (v ∷ vs) = record_all (hist_record h v) vs

-- Every counter of a histogram, and its least sample, is a 64-bit value.
pub record IsHist (h : Hist) : Type 0 where
  pub slots_word : (i : ℕ) → h.slots i < 2 ^ 64
  pub count_word : h.count < 2 ^ 64
  pub total_word : h.total < 2 ^ 64
  pub min_word : h.min < 2 ^ 64

clamped-lt :
    (v i : ℕ)
    → (if ltb v sub_count then v else if leb hist_slots i then hist_slots - 1 else i) < hist_slots
clamped-lt v i = ground arith

pub hist_index-lt : (v : ℕ) → hist_index v < hist_slots
unfolding hist_index
hist_index-lt v =
    let shift = msb_from 63 v - sub_bits + 1 in
    clamped-lt v ((shift + 1) * sub_count + v / 2 ^ shift % sub_count)

add64_assoc : (a b c : ℕ) → add64 a (add64 b c) ≡ add64 (add64 a b) c
add64_assoc a b c = omega arith

slot_step :
    (d s : ℕ → ℕ) (k i : ℕ)
    → k < hist_slots
    → (if ltb i hist_slots then add64 (d i) (update s k (add64 (s k) 1) i) else d i)
      ≡ update
          (λ j. if ltb j hist_slots then add64 (d j) (s j) else d j)
          k
          (add64 (if ltb k hist_slots then add64 (d k) (s k) else d k) 1)
          i
slot_step d s k i h = elim (Bool-cases (k == i)) [
  | inl e ↦ rw (e, ← (==_iff k i).0 e, lt→ltb k hist_slots h) (add64_assoc (d k) (s k) 1)
  | inr n ↦ rw n refl
]

min_step :
    (d s v : ℕ)
    → (let m = if ltb v s then v else s in if ltb m d then m else d)
      ≡ (let m = if ltb s d then s else d in if ltb v m then v else m)
min_step d s v = ground arith

max_step :
    (d s v : ℕ)
    → (let m = if ltb s v then v else s in if ltb d m then m else d)
      ≡ (let m = if ltb d s then s else d in if ltb m v then v else m)
max_step d s v = ground arith

hist_merge-hist_record :
    (d s : Hist) (v : ℕ) → hist_merge d (hist_record s v) ≡ hist_record (hist_merge d s) v
unfolding hist_merge hist_record
hist_merge-hist_record d s v = λ i. record {
  slots = fun_ext (λ j. slot_step d.slots s.slots (hist_index v) j (hist_index-lt v)) i;
  count = add64_assoc d.count s.count 1 i;
  total = add64_assoc d.total s.total v i;
  min = min_step d.min s.min v i;
  max = max_step d.max s.max v i;
}

word_plus : (a : ℕ) → a < 2 ^ 64 → add64 a 0 ≡ a
word_plus a h = omega arith

slot_base : (a j : ℕ) → a < 2 ^ 64 → (if ltb j hist_slots then add64 a 0 else a) ≡ a
slot_base a j h = elim (Bool-cases (ltb j hist_slots)) [
  | inl e ↦ rw e (word_plus a h)
  | inr n ↦ rw n refl
]

min_base : (a : ℕ) → a < 2 ^ 64 → (if ltb (2 ^ 64 - 1) a then 2 ^ 64 - 1 else a) ≡ a
min_base a h = ground arith

max_base : (a : ℕ) → (if ltb a 0 then 0 else a) ≡ a
max_base a = ground arith

hist_merge-hist_reset : (d : Hist) → IsHist d → hist_merge d hist_reset ≡ d
unfolding hist_merge
hist_merge-hist_reset d w = λ i. record {
  slots = fun_ext (λ j. slot_base (d.slots j) j (w.slots_word j)) i;
  count = word_plus d.count w.count_word i;
  total = word_plus d.total w.total_word i;
  min = min_base d.min w.min_word i;
  max = max_base d.max i;
}

hist_merge-record_all :
    (d s : Hist) (vs : List ℕ) → hist_merge d (record_all s vs) ≡ record_all (hist_merge d s) vs
hist_merge-record_all d s [] = refl
hist_merge-record_all d s (v ∷ vs) =
    rw (← hist_merge-hist_record d s v) (hist_merge-record_all d (hist_record s v) vs)

-- Merging a histogram that was reset and then took some samples into one whose counters are of 64
-- bits leaves exactly what recording those samples directly would have, in every field, the
-- wrap-around of the counts included.
pub hist_merge-records :
    (h : Hist) (vs : List ℕ) → IsHist h → hist_merge h (record_all hist_reset vs) ≡ record_all h vs
hist_merge-records h vs w =
    rw (hist_merge-record_all h hist_reset vs, hist_merge-hist_reset h w) refl
