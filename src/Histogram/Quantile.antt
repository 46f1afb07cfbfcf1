-- ===== src/Histogram/Quantile.antt =====
-- What a reported quantile says of the samples, src/bench/bench_timer.c.
use mars_memory_allocator.Base.{
  ℕ, zero, suc, ◌+◌, ◌^◌, ◌≤◌, ◌<◌, ◌≡◌, refl, ap, inl, inr, List, [], ◌∷◌, arith, ltb, leb, leb→le,
  ◌==◌, ==_iff, false, if◌then◌else◌, Bool-cases, length,
}
use mars_memory_allocator.Bitmap.{update}
use mars_memory_allocator.State.{add64}
use mars_memory_allocator.Histogram.{
  Hist, hist_reset, hist_record, hist_index, hist_slots, hist_value_at, quantile_from,
  hist_quantile,
}
use mars_memory_allocator.Histogram.Merge.{record_all, hist_index-lt}

-- how many samples fall into slot `i`, and how many into the slots before it
abbrev pub in_slot : List ℕ → ℕ → ℕ
in_slot [] i = 0
in_slot (v ∷ vs) i = (if hist_index v == i then 1 else 0) + in_slot vs i

abbrev pub below_slot : List ℕ → ℕ → ℕ
below_slot [] i = 0
below_slot (v ∷ vs) i = (if ltb (hist_index v) i then 1 else 0) + below_slot vs i

below_slot_suc : (vs : List ℕ) (i : ℕ) → below_slot vs (i + 1) ≡ below_slot vs i + in_slot vs i
below_slot_suc [] i = refl
below_slot_suc (v ∷ vs) i = ground (arith, below_slot_suc vs i)

below_slot_zero : (vs : List ℕ) → below_slot vs 0 ≡ 0
below_slot_zero [] = refl
below_slot_zero (v ∷ vs) = ground (arith, below_slot_zero vs)

below_slot_all : (vs : List ℕ) → below_slot vs hist_slots ≡ length vs
below_slot_all [] = refl
below_slot_all (v ∷ vs) = ground (arith, below_slot_all vs, hist_index-lt v)

in_slot-le : (vs : List ℕ) (i : ℕ) → in_slot vs i ≤ length vs
in_slot-le [] i = omega arith
in_slot-le (v ∷ vs) i = ground (arith, in_slot-le vs i)

below_slot-le : (vs : List ℕ) (i : ℕ) → below_slot vs i ≤ length vs
below_slot-le [] i = omega arith
below_slot-le (v ∷ vs) i = ground (arith, below_slot-le vs i)

slot_now :
    (f : ℕ → ℕ) (k i : ℕ)
    → f i + 1 < 2 ^ 64
    → update f k (add64 (f k) 1) i ≡ f i + (if k == i then 1 else 0)
slot_now f k i b = elim (Bool-cases (k == i)) [
  | inl e ↦ rw (e, (==_iff k i).0 e) (omega arith)
  | inr n ↦ rw n (omega arith)
]

slots-record_all :
    (h : Hist) (vs : List ℕ) (i : ℕ)
    → h.slots i + length vs < 2 ^ 64
    → (record_all h vs).slots i ≡ h.slots i + in_slot vs i
unfolding hist_record
slots-record_all h [] i b = omega arith
slots-record_all h (v ∷ vs) i b =
    let now = slot_now h.slots (hist_index v) i (omega arith) in
    let rest = slots-record_all (hist_record h v) vs i (ground (arith, now)) in
    omega (arith, now, rest)

slots_after_reset :
    (vs : List ℕ) (j : ℕ) → length vs < 2 ^ 64 → (record_all hist_reset vs).slots j ≡ in_slot vs j
slots_after_reset vs j b = omega (arith, slots-record_all hist_reset vs j (omega arith))

count-record_all :
    (h : Hist) (vs : List ℕ)
    → h.count + length vs < 2 ^ 64
    → (record_all h vs).count ≡ h.count + length vs
unfolding hist_record
count-record_all h [] b = omega arith
count-record_all h (v ∷ vs) b = omega (arith, count-record_all (hist_record h v) vs)

-- the answer lies in slot `i`, and that slot holds the sample of rank `want`
-- the largest sample
abbrev pub largest : List ℕ → ℕ
largest [] = 0
largest (v ∷ vs) = if ltb (largest vs) v then v else largest vs

max-record_all :
    (h : Hist) (vs : List ℕ)
    → (record_all h vs).max ≡ (if ltb h.max (largest vs) then largest vs else h.max)
unfolding hist_record
max-record_all h [] = ground arith
max-record_all h (v ∷ vs) = ground (arith, max-record_all (hist_record h v) vs)

pub record Ranks (vs : List ℕ) (want i answer : ℕ) : Type 0 where
  pub answer_is :
      answer ≡ (if ltb (largest vs) (hist_value_at i) then largest vs else hist_value_at i)
  pub fewer_before : below_slot vs i < want
  pub enough_with : want ≤ below_slot vs (i + 1)

quantile_from-Ranks :
    (h : Hist) (vs : List ℕ) (left i want : ℕ)
    → ((j : ℕ) → h.slots j ≡ in_slot vs j)
    → h.max ≡ largest vs
    → length vs < 2 ^ 64
    → left + i ≡ hist_slots
    → below_slot vs i < want
    → want ≤ length vs
    → (k : ℕ) × Ranks vs want k (quantile_from left h i (below_slot vs i) want)
unfolding quantile_from
quantile_from-Ranks h vs zero i want s g b e l m =
    let q : i ≡ hist_slots = omega arith in
    absurd (omega (arith, ap (below_slot vs) q, below_slot_all vs))
quantile_from-Ranks h vs (suc left) i want s g b e l m =
    let n = below_slot_suc vs i in
    let seen : add64 (below_slot vs i) (h.slots i) ≡ below_slot vs (i + 1) =
      omega (arith, s i, below_slot-le vs (i + 1)) in
    elim (Bool-cases (leb want (below_slot vs (i + 1)))) [
      | inl y ↦ (
        i,
        record { answer_is = rw (seen, y, g) refl; fewer_before = l; enough_with = leb→le _ _ y },
      )
      | inr n ↦
          let more : below_slot vs (i + 1) < want = ground arith in
          rw (seen, n) (quantile_from-Ranks h vs left (i + 1) want s g b (omega arith) more m)
    ]

-- After some samples were recorded, fewer than 2^64, a quantile that asks for one of their ranks
-- answers with the value of one slot, cut off at the largest of these samples: fewer samples than
-- the rank lie in the slots before it, and with that slot's own there are at least as many.
pub hist_quantile-Ranks :
    (vs : List ℕ) (want : ℕ)
    → length vs < 2 ^ 64
    → 1 ≤ want
    → want ≤ length vs
    → (i : ℕ) × Ranks vs want i (hist_quantile (record_all hist_reset vs) want)
unfolding hist_quantile
hist_quantile-Ranks vs want b l m =
    let h = record_all hist_reset vs in
    let c : h.count ≡ length vs = omega (arith, count-record_all hist_reset vs (omega arith)) in
    let some_count : (h.count == 0) ≡ false = ground arith in
    let asked : (want == 0) ≡ false = ground arith in
    let start = below_slot_zero vs in
    let filled = λ (j : ℕ). slots_after_reset vs j b in
    let top : h.max ≡ largest vs = ground (arith, max-record_all hist_reset vs) in
    let found =
      quantile_from-Ranks h vs hist_slots 0 want filled top b (omega arith) (omega (arith, start))
        m in
    rw (some_count, asked) (rw start at found)
