-- ===== src/Histogram.antt =====
-- The latency histogram of the benchmarks, src/bench/bench_timer.c: log-linear slots, recording,
-- merging and reporting a quantile. The floating-point product that turns a quantile into a rank is
-- not modelled: the rank is an argument.
pub mod Error
pub mod Merge
pub mod Quantile
use mars_memory_allocator.Base.{
  ℕ, zero, suc, ◌+◌, ◌-◌, ◌*◌, ◌/◌, ◌%◌, ◌^◌, ltb, leb, ◌==◌, if◌then◌else◌,
}
use mars_memory_allocator.Bitmap.{update}
use mars_memory_allocator.State.{add64}

-- BENCH_HIST_SUB_BITS, BENCH_HIST_SUB_COUNT and BENCH_HIST_SLOTS
abbrev pub sub_bits : ℕ
sub_bits = 8

abbrev pub sub_count : ℕ
sub_count = 256

abbrev pub hist_slots : ℕ
hist_slots = 64 * sub_count

-- bench_hist
pub record Hist : Type 0 where
  pub slots : ℕ → ℕ
  pub count : ℕ
  pub total : ℕ
  pub min : ℕ
  pub max : ℕ

-- bench_hist_reset
abbrev pub hist_reset : Hist
hist_reset = record { slots = λ i. 0; count = 0; total = 0; min = 2 ^ 64 - 1; max = 0 }

-- `while (((value >> msb) & 1u) == 0) msb--;`
unfoldable pub msb_from : ℕ → ℕ → ℕ
msb_from zero value = 0
msb_from (suc msb) value =
    let rest = msb_from msb value in if value / 2 ^ suc msb % 2 == 0 then rest else suc msb

-- hist_index
unfoldable pub hist_index : ℕ → ℕ
unfolding msb_from
hist_index value =
    let shift = msb_from 63 value - sub_bits + 1 in
    let sub = value / 2 ^ shift % sub_count in
    let index = (shift + 1) * sub_count + sub in
    if ltb value sub_count then value else if leb hist_slots index then hist_slots - 1 else index

-- hist_value_at
unfoldable pub hist_value_at : ℕ → ℕ
hist_value_at index =
    let shift = index / sub_count - 1 in
    let sub = index % sub_count in if ltb index sub_count then index else sub * 2 ^ shift % 2 ^ 64

-- bench_hist_record
unfoldable pub hist_record : Hist → ℕ → Hist
hist_record h value =
    let i = hist_index value in
    record {
      slots = update h.slots i (add64 (h.slots i) 1);
      count = add64 h.count 1;
      total = add64 h.total value;
      min = if ltb value h.min then value else h.min;
      max = if ltb h.max value then value else h.max;
    }

-- bench_hist_merge
unfoldable pub hist_merge : Hist → Hist → Hist
hist_merge dst src = record {
  slots = λ i. if ltb i hist_slots then add64 (dst.slots i) (src.slots i) else dst.slots i;
  count = add64 dst.count src.count;
  total = add64 dst.total src.total;
  min = if ltb src.min dst.min then src.min else dst.min;
  max = if ltb dst.max src.max then src.max else dst.max;
}

-- the loop of bench_hist_quantile, over the slots that are left from `i` on
unfoldable pub quantile_from : ℕ → Hist → (i seen want : ℕ) → ℕ
quantile_from zero h i seen want = h.max
quantile_from (suc left) h i seen want =
    let seen1 = add64 seen (h.slots i) in
    let v = hist_value_at i in
    let rest = quantile_from left h (i + 1) seen1 want in
    if leb want seen1 then (if ltb h.max v then h.max else v) else rest

-- bench_hist_quantile, for a quantile strictly between 0 and 1 that asks for the rank `want`
unfoldable pub hist_quantile : Hist → ℕ → ℕ
hist_quantile h want =
    if h.count == 0 then 0 else quantile_from hist_slots h 0 0 (if want == 0 then 1 else want)
