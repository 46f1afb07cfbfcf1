-- ===== src/Coalesce/Cut.antt =====
-- The block that split_block and mm_memalign cut off the end of another.
use mars_memory_allocator.Base.{
  ℕ, ◌-◌, ◌^◌, ◌≤◌, ◌<◌, ◌≡◌, refl, ap, ◌∙◌, ◌≢◌, true, false, arith, ◌==◌, le→leb,
}
use mars_memory_allocator.Layout.{fast, hardened, paranoid, Profile, trail, min_block}
use mars_memory_allocator.Layout.Word
use mars_memory_allocator.Layout.Word.Laws.{IsExtent, Reads, set_word-Reads, set_prev_in_use-Reads}
use mars_memory_allocator.Memory.{Mem, store}
use mars_memory_allocator.State.{State, with_mem}
use mars_memory_allocator.Block.{set_payload_crc, word, set_prev_in_use, set_word}
use mars_memory_allocator.Memory.Laws.{load-store}
use mars_memory_allocator.Coalesce.{cut_tail}
use mars_memory_allocator.Check.{is_block, block_ok_in, header_ok, start_ok_in}
use mars_memory_allocator.Span.{span_of}
use mars_memory_allocator.Check.Seal.{seal-header_ok}
use mars_memory_allocator.Locate.Sound.{span_of_mem}

pub trail-lt : (p : Profile) → trail p < 2 ^ 7
trail-lt fast = omega arith
trail-lt hardened = omega arith
trail-lt paranoid = omega arith

-- the control word of the block that is cut off
abbrev tail_word : Profile → ℕ → ℕ → ℕ
tail_word p w leftover = Word.set_prev_in_use (Word.set_word w leftover (trail p) true false) true

tail_word-Reads :
    (p : Profile) (w leftover : ℕ)
    → IsExtent leftover
    → Reads (tail_word p w leftover) leftover (trail p) true false true
tail_word-Reads p w leftover e =
    let r = set_word-Reads w leftover (trail p) true false e (trail-lt p) in
    let q = set_prev_in_use-Reads (Word.set_word w leftover (trail p) true false) true r.in_word in
    record {
      in_word = q.in_word;
      size = q.size ∙ r.size;
      slack_read = q.slack_read ∙ r.slack_read;
      used_read = q.used_read ∙ r.used_read;
      quarantined_read = q.quarantined_read ∙ r.quarantined_read;
      prev_read = q.prev_read;
    }

module _ (p : Profile) where
  -- the memory before the cut block is sealed
  abbrev pub unsealed : State → ℕ → ℕ → Mem
  unsealed st tail leftover =
      let m1 = set_payload_crc p (store 8 st.mem tail 0) tail 0 in
      set_prev_in_use (set_word m1 tail leftover (trail p) true false) tail true

  pub word_stored : (m : Mem) (b v : ℕ) → v < 2 ^ 64 → word (store 8 m b v) b ≡ v
  word_stored m b v h = omega (arith, load-store 8 m b v)

  unsealed-Reads :
      (st : State) (tail leftover : ℕ)
      → IsExtent leftover
      → Reads (word (unsealed st tail leftover) tail) leftover (trail p) true false true
  unsealed-Reads st tail leftover e =
      let m1 = set_payload_crc p (store 8 st.mem tail 0) tail 0 in
      let w = word m1 tail in
      let r = set_word-Reads w leftover (trail p) true false e (trail-lt p) in
      let q = tail_word-Reads p w leftover e in
      let first = word_stored m1 tail (Word.set_word w leftover (trail p) true false) r.in_word in
      let m2 = set_word m1 tail leftover (trail p) true false in
      let same = ap (λ t. Word.set_prev_in_use t true) first in
      let stored =
        word_stored m2 tail (Word.set_prev_in_use (word m2 tail) true) (rw same q.in_word) in
      rw (stored ∙ same) q

  -- room for a block of `leftover` bytes at `tail`
  pub record Room (st : State) (tail leftover : ℕ) : Type 0 where
    pub not_null : tail ≢ 0
    pub found : span_of st tail ≢ 0
    pub starts : start_ok_in p (st.desc (span_of st tail)) tail ≡ true
    pub extent : IsExtent leftover
    pub large_enough : min_block p ≤ leftover
    pub inside : leftover ≤ (st.desc (span_of st tail)).hi - tail

  pub unsealed-is_block :
      (st : State) (tail leftover : ℕ)
      → Room st tail leftover
      → is_block p (with_mem st (unsealed st tail leftover)) tail ≡ true
  unfolding is_block block_ok_in
  unsealed-is_block st tail leftover r =
      let size = (unsealed-Reads st tail leftover r.extent).size in
      let s = r.starts in
      let l = le→leb _ _ r.large_enough in
      let k = le→leb _ _ r.inside in
      let here = span_of_mem p st tail (unsealed st tail leftover) in
      let n : (tail == 0) ≡ false = ground (arith, r.not_null) in
      let f : (span_of st tail == 0) ≡ false = ground (arith, r.found) in
      rw (here, n, f, s, size, l, k) refl

  -- What split_block cuts off, where there is room for a block of that many bytes in the span, is
  -- a block with an accepted header whose word reads as in use, not quarantined, after a block in
  -- use, of exactly that extent, and with the trailer as its slack.
  pub cut_tail-header_ok :
      (st : State) (tail leftover : ℕ)
      → Room st tail leftover
      → (header_ok p (cut_tail p st tail leftover) tail ≡ true)
        × Reads (word (cut_tail p st tail leftover).mem tail) leftover (trail p) true false true
  unfolding cut_tail
  cut_tail-header_ok st tail leftover r =
      let sealed =
        seal-header_ok p (with_mem st (unsealed st tail leftover)) tail
          (unsealed-is_block st tail leftover r) in
      (sealed.0, rw (sealed.1) (unsealed-Reads st tail leftover r.extent))
