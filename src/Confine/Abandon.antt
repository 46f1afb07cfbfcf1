-- ===== src/Confine/Abandon.antt =====
-- Giving up a run of bytes, src/mm_integrity.c: the header that is stamped at its start lies in the
-- span, and so does all that sealing and linking it writes.
use mars_memory_allocator.Base.{
  ℕ, ◌+◌, ◌-◌, ◌%◌, ◌^◌, ◌≤◌, ◌<◌, ◌≡◌, refl, ◌∙◌, ◌≢◌, ◌⊎◌, inl, inr, Bool, true, false, ◌&&◌,
  arith, ltb, ◌==◌, Bool-cases, le→leb,
}
use mars_memory_allocator.Layout.{Profile, has_crc, min_block}
use mars_memory_allocator.Layout.Word
use mars_memory_allocator.Layout.Word.Laws.{IsExtent, set_word-Reads, set_prev_in_use-Reads}
use mars_memory_allocator.State.{State, with_mem, fail, corrupt_links, add64}
use mars_memory_allocator.Span.{span_of}
use mars_memory_allocator.Counters.{stat_note, quarantine}
use mars_memory_allocator.Memory.{Mem, store}
use mars_memory_allocator.Memory.Laws.{IsMem}
use mars_memory_allocator.Check.{is_block, block_ok_in, start_ok_in}
use mars_memory_allocator.Block.{word, block_size, set_word, set_prev_in_use, set_payload_crc}
use mars_memory_allocator.Recovery.{scrub_forget, stamp_abandoned, abandon, seal_and_link}
use mars_memory_allocator.Coalesce.Cut.{Room, word_stored}
use mars_memory_allocator.Locate.Sound.{span_of_mem}
use mars_memory_allocator.Confine.{InSpan, InSpan-step, span_of_bounds}
use mars_memory_allocator.Confine.Seal.{min_block-ge}
use mars_memory_allocator.Confine.Safe.{Safe, Safe-refl, Safe-trans, unmoved, store-Safe, Spans}
use mars_memory_allocator.Confine.Link.{
  Kept, Kept-refl, Kept-is_block, is_block-same, seal_and_link-Kept,
}

-- one more store into memory that a safe step has left
pub store_after :
    (st : State) (m : Mem) (n a v b : ℕ)
    → Safe st (with_mem st m)
    → InSpan st b a n
    → Safe st (with_mem st (store n m a v))
store_after st m n a v b s i =
    Safe-trans s (store-Safe (with_mem st m) n a v b (InSpan-step s.confined i))

pub payload_crc_after :
    (p : Profile) (st : State) (m : Mem) (b v : ℕ)
    → Safe st (with_mem st m)
    → InSpan st b (b + 12) 4
    → Safe st (with_mem st (set_payload_crc p m b v))
payload_crc_after p st m b v s i = elim (Bool-cases (has_crc p)) [
  | inl e ↦ rw e (store_after st m 4 (b + 12) v b s i)
  | inr e ↦ rw e s
]

pub block_size-set_word :
    (p : Profile) (m : Mem) (b n slack : ℕ) (used quarantined : Bool)
    → IsExtent n
    → slack < 2 ^ 7
    → (block_size (set_word m b n slack used quarantined) b ≡ n)
      × (word (set_word m b n slack used quarantined) b < 2 ^ 64)
block_size-set_word p m b n slack used quarantined e s =
    let r = set_word-Reads (word m b) n slack used quarantined e s in
    let w = word_stored p m b (Word.set_word (word m b) n slack used quarantined) r.in_word in
    rw w (r.size, r.in_word)

pub block_size-set_prev_in_use :
    (p : Profile) (m : Mem) (b : ℕ) (used : Bool)
    → word m b < 2 ^ 64
    → block_size (set_prev_in_use m b used) b ≡ block_size m b
block_size-set_prev_in_use p m b used l =
    let r = set_prev_in_use-Reads (word m b) used l in
    let w = word_stored p m b (Word.set_prev_in_use (word m b) used) r.in_word in rw w r.size

module _ (p : Profile) where
  -- what stands on such a room and has its size is a block in bounds
  pub Room-is_block :
      (st : State) (b n : ℕ) (m : Mem)
      → Room p st b n
      → block_size m b ≡ n
      → is_block p (with_mem st m) b ≡ true
  unfolding is_block block_ok_in
  Room-is_block st b n m r size =
      let s = r.starts in
      let l = le→leb _ _ r.large_enough in
      let k = le→leb _ _ r.inside in
      let here = span_of_mem p st b m in
      let nn : (b == 0) ≡ false = ground (arith, r.not_null) in
      let f : (span_of st b == 0) ≡ false = ground (arith, r.found) in
      rw (here, nn, f, s, size, l, k) refl

  pub Room-InSpan :
      (st : State) (b n a k : ℕ) → Room p st b n → b ≤ a → a + k ≤ b + n → InSpan st b a k
  Room-InSpan st b n a k r l u =
      let q = span_of_bounds st b r.found in
      record { found = r.found; above = omega arith; below = omega (arith, r.inside, q) }

  -- a run of units inside a span
  pub Room-at :
      (st : State) (q b n : ℕ)
      → Spans st
      → span_of st q ≢ 0
      → b ≢ 0
      → (st.desc (span_of st q)).lo ≤ b
      → (b - (st.desc (span_of st q)).lo) % 16 ≡ 0
      → n % 16 ≡ 0
      → min_block p ≤ n
      → b + n ≤ (st.desc (span_of st q)).hi
      → Room p st b n
  unfolding start_ok_in
  Room-at st q b n s f z lo aligned units large hi =
      let g = min_block-ge p in
      let e : span_of st b ≡ span_of st q = s.whole q b f lo (omega arith) in
      let x = s.extent q f in
      record {
        not_null = z;
        found = rw e f;
        starts = rw (e, aligned) (le→leb _ _ (omega arith));
        extent = (units, omega (arith, x.1));
        large_enough = large;
        inside = rw e (omega arith);
      }

  pub forget-Kept : (st : State) (from to b : ℕ) → Kept p st (scrub_forget from to st) b
  unfolding scrub_forget
  forget-Kept st from to b = elim (Bool-cases (ltb from st.scrub_at && ltb st.scrub_at to)) [
    | inl e ↦ rw e (record { safe = unmoved st _ refl refl refl refl refl refl; same = refl })
    | inr e ↦ rw e (Kept-refl p st b)
  ]

  stamp_abandoned-Safe :
      (st : State) (b n : ℕ) (used : Bool) → Room p st b n → Safe st (stamp_abandoned p st b n used)
  unfolding stamp_abandoned
  stamp_abandoned-Safe st b n used r =
      let l = r.large_enough in
      let g = min_block-ge p in
      let i = Room-InSpan st b n b 8 r (omega arith) (omega arith) in
      let j = Room-InSpan st b n (b + 12) 4 r (omega arith) (omega arith) in
      let zeroed = store_after st st.mem 8 b 0 b (Safe-refl st) i in
      let summed = payload_crc_after p st (store 8 st.mem b 0) b 0 zeroed j in
      let m1 = set_payload_crc p (store 8 st.mem b 0) b 0 in
      let worded = store_after st m1 8 b (Word.set_word (word m1 b) n 0 true true) b summed i in
      let m2 = set_word m1 b n 0 true true in
      store_after st m2 8 b (Word.set_prev_in_use (word m2 b) used) b worded i

  stamp_abandoned-is_block :
      (st : State) (b n : ℕ) (used : Bool)
      → Room p st b n
      → is_block p (stamp_abandoned p st b n used) b ≡ true
  unfolding stamp_abandoned
  stamp_abandoned-is_block st b n used r =
      let m1 = set_payload_crc p (store 8 st.mem b 0) b 0 in
      let w = block_size-set_word p m1 b n 0 true true r.extent (omega arith) in
      let m2 = set_word m1 b n 0 true true in
      Room-is_block st b n (set_prev_in_use m2 b used) r
        (block_size-set_prev_in_use p m2 b used w.1 ∙ w.0)

  -- a step inside the spans that ends on nothing or on a block in bounds
  pub record Lands (st st' : State) (n : ℕ) : Type 0 where
    pub safe : Safe st st'
    pub lands : ((n == 0) ≡ true) ⊎ (is_block p st' n ≡ true)

  -- Giving up a run of whole units inside a span.
  pub abandon-Lands :
      (st : State) (b n : ℕ) (used : Bool)
      → (ltb n (min_block p) ≡ false → Room p st b n)
      → IsMem st.mem
      → Lands st (abandon p st b n used).1 (abandon p st b n used).0
  unfolding abandon
  abandon-Lands st b n used r m = elim (Bool-cases (ltb n (min_block p))) [
    | inl e ↦ rw e (record { safe = unmoved st _ refl refl refl refl refl refl; lands = inl refl })
    | inr e ↦
        let st0 = stamp_abandoned p st b n used in
        let a = stamp_abandoned-Safe st b n used (r e) in
        let st1 = scrub_forget b (b + n) st0 in
        let f = forget-Kept st0 b (b + n) b in
        let k1 = Kept-is_block p st0 st1 b f (stamp_abandoned-is_block st b n used (r e)) in
        let l = seal_and_link-Kept p st1 b k1 (f.safe.bytes (a.bytes m)) in
        let st2 = seal_and_link p st1 b in
        let k2 = Kept-is_block p st1 st2 b l k1 in
        let st3 = record st2 { lost_bytes = add64 st2.lost_bytes n } in
        let last = fail corrupt_links (stat_note quarantine n st3) in
        let u = unmoved st2 last refl refl refl refl refl refl in
        rw e (record {
          safe = Safe-trans a (Safe-trans f.safe (Safe-trans l.safe u));
          lands = inr (is_block-same p st2 last b u.confined refl k2);
        })
  ]
