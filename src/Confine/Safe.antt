-- ===== src/Confine/Safe.antt =====
-- Steps that write only inside the spans and only bytes, and the two kinds of write they are made of.
use mars_memory_allocator.Base.{ℕ, zero, suc, ◌+◌, ◌-◌, ◌*◌, ◌≤◌, ◌<◌, ◌≡◌, refl, ◌≢◌, true, arith}
use mars_memory_allocator.Bitmap.{update}
use mars_memory_allocator.Layout.{Profile, fast, hardened, paranoid, min_block, hdr_size}
use mars_memory_allocator.Layout.Word.Laws.{IsExtent}
use mars_memory_allocator.Memory.{Mem, store, copy}
use mars_memory_allocator.Memory.Laws.{IsMem, store-IsMem}
use mars_memory_allocator.State.{State, with_mem}
use mars_memory_allocator.Span.{span_of}
use mars_memory_allocator.Check.{is_block, is_block_start, block_ok_in, start_ok_in}
use mars_memory_allocator.Block.{free_link_set, payload_of}
use mars_memory_allocator.Confine.{
  Confined, Confined-refl, Confined-trans, Confined-span_of, InSpan, store-Confined, copy-Confined,
  span_of_bounds,
}

-- what a step keeps: everything outside the spans, the registry, and that memory holds bytes
pub record Safe (st st' : State) : Type 0 where
  pub confined : Confined st st'
  pub bytes : IsMem st.mem → IsMem st'.mem

pub Safe-refl : (st : State) → Safe st st
Safe-refl st = record { confined = Confined-refl st; bytes = λ h. h }

pub Safe-trans : {st st' st'' : State} → Safe st st' → Safe st' st'' → Safe st st''
Safe-trans a b = record {
  confined = Confined-trans a.confined b.confined;
  bytes = λ h. b.bytes (a.bytes h);
}

-- a step that touches neither memory nor the registry
pub unmoved :
    (st st' : State)
    → st'.desc ≡ st.desc
    → st'.user ≡ st.user
    → st'.index ≡ st.index
    → st'.spans ≡ st.spans
    → st'.span_count ≡ st.span_count
    → st'.mem ≡ st.mem
    → Safe st st'
unmoved st st' d u i s c m = record {
  confined = record {
    same_desc = d;
    same_user = u;
    same_index = i;
    same_spans = s;
    same_count = c;
    outside = λ x h. rw m refl;
  };
  bytes = λ h. rw m h;
}

pub copy-IsMem : (n : ℕ) (m : Mem) (dst src : ℕ) → IsMem m → IsMem (copy n m dst src)
unfolding copy
copy-IsMem zero m dst src h = h
copy-IsMem (suc n) m dst src h =
    copy-IsMem n (update m dst (m src)) (dst + 1) (src + 1) (λ x. ground (arith, h x, h src))

pub store-Safe :
    (st : State) (n a v b : ℕ) → InSpan st b a n → Safe st (with_mem st (store n st.mem a v))
store-Safe st n a v b i = record {
  confined = store-Confined st n a v b i;
  bytes = store-IsMem n st.mem a v;
}

pub copy-Safe :
    (st : State) (n dst src b : ℕ)
    → InSpan st b dst n
    → Safe st (with_mem st (copy n st.mem dst src))
copy-Safe st n dst src b i = record {
  confined = copy-Confined st n dst src b i;
  bytes = copy-IsMem n st.mem dst src;
}

-- The spans as the registry keeps them: of whole units and less than 2^58 bytes, apart from one
-- another, and answering for each address that they hold.
pub record Spans (st : State) : Type 0 where
  pub extent :
      (q : ℕ)
      → span_of st q ≢ 0
      → IsExtent ((st.desc (span_of st q)).hi - (st.desc (span_of st q)).lo)
  pub whole :
      (q x : ℕ)
      → span_of st q ≢ 0
      → (st.desc (span_of st q)).lo ≤ x
      → x < (st.desc (span_of st q)).hi
      → span_of st x ≡ span_of st q

pub Spans-step : {st st' : State} → Confined st st' → Spans st → Spans st'
Spans-step c s = record {
  extent = λ q. rw (Confined-span_of c q, c.same_desc) (s.extent q);
  whole = λ q x. rw (Confined-span_of c q, Confined-span_of c x, c.same_desc) (s.whole q x);
}

link_room : (p : Profile) → hdr_size p + 16 ≤ min_block p
link_room fast = omega arith
link_room hardened = omega arith
link_room paranoid = omega arith

module _ (p : Profile) where
  -- `b` may start a block
  abbrev pub Starts : State → ℕ → Type 0
  Starts st b = is_block_start p st b ≡ true

  pub Starts-step : {st st' : State} (b : ℕ) → Confined st st' → Starts st b → Starts st' b
  unfolding is_block_start
  Starts-step b c h = rw (Confined-span_of c b, c.same_desc) h

  pub is_block-Starts : (st : State) (b : ℕ) → is_block p st b ≡ true → Starts st b
  unfolding is_block is_block_start block_ok_in
  is_block-Starts st b h = ground arith

  -- there is room for a smallest block at such an address
  pub Starts-InSpan :
      (st : State) (b a n : ℕ) → Starts st b → b ≤ a → a + n ≤ b + min_block p → InSpan st b a n
  unfolding is_block_start start_ok_in
  Starts-InSpan st b a n h l k =
      let f : span_of st b ≢ 0 = ground arith in
      let r = span_of_bounds st b f in
      record { found = f; above = omega arith; below = ground arith }

  -- a link written into such a block
  pub link-Safe :
      (st : State) (b which v : ℕ)
      → which ≤ 1
      → Starts st b
      → Safe st (with_mem st (free_link_set p st.mem b which v st.secret))
  unfolding free_link_set
  link-Safe st b which v w h = store-Safe st 8 (payload_of p b + which * 8) _ b (
      Starts-InSpan st b (payload_of p b + which * 8) 8 h (omega arith)
        (omega (arith, link_room p)))
