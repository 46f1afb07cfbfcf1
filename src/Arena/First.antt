-- ===== src/Arena/First.antt =====
-- The first block of a span that src/mm_arena.c adopts.
use Prim.Native.Nat.{bit_xor}
use mars_memory_allocator.Base.{
  ℕ, ◌+◌, ◌-◌, ◌*◌, ◌≤◌, ◌≡◌, refl, ap, ◌∙◌, ◌≢◌, inr, true, false, ◌||◌, arith, ltb, leb, ◌==◌,
  le→leb,
}
use mars_memory_allocator.Layout.{Profile, min_block}
use mars_memory_allocator.Layout.Word
use mars_memory_allocator.Arena.{stamp_first}
use mars_memory_allocator.Layout.Word.Laws.{IsExtent, Reads, set_word-Reads, set_prev_in_use-Reads}
use mars_memory_allocator.State.{State, with_mem}
use mars_memory_allocator.Check.{is_block, block_ok_in, header_ok, start_ok_in, seal}
use mars_memory_allocator.Recovery.{recover_next, publish, tag_and_seal}
use mars_memory_allocator.Span.{span_of}
use mars_memory_allocator.Block.{
  block_end, word, set_payload_crc, block_size, set_word, free_link_set, write_free_footer,
  payload_of, link_next, link_prev,
}
use mars_memory_allocator.Memory.{Mem, store}
use mars_memory_allocator.Coalesce.Cut.{word_stored}
use mars_memory_allocator.Locate.Sound.{span_of_mem}
use mars_memory_allocator.FreeList.{bin_insert, bin_push}
use mars_memory_allocator.Confine.Seal.{min_block-ge}
use mars_memory_allocator.Memory.Laws.{load-store-Apart}
use mars_memory_allocator.Bins.{bin_of}
use mars_memory_allocator.Check.Seal.{seal-header_ok}
use mars_memory_allocator.Coalesce.Stamp.{seal_state}
use mars_memory_allocator.Platform.{Platform}
use mars_memory_allocator.Layout.Geometry.{hdr_size-ge}
use mars_memory_allocator.Access.Frame.{header_ok_kept}
use mars_memory_allocator.Access.Reseal.{hdr_size_of_crc}
use mars_memory_allocator.Bitmap.{update, bitmap_set}

first_word : ℕ → ℕ → ℕ
first_word w usable = Word.set_prev_in_use (Word.set_word w usable 0 false false) true

first_word-Reads :
    (w usable : ℕ) → IsExtent usable → Reads (first_word w usable) usable 0 false false true
unfolding first_word
first_word-Reads w usable e =
    let r = set_word-Reads w usable 0 false false e (omega arith) in
    let q = set_prev_in_use-Reads (Word.set_word w usable 0 false false) true r.in_word in
    record {
      in_word = q.in_word;
      size = q.size ∙ r.size;
      slack_read = q.slack_read ∙ r.slack_read;
      used_read = q.used_read ∙ r.used_read;
      quarantined_read = q.quarantined_read ∙ r.quarantined_read;
      prev_read = q.prev_read;
    }

min_block-room : (p : Profile) → 16 ≤ min_block p
min_block-room p = min_block-ge p

module _ (p : Profile) where
  -- a span whose space is to be one block
  pub record Bare (st : State) (b usable : ℕ) : Type 0 where
    pub not_null : b ≢ 0
    pub found : span_of st b ≢ 0
    pub from_lo : (st.desc (span_of st b)).lo ≡ b
    pub to_hi : (st.desc (span_of st b)).hi ≡ b + usable
    pub extent : IsExtent usable
    pub large_enough : min_block p ≤ usable

  -- a free block that takes up all of its span
  pub record Opened (st : State) (b usable : ℕ) : Type 0 where
    pub accepted : header_ok p st b ≡ true
    pub reads : Reads (word st.mem b) usable 0 false false true
    pub whole : (st.desc (span_of st b)).hi ≡ block_end st.mem b

  pub stamped_first-Reads :
      (os : Platform) (st : State) (b usable : ℕ)
      → IsExtent usable
      → Reads (word (stamp_first os p st b usable).mem b) usable 0 false false true
  unfolding stamp_first first_word
  stamped_first-Reads os st b usable e =
      let m1 = set_payload_crc p (store 8 st.mem b 0) b 0 in
      let w = word m1 b in
      let r = set_word-Reads w usable 0 false false e (omega arith) in
      let q = first_word-Reads w usable e in
      let first = word_stored p m1 b (Word.set_word w usable 0 false false) r.in_word in
      let m2 = set_word m1 b usable 0 false false in
      let same = ap (λ t. Word.set_prev_in_use t true) first in
      let stored = word_stored p m2 b (Word.set_prev_in_use (word m2 b) true) (rw same q.in_word) in
      rw (stored ∙ same) q

  -- a memory whose word at `b` reads as the whole of a bare span makes a block in bounds
  whole-is_block :
      (st : State) (b usable : ℕ) (m : Mem)
      → Bare st b usable
      → block_size m b ≡ usable
      → is_block p (with_mem st m) b ≡ true
  unfolding is_block block_ok_in start_ok_in
  whole-is_block st b usable m r size =
      let lo = r.from_lo in
      let hi = r.to_hi in
      let large = r.large_enough in
      let n : (b == 0) ≡ false = ground (arith, r.not_null) in
      let f : (span_of st b == 0) ≡ false = ground (arith, r.found) in
      let z : b - b ≡ 0 = omega arith in
      let d : b + usable - b ≡ usable = omega arith in
      let l = le→leb _ _ large in
      let k : leb usable usable ≡ true = le→leb _ _ (omega arith) in
      rw (span_of_mem p st b m, n, f, lo, hi, size, z, d, l, k) refl

  recover_next_last :
      (st : State) (b : ℕ)
      → (st.desc (span_of st b)).hi ≡ block_end st.mem b
      → recover_next p st b ≡ (0, st)
  unfolding recover_next
  recover_next_last st b e =
      let hi = (st.desc (span_of st b)).hi in
      let n = block_end st.mem b in
      let alone : (span_of st b == 0 || leb hi n || ltb (hi - n) (min_block p)) ≡ true =
        let l = le→leb hi n (omega arith) in ground arith in
      rw alone refl

  footer_word :
      (m : Mem) (b : ℕ) → min_block p ≤ block_size m b → word (write_free_footer m b) b ≡ word m b
  unfolding write_free_footer
  footer_word m b l =
      load-store-Apart 8 8 m (block_end m b - 8) b (block_size m b)
        (inr (omega (arith, min_block-room p)))

  -- Publishing a free block that takes up its span writes its tag and seals it
  publish-Opened :
      (st : State) (b usable : ℕ) (m : Mem)
      → Bare st b usable
      → Reads (word m b) usable 0 false false true
      → ((publish p (with_mem st m) b).1 ≡ seal p (with_mem st (write_free_footer m b)) b)
        × Opened (seal p (with_mem st (write_free_footer m b)) b) b usable
  unfolding publish tag_and_seal
  publish-Opened st b usable m r w =
      let tagged = with_mem st (write_free_footer m b) in
      let s3 = seal p tagged b in
      let large : min_block p ≤ block_size m b = rw w.size r.large_enough in
      let tag = footer_word m b large in
      let size = ap Word.size_of tag ∙ w.size in
      let h = whole-is_block st b usable (write_free_footer m b) r size in
      let sealed = seal-header_ok p tagged b h in
      let whole : (s3.desc (span_of s3 b)).hi ≡ block_end s3.mem b =
        rw (seal_state p tagged b, span_of_mem p st b s3.mem, r.to_hi, sealed.1, size) refl in
      let last = recover_next_last s3 b whole in
      (
        rw (w.used_read, whole-is_block st b usable m r w.size, last) refl,
        record { accepted = sealed.0; reads = rw (sealed.1 ∙ tag) w; whole = whole },
      )

  -- linking a free block in leaves its header
  free_link_set-Opened :
      (st : State) (b usable which ptr : ℕ)
      → Opened st b usable
      → Opened (with_mem st (free_link_set p st.mem b which ptr st.secret)) b usable
  unfolding free_link_set span_of
  free_link_set-Opened st b usable which ptr o =
      let a = payload_of p b + which * 8 in
      let m = store 8 st.mem a (bit_xor ptr st.secret) in
      let w : word m b ≡ word st.mem b =
        load-store-Apart 8 8 st.mem a b (bit_xor ptr st.secret)
          (inr (omega (arith, hdr_size-ge p))) in
      record {
        accepted =
            header_ok_kept p st b m w
              (λ e.
                load-store-Apart 4 8 st.mem a (b + 8) (bit_xor ptr st.secret)
                  (inr (omega (arith, hdr_size_of_crc p e))))
              (λ e.
                load-store-Apart 4 8 st.mem a (b + 12) (bit_xor ptr st.secret)
                  (inr (omega (arith, hdr_size_of_crc p e))))
              o.accepted;
        reads = rw w o.reads;
        whole = rw w o.whole;
      }

  -- a list head is nothing that a header rests on
  bins-Opened :
      (st : State) (b usable : ℕ) (heads bitmap : ℕ → ℕ)
      → Opened st b usable
      → Opened (record st { bins = heads; bin_bitmap = bitmap }) b usable
  unfolding header_ok span_of
  bins-Opened st b usable heads bitmap o = record {
    accepted = o.accepted;
    reads = o.reads;
    whole = o.whole;
  }

  -- The first block on bins that are empty heads its bin.
  bin_insert-Opened :
      (st : State) (b usable : ℕ)
      → Opened st b usable
      → st.bins (bin_of p usable) ≡ 0
      → Opened (bin_insert p st b) b usable × ((bin_insert p st b).bins (bin_of p usable) ≡ b)
  unfolding bin_insert bin_push
  bin_insert-Opened st b usable o z =
      let bin = bin_of p usable in
      let o1 = free_link_set-Opened st b usable link_next 0 o in
      let s1 = with_mem st (free_link_set p st.mem b link_next 0 st.secret) in
      let o2 = free_link_set-Opened s1 b usable link_prev 0 o1 in
      let s2 = with_mem s1 (free_link_set p s1.mem b link_prev 0 s1.secret) in
      let heads : update st.bins bin b bin ≡ b = ground arith in
      rw (o.reads.size, z)
        (bins-Opened s2 b usable (update st.bins bin b) (bitmap_set st.bin_bitmap bin) o2, heads)

  pub scrub-Opened :
      (st : State) (b usable s at : ℕ)
      → Opened st b usable
      → Opened (record st { scrub_span = s; scrub_at = at }) b usable
  unfolding header_ok span_of
  scrub-Opened st b usable s at o = record {
    accepted = o.accepted;
    reads = o.reads;
    whole = o.whole;
  }

  -- the block that heads the bin of its size and takes up its span
  abbrev pub Installed : State → ℕ → ℕ → Type 0
  Installed st b usable = Opened st b usable × (st.bins (bin_of p usable) ≡ b)

  pub publish-Installed :
      (st : State) (b usable : ℕ) (m : Mem)
      → Bare st b usable
      → Reads (word m b) usable 0 false false true
      → st.bins (bin_of p usable) ≡ 0
      → Installed (bin_insert p (publish p (with_mem st m) b).1 b) b usable
  publish-Installed st b usable m r w z =
      let tagged = with_mem st (write_free_footer m b) in
      let o = publish-Opened st b usable m r w in
      let empty : (seal p tagged b).bins (bin_of p usable) ≡ 0 = rw (seal_state p tagged b) z in
      rw (o.0) (bin_insert-Opened (seal p tagged b) b usable o.1 empty)
