-- ===== src/Confine/Mirror.antt =====
-- Finding the next block and putting a header back from its mirror, src/mm_integrity.c: the places that
-- the search and the mirror name lie in the span.
use mars_memory_allocator.Base.{
  ℕ, zero, suc, ◌+◌, ◌-◌, ◌%◌, ◌^◌, ◌≤◌, ◌<◌, ◌≡◌, refl, ap, ◌∙◌, ◌≢◌, ◌⊎◌, inl, inr, Bool, true,
  false, not, ◌&&◌, ◌||◌, arith, ltb, leb, ◌==◌, Bool-cases, if◌then◌else◌,
}
use mars_memory_allocator.Bitmap.{update}
use mars_memory_allocator.Layout.{
  Profile, fast, hardened, paranoid, min_block, has_mirror, mirror_size, hdr_size, alignment,
}
use mars_memory_allocator.Layout.Word
use mars_memory_allocator.Memory.{Mem, load, copy}
use mars_memory_allocator.Memory.Laws.{IsMem, load_ext, copy-Outside, load-lt}
use mars_memory_allocator.State.{State, Span, with_mem}
use mars_memory_allocator.Span.{span_of, index_in}
use mars_memory_allocator.Counters.{stat_note, repair}
use mars_memory_allocator.Check.{extent_corroborated}
use mars_memory_allocator.Block.{word, block_size, set_prev_in_use, is_used, hdr_crc_of, hdr_crc}
use mars_memory_allocator.Recovery.{
  resync_from, scan_resync, recovery_steps, mirror_says, restore, seal_and_link, tiling_agrees,
}
use mars_memory_allocator.Confine.{Confined, Confined-span_of}
use mars_memory_allocator.Confine.Safe.{Safe-trans, unmoved, copy-Safe, Spans}
use mars_memory_allocator.Confine.Link.{Kept-is_block, is_block-same, seal_and_link-Kept}
use mars_memory_allocator.Confine.Abandon.{
  Room-is_block, Room-InSpan, Room-at, store_after, block_size-set_prev_in_use, Lands,
}

pub min_block-units : (p : Profile) → min_block p % 16 ≡ 0
min_block-units fast = refl
min_block-units hardened = refl
min_block-units paranoid = refl

mirror_fits :
    (p : Profile)
    → has_mirror p ≡ true
    → (hdr_size p + mirror_size p ≤ min_block p) × (8 ≤ hdr_size p)
mirror_fits fast e = ground arith
mirror_fits hardened e = ground arith
mirror_fits paranoid e = (omega arith, omega arith)

load-copy :
    (n k : ℕ) (m : Mem) (dst src : ℕ)
    → n ≤ k
    → dst + k ≤ src
    → load n (copy k m dst src) dst ≡ load n m src
unfolding load copy
load-copy zero k m dst src l a = refl
load-copy (suc n) zero m dst src l a = absurd (omega arith)
load-copy (suc n) (suc k) m dst src l a =
    let m1 = update m dst (m src) in
    let first : copy k m1 (dst + 1) (src + 1) dst ≡ m src =
      copy-Outside k m1 (dst + 1) (src + 1) dst (inl (omega arith)) ∙ update_self m dst (m src) in
    let rest = load-copy n k m1 (dst + 1) (src + 1) (omega arith) (omega arith) in
    let same = load_ext n m m1 (src + 1) (λ x g u. update_other m dst x (m src) (omega arith)) in
    omega (arith, first, rest, same)
  where
    update_self : (m : Mem) (a v : ℕ) → update m a v a ≡ v
    update_self m a v = ground arith

    update_other : (m : Mem) (a x v : ℕ) → a < x → update m a v x ≡ m x
    update_other m a x v l = ground arith

pub size_units : (w : ℕ) → Word.size_of w % 16 ≡ 0
unfolding Word.size_of
size_units w = omega arith

-- the value of three tests in a row that does not come out 0
last_of :
    (a b c : Bool) (x : ℕ)
    → ((if a then 0 else if b then 0 else if c then 0 else x) == 0) ≡ false
    → (a ≡ false) × (b ≡ false) × ((if a then 0 else if b then 0 else if c then 0 else x) ≡ x)
last_of true b c x h = cc
last_of false true c x h = cc
last_of false false true x h = cc
last_of false false false x h = (refl, refl, refl)

-- a place that the search for the next block may name, from `from` on
pub record Candidate (p : Profile) (s : Span) (from r : ℕ) : Type 0 where
  pub after : from ≤ r
  pub units : (r - from) % 16 ≡ 0
  pub room : r + min_block p ≤ s.hi

-- what the mirror that ends at `r` says, where it does not lie below `lo`
pub record Mirrored (p : Profile) (st : State) (s : Span) (lo r b : ℕ) : Type 0 where
  pub start_is : b ≡ r - block_size st.mem (r - mirror_size p)
  pub large : min_block p ≤ block_size st.mem (r - mirror_size p)
  pub above : block_size st.mem (r - mirror_size p) ≤ r - lo
  pub aligned : (b - s.lo) % 16 ≡ 0

-- a unit of the span of `q` with room for a smallest block
pub record Stands (p : Profile) (st : State) (q b : ℕ) : Type 0 where
  pub found : span_of st q ≢ 0
  pub not_null : b ≢ 0
  pub above : (st.desc (span_of st q)).lo ≤ b
  pub aligned : (b - (st.desc (span_of st q)).lo) % 16 ≡ 0
  pub room : b + min_block p ≤ (st.desc (span_of st q)).hi

pub Stands-step :
    (p : Profile) {st st' : State} (q b : ℕ) → Confined st st' → Stands p st q b → Stands p st' q b
Stands-step p q b c s = record {
  found = rw (Confined-span_of c q) s.found;
  not_null = s.not_null;
  above = rw (Confined-span_of c q, c.same_desc) s.above;
  aligned = rw (Confined-span_of c q, c.same_desc) s.aligned;
  room = rw (Confined-span_of c q, c.same_desc) s.room;
}

module _ (p : Profile) where
  resync_from-Candidate :
      (steps : ℕ) (st : State) (s : Span) (q from : ℕ)
      → from ≤ q
      → (q - from) % 16 ≡ 0
      → ((resync_from p steps st s q == 0) ≡ true) ⊎ Candidate p s from (resync_from p steps st s q)
  unfolding resync_from
  resync_from-Candidate zero st s q from l u = inl refl
  resync_from-Candidate (suc steps) st s q from l u =
      let rest = resync_from-Candidate steps st s (q + 16) from (omega arith) (omega arith) in
      elim (Bool-cases (not (ltb q s.hi && leb (min_block p) (s.hi - q)))) [
        | inl e ↦ rw e (inl refl)
        | inr e ↦ elim (Bool-cases (extent_corroborated p st q && tiling_agrees p st s q)) [
          | inl f ↦ rw (e, f) (inr (record { after = l; units = u; room = ground arith }))
          | inr f ↦ rw (e, f) rest
        ]
      ]

  pub scan_resync-Candidate :
      (st : State) (s : Span) (start : ℕ)
      → ((scan_resync p st s start == 0) ≡ true)
        ⊎ Candidate p s (start + min_block p) (scan_resync p st s start)
  unfolding scan_resync
  scan_resync-Candidate st s start =
      resync_from-Candidate recovery_steps st s (start + min_block p) (start + min_block p)
        (omega arith) (omega arith)

  pub mirror_says-Mirrored :
      (st : State) (s : Span) (lo r : ℕ)
      → (mirror_says p st s lo r == 0) ≡ false
      → Mirrored p st s lo r (mirror_says p st s lo r)
  unfolding mirror_says
  mirror_says-Mirrored st s lo r h =
      let out = r - mirror_size p in
      let n = block_size st.mem out in
      let short = ltb n (min_block p) || ltb (r - lo) n || not (is_used st.mem out) in
      let off = not ((r - n - s.lo) % alignment == 0) in
      let sum = hdr_crc_of st.mem out (index_in s (r - n)) st.secret in
      let (a, b, v) = last_of short off (not (hdr_crc st.mem out == sum)) (r - n) h in
      rw v (record {
        start_is = refl;
        large = ground arith;
        above = ground arith;
        aligned = ground arith;
      })

  -- Putting a header back from a mirror that names its place, in the span of `q`.
  pub restore-Lands :
      (st : State) (q lo r b : ℕ) (used : Bool)
      → Spans st
      → IsMem st.mem
      → has_mirror p ≡ true
      → span_of st q ≢ 0
      → b ≢ 0
      → (st.desc (span_of st q)).lo ≤ lo
      → lo ≤ r
      → r ≤ (st.desc (span_of st q)).hi
      → Mirrored p st (st.desc (span_of st q)) lo r b
      → Lands p st (restore p st b r used) b
  unfolding restore
  restore-Lands st q lo r b used s m has f z above l u w =
      let out = r - mirror_size p in
      let n = block_size st.mem out in
      let fits = mirror_fits p has in
      let big = w.large in
      let low = w.above in
      let at = w.start_is in
      let room =
        Room-at p st q b n s f z (omega arith) w.aligned (size_units (word st.mem out)) big
          (omega arith) in
      let i = Room-InSpan p st b n b (hdr_size p) room (omega arith) (omega arith) in
      let m1 = copy (hdr_size p) st.mem b out in
      let a = copy-Safe st (hdr_size p) b out b i in
      let copied : word m1 b ≡ word st.mem out =
        load-copy 8 (hdr_size p) st.mem b out fits.1 (omega arith) in
      let byte : word m1 b < 2 ^ 64 = omega (arith, load-lt 8 m1 b (a.bytes m)) in
      let size : block_size (set_prev_in_use m1 b used) b ≡ n =
        block_size-set_prev_in_use p m1 b used byte ∙ ap Word.size_of copied in
      let st0 = with_mem st (set_prev_in_use m1 b used) in
      let j = Room-InSpan p st b n b 8 room (omega arith) (omega arith) in
      let c = store_after st m1 8 b (Word.set_prev_in_use (word m1 b) used) b a j in
      let k0 = Room-is_block p st b n (set_prev_in_use m1 b used) room size in
      let d = seal_and_link-Kept p st0 b k0 (c.bytes m) in
      let st1 = seal_and_link p st0 b in
      let last = stat_note repair (block_size st1.mem b) st1 in
      let e = unmoved st1 last refl refl refl refl refl refl in
      record {
        safe = Safe-trans c (Safe-trans d.safe e);
        lands = inr (is_block-same p st1 last b e.confined refl (Kept-is_block p st0 st1 b d k0));
      }
