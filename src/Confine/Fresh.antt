-- ===== src/Confine/Fresh.antt =====
-- The arena that mm_init makes never promises zeroed memory: take_fresh and mm_malloc_fresh of
-- src/mm_core.c in it.
use mars_memory_allocator.Base.{
  ℕ, ◌+◌, ◌-◌, ◌≤◌, ◌<◌, ◌≡◌, refl, ◌≢◌, inl, inr, true, false, arith, ltb, ◌==◌, if◌then◌else◌,
  Bool-cases,
}
use mars_memory_allocator.Layout.{
  Profile, fast, hardened, paranoid, size_for, hdr_size, trail, alignment, size_max,
}
use mars_memory_allocator.Layout.Geometry.{Fits, size_for-Fits}
use mars_memory_allocator.Platform.{Platform}
use mars_memory_allocator.Bitmap.Laws.{IsBitmap}
use mars_memory_allocator.State.{State, clear_error, arena_live}
use mars_memory_allocator.Span.{span_of}
use mars_memory_allocator.Memory.Laws.{IsMem}
use mars_memory_allocator.Check.{unchanged}
use mars_memory_allocator.Block.{block_size}
use mars_memory_allocator.FreeList.{bin_remove}
use mars_memory_allocator.FreeList.Find.{Serves}
use mars_memory_allocator.Arena.{take_fresh}
use mars_memory_allocator.Alloc.{find_block, carve, malloc_fresh}
use mars_memory_allocator.Confine.{Confined, Confined-span_of}
use mars_memory_allocator.Confine.Lists.{bin_remove-Safe}
use mars_memory_allocator.Confine.Push.{header_ok-Starts}
use mars_memory_allocator.Confine.Safe.{Safe-trans, unmoved, Spans}
use mars_memory_allocator.Confine.Find.{find_block-Finds}

-- no span promises zeroed memory, as a caller's own never does
abbrev pub NoneFresh : State → Type 0
NoneFresh st = (q : ℕ) → span_of st q ≢ 0 → (st.desc (span_of st q)).fresh ≡ false

pub NoneFresh-step : {st st' : State} → Confined st st' → NoneFresh st → NoneFresh st'
NoneFresh-step c u q = rw (Confined-span_of c q, c.same_desc) (u q)

size_for_refuses :
    (p : Profile) (size : ℕ)
    → ltb (size_max - hdr_size p - trail p - alignment) size ≡ true
    → size_for p size ≡ 0
unfolding size_for
size_for_refuses p size e = rw e refl

sizes_small : (p : Profile) → hdr_size p + trail p + alignment ≤ size_max
sizes_small fast = omega arith
sizes_small hardened = omega arith
sizes_small paranoid = omega arith

-- a size that a request was rounded to
pub need-Fits :
    (p : Profile) (size : ℕ)
    → 0 < size
    → (size_for p size == 0) ≡ false
    → Fits p size (size_for p size)
need-Fits p size h n = elim (Bool-cases (ltb (size_max - hdr_size p - trail p - alignment) size)) [
  | inl e ↦ absurd (ground (arith, size_for_refuses p size e))
  | inr e ↦ size_for-Fits p size h (ground (arith, sizes_small p))
]

module _ (os : Platform) (p : Profile) where
  nothing_fresh : (st : State) (b : ℕ) → NoneFresh st → take_fresh st b ≡ (size_max, st)
  unfolding take_fresh
  nothing_fresh st b n = elim (Bool-cases (span_of st b == 0)) [
    | inl e ↦ rw e refl
    | inr e ↦ rw (e, n b (ground arith)) refl
  ]

  -- the dirty prefix and the state that carve goes on with
  pub not_fresh :
      (st : State) (b : ℕ)
      → NoneFresh st
      → (if st.fresh_spans == 0 then (size_max, st) else take_fresh st b) ≡ (size_max, st)
  not_fresh st b n = elim (Bool-cases (st.fresh_spans == 0)) [
    | inl e ↦ rw e refl
    | inr e ↦ rw e (nothing_fresh st b n)
  ]

  -- an arena that mm_init made, with its memory and its bitmap as machine words
  pub record UserArena (st : State) : Type 0 where
    pub spans : Spans st
    pub bytes : IsMem st.mem
    pub fixed : st.growable ≡ false
    pub none_fresh : NoneFresh st
    pub bitmap : IsBitmap st.bin_bitmap

  carve-dirty :
      (st : State) (b need size : ℕ)
      → NoneFresh st
      → Serves p st need b
      → (carve os p st b need size).1 ≡ size_max
  unfolding carve
  carve-dirty st b need size n v =
      let found = block_size st.mem b in
      let st1 = bin_remove p st b in
      let a = bin_remove-Safe p st b (header_ok-Starts p st b v.accepted) in
      let f = not_fresh st1 b (NoneFresh-step a.confined n) in
      elim (Bool-cases (unchanged p st1 b found false)) [
        | inr e ↦ rw e refl
        | inl e ↦ rw (e, f) refl
      ]

  -- such an arena never says of a block that a prefix of it is all that was written
  pub malloc-dirty :
      (st : State) (size : ℕ) → UserArena st → (malloc_fresh os p st size).1 ≡ size_max
  unfolding malloc_fresh
  malloc-dirty st size w =
      let st0 = clear_error st in
      let need = size_for p size in
      elim (Bool-cases (arena_live st0)) [
        | inr e ↦ rw e refl
        | inl e ↦ elim (Bool-cases (size == 0)) [
          | inl f ↦ rw (e, f) refl
          | inr f ↦ elim (Bool-cases (need == 0)) [
            | inl g ↦ rw (e, f, g) refl
            | inr g ↦
                let fits = need-Fits p size (ground arith) g in
                let r = find_block-Finds os p st0 need w.bitmap fits.4 w.fixed in
                let b = (find_block os p st0 need).0 in
                let st1 = (find_block os p st0 need).1 in
                let z = unmoved st st0 refl refl refl refl refl refl in
                let n1 = NoneFresh-step (Safe-trans z r.safe).confined w.none_fresh in
                elim (Bool-cases (b == 0)) [
                  | inl h ↦ rw (e, f, g, h) refl
                  | inr h ↦
                      let v : Serves p st1 need b = elim (r.serves) [ inl y ↦ cc | inr y ↦ y ] in
                      rw (e, f, g, h) (carve-dirty st1 b need size n1 v)
                ]
          ]
        ]
      ]
