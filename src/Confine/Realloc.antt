-- ===== src/Confine/Realloc.antt =====
-- mm_realloc of src/mm_core.c in the arena that mm_init makes, in a profile without canaries: it
-- writes only inside the caller's span, whatever the blocks hold.
use mars_memory_allocator.Base.{
  Bool, ℕ, ◌+◌, ◌<◌, ◌≡◌, refl, ◌∙◌, ap, inl, inr, true, false, arith, ◌==◌, Bool-cases, ◌&&◌, not,
  leb, ltb, leb→le, if◌then◌else◌,
}
use mars_memory_allocator.Layout.{
  Profile, has_canary, has_mirror, size_for, fast, hardened, paranoid,
}
use mars_memory_allocator.Layout.Geometry.{Fits}
use mars_memory_allocator.Platform.{Platform}
use mars_memory_allocator.State.{State, fail, clear_error, double_free, nomem}
use mars_memory_allocator.Counters
use mars_memory_allocator.Counters.{stat_sub, stat_note}
use mars_memory_allocator.Span.{span_of}
use mars_memory_allocator.Check.{is_block, header_ok, is_block_start, canary_ok}
use mars_memory_allocator.Block.{block_size, block_end, requested_size, is_used, is_quarantined}
use mars_memory_allocator.Access.Frame.{header_ok-is_block}
use mars_memory_allocator.Recovery.{rescue}
use mars_memory_allocator.Locate.{block_of, live_block}
use mars_memory_allocator.Locate.Sound.{block_of_sound}
use mars_memory_allocator.Alloc.{malloc}
use mars_memory_allocator.Resize.{resize, realloc_unlocked, payload_crc_of}
use mars_memory_allocator.Confine.{Confined}
use mars_memory_allocator.Confine.Safe.{Safe, Safe-trans, unmoved, Spans-step}
use mars_memory_allocator.Confine.Link.{is_block-same}
use mars_memory_allocator.Confine.Quarantine.{quarantine_block-Safe}
use mars_memory_allocator.Confine.Free.{AllUser, AllUser-step, live_block-Runs}
use mars_memory_allocator.Confine.Fresh.{UserArena, NoneFresh-step, need-Fits}
use mars_memory_allocator.Confine.Malloc.{malloc-Safe}
use mars_memory_allocator.Confine.Settle.{settle-Safe, take_and_settle-Safe}
use mars_memory_allocator.Confine.Move.{freed-Safe, move_block-Safe}

-- either way that a test goes
branch :
    {st : State} (c : Bool) (x y : ℕ × State)
    → (c ≡ true → Safe st x.1)
    → (c ≡ false → Safe st y.1)
    → Safe st (if c then x else y).1
branch true x y h k = h refl
branch false x y h k = k refl

no_mirrors : (p : Profile) → has_canary p ≡ false → has_mirror p ≡ false
no_mirrors fast c = refl
no_mirrors hardened c = absurd (ground arith)
no_mirrors paranoid c = absurd (ground arith)

module _ (os : Platform) (p : Profile) where
  not_rescued :
      (st : State) (b : ℕ)
      → has_mirror p ≡ false
      → header_ok p st b ≡ false
      → (rescue p st b).0 ≡ false
  unfolding rescue
  not_rescued st b h f = elim (Bool-cases (is_block_start p st b)) [
    | inl e ↦ rw (f, e, h) refl
    | inr e ↦ rw (f, e) refl
  ]

  -- Without mirrors, a live block is one whose header was accepted as it was found.
  live_block_plain :
      (st : State) (ptr : ℕ)
      → has_mirror p ≡ false
      → ((live_block p st ptr).0 == 0) ≡ false
      → (header_ok p st (live_block p st ptr).0 ≡ true) × ((live_block p st ptr).1 ≡ st)
  unfolding live_block
  live_block_plain st ptr h n =
      let b = (block_of p st ptr).0 in
      let st1 = (block_of p st ptr).1 in
      elim (Bool-cases (b == 0)) [
        | inl e ↦ let x : true ≡ false = rw e at n in absurd (ground arith)
        | inr e ↦
            let sound = block_of_sound p st ptr (ground arith) in
            elim (Bool-cases (header_ok p st1 b)) [
              | inl f ↦ elim (Bool-cases (is_quarantined st1.mem b)) [
                | inl q ↦ let x : true ≡ false = rw (e, f, q) at n in absurd (ground arith)
                | inr q ↦ rw (e, f, q) (rw sound.2 at f, sound.2)
              ]
              | inr f ↦
                  let g = not_rescued st1 b h f in
                  let x : true ≡ false = rw (e, f, g) at n in absurd (ground arith)
            ]
      ]

  UserArena-step :
      (st st' : State)
      → Safe st st'
      → st'.growable ≡ st.growable
      → st'.bin_bitmap ≡ st.bin_bitmap
      → UserArena os p st
      → UserArena os p st'
  UserArena-step st st' s g b w = record {
    spans = Spans-step s.confined w.spans;
    bytes = s.bytes w.bytes;
    fixed = g ∙ w.fixed;
    none_fresh = NoneFresh-step s.confined w.none_fresh;
    bitmap = λ i. rw b (w.bitmap i);
  }

  resize-Safe :
      (st : State) (ptr b need new_size : ℕ)
      → UserArena os p st
      → AllUser st
      → has_canary p ≡ false
      → is_block p st b ≡ true
      → Fits p new_size need
      → Safe st (resize os p st ptr b need new_size).1
  unfolding resize
  resize-Safe st ptr b need new_size w u c h fits =
      let old_size = requested_size p st.mem b in
      let old_sum = payload_crc_of p st.mem b in
      let s = span_of st b in
      let n = block_end st.mem b in
      let near = not (s == 0) && ltb n (st.desc s).hi in
      let mergeable = header_ok p st n && not (is_used st.mem n) in
      let st0 = stat_sub p b st in
      let z = unmoved st st0 refl refl refl refl refl refl in
      elim (Bool-cases (leb need (block_size st.mem b))) [
        | inl e ↦
            let block = is_block-same p st st0 b z.confined refl h in
            rw e (
              Safe-trans z (
                settle-Safe os p st0 b need old_size old_sum new_size
                  (Spans-step z.confined w.spans) w.bytes c block fits.0 fits.1 (leb→le _ _ e)))
        | inr e ↦
            elim (Bool-cases
              (near && mergeable && leb need (block_size st.mem b + block_size st.mem n))) [
                | inl f ↦
                    rw (e, f)
                      (take_and_settle-Safe os p st b need old_size old_sum new_size w.spans w.bytes
                        c (ground arith) (ground arith) fits.0 fits.1 (ground arith))
                | inr f ↦ rw (e, f) (move_block-Safe os p st ptr b old_size old_sum new_size w u c)
              ]
      ]

  -- the resize of a block that was found live
  resized-Safe :
      (st : State) (ptr new_size : ℕ)
      → UserArena os p st
      → AllUser st
      → has_canary p ≡ false
      → 0 < new_size
      → ((live_block p (clear_error st) ptr).0 == 0) ≡ false
      → (size_for p new_size == 0) ≡ false
      → let (b, st1) = live_block p (clear_error st) ptr in
        Safe st
          (resize os p
            (stat_note Counters.realloc new_size st1)
            ptr
            b
            (size_for p new_size)
            new_size).1
  resized-Safe st ptr new_size w u c f g o =
      let st0 = clear_error st in
      let z = unmoved st st0 refl refl refl refl refl refl in
      let w0 = UserArena-step st st0 z refl refl w in
      let b = (live_block p st0 ptr).0 in
      let st1 = (live_block p st0 ptr).1 in
      let r = Safe-trans z (live_block-Runs p st0 ptr w0.spans w0.bytes).safe in
      let plain = live_block_plain st0 ptr (no_mirrors p c) g in
      let fits = need-Fits p new_size f o in
      let st2 = stat_note Counters.realloc new_size st1 in
      let z2 = unmoved st1 st2 refl refl refl refl refl refl in
      let r2 = Safe-trans r z2 in
      let w2 =
        UserArena-step st st2 r2 (ap (λ (x : State). x.growable) plain.1)
          (ap (λ (x : State). x.bin_bitmap) plain.1) w in
      let accepted : header_ok p st1 b ≡ true = rw plain.1 (plain.0) in
      let block =
        is_block-same p st1 st2 b z2.confined refl (header_ok-is_block p st1 b accepted) in
      let need = size_for p new_size in
      Safe-trans r2
        (resize-Safe st2 ptr b need new_size w2 (AllUser-step r2.confined u) c block fits)

  realloc_unlocked-Safe :
      (st : State) (ptr new_size : ℕ)
      → UserArena os p st
      → AllUser st
      → has_canary p ≡ false
      → Safe st (realloc_unlocked os p st ptr new_size).1
  unfolding realloc_unlocked malloc
  realloc_unlocked-Safe st ptr new_size w u c =
      let st0 = clear_error st in
      let z = unmoved st st0 refl refl refl refl refl refl in
      let w0 = UserArena-step st st0 z refl refl w in
      let b = (live_block p st0 ptr).0 in
      let st1 = (live_block p st0 ptr).1 in
      let r = Safe-trans z (live_block-Runs p st0 ptr w0.spans w0.bytes).safe in
      let need = size_for p new_size in
      branch (ptr == 0) _ _ (λ e. Safe-trans z (malloc-Safe os p st0 new_size w0 c))
        (λ e.
          branch (new_size == 0) _ _ (λ f. Safe-trans z (freed-Safe os p st st0 ptr z w u))
            (λ f.
              branch (b == 0) _ _ (λ g. r)
                (λ g.
                  branch (not (is_used st1.mem b)) _ _
                    (λ k.
                      Safe-trans r
                        (unmoved st1 (fail double_free st1) refl refl refl refl refl refl))
                    (λ k.
                      branch (not (canary_ok p st1 b)) _ _
                        (λ l. Safe-trans r (
                          quarantine_block-Safe p st1 b (Spans-step r.confined w.spans)
                            (r.bytes w.bytes)))
                        (λ l.
                          branch (need == 0) _ _
                            (λ o.
                              Safe-trans r
                                (unmoved st1 (fail nomem st1) refl refl refl refl refl refl))
                            (λ o. resized-Safe st ptr new_size w u c (ground arith) g o))))))

  -- In an arena with a fixed set of caller's spans, of which none promises zeroed memory, each of
  -- whole units and below 2^58 bytes and all apart from one another, with memory that holds bytes
  -- and a bitmap of machine words: in the profile without canaries, resizing through any pointer
  -- to any size changes no byte outside every span and leaves the registry of spans alone,
  -- whatever the headers, the links and the boundary tags hold: the refusals, the trimming in
  -- place, the merging with the block behind and the move with its copy and its release are all
  -- included.
  pub realloc_unlocked-Confined :
      (st : State) (ptr new_size : ℕ)
      → UserArena os p st
      → AllUser st
      → has_canary p ≡ false
      → Confined st (realloc_unlocked os p st ptr new_size).1
  realloc_unlocked-Confined st ptr new_size w u c =
      (realloc_unlocked-Safe st ptr new_size w u c).confined
