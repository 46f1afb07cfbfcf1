-- ===== src/Coalesce/Publish.antt =====
-- finish_allocation and mm_publish of src/mm_core.c and src/mm_integrity.c: the block that comes out.
use mars_memory_allocator.Base.{
  ℕ, ◌+◌, ◌-◌, ◌^◌, ◌≤◌, ◌<◌, ◌≡◌, refl, ap, ◌∙◌, ◌⊎◌, inl, inr, true, false, ◌||◌, arith, ltb, leb,
  ◌==◌, if◌then◌else◌, Bool-cases,
}
use mars_memory_allocator.Layout.{
  fast, hardened, paranoid, Profile, min_block, hdr_size, trail, alignment, size_max, size_for,
}
use mars_memory_allocator.Layout.Word
use mars_memory_allocator.Coalesce.Stamp.{
  seal_state, seal-Live, stamped_word, stamped, stamped-word, seal_above, stamped-is_block,
  stamped_above, stamped_state,
}
use mars_memory_allocator.State.{sub64, State, with_mem, is_libc}
use mars_memory_allocator.Check.{write_canary, is_block, header_ok, canary_ok, seal}
use mars_memory_allocator.Recovery.{publish, recover_next, tag_and_seal}
use mars_memory_allocator.Access.Frame.{Live, header_ok-is_block, header_ok_kept}
use mars_memory_allocator.Block.{
  word, block_end, block_size, is_used, is_quarantined, requested_size, set_word,
}
use mars_memory_allocator.Check.Seal.{seal-header_ok}
use mars_memory_allocator.Layout.Word.Laws.{IsExtent, set_word-Reads}
use mars_memory_allocator.Memory.Laws.{load_ext, IsMem, load-lt}
use mars_memory_allocator.Locate.Sound.{span_of_mem}
use mars_memory_allocator.Layout.Geometry.{size_for-Fits}
use mars_memory_allocator.Span.{span_of}
use mars_memory_allocator.Layout.Slack.{slack_fits, slack_max-lt, requested_of_fields}
use mars_memory_allocator.Memory.{Mem}
use mars_memory_allocator.Coalesce.{finish_allocation}
use mars_memory_allocator.Check.Canary.{write_canary-canary_ok}
use mars_memory_allocator.Coalesce.Relink.{relink-Live}

trail_within : (p : Profile) → (hdr_size p + trail p ≤ min_block p) × (trail p < 2 ^ 7)
trail_within fast = omega arith
trail_within hardened = omega arith
trail_within paranoid = omega arith

size_of-IsExtent : (w : ℕ) → w < 2 ^ 64 → IsExtent (Word.size_of w)
unfolding Word.size_of
size_of-IsExtent w h = (omega arith, omega arith)

module _ (p : Profile) where
  -- a block ends its span, or what follows it has an accepted header
  abbrev pub Followed : State → ℕ → Type 0
  Followed st b =
      (leb (st.desc (span_of st b)).hi (block_end st.mem b) ≡ true)
      ⊎ (header_ok p st (block_end st.mem b) ≡ true)

  recover_next_sound :
      (st : State) (b : ℕ)
      → Followed st b
      → (recover_next p st b ≡ (0, st))
        ⊎ ((recover_next p st b ≡ (block_end st.mem b, st))
            × (header_ok p st (block_end st.mem b) ≡ true))
  unfolding recover_next
  recover_next_sound st b f =
      let s = st.desc (span_of st b) in
      let n = block_end st.mem b in
      let alone = span_of st b == 0 || leb s.hi n || ltb (s.hi - n) (min_block p) in
      elim (Bool-cases alone) [
        | inl e ↦ inl (rw e refl)
        | inr e ↦ elim f [ inl l ↦ absurd (ground arith) | inr h ↦ inr (rw (e, h) refl, h) ]
      ]

  header_ok-null : (st : State) (b : ℕ) → header_ok p st b ≡ true → (b == 0) ≡ false
  unfolding header_ok
  header_ok-null st b h = ground arith

  -- a block in use, ready to be sealed
  pub record Ready (st : State) (b : ℕ) : Type 0 where
    pub in_bounds : is_block p st b ≡ true
    pub used : is_used st.mem b ≡ true
    pub not_quarantined : is_quarantined st.mem b ≡ false
    pub canary_intact : canary_ok p st b ≡ true
    pub room : hdr_size p + requested_size p st.mem b + trail p ≤ block_size st.mem b

  abbrev pub Published : State → State → ℕ → Type 0
  Published st st' b = Live p st' b × (word st'.mem b ≡ word st.mem b)

  publish-Live :
      (st : State) (b : ℕ)
      → Ready st b
      → Followed (seal p st b) b
      → word (seal p st b).mem (block_end (seal p st b).mem b) < 2 ^ 64
      → ((publish p st b).0 ≡ true) × Published st (publish p st b).1 b
  unfolding publish tag_and_seal
  publish-Live st b r f bytes =
      let st1 = seal p st b in
      let l = seal-Live p st b r.in_bounds r.used r.not_quarantined r.canary_intact r.room in
      let w = (seal-header_ok p st b r.in_bounds).1 in
      let n = block_end st1.mem b in
      elim (recover_next_sound st1 b f) [
        | inl e ↦ rw (r.used, r.in_bounds, e) (refl, (l, w))
        | inr e ↦
            let null = header_ok-null st1 n e.1 in
            let k =
              relink-Live p st1 b (is_used st1.mem b) l (header_ok-is_block p st1 n e.1) bytes in
            rw (r.used, r.in_bounds, e.0, null) (refl, (k.0, k.1 ∙ w))
      ]

  -- the payload that finish_allocation stamps
  abbrev pub granted : State → ℕ → ℕ → ℕ
  granted st b size = if is_libc st.mode then block_size st.mem b - hdr_size p - trail p else size

  trailer_fits :
      (give total : ℕ)
      → min_block p ≤ total
      → give ≡ total - hdr_size p - trail p
      → (hdr_size p + give + trail p ≤ total) × (total - hdr_size p - give < 2 ^ 7)
  trailer_fits give total l e = omega (arith, trail_within p)

  -- the payload that is stamped leaves room for the trailer and fits the slack field
  granted_fits :
      (st : State) (b size : ℕ)
      → 0 < size
      → size + hdr_size p + trail p + alignment ≤ size_max
      → size_for p size ≤ block_size st.mem b
      → block_size st.mem b < size_for p size + min_block p
      → (hdr_size p + granted st b size + trail p ≤ block_size st.mem b)
        × (block_size st.mem b - hdr_size p - granted st b size < 2 ^ 7)
  unfolding Word.size_of
  granted_fits st b size h k l u =
      let total = block_size st.mem b in
      let fits = size_for-Fits p size h k in
      let s = slack_fits p size total h k l (omega arith) u in
      elim (Bool-cases (is_libc st.mode)) [
        | inl e ↦
            rw e (trailer_fits (total - hdr_size p - trail p) total (omega (arith, fits)) refl)
        | inr e ↦ rw e (omega (arith, fits), omega (arith, s, slack_max-lt p))
      ]

  stamped-Ready :
      (st : State) (b slack : ℕ)
      → is_block p st b ≡ true
      → st.secret < 2 ^ 64
      → IsExtent (block_size st.mem b)
      → slack < 2 ^ 7
      → hdr_size p
          + Word.requested_size p (stamped_word p st b (block_size st.mem b) slack)
          + trail p
        ≤ block_size st.mem b
      → Ready (stamped p st b (block_size st.mem b) slack) b
  stamped-Ready st b slack h secret e s room =
      let total = block_size st.mem b in
      let w = stamped-word p st b total slack e s in
      let r = set_word-Reads (word st.mem b) total slack true false e s in
      record {
        in_bounds = stamped-is_block p st b slack h e s;
        used = rw w r.used_read;
        not_quarantined = rw w r.quarantined_read;
        canary_intact =
            write_canary-canary_ok p (with_mem st (set_word st.mem b total slack true false)) b
              secret;
        room = rw (w, r.size) room;
      }

  -- what was behind the block before is behind it after, where nothing from its end on has changed
  Followed-kept :
      (st : State) (b : ℕ) (m : Mem)
      → block_size m b ≡ block_size st.mem b
      → ((x : ℕ) → block_end st.mem b ≤ x → m x ≡ st.mem x)
      → Followed st b
      → Followed (with_mem st m) b
  Followed-kept st b m size same f =
      let n = block_end st.mem b in
      rw (span_of_mem p st b m, size)
        (elim f [
          | inl l ↦ inl l
          | inr h ↦ inr (
              header_ok_kept p st n m (load_ext 8 st.mem m n (λ x g u. same x g))
                (λ e. load_ext 4 st.mem m (n + 8) (λ x g u. same x (omega arith)))
                (λ e. load_ext 4 st.mem m (n + 12) (λ x g u. same x (omega arith))) h)
        ])

  -- where nothing wraps, the slack is what the payload leaves of the block
  finish_allocation-publish :
      (st : State) (b size : ℕ)
      → IsExtent (block_size st.mem b)
      → hdr_size p + granted st b size + trail p ≤ block_size st.mem b
      → finish_allocation p st b size
        ≡ publish p
            (stamped p st b
              (block_size st.mem b)
              (block_size st.mem b - hdr_size p - granted st b size))
            b
  unfolding finish_allocation
  finish_allocation-publish st b size e l =
      let total = block_size st.mem b in
      let give = if is_libc st.mode then sub64 (sub64 total (hdr_size p)) (trail p) else size in
      let same : give ≡ granted st b size = elim (Bool-cases (is_libc st.mode)) [
        | inl i ↦ rw i (omega (arith, e, trail_within p, rw i at l))
        | inr i ↦ rw i refl
      ] in
      let slack : sub64 (sub64 total (hdr_size p)) give ≡ total - hdr_size p - granted st b size =
        omega (arith, e, l, same) in
      ap (λ t. publish p (write_canary p (with_mem st (set_word st.mem b total t true false)) b) b)
        slack

  -- A block in bounds that is carved for a request that does not overflow, with room for it and a
  -- remainder too small to split off, and that ends its span or is followed by an accepted header,
  -- is published by finish_allocation: the block then has an accepted header, is in use, not
  -- quarantined, with an intact canary and room for its trailer, and its requested size is the
  -- request, or under the libc mode all that the block can hold. It holds in all three profiles,
  -- over any memory of bytes and any 64-bit secret; making the next block's flag agree touches
  -- none of it.
  pub finish_allocation-Live :
      (st : State) (b size : ℕ)
      → is_block p st b ≡ true
      → IsMem st.mem
      → st.secret < 2 ^ 64
      → 0 < size
      → size + hdr_size p + trail p + alignment ≤ size_max
      → size_for p size ≤ block_size st.mem b
      → block_size st.mem b < size_for p size + min_block p
      → Followed st b
      → ((finish_allocation p st b size).0 ≡ true)
        × Live p (finish_allocation p st b size).1 b
        × (requested_size p (finish_allocation p st b size).1.mem b ≡ granted st b size)
  finish_allocation-Live st b size h bytes secret pos small fits tight f =
      let total = block_size st.mem b in
      let give = granted st b size in
      let slack = total - hdr_size p - give in
      let g = granted_fits st b size pos small fits tight in
      let g0 = g.0 in
      let e : IsExtent total =
        size_of-IsExtent (word st.mem b) (omega (arith, load-lt 8 st.mem b bytes)) in
      let w = stamped-word p st b total slack e g.1 in
      let s2 = stamped p st b total slack in
      let s3 = seal p s2 b in
      let req : Word.requested_size p (stamped_word p st b total slack) ≡ give =
        requested_of_fields p (word st.mem b) give total (omega arith) g.1 e.0 e.1 in
      let room : hdr_size p + Word.requested_size p (stamped_word p st b total slack) + trail p
          ≤ total =
        rw req g0 in
      let r = stamped-Ready st b slack h secret e g.1 room in
      let to_mem : s3 ≡ with_mem st s3.mem =
        seal_state p s2 b ∙ ap (λ t. with_mem t s3.mem) (stamped_state p st b total slack) in
      let size2 : block_size s2.mem b ≡ total =
        ap Word.size_of w ∙ (set_word-Reads (word st.mem b) total slack true false e g.1).size in
      let w3 : word s3.mem b ≡ stamped_word p st b total slack =
        (seal-header_ok p s2 b r.in_bounds).1 ∙ w in
      let size3 : block_size s3.mem b ≡ total =
        ap Word.size_of w3 ∙ (set_word-Reads (word st.mem b) total slack true false e g.1).size in
      let past : (x : ℕ) → b + total ≤ x → s3.mem x ≡ st.mem x = λ x l.
        seal_above p s2 b x r.in_bounds (omega (arith, size2))
        ∙ stamped_above p st b total slack x e g.1 room l in
      let f3 : Followed s3 b = rw to_mem (Followed-kept st b s3.mem size3 past f) in
      let n = block_end s3.mem b in
      let behind = load_ext 8 st.mem s3.mem n (λ x i u. past x (omega (arith, size3))) in
      let live = publish-Live s2 b r f3 (omega (arith, behind, load-lt 8 st.mem n bytes)) in
      rw (finish_allocation-publish st b size e g0)
        (live.0, live.1.0, ap (Word.requested_size p) (live.1.1 ∙ w) ∙ req)
