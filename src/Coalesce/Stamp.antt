-- ===== src/Coalesce/Stamp.antt =====
-- What finish_allocation of src/mm_core.c has stamped on a block once mm_publish has sealed it.
use mars_memory_allocator.Base.{
  ℕ, ◌+◌, ◌-◌, ◌^◌, ◌≤◌, ◌<◌, ◌≡◌, refl, ap, ◌∙◌, inl, inr, true, false, ◌&&◌, arith, Bool-cases,
}
use mars_memory_allocator.Layout.{
  Profile, fast, hardened, paranoid, has_canary, mirror_size, hdr_size, min_block, trail, has_crc,
  has_mirror,
}
use mars_memory_allocator.Layout.Word
use mars_memory_allocator.Access.Reseal.{
  seal_inside, seal_mirror_outside, seal_crc_state, trail_of_canary,
}
use mars_memory_allocator.State.{State, with_mem}
use mars_memory_allocator.Check.{
  is_block, seal, write_canary, block_ok_in, seal_crc, canary_ok, canary_at, seal_mirror,
}
use mars_memory_allocator.Layout.Word.Laws.{IsExtent, set_word-Reads}
use mars_memory_allocator.Block.{
  is_used, word, block_size, is_quarantined, set_word, requested_size, hdr_crc_of, block_end,
  payload_of, canary_value,
}
use mars_memory_allocator.Check.Canary.{canary_store-word}
use mars_memory_allocator.Check.Seal.{seal_mem, seal-header_ok, is_block-min_block, seal_crc-word}
use mars_memory_allocator.Memory.{load, store}
use mars_memory_allocator.Locate.Sound.{span_of_mem}
use mars_memory_allocator.Access.Frame.{Live, canary_ok_same}
use mars_memory_allocator.Memory.Laws.{load-store, load_ext, store-Outside, copy-Outside}
use mars_memory_allocator.Span.{block_index}
use mars_memory_allocator.Layout.Geometry.{hdr_size-ge}
use mars_memory_allocator.Confine.Seal.{mirror_room}

hdr_size_of_canary : (p : Profile) → has_canary p ≡ true → hdr_size p ≡ 16
hdr_size_of_canary fast e = ground arith
hdr_size_of_canary hardened e = refl
hdr_size_of_canary paranoid e = refl

trail-ge : (p : Profile) → mirror_size p ≤ trail p
trail-ge fast = omega arith
trail-ge hardened = omega arith
trail-ge paranoid = omega arith

mirror_size-le : (p : Profile) → mirror_size p + 16 ≤ min_block p
mirror_size-le fast = omega arith
mirror_size-le hardened = omega arith
mirror_size-le paranoid = omega arith

module _ (p : Profile) where
  pub seal_state : (st : State) (b : ℕ) → seal p st b ≡ with_mem st (seal p st b).mem
  seal_state st b = seal_mem p st b ∙ ap (λ t. with_mem t (seal p st b).mem) (seal_crc_state p st b)

  seal_crc_below : (st : State) (b x : ℕ) → x < b → (seal_crc p st b).mem x ≡ st.mem x
  unfolding seal_crc
  seal_crc_below st b x l =
      let c = hdr_crc_of st.mem b (block_index st b) st.secret in
      let crc = store-Outside 4 st.mem (b + 8) c x (inl (omega arith)) in
      elim (Bool-cases (has_crc p)) [ inl e ↦ rw e crc | inr e ↦ rw e refl ]

  -- sealing a block in bounds writes nothing below it
  pub seal_below :
      (st : State) (b x : ℕ) → is_block p st b ≡ true → x < b → (seal p st b).mem x ≡ st.mem x
  unfolding seal
  seal_below st b x h l =
      let size = is_block-min_block p st b h in
      let m = mirror_size-le p in
      seal_mirror_outside p (seal_crc p st b) b x (rw (seal_crc-word p st b) (omega arith))
      ∙ seal_crc_below st b x l

  -- A block in bounds that is in use, with its canary written and room for its trailer, is live
  -- once it is sealed.
  pub seal-Live :
      (st : State) (b : ℕ)
      → is_block p st b ≡ true
      → is_used st.mem b ≡ true
      → is_quarantined st.mem b ≡ false
      → canary_ok p st b ≡ true
      → hdr_size p + requested_size p st.mem b + trail p ≤ block_size st.mem b
      → Live p (seal p st b) b
  seal-Live st b h used free canary room =
      let w = (seal-header_ok p st b h).1 in
      record {
        accepted = (seal-header_ok p st b h).0;
        used = rw w used;
        not_quarantined = rw w free;
        canary_intact = rw (seal_state st b) (
            canary_ok_same p st b (seal p st b).mem w
              (λ c. load_ext 8 st.mem (seal p st b).mem (canary_at p st.mem b) (λ x g u.
                seal_inside p st b x (omega (arith, hdr_size_of_canary p c))
                  (omega (arith, trail_of_canary p c, room))))
              canary);
        room = rw w room;
      }

  -- what finish_allocation has written before it publishes
  abbrev pub stamped : State → (b total slack : ℕ) → State
  stamped st b total slack =
      write_canary p (with_mem st (set_word st.mem b total slack true false)) b

  abbrev pub stamped_word : State → (b total slack : ℕ) → ℕ
  stamped_word st b total slack = Word.set_word (word st.mem b) total slack true false

  write_canary-word : (st : State) (b : ℕ) → word (write_canary p st b).mem b ≡ word st.mem b
  unfolding write_canary
  write_canary-word st b = let w = canary_store-word p st b in ground (arith, w)

  write_canary_state :
      (st : State) (b : ℕ) → write_canary p st b ≡ with_mem st (write_canary p st b).mem
  unfolding write_canary
  write_canary_state st b = elim (Bool-cases (has_canary p)) [
    | inl e ↦ rw e refl
    | inr e ↦ rw e refl
  ]

  pub stamped-word :
      (st : State) (b total slack : ℕ)
      → IsExtent total
      → slack < 2 ^ 7
      → word (stamped st b total slack).mem b ≡ stamped_word st b total slack
  stamped-word st b total slack e s =
      let r = set_word-Reads (word st.mem b) total slack true false e s in
      let v = stamped_word st b total slack in
      let i = r.in_word in
      let back : load 8 (store 8 st.mem b v) b ≡ v = omega (arith, load-store 8 st.mem b v) in
      write_canary-word (with_mem st (set_word st.mem b total slack true false)) b ∙ back

  pub stamped_state :
      (st : State) (b total slack : ℕ)
      → stamped st b total slack ≡ with_mem st (stamped st b total slack).mem
  stamped_state st b total slack =
      write_canary_state (with_mem st (set_word st.mem b total slack true false)) b

  pub stamped-is_block :
      (st : State) (b slack : ℕ)
      → is_block p st b ≡ true
      → IsExtent (block_size st.mem b)
      → slack < 2 ^ 7
      → is_block p (stamped st b (block_size st.mem b) slack) b ≡ true
  unfolding is_block block_ok_in
  stamped-is_block st b slack h e s =
      let total = block_size st.mem b in
      let m = (stamped st b total slack).mem in
      let size : block_size m b ≡ total =
        ap Word.size_of (stamped-word st b total slack e s)
        ∙ (set_word-Reads (word st.mem b) total slack true false e s).size in
      rw (stamped_state st b total slack, span_of_mem p st b m, size) h

  -- nor anything behind its end
  seal_crc_past : (st : State) (b x : ℕ) → b + 12 ≤ x → (seal_crc p st b).mem x ≡ st.mem x
  unfolding seal_crc
  seal_crc_past st b x l =
      let c = hdr_crc_of st.mem b (block_index st b) st.secret in
      let crc = store-Outside 4 st.mem (b + 8) c x (inr (omega arith)) in
      elim (Bool-cases (has_crc p)) [ inl e ↦ rw e crc | inr e ↦ rw e refl ]

  seal_mirror_above :
      (st : State) (b x : ℕ)
      → min_block p ≤ block_size st.mem b
      → block_end st.mem b ≤ x
      → (seal_mirror p st b).mem x ≡ st.mem x
  unfolding seal_mirror
  seal_mirror_above st b x l k =
      let dst = block_end st.mem b - mirror_size p in
      elim (Bool-cases (has_mirror p && is_used st.mem b)) [
        | inl e ↦
            let m : has_mirror p ≡ true = ground arith in
            let room = (mirror_room p (block_size st.mem b) b m l).1 in
            rw e (copy-Outside (hdr_size p) st.mem dst b x (inr (omega arith)))
        | inr e ↦ rw e refl
      ]

  pub seal_above :
      (st : State) (b x : ℕ)
      → is_block p st b ≡ true
      → block_end st.mem b ≤ x
      → (seal p st b).mem x ≡ st.mem x
  unfolding seal
  seal_above st b x h l =
      let size = is_block-min_block p st b h in
      let m = mirror_size-le p in
      seal_mirror_above (seal_crc p st b) b x (rw (seal_crc-word p st b) size)
        (rw (seal_crc-word p st b) l)
      ∙ seal_crc_past st b x (omega arith)

  write_canary_past :
      (st : State) (b x : ℕ)
      → (has_canary p ≡ true → canary_at p st.mem b + 8 ≤ x)
      → (write_canary p st b).mem x ≡ st.mem x
  unfolding write_canary
  write_canary_past st b x l = elim (Bool-cases (has_canary p)) [
    | inl c ↦
        let v = canary_value (block_index st b) st.secret in
        let o = store-Outside 8 st.mem (canary_at p st.mem b) v x (inr (l c)) in
        ground (arith, c, o)
    | inr c ↦ rw c refl
  ]

  -- the stamp leaves what lies behind the block
  pub stamped_above :
      (st : State) (b total slack x : ℕ)
      → IsExtent total
      → slack < 2 ^ 7
      → hdr_size p + Word.requested_size p (stamped_word st b total slack) + trail p ≤ total
      → b + total ≤ x
      → (stamped st b total slack).mem x ≡ st.mem x
  stamped_above st b total slack x e s room l =
      let v = stamped_word st b total slack in
      let m = store 8 st.mem b v in
      let i = (set_word-Reads (word st.mem b) total slack true false e s).in_word in
      let back : load 8 m b ≡ v = omega (arith, load-store 8 st.mem b v) in
      let at : canary_at p m b ≡ payload_of p b + Word.requested_size p v = rw back refl in
      let first = store-Outside 8 st.mem b v x (inr (omega (arith, hdr_size-ge p))) in
      write_canary_past (with_mem st m) b x (λ c. omega (arith, trail_of_canary p c, at)) ∙ first
