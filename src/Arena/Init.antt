-- ===== src/Arena/Init.antt =====
-- mm_init of src/mm_core.c.
use mars_memory_allocator.Base.{
  ℕ, ◌+◌, ◌-◌, ◌%◌, ◌^◌, ◌≤◌, ◌<◌, ◌≡◌, refl, ◌≢◌, true, false, arith, ltb, ◌==◌,
}
use mars_memory_allocator.Layout.{
  Profile, fast, hardened, paranoid, block_offset, alignment, min_block,
}
use mars_memory_allocator.Arena.{
  init, install_user, adopt_registered, arena_reset, min_arena, span_adopt, new_span,
}
use mars_memory_allocator.Arena.Open.{Own, adopt_registered-Installed, self}
use mars_memory_allocator.Arena.First.{Installed}
use mars_memory_allocator.Platform.{Platform, draw_secret, zeroed}
use mars_memory_allocator.FreeList.{bins_reset}
use mars_memory_allocator.State.{State, clear_error, managed, user_span, with_mem, is_user}
use mars_memory_allocator.Registry.{span_register, set_desc}
use mars_memory_allocator.Bins.{bin_of}
use mars_memory_allocator.Span.{magic_for}

-- what mm_arena_install_user makes of the caller's bytes
abbrev pub usable_of : Profile → ℕ → ℕ
usable_of p heap_size = let rest = heap_size - block_offset p in rest - rest % alignment

usable_room :
    (p : Profile) (heap_size : ℕ)
    → min_arena p ≤ heap_size
    → (min_block p ≤ usable_of p heap_size) × (usable_of p heap_size % 16 ≡ 0)
usable_room fast heap_size h = omega arith
usable_room hardened heap_size h = omega arith
usable_room paranoid heap_size h = omega arith

module _ (os : Platform) (p : Profile) where
  -- the caller's span, with its descriptor filled in
  abbrev filled_in : State → (heap heap_size : ℕ) → State
  filled_in st heap heap_size =
      let lo = heap + block_offset p in
      let s = os.user_desc in
      let sp =
        new_span (magic_for s) lo (lo + usable_of p heap_size) st.next_index_base 0 0 user_span
          false in
      set_desc st s sp

  -- the state in which it is adopted
  abbrev user_set : State → (heap heap_size : ℕ) → State
  user_set st heap heap_size = record (filled_in st heap heap_size) { user = os.user_desc }

  user_set-Own :
      (st : State) (heap heap_size : ℕ)
      → os.user_desc ≢ 0
      → heap ≢ 0
      → min_arena p ≤ heap_size
      → heap_size < 2 ^ 58
      → Own p (user_set st heap heap_size) os.user_desc (usable_of p heap_size)
  user_set-Own st heap heap_size u n l k =
      let s = os.user_desc in
      let room = usable_room p heap_size l in
      let small : usable_of p heap_size < 2 ^ 58 = omega arith in
      record {
        registered = refl;
        exists = u;
        not_null = rw (self p os s) (λ e. n (omega arith));
        to_hi = rw (self p os s) refl;
        extent = (room.1, small);
        large_enough = room.0;
      }

  user_set-lo :
      (st : State) (heap heap_size : ℕ)
      → ((user_set st heap heap_size).desc os.user_desc).lo ≡ heap + block_offset p
  user_set-lo st heap heap_size = rw (self p os os.user_desc) refl

  span_register_user :
      (st : State) (s : ℕ)
      → is_user (st.desc s).kind ≡ true
      → span_register os st s ≡ (true, record st { user = s })
  unfolding span_register
  span_register_user st s e = rw e refl

  span_adopt_user :
      (st : State) (s : ℕ)
      → is_user (st.desc s).kind ≡ true
      → span_adopt os p st s ≡ (true, adopt_registered os p (record st { user = s }) s)
  unfolding span_adopt
  span_adopt_user st s e = rw (span_register_user st s e) refl

  install_user-adopt :
      (st : State) (heap heap_size : ℕ)
      → install_user os p st heap heap_size
        ≡ (os.user_desc, adopt_registered os p (user_set st heap heap_size) os.user_desc)
  unfolding install_user
  install_user-adopt st heap heap_size =
      let kind : is_user ((filled_in st heap heap_size).desc os.user_desc).kind ≡ true =
        rw (self p os os.user_desc) refl in
      rw (span_adopt_user (filled_in st heap heap_size) os.user_desc kind) refl

  install_user-Installed :
      (st : State) (heap heap_size : ℕ)
      → os.user_desc ≢ 0
      → heap ≢ 0
      → min_arena p ≤ heap_size
      → heap_size < 2 ^ 58
      → ((bin : ℕ) → st.bins bin ≡ 0)
      → Installed p
          (adopt_registered os p (user_set st heap heap_size) os.user_desc)
          (heap + block_offset p)
          (usable_of p heap_size)
  install_user-Installed st heap heap_size u n l k empty =
      let own = user_set-Own st heap heap_size u n l k in
      let i =
        adopt_registered-Installed p os (user_set st heap heap_size) os.user_desc
          (usable_of p heap_size) own (empty (bin_of p (usable_of p heap_size))) in
      rw (user_set-lo st heap heap_size) at i

  -- From any state, if the buffer (16-aligned, of at least mm_min_arena and fewer than 2^58 bytes)
  -- and the static descriptor are not at address 0, mm_init succeeds, and leaves an arena in which
  -- the block at the buffer's first block offset has an accepted header, is free after a block in
  -- use, reaches exactly from there to the end of its span, and heads the bin of its size.
  pub init-Installed :
      (st : State) (heap heap_size : ℕ)
      → os.user_desc ≢ 0
      → heap ≢ 0
      → heap % alignment ≡ 0
      → min_arena p ≤ heap_size
      → heap_size < 2 ^ 58
      → ((init os p st heap heap_size).0 ≡ true)
        × Installed p
            (init os p st heap heap_size).1
            (heap + block_offset p)
            (usable_of p heap_size)
  unfolding init arena_reset bins_reset
  init-Installed st heap heap_size u n a l k =
      let st1 = arena_reset os p (clear_error st) in
      let st2 = record st1 { secret = draw_secret os st1; mode = managed } in
      let st3 = with_mem st2 (zeroed st2.mem heap heap_size) in
      let i = install_user-Installed st3 heap heap_size u n l k (λ bin. refl) in
      let h : (heap == 0) ≡ false = ground arith in
      let g : ltb heap_size (min_arena p) ≡ false = ground arith in
      let d : (os.user_desc == 0) ≡ false = ground (arith, u) in
      rw (h, g, a, install_user-adopt st3 heap heap_size, d) (refl, i)
