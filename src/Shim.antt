-- ===== src/Shim.antt =====
-- src/shim/mm_shim.c, the preload library: its bootstrap pool, its start-up and its diagnostics. What
-- it takes from the loader and the environment is a record of the loader's answers. A pointer to the
-- real free is there or is NULL; a message that is written out is one more entry of a list.
pub mod Family
pub mod Grants
pub mod Granted
pub mod Pool
pub mod Number
pub mod Calloc
use mars_memory_allocator.Base.{
  ℕ, ◌+◌, ◌-◌, ◌*◌, ◌/◌, ◌%◌, ◌^◌, Bool, true, false, not, ◌&&◌, ◌||◌, Option, none, some, List, [],
  ◌∷◌, ltb, leb, ◌==◌, if◌then◌else◌,
}
use mars_memory_allocator.Layout.{Profile}
use mars_memory_allocator.Platform.{Platform}
use mars_memory_allocator.Memory.{load, store}
use mars_memory_allocator.State.{State, Mode, Status, add64, with_mem, libc}
use mars_memory_allocator.Arena.{init_growable}
use mars_memory_allocator.Mode.{set_mode}

-- the calls that report names
pub data Call : Type 0 where
  malloc_call free_call calloc_call realloc_call aligned_call : Call

-- what is written to the diagnostics
pub data Message : Type 0 where
  pool_exhausted no_arena arena_up : Message
  reported : Call → Status → Message
  flipped_bit : ℕ → Message
  consistent : Message
  inconsistent : Status → Message

-- What is outside: where g_pool lies, what dlsym asks calloc for while it looks up free and whether
-- it finds it, what the environment holds, and the system's own free and realloc.
pub record Loader : Type 0 where
  pub pool : ℕ
  pub dlsym_requests : List (ℕ × ℕ)
  pub finds_free : Bool
  pub shim_debug : Option (List ℕ)
  pub shim_check : Option (List ℕ)
  pub shim_nofresh : Option (List ℕ)
  pub shim_flip : ℕ
  pub system_free : State → ℕ → State
  pub system_realloc : State → ℕ → ℕ → ℕ × State
  pub page : ℕ

-- the allocator underneath, and the globals of the shim
pub record Shim : Type 0 where
  pub heap : State
  pub pool_used : ℕ
  pub pool_peak : ℕ
  pub ready : Bool
  pub starting : Bool
  pub real_free : Bool
  pub debug : Bool
  pub check : Bool
  pub nofresh : Bool
  pub flip_at : ℕ
  pub allocs_seen : ℕ
  pub flipped : Bool
  pub said : List Message

-- BOOTSTRAP_BYTES
abbrev pub bootstrap_bytes : ℕ
bootstrap_bytes = 64 * 1024

-- sizeof(pool_hdr)
abbrev pub pool_hdr : ℕ
pool_hdr = 16

abbrev pub say : Message → Shim → Shim
say m sh = record sh { said = m ∷ sh.said }

abbrev pub with_heap : Shim → State → Shim
with_heap sh st = record sh { heap = st }

-- flag: set, not empty and not starting with 0
unfoldable pub flag : Option (List ℕ) → Bool
flag none = false
flag (some []) = false
flag (some (c ∷ cs)) = not (c == 0) && not (c == b'0')

module _ (l : Loader) where
  -- from_pool
  unfoldable pub from_pool : ℕ → Bool
  from_pool q = leb l.pool q && ltb q (l.pool + bootstrap_bytes)

  -- `sizeof(pool_hdr) + ((size + 15u) & ~(size_t)15u)`
  abbrev pub pool_need : ℕ → ℕ
  pool_need size = add64 pool_hdr (add64 size 15 / 16 * 16)

  -- pool_alloc
  unfoldable pub pool_alloc : Shim → ℕ → ℕ × Shim
  pool_alloc sh size =
      let need = pool_need size in
      let h = l.pool + sh.pool_used in
      let m = store 8 (store 8 sh.heap.mem h size) (h + 8) 0 in
      let used = add64 sh.pool_used need in
      let sh1 = record (with_heap sh (with_mem sh.heap m)) {
        pool_used = used;
        pool_peak = if ltb sh.pool_peak used then used else sh.pool_peak;
      } in
      if ltb need size || ltb bootstrap_bytes (add64 sh.pool_used need)
      then (0, say pool_exhausted sh)
      else (h + pool_hdr, sh1)

  -- pool_size_of
  unfoldable pub pool_size_of : Shim → ℕ → ℕ
  pool_size_of sh q = load 8 sh.heap.mem (q - pool_hdr)

  -- calloc while g_starting is set: the overflow check, and the pool
  unfoldable pub starting_calloc : Shim → (nmemb size : ℕ) → ℕ × Shim
  unfolding pool_alloc
  starting_calloc sh nmemb size =
      if leb (2 ^ 64) (nmemb * size) then (0, sh) else pool_alloc sh (nmemb * size)

  -- dlsym, by what it asks calloc for
  unfoldable pub dlsym_from : List (ℕ × ℕ) → Shim → Shim
  unfolding starting_calloc
  dlsym_from [] sh = sh
  dlsym_from ((nmemb, size) ∷ rest) sh = dlsym_from rest (starting_calloc sh nmemb size).1

  -- startup
  unfoldable pub startup : Platform → Profile → Shim → Shim
  unfolding dlsym_from flag
  startup os p sh =
      let sh0 = record sh {
        starting = true;
        debug = flag l.shim_debug;
        check = flag l.shim_check;
        nofresh = flag l.shim_nofresh;
        flip_at = l.shim_flip;
      } in
      let sh1 = record (dlsym_from l.dlsym_requests sh0) { real_free = l.finds_free } in
      let (made, st) = init_growable os p sh1.heap in
      let sh2 = with_heap sh1 (set_mode p libc st) in
      let up = record sh2 { starting = false; ready = true } in
      if sh.ready || sh.starting
      then sh
      else if not made
      then record (say no_arena (with_heap sh1 st)) { starting = false }
      else if up.debug
      then say arena_up up
      else up
