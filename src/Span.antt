-- ===== src/Span.antt =====
-- Which span an address lies in: the registry of src/mm_arena.c and mm_span_of of
-- src/mm_internal.h. mm_span_of asks a one-entry cache first; the model asks the registry.
pub mod Probe
pub mod Lookup
use Prim.Native.Nat.{bit_and, bit_xor}
use mars_memory_allocator.Base.{
  ℕ, zero, suc, ◌+◌, ◌-◌, ◌*◌, ◌/◌, ◌%◌, ◌^◌, Bool, true, false, not, ◌&&◌, Option, none, some,
  List, [], ◌∷◌, ltb, leb, ◌==◌, if◌then◌else◌,
}
use mars_memory_allocator.Bitmap.{update}
use mars_memory_allocator.Layout.{Profile, alignment, min_block}
use mars_memory_allocator.State.{Span, Index, State, add64}

abbrev pub chunk_shift : ℕ
chunk_shift = 21

abbrev pub chunk_size : ℕ
chunk_size = 2 ^ chunk_shift

abbrev pub large_threshold : ℕ
large_threshold = chunk_size / 2

-- MM_SPAN_MAGIC, bound to the descriptor's own address
unfoldable pub magic_for : ℕ → ℕ
magic_for s = bit_xor 0x5350414e5f4d4152 s

unfoldable pub unit_of : ℕ → ℕ
unit_of q = q / 2 ^ chunk_shift

-- MM_UNIT_TOMB
abbrev pub tomb : ℕ
tomb = 1

-- splitmix64's finalizer, masked to the table
unfoldable pub slot_for : ℕ → ℕ → ℕ
slot_for unit cap =
    let a = add64 unit 0x9e3779b97f4a7c15 in
    let b = bit_xor a (a / 2 ^ 30) * 0xbf58476d1ce4e5b9 % 2 ^ 64 in
    let c = bit_xor b (b / 2 ^ 27) * 0x94d049bb133111eb % 2 ^ 64 in
    bit_and (bit_xor c (c / 2 ^ 31)) (cap - 1)

-- `(i + 1) & (cap - 1)`
abbrev pub next_slot : Index → ℕ → ℕ
next_slot ix i = bit_and (i + 1) (ix.cap - 1)

-- The probe of index_put. `none` is a table with no empty slot left, on which the loop of the
-- source would not end.
unfoldable pub put_from : ℕ → Index → ℕ → ℕ → ℕ → Option Index
put_from zero ix unit s i = none
put_from (suc probes) ix unit s i =
    let rest = put_from probes ix unit s (next_slot ix i) in
    let have = ix.span i in
    if have == 0
    then some (record ix { unit = update ix.unit i unit; span = update ix.span i s })
    else if not (have == tomb) && ix.unit i == unit
    then some (record ix { span = update ix.span i s })
    else rest

unfoldable pub index_put : Index → ℕ → ℕ → Option Index
unfolding put_from
index_put ix unit s = put_from ix.cap ix unit s (slot_for unit ix.cap)

-- The probe of index_del; the second part says whether a live entry went.
unfoldable pub del_from : ℕ → Index → ℕ → ℕ → Index × Bool
del_from zero ix unit i = (ix, false)
del_from (suc probes) ix unit i =
    let rest = del_from probes ix unit (next_slot ix i) in
    let s = ix.span i in
    if s == 0
    then (ix, false)
    else if not (s == tomb) && ix.unit i == unit
    then (record ix { span = update ix.span i tomb }, true)
    else rest

unfoldable pub index_del : Index → ℕ → Index × Bool
unfolding del_from
index_del ix unit = del_from ix.cap ix unit (slot_for unit ix.cap)

-- The probe of index_find; 0 is a miss. One thread sees one table, so a miss is an answer.
unfoldable pub find_from : ℕ → Index → ℕ → ℕ → ℕ
find_from zero ix unit i = 0
find_from (suc probes) ix unit i =
    let rest = find_from probes ix unit (next_slot ix i) in
    let s = ix.span i in
    if s == 0 then 0 else if not (s == tomb) && ix.unit i == unit then s else rest

unfoldable pub index_find : Index → ℕ → ℕ
unfolding find_from
index_find ix unit = find_from ix.cap ix unit (slot_for unit ix.cap)

-- `lo <= q < hi` of a descriptor
abbrev pub in_span : Span → ℕ → Bool
in_span s q = leb s.lo q && ltb q s.hi

-- mm_span_lookup_uncached: the descriptor, or 0
unfoldable pub span_of : State → ℕ → ℕ
span_of st q =
    let s = index_find st.index (unit_of q) in
    if not (st.user == 0) && in_span (st.desc st.user) q
    then st.user
    else if s == 0
    then 0
    else if not ((st.desc s).magic == magic_for s)
    then 0
    else if not (in_span (st.desc s) q)
    then 0
    else s

-- mm_owns
unfoldable pub owns : State → ℕ → Bool
owns st q = not (q == 0) && not (span_of st q == 0)

-- mm_index_in
abbrev pub index_in : Span → ℕ → ℕ
index_in s b = add64 s.index_base ((b - s.lo) / alignment)

-- mm_block_index
unfoldable pub block_index : State → ℕ → ℕ
block_index st b = let s = span_of st b in if s == 0 then 0 else index_in (st.desc s) b

unfoldable pub span_max_blocks : Profile → Span → ℕ
span_max_blocks p s = (s.hi - s.lo) / min_block p + 1

unfoldable pub max_blocks : Profile → State → ℕ
max_blocks p st = st.total_bytes / min_block p + 1

-- the descriptors from `s` on, in the order of the list; `fuel` is the number of spans
unfoldable pub spans_from : ℕ → (ℕ → Span) → ℕ → List ℕ
spans_from zero desc s = []
spans_from (suc fuel) desc s =
    let rest = spans_from fuel desc (desc s).next in if s == 0 then [] else s ∷ rest

abbrev pub all_spans : State → List ℕ
all_spans st = spans_from st.span_count st.desc st.spans
