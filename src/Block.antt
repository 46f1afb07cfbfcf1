-- ===== src/Block.antt =====
-- A block in memory, src/mm_layout.h: its header fields, its links and boundary tag while it is
-- free, and the values its checksum and canary are held against. A pointer to a block is the
-- address of its control word.
pub mod Laws
use Prim.Native.Nat.{bit_xor}
use mars_memory_allocator.Base.{
  ℕ, zero, suc, ◌+◌, ◌-◌, ◌*◌, ◌/◌, ◌%◌, ◌^◌, ◌≤◌, ◌<◌, ◌≡◌, refl, sym, ap, ◌∙◌, ◌≢◌, ◌↔◌, ◌⊎◌, inl,
  inr, Bool, true, false, not, ◌&&◌, ◌||◌, Option, none, some, List, [], ◌∷◌, ◌++◌, arith, ltb, leb,
  ◌==◌, if◌then◌else◌, ltb→lt, lt→ltb, leb→le, le→leb, eq→==, ==_iff, Bool-cases, Option-cases,
  length, get_or, length-append,
}
use mars_memory_allocator.Layout.{Profile, has_crc, hdr_size}
use mars_memory_allocator.Layout.Word
use mars_memory_allocator.Memory.{Mem, load, store, read_bytes, bytes_of}
use mars_memory_allocator.Crc.{crc32c}

abbrev pub word : Mem → ℕ → ℕ
word m b = load 8 m b

-- mm_block_size
abbrev pub block_size : Mem → ℕ → ℕ
block_size m b = Word.size_of (word m b)

abbrev pub is_used : Mem → ℕ → Bool
is_used m b = Word.is_used (word m b)

abbrev pub prev_in_use : Mem → ℕ → Bool
prev_in_use m b = Word.prev_in_use (word m b)

abbrev pub is_quarantined : Mem → ℕ → Bool
is_quarantined m b = Word.is_quarantined (word m b)

abbrev pub requested_size : Profile → Mem → ℕ → ℕ
requested_size p m b = Word.requested_size p (word m b)

abbrev pub set_block_size : Mem → ℕ → ℕ → Mem
set_block_size m b n = store 8 m b (Word.set_size (word m b) n)

abbrev pub set_prev_in_use : Mem → ℕ → Bool → Mem
set_prev_in_use m b used = store 8 m b (Word.set_prev_in_use (word m b) used)

abbrev pub set_word : Mem → ℕ → ℕ → ℕ → Bool → Bool → Mem
set_word m b n slack used quarantined =
    store 8 m b (Word.set_word (word m b) n slack used quarantined)

-- the fields that exist where MM_HAS_CRC
abbrev pub hdr_crc : Mem → ℕ → ℕ
hdr_crc m b = load 4 m (b + 8)

abbrev pub payload_crc : Mem → ℕ → ℕ
payload_crc m b = load 4 m (b + 12)

-- `#if MM_HAS_CRC  b->payload_crc = v;  #endif`
abbrev pub set_payload_crc : Profile → Mem → ℕ → ℕ → Mem
set_payload_crc p m b v = if has_crc p then store 4 m (b + 12) v else m

abbrev pub payload_of : Profile → ℕ → ℕ
payload_of p b = b + hdr_size p

-- mm_block_end, and mm_next_block
abbrev pub block_end : Mem → ℕ → ℕ
block_end m b = b + block_size m b

abbrev pub link_next : ℕ
link_next = 0

abbrev pub link_prev : ℕ
link_prev = 1

-- The links are stored xor-ed with the arena's secret.
unfoldable pub free_link_get : Profile → Mem → ℕ → ℕ → ℕ → ℕ
free_link_get p m b which secret = bit_xor (load 8 m (payload_of p b + which * 8)) secret

unfoldable pub free_link_set : Profile → Mem → ℕ → ℕ → ℕ → ℕ → Mem
free_link_set p m b which ptr secret = store 8 m (payload_of p b + which * 8) (bit_xor ptr secret)

-- the boundary tag
unfoldable pub write_free_footer : Mem → ℕ → Mem
write_free_footer m b = store 8 m (block_end m b - 8) (block_size m b)

unfoldable pub read_prev_footer : Mem → ℕ → ℕ
read_prev_footer m b = load 8 m (b - 8)

-- the tag of a free block, where its own extent says that it lies
unfoldable pub own_footer : Mem → ℕ → ℕ
own_footer m b = load 8 m (block_end m b - 8)

-- mm_hdr_crc_of: over the control word, the payload checksum, the index and the secret
unfoldable pub hdr_crc_of : Mem → ℕ → ℕ → ℕ → ℕ
hdr_crc_of m b index secret = crc32c (
    bytes_of 8 (word m b)
    ++ (bytes_of 8 (payload_crc m b) ++ (bytes_of 8 index ++ bytes_of 8 secret)))

-- mm_payload_crc: 0 is kept free as "not established"
unfoldable pub payload_crc_value : Mem → ℕ → ℕ → ℕ
payload_crc_value m a len = let c = crc32c (read_bytes len m a) in if c == 0 then 1 else c

abbrev pub canary : ℕ
canary = 0xcafebabecafebabe

unfoldable pub canary_value : ℕ → ℕ → ℕ
canary_value index secret = bit_xor (bit_xor canary secret) (index * 0x9e3779b97f4a7c15 % 2 ^ 64)
