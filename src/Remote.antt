-- ===== src/Remote.antt =====
-- The queue of remote frees, src/mm_lock.c under MM_LOCK_ARENA: a ring of 1024 cells that any
-- thread pushes to and the arena's owner pops from.
pub mod Inv
pub mod Moves
pub mod Pop
pub mod Owners
pub mod Seen
pub mod Runs
pub mod Fifo
use mars_memory_allocator.Base.{
  ℕ, zero, suc, ◌+◌, ◌-◌, ◌*◌, ◌/◌, ◌%◌, ◌^◌, ◌≤◌, ◌<◌, ◌≡◌, refl, sym, ap, ◌∙◌, ◌≢◌, ◌↔◌, ◌⊎◌, inl,
  inr, Bool, true, false, not, ◌&&◌, ◌||◌, Option, none, some, List, [], ◌∷◌, ◌++◌, arith, ltb, leb,
  ◌==◌, if◌then◌else◌, ltb→lt, lt→ltb, leb→le, le→leb, eq→==, ==_iff, Bool-cases, Option-cases,
  length, get_or, length-append,
}
use mars_memory_allocator.Bitmap.{update}

-- MM_REMOTE_SLOTS
abbrev pub remote_slots : ℕ
remote_slots = 1024

-- the fields of mm_arena that the queue has; head, tail and the sequence numbers are uint32_t
pub record Ring : Type 0 where
  pub head : ℕ
  pub tail : ℕ
  pub seq : ℕ → ℕ
  pub ptr : ℕ → ℕ

-- `pos & (MM_REMOTE_SLOTS - 1)`
abbrev pub cell : ℕ → ℕ
cell pos = pos % remote_slots

-- `seq - pos` as a uint32_t; it is negative as an int32_t from 2^31 on.
abbrev pub sub32 : ℕ → ℕ → ℕ
sub32 a b = (a + 2 ^ 32 - b) % 2 ^ 32

abbrev pub succ32 : ℕ → ℕ
succ32 a = (a + 1) % 2 ^ 32

-- what the sequence number of a cell says to a push that tries the position `pos`
pub data Verdict : Type 0 where
  claimable full behind : Verdict

unfoldable pub verdict : Ring → ℕ → Verdict
verdict r pos =
    let diff = sub32 (r.seq (cell pos)) pos in
    if diff == 0 then claimable else if leb (2 ^ 31) diff then full else behind

-- the compare-exchange that succeeds
abbrev pub claim : Ring → ℕ → Ring
claim r pos = record r { head = succ32 pos }

-- `cell->ptr = payload;`
abbrev pub fill_cell : Ring → ℕ → ℕ → Ring
fill_cell r pos payload = record r { ptr = update r.ptr (cell pos) payload }

-- `atomic_store(&cell->seq, pos + 1)`
abbrev pub publish_cell : Ring → ℕ → Ring
publish_cell r pos = record r { seq = update r.seq (cell pos) (succ32 pos) }

-- mm_remote_pop; 0 is NULL
unfoldable pub remote_pop : Ring → ℕ × Ring
remote_pop r =
    let c = cell r.tail in
    if sub32 (r.seq c) (succ32 r.tail) == 0
    then (
      r.ptr c,
      record r {
        ptr = update r.ptr c 0;
        tail = succ32 r.tail;
        seq = update r.seq c ((r.tail + remote_slots) % 2 ^ 32);
      },
    )
    else (0, r)

-- mm_remote_forget
unfoldable pub remote_forget : Ring
remote_forget = record { head = 0; tail = 0; seq = λ i. i; ptr = λ _. 0 }

-- Where a thread stands in mm_remote_push, with its locals: about to load the sequence number of
-- the cell of `pos` (trying), about to compare the head with `pos` and exchange it (seen), or about
-- to load the head again (late).
pub data Pc : Type 0 where
  idle : Pc
  trying : (payload pos : ℕ) → Pc
  seen : (payload pos : ℕ) → Pc
  late : (payload : ℕ) → Pc
  claimed : (payload pos : ℕ) → Pc
  filled : (payload pos : ℕ) → Pc
  pushed refused : Pc

-- One load, store or compare-exchange of a push. The compare-exchange compares the head alone; it is
-- a weak one, which may also fail where the head is `pos`, and it loads the head where it fails.
pub data Move (r : Ring) : Pc → Ring → Pc → Type 0 where
  load_head : {payload : ℕ} → Move r idle r (trying payload r.head)
  find_free :
      {payload pos : ℕ}
      → verdict r pos ≡ claimable
      → Move r (trying payload pos) r (seen payload pos)
  win :
      {payload pos : ℕ}
      → r.head ≡ pos
      → Move r (seen payload pos) (claim r pos) (claimed payload pos)
  lose : {payload pos : ℕ} → Move r (seen payload pos) r (trying payload r.head)
  fall_behind :
      {payload pos : ℕ} → verdict r pos ≡ behind → Move r (trying payload pos) r (late payload)
  load_again : {payload : ℕ} → Move r (late payload) r (trying payload r.head)
  give_up : {payload pos : ℕ} → verdict r pos ≡ full → Move r (trying payload pos) r refused
  store_ptr :
      {payload pos : ℕ}
      → Move r (claimed payload pos) (fill_cell r pos payload) (filled payload pos)
  release : {payload pos : ℕ} → Move r (filled payload pos) (publish_cell r pos) pushed
  next_push : Move r pushed r idle
  next_try : Move r refused r idle

-- The ring, the threads, and the pointers that were claimed for and popped so far, in order. What
-- follows is about the run and not in the program: how many positions had been claimed when a
-- thread last saw a free cell, and how many others were claimed at most between that and the
-- compare-exchange that succeeded.
pub record System : Type 0 where
  pub ring : Ring
  pub pc : ℕ → Pc
  pub claims : List ℕ
  pub pops : List ℕ
  pub seen_at : ℕ → ℕ
  pub lag : ℕ

-- what a move adds to the claims
abbrev pub claims_after : Pc → Pc → List ℕ → List ℕ
claims_after (seen _ _) (claimed payload _) cs = cs ++ (payload ∷ [])
claims_after _ _ cs = cs

abbrev pub seen_after : Pc → (count old : ℕ) → ℕ
seen_after (seen _ _) count old = count
seen_after _ count old = old

abbrev pub lag_after : Pc → Pc → (count since old : ℕ) → ℕ
lag_after (seen _ _) (claimed _ _) count since old =
    if ltb old (count - since) then count - since else old
lag_after _ _ count since old = old

abbrev pub set_pc : (ℕ → Pc) → ℕ → Pc → ℕ → Pc
set_pc pc i q j = if j == i then q else pc j

abbrev pub set_seen : (ℕ → ℕ) → ℕ → ℕ → ℕ → ℕ
set_seen f i n j = if j == i then n else f j

-- Any thread moves, or the owner pops, as mm_remote_pop does when it finds a pointer.
pub data Step (s : System) : System → Type 0 where
  push_step :
      (i : ℕ) {r : Ring} {q : Pc}
      → Move s.ring (s.pc i) r q
      → Step s (record s {
        ring = r;
        pc = set_pc s.pc i q;
        claims = claims_after (s.pc i) q s.claims;
        seen_at = set_seen s.seen_at i (seen_after q (length s.claims) (s.seen_at i));
        lag = lag_after (s.pc i) q (length s.claims) (s.seen_at i) s.lag;
      })
  pop_step :
      sub32 (s.ring.seq (cell s.ring.tail)) (succ32 s.ring.tail) ≡ 0
      → Step s
          (record s { ring = (remote_pop s.ring).1; pops = s.pops ++ ((remote_pop s.ring).0 ∷ []) })

abbrev pub start : System
start = record {
  ring = remote_forget;
  pc = λ _. idle;
  claims = [];
  pops = [];
  seen_at = λ _. 0;
  lag = 0;
}

pub data Reach : System → Type 0 where
  here : Reach start
  later : {s t : System} → Reach s → Step s t → Reach t

-- No push that claimed a position did so with 2^32 - 1024 others claimed since it saw its cell free.
abbrev pub Prompt : System → Type 0
Prompt s = s.lag + remote_slots < 2 ^ 32
