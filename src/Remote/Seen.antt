-- ===== src/Remote/Seen.antt =====
-- What a push of mm_lock.c may rely on between the load of a cell's sequence number and its
-- compare-exchange of the head.
use native.Mathlib.Decide.{dec_lt}
use mars_memory_allocator.Base.{
  ℕ, ◌+◌, ◌-◌, ◌%◌, ◌^◌, ◌≤◌, ◌<◌, ◌≡◌, ap, inl, inr, List, arith, ◌==◌, Bool-cases, length,
}
use mars_memory_allocator.Remote.{
  Ring, verdict, Pc, remote_slots, claimable, idle, trying, seen, late, claimed, filled, pushed,
  refused, cell, set_pc, set_seen,
}
use mars_memory_allocator.Remote.Inv.{at_seq, Busy, Inv, claimable_diff}

-- A position that was seen free stands for a place at most a lap behind the claims of that moment, and
-- less than a lap ahead of what is popped; `from` pointers are popped, and `n` were claimed then.
abbrev pub OfSeen : ℕ → Pc → ℕ → Type 0
OfSeen from (trying payload pos) n = pos < 2 ^ 32
OfSeen from (seen payload pos) n =
    (at : ℕ) × (pos ≡ at % 2 ^ 32) × (n ≤ at + remote_slots) × (at < from + remote_slots)
OfSeen from _ n = Unit

pub sees_set :
    (from : ℕ) (pc : ℕ → Pc) (since : ℕ → ℕ) (i : ℕ) (q : Pc) (n : ℕ)
    → ((j : ℕ) → OfSeen from (pc j) (since j))
    → OfSeen from q n
    → (j : ℕ) → OfSeen from (set_pc pc i q j) (set_seen since i n j)
sees_set from pc since i q n others own j = elim (Bool-cases (j == i)) [
  | inl e ↦ rw e own
  | inr e ↦ rw e (others j)
]

-- a pop leaves it true
pub OfSeen-popped : (from : ℕ) (q : Pc) (n : ℕ) → OfSeen from q n → OfSeen (from + 1) q n
OfSeen-popped from (seen payload pos) n h = (h.0, h.1, h.2, omega (arith, h.3))
OfSeen-popped from (trying payload pos) n h = h
OfSeen-popped from idle n h = tt
OfSeen-popped from (late payload) n h = tt
OfSeen-popped from (claimed payload pos) n h = tt
OfSeen-popped from (filled payload pos) n h = tt
OfSeen-popped from pushed n h = tt
OfSeen-popped from refused n h = tt

-- the place of a cell that is seen free
pub seen_place :
    {r : Ring} {pc : ℕ → Pc} {rest : List ℕ} {from : ℕ} (pos : ℕ)
    → Inv r pc rest from
    → pos < 2 ^ 32
    → verdict r pos ≡ claimable
    → (at : ℕ) × (pos ≡ at % 2 ^ 32)
      × (from + length rest ≤ at + remote_slots)
      × (at < from + remote_slots)
unfolding Busy
seen_place {r} {pc} {rest} {from} pos v l e =
    let k = (pos + remote_slots - from % remote_slots) % remote_slots in
    let d = claimable_diff r pos e in
    let few = v.few in
    let c : cell pos ≡ (from + k) % remote_slots = omega arith in
    let s : r.seq (cell pos) ≡ at_seq r (from + k) = ap r.seq c in
    let there : at_seq r (from + k) ≡ (from + k) % 2 ^ 32 = elim (dec_lt k (length rest)) [
      | no g ↦ v.free k (omega arith) (omega arith)
      | yes b ↦ elim (v.busy k b) [ inl x ↦ let y = x.0 in absurd (omega arith) | inr x ↦ x ]
    ] in
    (from + k, omega arith, omega arith, omega arith)

-- Where the head still is the position that was seen, and not too many were claimed since, there is
-- room.
pub seen_room :
    (head pos len from since : ℕ)
    → head ≡ (from + len) % 2 ^ 32
    → head ≡ pos
    → (from + len) - since + remote_slots < 2 ^ 32
    → (at : ℕ) × (pos ≡ at % 2 ^ 32) × (since ≤ at + remote_slots) × (at < from + remote_slots)
    → len < remote_slots
seen_room head pos len from since h e l (at, p, b, u) = omega arith
