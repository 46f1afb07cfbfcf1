-- ===== src/Remote/Fifo.antt =====
-- The queue of remote frees of mm_lock.c is first in, first out, under every interleaving of its
-- pushes and pops.
use native.Mathlib.Decide.{dec_lt}
use mathlib.Core.Path.{subst}
use mathlib.Core.List.{append_cancel_left}
use mars_memory_allocator.Base.{
  ℕ, ◌+◌, ◌%◌, ◌^◌, ◌≤◌, ◌<◌, ◌≡◌, sym, ap, ◌∙◌, inl, inr, List, ◌∷◌, ◌++◌, arith, ◌==◌,
  if◌then◌else◌, length, length-append,
}
use mars_memory_allocator.Remote.{
  Ring, verdict, Pc, System, Reach, Prompt, remote_slots, cell, full, claimable, sub32, remote_pop,
}
use mars_memory_allocator.Remote.Inv.{Has, Inv, Busy, at_seq}
use mars_memory_allocator.Remote.Moves.{cell_of}
use mars_memory_allocator.Remote.Owners.{Owned, first_published}
use mars_memory_allocator.Remote.Pop.{pop-Inv, remote_pop_found}
use mars_memory_allocator.Remote.Runs.{Reach-Queued}

-- In every state that threads pushing and the owner popping reach, with the loads, stores and
-- compare-exchanges of the pushes interleaved in any order, and as long as every push that claimed
-- a position did so with fewer than 2^32 − 1024 positions claimed since it saw its cell free: the
-- pointers popped are a prefix of the pointers for which positions were claimed, in that order,
-- and at most 1024 are between the two. The queue of remote frees loses, repeats, invents and
-- reorders nothing, also when its 32-bit positions wrap.
pub Reach-Fifo :
    (s : System)
    → Reach s
    → Prompt s
    → (rest : List ℕ) × (s.claims ≡ s.pops ++ rest) × (length rest ≤ remote_slots)
Reach-Fifo s r l = let v = Reach-Queued s r l in (v.0, v.3, v.2.few)

verdict_claimable :
    (r : Ring) (pos : ℕ) → sub32 (r.seq (cell pos)) pos ≡ 0 → verdict r pos ≡ claimable
unfolding verdict
verdict_claimable r pos e = ground arith

verdict_full : (r : Ring) (pos : ℕ) → 2 ^ 31 ≤ sub32 (r.seq (cell pos)) pos → verdict r pos ≡ full
unfolding verdict
verdict_full r pos e = ground arith

head_claimable :
    {r : Ring} {pc : ℕ → Pc} {rest : List ℕ} {from : ℕ}
    → Inv r pc rest from
    → length rest < remote_slots
    → verdict r r.head ≡ claimable
head_claimable {r} {pc} {rest} {from} v l =
    let f = v.free (length rest) (omega arith) l in
    let h = v.head_at in
    let s : r.seq (cell r.head) ≡ at_seq r (from + length rest) =
      ap r.seq (cell_of r.head (from + length rest) h) in
    verdict_claimable r r.head (omega arith)

head_full :
    {r : Ring} {pc : ℕ → Pc} {rest : List ℕ} {from : ℕ}
    → Inv r pc rest from
    → length rest ≡ remote_slots
    → verdict r r.head ≡ full
unfolding Busy
head_full {r} {pc} {rest} {from} v l =
    let h = v.head_at in
    let c : cell r.head ≡ (from + 0) % remote_slots = omega arith in
    let s : r.seq (cell r.head) ≡ at_seq r (from + 0) = ap r.seq c in
    verdict_full r r.head
      (elim (v.busy 0 (omega arith)) [ inl b ↦ let t = b.0 in omega arith | inr b ↦ omega arith ])

-- In every reachable state, as long as every push that claimed a position did so with fewer than
-- 2^32 − 1024 positions claimed since it saw its cell free, a push that looks at the cell of the
-- current head finds it claimable, unless exactly 1024 claimed pointers are not yet popped, and
-- then it finds the queue full: a push gives up at the head only on a full queue, and never waits
-- there.
pub verdict-head :
    (s : System)
    → Reach s
    → Prompt s
    → verdict s.ring s.ring.head
      ≡ (if length s.claims == length s.pops + remote_slots then full else claimable)
verdict-head s r l =
    let v = Reach-Queued s r l in
    let inv = v.2 in
    let n : length s.claims ≡ length s.pops + length v.0 =
      ap length v.3 ∙ length-append s.pops v.0 in
    let few = inv.few in
    let h = inv.head_at in
    elim (dec_lt (length v.0) remote_slots) [
      | yes few ↦ let c = head_claimable inv few in ground arith
      | no g ↦ let c = head_full inv (omega arith) in ground arith
    ]

-- In every reachable state in which no thread stands between the claim of its cell and its
-- release, as long as every push that claimed a position did so with fewer than 2^32 − 1024
-- positions claimed since it saw its cell free, the owner's pop returns the oldest pointer that
-- was claimed and not yet popped, if there is one: nothing handed over is left waiting behind a
-- cell that nobody is going to publish.
pub remote_pop_oldest :
    (s : System) (x : ℕ) (xs : List ℕ)
    → Reach s
    → Prompt s
    → ((i pos : ℕ) → Has (s.pc i) pos → ⊥)
    → s.claims ≡ s.pops ++ (x ∷ xs)
    → (remote_pop s.ring).0 ≡ x
remote_pop_oldest s x xs r l quiet e =
    let v = Reach-Queued s r l in
    let same : v.0 ≡ x ∷ xs = append_cancel_left s.pops v.0 (x ∷ xs) (sym v.3 ∙ e) in
    let inv : Inv s.ring s.pc (x ∷ xs) v.1 = subst (λ t. Inv s.ring s.pc t v.1) same v.2 in
    let own : Owned s.ring s.pc (x ∷ xs) v.1 = subst (λ t. Owned s.ring s.pc t v.1) same v.4 in
    let ready = first_published s.ring s.pc (x ∷ xs) v.1 inv own quiet (omega arith) in
    ap (λ t. t.0) (remote_pop_found s.ring ready) ∙ (pop-Inv s.ring s.pc x xs v.1 inv ready).1
