-- ===== src/Remote/Runs.antt =====
-- Every step of the queue of mm_lock.c keeps it a queue: the claims are what was popped and what is
-- in the ring, in order.
use mathlib.Core.Path.{subst}
use mathlib.Core.List.{append_assoc}
use mars_memory_allocator.Base.{
  ℕ, ◌+◌, ◌-◌, ◌^◌, ◌≤◌, ◌<◌, ◌≡◌, refl, sym, ap, ◌∙◌, List, [], ◌∷◌, ◌++◌, arith, length,
  length-append,
}
use mars_memory_allocator.Remote.{
  Ring, Pc, Move, System, Step, Reach, start, here, later, push_step, pop_step, load_head, win,
  find_free, lose, fall_behind, load_again, give_up, seen, late, Prompt, seen_after, lag_after,
  set_seen, store_ptr, release, next_push, next_try, claims_after, set_pc, remote_slots, idle,
  trying, claimed, filled, pushed, refused, cell, remote_forget, claim,
}
use mars_memory_allocator.Remote.Inv.{OfPc, Has, Inv, win-Inv}
use mars_memory_allocator.Remote.Moves.{quiet-Inv, store_ptr-Inv, publish-Inv}
use mars_memory_allocator.Remote.Seen.{OfSeen, sees_set, OfSeen-popped, seen_place, seen_room}
use mars_memory_allocator.Remote.Owners.{Owned, quiet-Owned, win-Owned, publish-Owned, pop-Owned}
use mars_memory_allocator.Remote.Pop.{Ready, popped, popped_first, pop-Inv, remote_pop_found}

-- the queue that the ring, its threads, the claims and the pops stand for
abbrev pub Queued : Ring → (ℕ → Pc) → (ℕ → ℕ) → List ℕ → List ℕ → Type 0
Queued r pc since claims pops =
    (rest : List ℕ) × (from : ℕ) × Inv r pc rest from
    × (claims ≡ pops ++ rest)
    × Owned r pc rest from
    × (from ≡ length pops)
    × ((i : ℕ) → OfSeen from (pc i) (since i))

-- how many positions are claimed
claimed_so_far :
    (claims pops rest : List ℕ) (from : ℕ)
    → claims ≡ pops ++ rest
    → from ≡ length pops
    → length claims ≡ from + length rest
claimed_so_far claims pops rest from e f = omega (arith, ap length e, length-append pops rest, f)

quiet :
    (r : Ring) (pc : ℕ → Pc) (since : ℕ → ℕ) (i : ℕ) (q : Pc) (n : ℕ) (claims pops : List ℕ)
    → ((rest : List ℕ) (from : ℕ) → OfPc r rest from q)
    → ((pos : ℕ) → Has q pos → ⊥)
    → ((pos : ℕ) → Has (pc i) pos → ⊥)
    → (s : Queued r pc since claims pops) → OfSeen s.1 q n
    → Queued r (set_pc pc i q) (set_seen since i n) claims pops
quiet r pc since i q n claims pops h k m s o = (
  s.0,
  s.1,
  quiet-Inv i q s.2 (h s.0 s.1) (λ p a. absurd (k p a)),
  s.3,
  quiet-Owned r pc s.0 s.1 i q s.4 (λ p a. absurd (m p a)),
  s.5,
  sees_set s.1 pc since i q n s.6 o,
)

-- what a thread holds where it stands
stands_at : (pc : ℕ → Pc) (i : ℕ) (p : Pc) (pos : ℕ) → pc i ≡ p → Has (pc i) pos → Has p pos
stands_at pc i p pos e h = subst (λ t. Has t pos) e h

-- the head is a 32-bit number
head_word :
    {r : Ring} {pc : ℕ → Pc} {rest : List ℕ} {from : ℕ} → Inv r pc rest from → r.head < 2 ^ 32
head_word v = omega (arith, v.head_at)

-- the compare-exchange that succeeds
win-Queued :
    (r : Ring) (pc : ℕ → Pc) (since : ℕ → ℕ) (i payload pos : ℕ) (claims pops : List ℕ)
    → Queued r pc since claims pops
    → pc i ≡ seen payload pos
    → r.head ≡ pos
    → length claims - since i + remote_slots < 2 ^ 32
    → Queued
        (claim r pos)
        (set_pc pc i (claimed payload pos))
        (set_seen since i (since i))
        (claims ++ (payload ∷ []))
        pops
win-Queued r pc since i payload pos claims pops s e h l =
    let v = s.2 in
    let count = claimed_so_far claims pops s.0 s.1 s.3 s.5 in
    let own : OfSeen s.1 (seen payload pos) (since i) =
      subst (λ t. OfSeen s.1 t (since i)) e (s.6 i) in
    let room = seen_room r.head pos (length s.0) s.1 (since i) v.head_at h (rw count at l) own in
    (
      s.0 ++ (payload ∷ []),
      s.1,
      subst (λ n. Inv (claim r n) (set_pc pc i (claimed payload n)) (s.0 ++ (payload ∷ [])) s.1) h
          (win-Inv i payload v room),
      ap (λ t. t ++ (payload ∷ [])) s.3 ∙ append_assoc pops s.0 (payload ∷ []),
      subst (λ n. Owned (claim r n) (set_pc pc i (claimed payload n)) (s.0 ++ (payload ∷ [])) s.1) h
          (win-Owned r pc s.0 s.1 i payload v s.4 (λ n. stands_at pc i (seen payload pos) n e)),
      s.5,
      sees_set s.1 pc since i (claimed payload pos) (since i) s.6 tt,
    )

Move-Queued :
    (r : Ring) (pc : ℕ → Pc) (since : ℕ → ℕ) (i : ℕ) (p : Pc) (r' : Ring) (q : Pc)
    (claims pops : List ℕ) (old : ℕ)
    → Queued r pc since claims pops
    → pc i ≡ p
    → lag_after p q (length claims) (since i) old + remote_slots < 2 ^ 32
    → Move r p r' q
    → Queued r'
        (set_pc pc i q)
        (set_seen since i (seen_after q (length claims) (since i)))
        (claims_after p q claims)
        pops
unfolding OfPc
Move-Queued r pc since i idle r' q claims pops old s e l load_head =
    quiet r pc since i q _ claims pops (λ _ _. tt) (λ _ a. a) (λ pos. stands_at pc i idle pos e) s
      (head_word s.2)
Move-Queued r pc since i (trying payload pos) r' q claims pops old s e l (find_free v) =
    let word : pos < 2 ^ 32 = subst (λ t. OfSeen s.1 t (since i)) e (s.6 i) in
    let place = seen_place pos s.2 word v in
    let count = claimed_so_far claims pops s.0 s.1 s.3 s.5 in
    quiet r pc since i q _ claims pops (λ _ _. tt) (λ _ a. a)
      (λ n. stands_at pc i (trying payload pos) n e) s
      (place.0, place.1, omega (arith, count, place.2), place.3)
Move-Queued r pc since i (seen payload pos) r' q claims pops old s e l (win h) =
    win-Queued r pc since i payload pos claims pops s e h (ground arith)
Move-Queued r pc since i (seen payload pos) r' q claims pops old s e l lose =
    quiet r pc since i q _ claims pops (λ _ _. tt) (λ _ a. a)
      (λ n. stands_at pc i (seen payload pos) n e) s (head_word s.2)
Move-Queued r pc since i (trying payload pos) r' q claims pops old s e l (fall_behind v) =
    quiet r pc since i q _ claims pops (λ _ _. tt) (λ _ a. a)
      (λ n. stands_at pc i (trying payload pos) n e) s tt
Move-Queued r pc since i (late payload) r' q claims pops old s e l load_again =
    quiet r pc since i q _ claims pops (λ _ _. tt) (λ _ a. a)
      (λ n. stands_at pc i (late payload) n e) s (head_word s.2)
Move-Queued r pc since i (trying payload pos) r' q claims pops old s e l (give_up v) =
    quiet r pc since i q _ claims pops (λ _ _. tt) (λ _ a. a)
      (λ n. stands_at pc i (trying payload pos) n e) s tt
Move-Queued r pc since i (claimed payload pos) r' q claims pops old s e l store_ptr = (
  s.0,
  s.1,
  store_ptr-Inv i payload pos s.2 e,
  s.3,
  quiet-Owned r pc s.0 s.1 i (filled payload pos) s.4
      (λ n. stands_at pc i (claimed payload pos) n e),
  s.5,
  sees_set s.1 pc since i (filled payload pos) _ s.6 tt,
)
Move-Queued r pc since i (filled payload pos) r' q claims pops old s e l release = (
  s.0,
  s.1,
  publish-Inv i payload pos s.2 e,
  s.3,
  publish-Owned r pc s.0 s.1 i payload pos s.2 s.4 e,
  s.5,
  sees_set s.1 pc since i pushed _ s.6 tt,
)
Move-Queued r pc since i pushed r' q claims pops old s e l next_push =
    quiet r pc since i q _ claims pops (λ _ _. tt) (λ _ a. a) (λ pos. stands_at pc i pushed pos e) s
      tt
Move-Queued r pc since i refused r' q claims pops old s e l next_try =
    quiet r pc since i q _ claims pops (λ _ _. tt) (λ _ a. a) (λ pos. stands_at pc i refused pos e)
      s tt

start-Queued : Queued start.ring start.pc start.seen_at start.claims start.pops
unfolding OfPc remote_forget
start-Queued = (
  [],
  0,
  record {
    few = omega arith;
    head_at = omega arith;
    tail_at = omega arith;
    free = λ k l b. omega arith;
    busy = λ k l. absurd (omega arith);
    threads = λ _. tt;
    unique = λ j k pos a b. absurd a;
  },
  refl,
  λ k l. absurd (omega arith),
  refl,
  λ _. tt,
)

pop-Queued :
    (r : Ring) (pc : ℕ → Pc) (since : ℕ → ℕ) (claims pops : List ℕ) (rest : List ℕ) (from : ℕ)
    → Inv r pc rest from
    → claims ≡ pops ++ rest
    → Owned r pc rest from
    → from ≡ length pops
    → ((i : ℕ) → OfSeen from (pc i) (since i))
    → Ready r
    → Queued (popped r) pc since claims (pops ++ (r.ptr (cell r.tail) ∷ []))
pop-Queued r pc since claims pops [] from v e o f sees ready =
    let l = (popped_first v ready).0 in absurd (omega arith)
pop-Queued r pc since claims pops (x ∷ rest) from v e o f sees ready =
    let p = pop-Inv r pc x rest from v ready in
    let len = length-append pops (r.ptr (cell r.tail) ∷ []) in
    (
      rest,
      from + 1,
      p.0,
      rw p.1 (e ∙ sym (append_assoc pops (x ∷ []) rest)),
      pop-Owned r pc x rest from v o,
      omega (arith, len, f),
      λ i. OfSeen-popped from (pc i) (since i) (sees i),
    )

Step-Queued :
    (s t : System)
    → Queued s.ring s.pc s.seen_at s.claims s.pops
    → Prompt t
    → Step s t
    → Queued t.ring t.pc t.seen_at t.claims t.pops
Step-Queued s t v l (push_step i {r} {q} m) =
    Move-Queued s.ring s.pc s.seen_at i (s.pc i) r q s.claims s.pops s.lag v refl l m
Step-Queued s t v l (pop_step e) =
    rw (remote_pop_found s.ring e)
      (pop-Queued s.ring s.pc s.seen_at s.claims s.pops v.0 v.1 v.2 v.3 v.4 v.5 v.6 e)

-- what was prompt at the end was prompt all along
lag_grows : (p q : Pc) (count since old : ℕ) → old ≤ lag_after p q count since old
lag_grows (seen _ _) (claimed _ _) count since old = ground arith
lag_grows p q count since old = omega arith

Step-Prompt : (s t : System) → Prompt t → Step s t → Prompt s
Step-Prompt s t l (push_step i {r} {q} m) =
    omega (arith, l, lag_grows (s.pc i) q (length s.claims) (s.seen_at i) s.lag)
Step-Prompt s t l (pop_step e) = l

pub Reach-Queued : (s : System) → Reach s → Prompt s → Queued s.ring s.pc s.seen_at s.claims s.pops
Reach-Queued s here l = start-Queued
Reach-Queued t (later {s} r m) l = Step-Queued s t (Reach-Queued s r (Step-Prompt s t l m)) l m
