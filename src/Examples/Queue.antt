-- ===== src/Examples/Queue.antt =====
-- The queue of remote frees at a concrete run: one thread pushes a pointer and the owner pops it.
use mars_memory_allocator.Base.{
  ℕ, arith, ◌+◌, ◌≤◌, ◌≡◌, refl, inl, inr, List, [], ◌∷◌, ◌++◌, ◌==◌, if◌then◌else◌, Bool-cases,
  length,
}
use mars_memory_allocator.Remote.{
  Ring, verdict, Pc, System, Reach, start, here, later, push_step, pop_step, load_head, win,
  find_free, seen, seen_after, lag_after, set_seen, store_ptr, release, claims_after, set_pc,
  remote_pop, remote_forget, claim, fill_cell, publish_cell, remote_slots, trying, claimed, filled,
  pushed, full, claimable,
}
use mars_memory_allocator.Remote.Fifo.{remote_pop_oldest, Reach-Fifo, verdict-head}
use mars_memory_allocator.Remote.Inv.{Has}

-- thread 3 moves to `q` and the ring becomes `r`
abbrev moved_to : System → Ring → Pc → System
moved_to s r q = record s {
  ring = r;
  pc = set_pc s.pc 3 q;
  claims = claims_after (s.pc 3) q s.claims;
  seen_at = set_seen s.seen_at 3 (seen_after q (length s.claims) (s.seen_at 3));
  lag = lag_after (s.pc 3) q (length s.claims) (s.seen_at 3) s.lag;
}

abbrev loaded : System
loaded = moved_to start start.ring (trying 4112 0)

abbrev found : System
found = moved_to loaded loaded.ring (seen 4112 0)

abbrev won : System
won = moved_to found (claim found.ring 0) (claimed 4112 0)

abbrev stored : System
stored = moved_to won (fill_cell won.ring 0 4112) (filled 4112 0)

abbrev pub released : System
released = moved_to stored (publish_cell stored.ring 0) pushed

abbrev emptied : System
emptied = record released {
  ring = (remote_pop released.ring).1;
  pops = released.pops ++ ((remote_pop released.ring).0 ∷ []);
}

Reach-won : Reach won
unfolding remote_forget verdict
Reach-won =
    later (later (later here (push_step 3 load_head)) (push_step 3 (find_free refl)))
      (push_step 3 (win refl))

pub Reach-released : Reach released
unfolding remote_forget
Reach-released = later (later Reach-won (push_step 3 store_ptr)) (push_step 3 release)

Reach-emptied : Reach emptied
unfolding remote_forget
Reach-emptied = later Reach-released (pop_step refl)

Reach-Fifo_example :
    (rest : List ℕ) × (emptied.claims ≡ emptied.pops ++ rest) × (length rest ≤ remote_slots)
Reach-Fifo_example = Reach-Fifo emptied Reach-emptied (omega arith)

verdict-head_example :
    verdict released.ring released.ring.head
    ≡ (if length released.claims == length released.pops + remote_slots then full else claimable)
verdict-head_example = verdict-head released Reach-released (omega arith)

pub released_quiet : (i pos : ℕ) → Has (released.pc i) pos → ⊥
released_quiet i pos = elim (Bool-cases (i == 3)) [ inl e ↦ rw e (λ h. h) | inr e ↦ rw e (λ h. h) ]

remote_pop_oldest_example : (remote_pop released.ring).0 ≡ 4112
remote_pop_oldest_example =
    remote_pop_oldest released 4112 [] Reach-released (omega arith) released_quiet refl
