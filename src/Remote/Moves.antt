-- ===== src/Remote/Moves.antt =====
-- The stores of a push of mm_lock.c, and the pop of the owner, keep the state of the queue.
use mathlib.Core.Path.{subst}
use native.Mathlib.Decide.{ℕ_discrete}
use mars_memory_allocator.Base.{
  ℕ, ◌+◌, ◌%◌, ◌^◌, ◌<◌, ◌≡◌, refl, sym, ap, ◌∙◌, ◌≢◌, inl, inr, List, arith, length,
}
use mars_memory_allocator.Bitmap.{update}
use mars_memory_allocator.Remote.{
  Ring, Pc, remote_slots, idle, trying, seen, late, claimed, filled, pushed, refused, cell, set_pc,
  succ32, fill_cell, publish_cell,
}
use mars_memory_allocator.Remote.Inv.{
  at_seq, at_ptr, Holds, Busy, OfPc, Has, Inv, threads_set, unique_set,
}

pub update_at : (f : ℕ → ℕ) (i v : ℕ) → update f i v i ≡ v
update_at f i v = ground arith

pub update_other : (f : ℕ → ℕ) (i v j : ℕ) → i ≢ j → update f i v j ≡ f j
update_other f i v j n = ground arith

pub cells_apart :
    (from j k : ℕ)
    → j < remote_slots
    → k < remote_slots
    → j ≢ k
    → (from + j) % remote_slots ≢ (from + k) % remote_slots
cells_apart from j k l m n e = n (omega arith)

pub cell_of : (pos n : ℕ) → pos ≡ n % 2 ^ 32 → cell pos ≡ n % remote_slots
cell_of pos n e = omega arith

-- a place whose cell is left alone
abbrev pub Same : Ring → Ring → ℕ → Type 0
Same r r' n = (at_seq r' n ≡ at_seq r n) × (at_ptr r' n ≡ at_ptr r n)

Holds-kept :
    {r : Ring} (r' : Ring) {rest : List ℕ} {from payload pos : ℕ}
    → (h : Holds r rest from payload pos) → at_seq r' (from + h.place) ≡ at_seq r (from + h.place)
    → Holds r' rest from payload pos
Holds-kept r' h e = record {
  place = h.place;
  inside = h.inside;
  is_pos = h.is_pos;
  unpublished = e ∙ h.unpublished;
  own = h.own;
}

-- a thread keeps what holds of it where the cell it holds is left alone
OfPc-kept :
    (r r' : Ring) (rest : List ℕ) (from : ℕ) (q : Pc)
    → OfPc r rest from q
    → ((k : ℕ) → k < length rest → Has q ((from + k) % 2 ^ 32) → Same r r' (from + k))
    → OfPc r' rest from q
unfolding OfPc
OfPc-kept r r' rest from (claimed payload pos) h s = Holds-kept r' h (s h.place h.inside h.is_pos).0
OfPc-kept r r' rest from (filled payload pos) h s =
    let kept = s h.0.place h.0.inside h.0.is_pos in
    let at = ap r'.ptr (cell_of pos (from + h.0.place) h.0.is_pos) in
    let was = ap r.ptr (cell_of pos (from + h.0.place) h.0.is_pos) in
    (Holds-kept r' h.0 kept.0, at ∙ kept.1 ∙ sym was ∙ h.1)
OfPc-kept r r' rest from idle h s = tt
OfPc-kept r r' rest from (trying payload pos) h s = tt
OfPc-kept r r' rest from (seen payload pos) h s = tt
OfPc-kept r r' rest from (late payload) h s = tt
OfPc-kept r r' rest from pushed h s = tt
OfPc-kept r r' rest from refused h s = tt

-- a thread that gives up its position, or keeps it, leaves the owners of the positions apart
unique_kept :
    (pc : ℕ → Pc) (i : ℕ) (q : Pc)
    → ((j k pos : ℕ) → Has (pc j) pos → Has (pc k) pos → j ≡ k)
    → ((pos : ℕ) → Has q pos → Has (pc i) pos)
    → (j k pos : ℕ) → Has (set_pc pc i q j) pos
    → Has (set_pc pc i q k) pos
    → j ≡ k
unique_kept pc i q u keep = unique_set pc i q u (λ j pos a n b. n (u j i pos b (keep pos a)))

-- a thread changes its place in the program, and no cell
pub quiet-Inv :
    {r : Ring} {pc : ℕ → Pc} {rest : List ℕ} {from : ℕ} (i : ℕ) (q : Pc)
    → Inv r pc rest from
    → OfPc r rest from q
    → ((pos : ℕ) → Has q pos → Has (pc i) pos)
    → Inv r (set_pc pc i q) rest from
quiet-Inv {r} {pc} {rest} {from} i q v h keep = record {
  few = v.few;
  head_at = v.head_at;
  tail_at = v.tail_at;
  free = v.free;
  busy = v.busy;
  threads = threads_set r rest from pc i q (λ j n. v.threads j) h;
  unique = unique_kept pc i q v.unique keep;
}

-- the thread that holds the place k is the only one
others_elsewhere :
    {r : Ring} {pc : ℕ → Pc} {rest : List ℕ} {from : ℕ} (i k : ℕ)
    → Inv r pc rest from
    → Has (pc i) ((from + k) % 2 ^ 32)
    → (j l : ℕ) → j ≢ i
    → Has (pc j) ((from + l) % 2 ^ 32)
    → l ≢ k
others_elsewhere {r} {pc} {rest} {from} i k v own j l n a e =
    n (v.unique j i ((from + k) % 2 ^ 32) (rw (sym e) a) own)

pub of_thread :
    {r : Ring} {pc : ℕ → Pc} {rest : List ℕ} {from : ℕ} (i : ℕ) (q : Pc)
    → Inv r pc rest from
    → pc i ≡ q
    → OfPc r rest from q
of_thread {r} {pc} {rest} {from} i q v e = subst (OfPc r rest from) e (v.threads i)

position_held : (pc : ℕ → Pc) (i : ℕ) (q : Pc) (pos : ℕ) → pc i ≡ q → Has q pos → Has (pc i) pos
position_held pc i q pos e h = rw e h

fill-Same :
    (r : Ring) (payload from k pos l : ℕ)
    → k < remote_slots
    → l < remote_slots
    → pos ≡ (from + k) % 2 ^ 32
    → l ≢ k
    → Same r (fill_cell r pos payload) (from + l)
fill-Same r payload from k pos l a b e n = (
  refl,
  update_other r.ptr (cell pos) payload ((from + l) % remote_slots)
      (rw (cell_of pos (from + k) e) (cells_apart from k l a b (λ h. n (sym h)))),
)

pub publish-Same :
    (r : Ring) (from k pos l : ℕ)
    → k < remote_slots
    → l < remote_slots
    → pos ≡ (from + k) % 2 ^ 32
    → l ≢ k
    → Same r (publish_cell r pos) (from + l)
publish-Same r from k pos l a b e n = (
  update_other r.seq (cell pos) (succ32 pos) ((from + l) % remote_slots)
      (rw (cell_of pos (from + k) e) (cells_apart from k l a b (λ h. n (sym h)))),
  refl,
)

pub publish_at :
    (r : Ring) (n pos : ℕ) → pos ≡ n % 2 ^ 32 → at_seq (publish_cell r pos) n ≡ (n + 1) % 2 ^ 32
publish_at r n pos e =
    let wraps : succ32 pos ≡ (n + 1) % 2 ^ 32 = omega arith in
    ap (publish_cell r pos).seq (sym (cell_of pos n e))
    ∙ update_at r.seq (cell pos) (succ32 pos)
    ∙ wraps

Busy-kept :
    (r r' : Ring) (rest : List ℕ) (from k : ℕ)
    → Same r r' (from + k)
    → Busy r rest from k
    → Busy r' rest from k
unfolding Busy
Busy-kept r r' rest from k s (inl b) = inl (s.0 ∙ b.0, s.1 ∙ b.1)
Busy-kept r r' rest from k s (inr b) = inr (s.0 ∙ b)

pub store_ptr-Inv :
    {r : Ring} {pc : ℕ → Pc} {rest : List ℕ} {from : ℕ} (i payload pos : ℕ)
    → Inv r pc rest from
    → pc i ≡ claimed payload pos
    → Inv (fill_cell r pos payload) (set_pc pc i (filled payload pos)) rest from
unfolding OfPc Busy
store_ptr-Inv {r} {pc} {rest} {from} i payload pos v e =
    let h : Holds r rest from payload pos = of_thread i (claimed payload pos) v e in
    let r' = fill_cell r pos payload in
    let few = v.few in
    let in_ring = h.inside in
    let same : (l : ℕ) → l < length rest → l ≢ h.place → Same r r' (from + l) =
      λ l b n. fill-Same r payload from h.place pos l (omega arith) (omega arith) h.is_pos n in
    let mine : Has (pc i) ((from + h.place) % 2 ^ 32) =
      position_held pc i (claimed payload pos) _ e h.is_pos in
    record {
      few = v.few;
      head_at = v.head_at;
      tail_at = v.tail_at;
      free = v.free;
      busy = λ k l. elim (ℕ_discrete k h.place) [
        | yes d ↦ rw d (inr h.unpublished)
        | no n ↦ Busy-kept r r' rest from k (same k l n) (v.busy k l)
      ];
      threads =
          threads_set r' rest from pc i (filled payload pos)
            (λ j n.
              OfPc-kept r r' rest from (pc j) (v.threads j)
                (λ k l a. same k l (others_elsewhere i h.place v mine j k n a)))
            (Holds-kept r' h refl, update_at r.ptr (cell pos) payload);
      unique =
          unique_kept pc i (filled payload pos) v.unique
            (λ p a. position_held pc i (claimed payload pos) p e a);
    }

pub publish-Inv :
    {r : Ring} {pc : ℕ → Pc} {rest : List ℕ} {from : ℕ} (i payload pos : ℕ)
    → Inv r pc rest from
    → pc i ≡ filled payload pos
    → Inv (publish_cell r pos) (set_pc pc i pushed) rest from
unfolding OfPc Busy
publish-Inv {r} {pc} {rest} {from} i payload pos v e =
    let at : OfPc r rest from (filled payload pos) = of_thread i (filled payload pos) v e in
    let h = at.0 in
    let r' = publish_cell r pos in
    let few = v.few in
    let in_ring = h.inside in
    let same : (l : ℕ) → l < remote_slots → l ≢ h.place → Same r r' (from + l) =
      λ l b n. publish-Same r from h.place pos l (omega arith) b h.is_pos n in
    let mine : Has (pc i) ((from + h.place) % 2 ^ 32) =
      position_held pc i (filled payload pos) _ e h.is_pos in
    let c : cell pos ≡ (from + h.place) % remote_slots = cell_of pos (from + h.place) h.is_pos in
    record {
      few = v.few;
      head_at = v.head_at;
      tail_at = v.tail_at;
      free = λ k l b. (same k b (omega arith)).0 ∙ v.free k l b;
      busy = λ k l. elim (ℕ_discrete k h.place) [
        | yes d ↦
            rw d (
              inl (publish_at r (from + h.place) pos h.is_pos, ap r.ptr (sym c) ∙ at.1 ∙ sym h.own))
        | no n ↦ Busy-kept r r' rest from k (same k (omega arith) n) (v.busy k l)
      ];
      threads =
          threads_set r' rest from pc i pushed
            (λ j n.
              OfPc-kept r r' rest from (pc j) (v.threads j)
                (λ k l a. same k (omega arith) (others_elsewhere i h.place v mine j k n a)))
            tt;
      unique = unique_kept pc i pushed v.unique (λ p a. absurd a);
    }
