-- ===== src/Remote/Pop.antt =====
-- mm_remote_pop of mm_lock.c keeps the state of the queue and takes its first pointer.
use native.Mathlib.Decide.{dec_lt}
use mars_memory_allocator.Base.{
  ℕ, zero, suc, ◌+◌, ◌%◌, ◌^◌, ◌<◌, ◌≡◌, refl, sym, ap, ◌∙◌, ◌≢◌, inl, inr, List, ◌∷◌, arith,
  length, get_or,
}
use mars_memory_allocator.Bitmap.{update}
use mars_memory_allocator.Remote.{
  Ring, Pc, remote_slots, idle, trying, seen, late, claimed, filled, pushed, refused, cell, sub32,
  succ32, remote_pop,
}
use mars_memory_allocator.Remote.Inv.{at_seq, Holds, Busy, OfPc, Inv}
use mars_memory_allocator.Remote.Moves.{update_at, update_other, cells_apart, cell_of, Same}

-- the ring after a pop that finds a pointer
abbrev pub popped : Ring → Ring
popped r = record r {
  ptr = update r.ptr (cell r.tail) 0;
  tail = succ32 r.tail;
  seq = update r.seq (cell r.tail) ((r.tail + remote_slots) % 2 ^ 32);
}

abbrev pub Ready : Ring → Type 0
Ready r = sub32 (r.seq (cell r.tail)) (succ32 r.tail) ≡ 0

pub remote_pop_found : (r : Ring) → Ready r → remote_pop r ≡ (r.ptr (cell r.tail), popped r)
unfolding remote_pop
remote_pop_found r e = rw e refl

popped_seq_at :
    (r : Ring) (from : ℕ)
    → r.tail ≡ from % 2 ^ 32
    → at_seq (popped r) from ≡ (from + remote_slots) % 2 ^ 32
popped_seq_at r from e =
    let wraps : (r.tail + remote_slots) % 2 ^ 32 ≡ (from + remote_slots) % 2 ^ 32 = omega arith in
    ap (popped r).seq (sym (cell_of r.tail from e))
    ∙ update_at r.seq (cell r.tail) ((r.tail + remote_slots) % 2 ^ 32)
    ∙ wraps

pub popped-Same :
    (r : Ring) (from k : ℕ)
    → r.tail ≡ from % 2 ^ 32
    → suc k < remote_slots
    → Same r (popped r) (from + suc k)
popped-Same r from k e l =
    let at : cell r.tail ≡ (from + 0) % remote_slots = cell_of r.tail (from + 0) (omega arith) in
    let apart : cell r.tail ≢ (from + suc k) % remote_slots =
      rw at (cells_apart from 0 (suc k) (omega arith) l (λ h. omega arith)) in
    (
      update_other r.seq (cell r.tail) ((r.tail + remote_slots) % 2 ^ 32) _ apart,
      update_other r.ptr (cell r.tail) 0 _ apart,
    )

-- where the pop finds a pointer, the ring is not empty and its first place is published
pub popped_first :
    {r : Ring} {pc : ℕ → Pc} {rest : List ℕ} {from : ℕ}
    → Inv r pc rest from
    → Ready r
    → (0 < length rest) × (at_seq r (from + 0) ≡ (from + 1) % 2 ^ 32)
unfolding Busy
popped_first {r} {pc} {rest} {from} v e =
    let t = v.tail_at in
    let s : r.seq (cell r.tail) ≡ at_seq r (from + 0) =
      ap r.seq (cell_of r.tail (from + 0) (omega arith)) in
    elim (dec_lt 0 (length rest)) [
      | yes l ↦ (l, elim (v.busy 0 l) [ inl b ↦ let p = b.0 in omega arith | inr b ↦ omega arith ])
      | no n ↦ let f = v.free 0 (omega arith) (omega arith) in absurd (omega arith)
    ]

pub shift : (from k : ℕ) → from + 1 + k ≡ from + suc k
shift from k = omega arith

Busy-shift :
    (r r' : Ring) (x : ℕ) (rest : List ℕ) (from k : ℕ)
    → Same r r' (from + suc k)
    → Busy r (x ∷ rest) from (suc k)
    → Busy r' rest (from + 1) k
unfolding Busy
Busy-shift r r' x rest from k s (inl b) = rw (shift from k) (inl (s.0 ∙ b.0, s.1 ∙ b.1))
Busy-shift r r' x rest from k s (inr b) = rw (shift from k) (inr (s.0 ∙ b))

before : (n : ℕ) → 0 < n → (k : ℕ) × (n ≡ suc k)
before zero l = absurd (omega arith)
before (suc k) l = (k, refl)

-- a thread holds no place that is published
Holds-later :
    (r : Ring) (rest : List ℕ) (from payload pos : ℕ)
    → at_seq r (from + 0) ≡ (from + 1) % 2 ^ 32
    → (h : Holds r rest from payload pos) → (k : ℕ) × (h.place ≡ suc k)
Holds-later r rest from payload pos first h = elim (dec_lt 0 h.place) [
  | yes l ↦ before h.place l
  | no n ↦
      let u = h.unpublished in
      let z : h.place ≡ 0 = omega arith in
      let s : at_seq r (from + h.place) ≡ at_seq r (from + 0) = ap (λ k. at_seq r (from + k)) z in
      absurd (omega arith)
]

Holds-shift :
    (r r' : Ring) (x : ℕ) (rest : List ℕ) (from payload pos : ℕ)
    → (h : Holds r (x ∷ rest) from payload pos) → (k : ℕ) → h.place ≡ suc k
    → at_seq r' (from + suc k) ≡ at_seq r (from + suc k)
    → Holds r' rest (from + 1) payload pos
Holds-shift r r' x rest from payload pos h k e s =
    let l = h.inside in
    let p = h.is_pos in
    let u = h.unpublished in
    let m : at_seq r (from + h.place) ≡ at_seq r (from + suc k) = ap (λ n. at_seq r (from + n)) e in
    let t : at_seq r' (from + 1 + k) ≡ at_seq r' (from + suc k) = ap (at_seq r') (shift from k) in
    record {
      place = k;
      inside = omega arith;
      is_pos = omega arith;
      unpublished = omega arith;
      own = ap (λ n. get_or (x ∷ rest) n 0) (sym e) ∙ h.own;
    }

OfPc-shift :
    (r r' : Ring) (x : ℕ) (rest : List ℕ) (from : ℕ) (q : Pc)
    → ((k : ℕ) → suc k < remote_slots → Same r r' (from + suc k))
    → length rest < remote_slots
    → at_seq r (from + 0) ≡ (from + 1) % 2 ^ 32
    → OfPc r (x ∷ rest) from q
    → OfPc r' rest (from + 1) q
unfolding OfPc
OfPc-shift r r' x rest from (claimed payload pos) same few first h =
    let k = Holds-later r (x ∷ rest) from payload pos first h in
    let l = h.inside in
    Holds-shift r r' x rest from payload pos h k.0 k.1 (same k.0 (omega (arith, k.1))).0
OfPc-shift r r' x rest from (filled payload pos) same few first h =
    let k = Holds-later r (x ∷ rest) from payload pos first h.0 in
    let l = h.0.inside in
    let p = h.0.is_pos in
    let kept = same k.0 (omega (arith, k.1)) in
    let c : cell pos ≡ (from + suc k.0) % remote_slots =
      cell_of pos (from + suc k.0) (omega (arith, k.1)) in
    (
      Holds-shift r r' x rest from payload pos h.0 k.0 k.1 kept.0,
      ap r'.ptr c ∙ kept.1 ∙ sym (ap r.ptr c) ∙ h.1,
    )
OfPc-shift r r' x rest from idle same few first h = tt
OfPc-shift r r' x rest from (trying payload pos) same few first h = tt
OfPc-shift r r' x rest from (seen payload pos) same few first h = tt
OfPc-shift r r' x rest from (late payload) same few first h = tt
OfPc-shift r r' x rest from pushed same few first h = tt
OfPc-shift r r' x rest from refused same few first h = tt

pub pop-Inv :
    (r : Ring) (pc : ℕ → Pc) (x : ℕ) (rest : List ℕ) (from : ℕ)
    → Inv r pc (x ∷ rest) from
    → Ready r
    → Inv (popped r) pc rest (from + 1) × (r.ptr (cell r.tail) ≡ x)
unfolding Busy
pop-Inv r pc x rest from v e =
    let first = (popped_first v e).1 in
    let few = v.few in
    let at = v.tail_at in
    let h = v.head_at in
    let same : (k : ℕ) → suc k < remote_slots → Same r (popped r) (from + suc k) =
      λ k l. popped-Same r from k at l in
    let c : cell r.tail ≡ (from + 0) % remote_slots = cell_of r.tail (from + 0) (omega arith) in
    (
      record {
        few = omega arith;
        head_at = omega arith;
        tail_at = omega arith;
        free = λ k l b. elim (dec_lt (suc k) remote_slots) [
          | yes u ↦ rw (shift from k) ((same k u).0 ∙ v.free (suc k) (omega arith) u)
          | no n ↦
              let w : (from + 1 + k) % remote_slots ≡ from % remote_slots = omega arith in
              let z : (from + remote_slots) % 2 ^ 32 ≡ (from + 1 + k) % 2 ^ 32 = omega arith in
              ap (popped r).seq w ∙ popped_seq_at r from at ∙ z
        ];
        busy = λ k l.
            Busy-shift r (popped r) x rest from k (same k (omega arith))
              (v.busy (suc k) (omega arith));
        threads =
            λ j. OfPc-shift r (popped r) x rest from (pc j) same (omega arith) first (v.threads j);
        unique = v.unique;
      },
      elim (v.busy 0 (omega arith)) [ inl b ↦ ap r.ptr c ∙ b.1 | inr b ↦ absurd (omega arith) ],
    )
