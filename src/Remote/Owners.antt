-- ===== src/Remote/Owners.antt =====
-- A cell of the queue of mm_lock.c that is claimed and not published has a thread that holds it.
use native.Mathlib.Decide.{dec_lt, ℕ_discrete}
use mathlib.Core.Path.{subst}
use mars_memory_allocator.Base.{
  ℕ, suc, ◌+◌, ◌%◌, ◌^◌, ◌<◌, ◌≡◌, sym, ap, ◌∙◌, inl, inr, true, List, [], ◌∷◌, ◌++◌, arith, ◌==◌,
  Bool-cases, length, length-append,
}
use mars_memory_allocator.Remote.{
  Ring, Pc, claimed, filled, pushed, cell, claim, set_pc, publish_cell,
}
use mars_memory_allocator.Remote.Inv.{at_seq, Busy, OfPc, Has, Inv}
use mars_memory_allocator.Remote.Moves.{publish-Same, publish_at, of_thread}
use mars_memory_allocator.Remote.Pop.{Ready, popped, popped-Same, shift}

abbrev pub Owned : Ring → (ℕ → Pc) → List ℕ → ℕ → Type 0
Owned r pc rest from =
    (k : ℕ)
    → k < length rest
    → at_seq r (from + k) ≡ (from + k) % 2 ^ 32
    → (j : ℕ) × Has (pc j) ((from + k) % 2 ^ 32)

owner_set :
    (pc : ℕ → Pc) (i : ℕ) (q : Pc) (pos : ℕ)
    → (Has (pc i) pos → Has q pos)
    → (j : ℕ) × Has (pc j) pos
    → (j : ℕ) × Has (set_pc pc i q j) pos
owner_set pc i q pos keep o = elim (Bool-cases (o.0 == i)) [
  | inl e ↦
      let same : o.0 ≡ i = ground arith in (o.0, rw e (keep (subst (λ n. Has (pc n) pos) same o.1)))
  | inr e ↦ (o.0, rw e o.1)
]

pub quiet-Owned :
    (r : Ring) (pc : ℕ → Pc) (rest : List ℕ) (from i : ℕ) (q : Pc)
    → Owned r pc rest from
    → ((pos : ℕ) → Has (pc i) pos → Has q pos)
    → Owned r (set_pc pc i q) rest from
quiet-Owned r pc rest from i q o keep k l s =
    owner_set pc i q ((from + k) % 2 ^ 32) (keep ((from + k) % 2 ^ 32)) (o k l s)

pub win-Owned :
    (r : Ring) (pc : ℕ → Pc) (rest : List ℕ) (from i payload : ℕ)
    → Inv r pc rest from
    → Owned r pc rest from
    → ((pos : ℕ) → Has (pc i) pos → ⊥)
    → Owned (claim r r.head) (set_pc pc i (claimed payload r.head)) (rest ++ (payload ∷ [])) from
win-Owned r pc rest from i payload v o free k l s =
    let len = length-append rest (payload ∷ []) in
    let q = claimed payload r.head in
    let pos = (from + k) % 2 ^ 32 in
    let self : (i == i) ≡ true = ground arith in
    elim (dec_lt k (length rest)) [
      | yes b ↦ owner_set pc i q pos (λ h. absurd (free pos h)) (o k b s)
      | no g ↦
          let last : k ≡ length rest = omega arith in
          (i, rw self (v.head_at ∙ ap (λ n. (from + n) % 2 ^ 32) (sym last)))
    ]

pub publish-Owned :
    (r : Ring) (pc : ℕ → Pc) (rest : List ℕ) (from i payload pos : ℕ)
    → Inv r pc rest from
    → Owned r pc rest from
    → pc i ≡ filled payload pos
    → Owned (publish_cell r pos) (set_pc pc i pushed) rest from
unfolding OfPc
publish-Owned r pc rest from i payload pos v o e k l s =
    let at : OfPc r rest from (filled payload pos) = of_thread i (filled payload pos) v e in
    let h = at.0 in
    let few = v.few in
    let in_ring = h.inside in
    let p = h.is_pos in
    elim (ℕ_discrete k h.place) [
      | yes d ↦
          let was = publish_at r (from + k) pos (p ∙ ap (λ n. (from + n) % 2 ^ 32) (sym d)) in
          absurd (omega arith)
      | no n ↦
          let kept = (publish-Same r from h.place pos k (omega arith) (omega arith) p n).0 in
          owner_set pc i pushed ((from + k) % 2 ^ 32)
            (λ a.
              let mine : pos ≡ (from + k) % 2 ^ 32 = subst (λ t. Has t ((from + k) % 2 ^ 32)) e a in
              n (omega arith))
            (o k l (sym kept ∙ s))
    ]

pub pop-Owned :
    (r : Ring) (pc : ℕ → Pc) (x : ℕ) (rest : List ℕ) (from : ℕ)
    → Inv r pc (x ∷ rest) from
    → Owned r pc (x ∷ rest) from
    → Owned (popped r) pc rest (from + 1)
pop-Owned r pc x rest from v o k l s =
    let few = v.few in
    let at = v.tail_at in
    let same = popped-Same r from k at (omega arith) in
    let here : at_seq (popped r) (from + 1 + k) ≡ at_seq (popped r) (from + suc k) =
      ap (at_seq (popped r)) (shift from k) in
    let wraps : (from + 1 + k) % 2 ^ 32 ≡ (from + suc k) % 2 ^ 32 =
      ap (λ n. n % 2 ^ 32) (shift from k) in
    let h = o (suc k) (omega arith) (sym same.0 ∙ sym here ∙ s ∙ wraps) in
    (h.0, subst (Has (pc h.0)) (sym wraps) h.1)

-- the first pointer waits in a cell that is published, where no thread holds a position
pub first_published :
    (r : Ring) (pc : ℕ → Pc) (rest : List ℕ) (from : ℕ)
    → Inv r pc rest from
    → Owned r pc rest from
    → ((i pos : ℕ) → Has (pc i) pos → ⊥)
    → 0 < length rest
    → Ready r
unfolding Busy
first_published r pc rest from v o quiet l =
    let t = v.tail_at in
    let s : r.seq (cell r.tail) ≡ at_seq r (from + 0) = ap r.seq (omega arith) in
    elim (v.busy 0 l) [
      | inl b ↦ let p = b.0 in omega arith
      | inr b ↦ let h = o 0 l b in absurd (quiet h.0 _ h.1)
    ]
