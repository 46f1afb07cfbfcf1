-- ===== src/Remote/Inv.antt =====
-- The state of the queue of remote frees, mm_lock.c, between the steps of its threads: which cells
-- are free, which are claimed and by whom, and which are published.
use native.Mathlib.Decide.{dec_lt}
use mars_memory_allocator.Base.{
  ℕ, zero, suc, ◌+◌, ◌%◌, ◌^◌, ◌≤◌, ◌<◌, ◌≡◌, refl, sym, ◌∙◌, ◌≢◌, ◌⊎◌, inl, inr, List, [], ◌∷◌,
  ◌++◌, arith, ◌==◌, Bool-cases, length, get_or, length-append,
}
use mars_memory_allocator.Remote.{
  Ring, verdict, Pc, remote_slots, claimable, idle, trying, seen, late, claimed, filled, pushed,
  refused, cell, sub32, claim, set_pc, succ32,
}

-- the value of a position's sequence number, and its cell
abbrev pub at_seq : Ring → ℕ → ℕ
at_seq r n = r.seq (n % remote_slots)

abbrev pub at_ptr : Ring → ℕ → ℕ
at_ptr r n = r.ptr (n % remote_slots)

-- a thread holds the n-th position for `payload`
pub record Holds (r : Ring) (rest : List ℕ) (from : ℕ) (payload pos : ℕ) : Type 0 where
  pub place : ℕ
  pub inside : place < length rest
  pub is_pos : pos ≡ (from + place) % 2 ^ 32
  pub unpublished : at_seq r (from + place) ≡ (from + place) % 2 ^ 32
  pub own : get_or rest place 0 ≡ payload

-- what a place of the ring holds, when `rest` is claimed and not popped, from position `from` on
unfoldable pub Busy : Ring → List ℕ → ℕ → ℕ → Type 0
Busy r rest from k =
    ((at_seq r (from + k) ≡ (from + k + 1) % 2 ^ 32) × (at_ptr r (from + k) ≡ get_or rest k 0))
    ⊎ (at_seq r (from + k) ≡ (from + k) % 2 ^ 32)

-- what holds of a thread
unfoldable pub OfPc : Ring → List ℕ → ℕ → Pc → Type 0
OfPc r rest from (claimed payload pos) = Holds r rest from payload pos
OfPc r rest from (filled payload pos) = Holds r rest from payload pos × (r.ptr (cell pos) ≡ payload)
OfPc r rest from _ = Unit

abbrev pub Has : Pc → ℕ → Type 0
Has (claimed payload q) pos = q ≡ pos
Has (filled payload q) pos = q ≡ pos
Has _ pos = ⊥

pub record Inv (r : Ring) (pc : ℕ → Pc) (rest : List ℕ) (from : ℕ) : Type 0 where
  pub few : length rest ≤ remote_slots
  pub head_at : r.head ≡ (from + length rest) % 2 ^ 32
  pub tail_at : r.tail ≡ from % 2 ^ 32
  pub free :
      (k : ℕ) → length rest ≤ k → k < remote_slots → at_seq r (from + k) ≡ (from + k) % 2 ^ 32
  pub busy : (k : ℕ) → k < length rest → Busy r rest from k
  pub threads : (i : ℕ) → OfPc r rest from (pc i)
  pub unique : (i j pos : ℕ) → Has (pc i) pos → Has (pc j) pos → i ≡ j

get_or-append_last : (xs : List ℕ) (x : ℕ) → get_or (xs ++ (x ∷ [])) (length xs) 0 ≡ x
get_or-append_last [] x = refl
get_or-append_last (y ∷ xs) x = get_or-append_last xs x

get_or-append_before :
    (xs ys : List ℕ) (k : ℕ) → k < length xs → get_or (xs ++ ys) k 0 ≡ get_or xs k 0
get_or-append_before [] ys k h = absurd (omega arith)
get_or-append_before (x ∷ xs) ys zero h = refl
get_or-append_before (x ∷ xs) ys (suc k) h = get_or-append_before xs ys k (omega arith)

pub claimable_diff :
    (r : Ring) (pos : ℕ) → verdict r pos ≡ claimable → sub32 (r.seq (cell pos)) pos ≡ 0
unfolding verdict
claimable_diff r pos e = ground arith

-- a thread that is not `i` keeps what holds of it, and `i` gets what holds of `q`
pub threads_set :
    (r : Ring) (rest : List ℕ) (from : ℕ) (pc : ℕ → Pc) (i : ℕ) (q : Pc)
    → ((j : ℕ) → j ≢ i → OfPc r rest from (pc j))
    → OfPc r rest from q
    → (j : ℕ) → OfPc r rest from (set_pc pc i q j)
threads_set r rest from pc i q others own j = elim (Bool-cases (j == i)) [
  | inl e ↦ rw e own
  | inr e ↦ rw e (others j (λ h. ground arith))
]

pub unique_set :
    (pc : ℕ → Pc) (i : ℕ) (q : Pc)
    → ((j k pos : ℕ) → Has (pc j) pos → Has (pc k) pos → j ≡ k)
    → ((j pos : ℕ) → Has q pos → j ≢ i → Has (pc j) pos → ⊥)
    → (j k pos : ℕ) → Has (set_pc pc i q j) pos
    → Has (set_pc pc i q k) pos
    → j ≡ k
unique_set pc i q u new j k pos = elim (Bool-cases (j == i)) [
  | inl e ↦ elim (Bool-cases (k == i)) [
    | inl f ↦ λ a b. ground arith
    | inr f ↦ rw (e, f) (λ a b. absurd (new k pos a (λ h. ground arith) b))
  ]
  | inr e ↦ elim (Bool-cases (k == i)) [
    | inl f ↦ rw (e, f) (λ a b. absurd (new j pos b (λ h. ground arith) a))
    | inr f ↦ rw (e, f) (u j k pos)
  ]
]

-- a thread that holds a position has a place in the ring
pub holder :
    (r : Ring) (rest : List ℕ) (from : ℕ) (q : Pc) (pos : ℕ)
    → OfPc r rest from q
    → Has q pos
    → (k : ℕ) × (k < length rest) × (pos ≡ (from + k) % 2 ^ 32)
unfolding OfPc
holder r rest from (claimed payload p) pos h e = (h.place, h.inside, sym e ∙ h.is_pos)
holder r rest from (filled payload p) pos h e = (h.0.place, h.0.inside, sym e ∙ h.0.is_pos)
holder r rest from idle pos h e = absurd e
holder r rest from (trying payload p) pos h e = absurd e
holder r rest from (seen payload p) pos h e = absurd e
holder r rest from (late payload) pos h e = absurd e
holder r rest from pushed pos h e = absurd e
holder r rest from refused pos h e = absurd e

Holds-append :
    {r r' : Ring} {rest : List ℕ} {from payload pos : ℕ} (x : ℕ)
    → Holds r rest from payload pos
    → r'.seq ≡ r.seq
    → Holds r' (rest ++ (x ∷ [])) from payload pos
Holds-append {rest = rest} x h e = record {
  place = h.place;
  inside = omega (arith, length-append rest (x ∷ []), h.inside);
  is_pos = h.is_pos;
  unpublished = rw e h.unpublished;
  own = get_or-append_before rest (x ∷ []) h.place h.inside ∙ h.own;
}

OfPc-append :
    (r : Ring) (rest : List ℕ) (from x n : ℕ) (q : Pc)
    → OfPc r rest from q
    → OfPc (record r { head = n }) (rest ++ (x ∷ [])) from q
unfolding OfPc
OfPc-append r rest from x n (claimed payload pos) h = Holds-append x h refl
OfPc-append r rest from x n (filled payload pos) h = (Holds-append x h.0 refl, h.1)
OfPc-append r rest from x n idle h = tt
OfPc-append r rest from x n (trying payload pos) h = tt
OfPc-append r rest from x n (seen payload pos) h = tt
OfPc-append r rest from x n (late payload) h = tt
OfPc-append r rest from x n pushed h = tt
OfPc-append r rest from x n refused h = tt

pub win-Inv :
    {r : Ring} {pc : ℕ → Pc} {rest : List ℕ} {from : ℕ} (i payload : ℕ)
    → Inv r pc rest from
    → length rest < remote_slots
    → Inv (claim r r.head) (set_pc pc i (claimed payload r.head)) (rest ++ (payload ∷ [])) from
unfolding Busy OfPc
win-Inv {r} {pc} {rest} {from} i payload v few =
    let len = length-append rest (payload ∷ []) in
    let at = v.head_at in
    record {
      few = omega arith;
      head_at = omega arith;
      tail_at = v.tail_at;
      free = λ k l u. v.free k (omega arith) u;
      busy = λ k l. elim (dec_lt k (length rest)) [
        | yes b ↦ rw (get_or-append_before rest (payload ∷ []) k b) (v.busy k b)
        | no g ↦
            let same : k ≡ length rest = omega arith in inr (v.free k (omega arith) (omega arith))
      ];
      threads =
          threads_set (claim r r.head) (rest ++ (payload ∷ [])) from pc i (claimed payload r.head)
            (λ j n. OfPc-append r rest from payload (succ32 r.head) (pc j) (v.threads j))
            (record {
              place = length rest;
              inside = omega arith;
              is_pos = at;
              unpublished = v.free (length rest) (omega arith) few;
              own = get_or-append_last rest payload;
            });
      unique = unique_set pc i (claimed payload r.head) v.unique (λ j pos a n b.
          let h = holder r rest from (pc j) pos (v.threads j) b in
          let l = h.1 in let p = h.2 in omega arith);
    }
