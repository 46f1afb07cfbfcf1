-- ===== src/Span/Lookup.antt =====
-- The unit index of src/mm_arena.c: index_put, index_del and index_find together.
use Prim.Native.Nat.{bit_and}
use native.Mathlib.Decide.{dec_lt}
use native.Mathlib.Nat.{one-le-pow, add-mod_right, mod-add-mod, mod-lt, mod-eq_of_lt}
use mars_memory_allocator.Base.{
  ℕ, zero, suc, ◌+◌, ◌-◌, ◌%◌, ◌^◌, ◌<◌, ◌≡◌, refl, sym, ap, ◌∙◌, ◌≢◌, inl, inr, Option, none, some,
  arith, ◌==◌, Bool-cases,
}
use mars_memory_allocator.State.{Index}
use mars_memory_allocator.Base.Bits.{bit_and_mask}
use mars_memory_allocator.Span.{
  tomb, next_slot, slot_for, put_from, index_put, find_from, index_find,
}
use mars_memory_allocator.Span.Probe.{put_from-Puts, find_put_same, find_put_other, live_entry}

-- After index_put files a span that is neither null nor a tombstone under a unit, index_find of
-- that unit finds it, and every other unit that was found before is found as before.
pub index_find-index_put :
    (ix : Index) (unit s : ℕ) (ix' : Index)
    → index_put ix unit s ≡ some ix'
    → s ≢ 0
    → s ≢ tomb
    → (index_find ix' unit ≡ s)
      × ((u : ℕ) → u ≢ unit → index_find ix u ≢ 0 → index_find ix' u ≡ index_find ix u)
unfolding index_find index_put
index_find-index_put ix unit s ix' e nz nt =
    let q = put_from-Puts ix.cap ix unit s (slot_for unit ix.cap) ix' e in
    let same = find_put_same ix.cap ix unit s (slot_for unit ix.cap) ix' e nz nt in
    let here : (u : ℕ) → index_find ix' u ≡ find_from ix.cap ix' u (slot_for u ix.cap) =
      λ u. ap (λ c. find_from c ix' u (slot_for u c)) q.cap_same in
    (
      here unit ∙ same,
      λ u d f. here u ∙ find_put_other ix.cap ix ix' unit s u (slot_for u ix.cap) q nz d f,
    )

next_slot-wraps : (ix : Index) (k i : ℕ) → ix.cap ≡ 2 ^ k → next_slot ix i ≡ (i + 1) % ix.cap
next_slot-wraps ix k i c = rw c (bit_and_mask k (i + 1))

masked-lt : (x size k : ℕ) → size ≡ 2 ^ k → bit_and x (size - 1) < size
masked-lt x size k c = rw (c, bit_and_mask k x) (mod-lt x (one-le-pow k 2 (omega arith)))

slot_for-lt : (unit cap k : ℕ) → cap ≡ 2 ^ k → slot_for unit cap < cap
unfolding slot_for
slot_for-lt unit cap k c = masked-lt _ cap k c

IsStored : Option Index → Type 0
IsStored none = ⊥
IsStored (some _) = Unit

-- a probe that an empty slot lies ahead of, `d` slots on, ends in time
plus_zero : (i : ℕ) → i + 0 ≡ i
plus_zero i = omega arith

put_from_ends :
    (n : ℕ) (ix : Index) (unit s i k d : ℕ)
    → ix.cap ≡ 2 ^ k
    → i < ix.cap
    → d < n
    → ix.span ((i + d) % ix.cap) ≡ 0
    → IsStored (put_from n ix unit s i)
unfolding put_from IsStored
put_from_ends zero ix unit s i k d c l h z = absurd (omega arith)
put_from_ends (suc n) ix unit s i k zero c l h z =
    let here : (i + 0) % ix.cap ≡ i = ap (λ x. x % ix.cap) (plus_zero i) ∙ mod-eq_of_lt l in
    let e : ix.span i ≡ 0 = ap ix.span (sym here) ∙ z in rw e tt
put_from_ends (suc n) ix unit s i k (suc d) c l h z =
    let next = next_slot-wraps ix k i c in
    let on : ((i + 1) % ix.cap + d) % ix.cap ≡ (i + suc d) % ix.cap =
      mod-add-mod (i + 1) ix.cap d ∙ ap (λ x. x % ix.cap) (omega arith) in
    let rest =
      put_from_ends n ix unit s ((i + 1) % ix.cap) k d c (mod-lt (i + 1) (omega arith))
        (omega arith) (ap ix.span on ∙ z) in
    elim (Bool-cases (ix.span i == 0)) [
      | inl e ↦ rw e tt
      | inr e ↦ elim (Bool-cases (live_entry ix unit i)) [
        | inl f ↦ rw (e, f) tt
        | inr f ↦ rw (e, f, next) rest
      ]
    ]

entry_stored : (o : Option Index) → IsStored o → (ix : Index) × (o ≡ some ix)
unfolding IsStored
entry_stored none h = absurd h
entry_stored (some ix) h = (ix, refl)

-- In a table whose size is a power of two and which has an empty slot, the probe of index_put ends
-- within as many steps as the table has slots, whatever the unit hashes to.
pub index_put_ends :
    (ix : Index) (unit s k j : ℕ)
    → ix.cap ≡ 2 ^ k
    → j < ix.cap
    → ix.span j ≡ 0
    → (ix' : Index) × (index_put ix unit s ≡ some ix')
unfolding index_put
index_put_ends ix unit s k j c l z =
    let i = slot_for unit ix.cap in
    let inside = slot_for-lt unit ix.cap k c in
    entry_stored (put_from ix.cap ix unit s i) (elim (dec_lt j i) [
      | yes b ↦
          let on : (i + (j + ix.cap - i)) % ix.cap ≡ j =
            ap (λ x. x % ix.cap) (omega arith) ∙ add-mod_right j ix.cap ∙ mod-eq_of_lt l in
          put_from_ends ix.cap ix unit s i k (j + ix.cap - i) c inside (omega arith)
            (ap ix.span on ∙ z)
      | no b ↦
          let on : (i + (j - i)) % ix.cap ≡ j =
            ap (λ x. x % ix.cap) (omega arith) ∙ mod-eq_of_lt l in
          put_from_ends ix.cap ix unit s i k (j - i) c inside (omega arith) (ap ix.span on ∙ z)
    ])
