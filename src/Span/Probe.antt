-- ===== src/Span/Probe.antt =====
-- The unit index of src/mm_arena.c: what a probe finds after an entry is put or removed.
use mathlib.Core.Option.{none-ne-some, some-injective}
use mathlib.Core.Path.{subst}
use mars_memory_allocator.Base.{
  ℕ, zero, suc, ◌≡◌, refl, sym, ap, ◌∙◌, ◌≢◌, inl, inr, Bool, true, false, not, ◌&&◌, ◌||◌, some,
  arith, ◌==◌, Bool-cases,
}
use mars_memory_allocator.State.{Index}
use mars_memory_allocator.Span.{tomb, next_slot, put_from, find_from}

-- a slot that a put of `unit` takes
abbrev pub takes : Index → ℕ → ℕ → Bool
takes ix unit i = ix.span i == 0 || (not (ix.span i == tomb) && ix.unit i == unit)

-- one slot that takes `unit` now holds it for `s`, and the others are as they were
pub record Puts (ix ix' : Index) (unit s : ℕ) : Type 0 where
  pub slot : ℕ
  pub took : takes ix unit slot ≡ true
  pub holds : ix'.span slot ≡ s
  pub names : ix'.unit slot ≡ unit
  pub cap_same : ix'.cap ≡ ix.cap
  pub spans_kept : (j : ℕ) → j ≢ slot → ix'.span j ≡ ix.span j
  pub units_kept : (j : ℕ) → j ≢ slot → ix'.unit j ≡ ix.unit j

pub put_from-Puts :
    (n : ℕ) (ix : Index) (unit s i : ℕ) (ix' : Index)
    → put_from n ix unit s i ≡ some ix'
    → Puts ix ix' unit s
unfolding put_from
put_from-Puts zero ix unit s i ix' e = absurd (none-ne-some ix' e)
put_from-Puts (suc n) ix unit s i ix' e = elim (Bool-cases (ix.span i == 0)) [
  | inl z ↦
      let f = rw z at e in
      subst (λ t. Puts ix t unit s) (some-injective _ _ f)
        (record {
          slot = i;
          took = rw z refl;
          holds = ground arith;
          names = ground arith;
          cap_same = refl;
          spans_kept = λ j d. ground arith;
          units_kept = λ j d. ground arith;
        })
  | inr z ↦ elim (Bool-cases (not (ix.span i == tomb) && ix.unit i == unit)) [
    | inl h ↦
        let f = rw (z, h) at e in
        subst (λ t. Puts ix t unit s) (some-injective _ _ f)
          (record {
            slot = i;
            took = rw (z, h) refl;
            holds = ground arith;
            names = ground arith;
            cap_same = refl;
            spans_kept = λ j d. ground arith;
            units_kept = λ j d. refl;
          })
    | inr h ↦ put_from-Puts n ix unit s (next_slot ix i) ix' (rw (z, h) at e)
  ]
]

-- a probe that finds a live entry, by its rounds
find_hit :
    (n : ℕ) (ix : Index) (unit i : ℕ)
    → ix.span i ≢ 0
    → (not (ix.span i == tomb) && ix.unit i == unit) ≡ true
    → find_from (suc n) ix unit i ≡ ix.span i
unfolding find_from
find_hit n ix unit i z h = let f : (ix.span i == 0) ≡ false = ground (arith, z) in rw (f, h) refl

find_skip :
    (n : ℕ) (ix : Index) (unit i : ℕ)
    → ix.span i ≢ 0
    → (not (ix.span i == tomb) && ix.unit i == unit) ≡ false
    → find_from (suc n) ix unit i ≡ find_from n ix unit (next_slot ix i)
unfolding find_from
find_skip n ix unit i z h = let f : (ix.span i == 0) ≡ false = ground (arith, z) in rw (f, h) refl

find_empty : (n : ℕ) (ix : Index) (unit i : ℕ) → ix.span i ≡ 0 → find_from (suc n) ix unit i ≡ 0
unfolding find_from
find_empty n ix unit i z = rw z refl

slots_apart : (f : ℕ → Bool) (i j : ℕ) → f i ≡ false → f j ≡ true → i ≢ j
slots_apart f i j a b e = cc

abbrev pub live_entry : Index → ℕ → ℕ → Bool
live_entry ix unit i = not (ix.span i == tomb) && ix.unit i == unit

put_here :
    (n : ℕ) (ix : Index) (unit s i : ℕ) (ix' : Index)
    → put_from (suc n) ix unit s i ≡ some ix'
    → takes ix unit i ≡ true
    → (ix'.span i ≡ s) × (ix'.unit i ≡ unit)
unfolding put_from
put_here n ix unit s i ix' e t = elim (Bool-cases (ix.span i == 0)) [
  | inl z ↦
      subst (λ x. (x.span i ≡ s) × (x.unit i ≡ unit)) (some-injective _ _ (rw z at e))
        (ground arith, ground arith)
  | inr z ↦
      let h : live_entry ix unit i ≡ true = ground arith in
      subst (λ x. (x.span i ≡ s) × (x.unit i ≡ unit)) (some-injective _ _ (rw (z, h) at e))
        (ground arith, ground arith)
]

pub find_put_same :
    (n : ℕ) (ix : Index) (unit s i : ℕ) (ix' : Index)
    → put_from n ix unit s i ≡ some ix'
    → s ≢ 0
    → s ≢ tomb
    → find_from n ix' unit i ≡ s
unfolding put_from
find_put_same zero ix unit s i ix' e nz nt = absurd (none-ne-some ix' e)
find_put_same (suc n) ix unit s i ix' e nz nt = elim (Bool-cases (takes ix unit i)) [
  | inl t ↦
      let at : (ix'.span i ≡ s) × (ix'.unit i ≡ unit) = put_here n ix unit s i ix' e t in
      find_hit n ix' unit i (rw at.0 nz) (ground (arith, at)) ∙ at.0
  | inr t ↦
      let z : (ix.span i == 0) ≡ false = ground arith in
      let h : live_entry ix unit i ≡ false = ground arith in
      let f : put_from n ix unit s (next_slot ix i) ≡ some ix' = rw (z, h) at e in
      let q = put_from-Puts n ix unit s (next_slot ix i) ix' f in
      let d : i ≢ q.slot = slots_apart (takes ix unit) i q.slot t q.took in
      let sp = q.spans_kept i d in
      let un = q.units_kept i d in
      let skip = find_skip n ix' unit i (λ m. ground arith) (rw (sp, un) h) in
      let next : next_slot ix' i ≡ next_slot ix i = rw q.cap_same refl in
      skip ∙ ap (find_from n ix' unit) next ∙ find_put_same n ix unit s (next_slot ix i) ix' f nz nt
]

pub nonzero : (x : ℕ) → (x == 0) ≡ false → x ≢ 0
nonzero x z e = ground arith

-- a live entry of another unit is not the slot that was taken
named_apart :
    (ix : Index) (u unit i j : ℕ)
    → (ix.span i == 0) ≡ false
    → live_entry ix u i ≡ true
    → takes ix unit j ≡ true
    → u ≢ unit
    → i ≢ j
named_apart ix u unit i j z h t d e =
    let a : takes ix unit i ≡ true = rw e t in
    let l : (ix.unit i == u) ≡ true = ground arith in
    let k : (ix.unit i == unit) ≡ true = ground arith in d (ground arith)

now_skipped :
    (ix ix' : Index) (unit s u i : ℕ)
    → (q : Puts ix ix' unit s) → s ≢ 0
    → u ≢ unit
    → (ix.span i == 0) ≡ false
    → live_entry ix u i ≡ false
    → (ix'.span i ≢ 0) × (live_entry ix' u i ≡ false)
now_skipped ix ix' unit s u i q nz d z h = elim (Bool-cases (i == q.slot)) [
  | inl m ↦
      let e : i ≡ q.slot = ground arith in
      let sp : ix'.span i ≡ s = ap ix'.span e ∙ q.holds in
      let un : ix'.unit i ≡ unit = ap ix'.unit e ∙ q.names in
      let other : (unit == u) ≡ false = ground (arith, d) in
      (rw sp nz, rw (un, other) (ground arith))
  | inr m ↦
      let a : i ≢ q.slot = λ e. ground arith in
      (rw (q.spans_kept i a) (nonzero (ix.span i) z), rw (q.spans_kept i a, q.units_kept i a) h)
]

pub find_put_other :
    (n : ℕ) (ix ix' : Index) (unit s u i : ℕ)
    → Puts ix ix' unit s
    → s ≢ 0
    → u ≢ unit
    → find_from n ix u i ≢ 0
    → find_from n ix' u i ≡ find_from n ix u i
unfolding find_from
find_put_other zero ix ix' unit s u i q nz d f = refl
find_put_other (suc n) ix ix' unit s u i q nz d f = elim (Bool-cases (ix.span i == 0)) [
  | inl z ↦ absurd (f (rw z refl))
  | inr z ↦
      let next : next_slot ix' i ≡ next_slot ix i = rw q.cap_same refl in
      let here = q.took in
      let holds = q.holds in
      let names = q.names in
      elim (Bool-cases (live_entry ix u i)) [
        | inl h ↦
            let a : i ≢ q.slot = λ e. named_apart ix u unit i q.slot z h here d e in
            find_hit n ix' u i (rw (q.spans_kept i a) (nonzero (ix.span i) z))
              (rw (q.spans_kept i a, q.units_kept i a) h)
            ∙ q.spans_kept i a
            ∙ sym (find_hit n ix u i (nonzero (ix.span i) z) h)
        | inr h ↦
            let was = find_skip n ix u i (nonzero (ix.span i) z) h in
            let g : find_from n ix u (next_slot ix i) ≢ 0 = λ e. f (was ∙ e) in
            let rest = find_put_other n ix ix' unit s u (next_slot ix i) q nz d g in
            let now : (ix'.span i ≢ 0) × (live_entry ix' u i ≡ false) =
              now_skipped ix ix' unit s u i q nz d z h in
            find_skip n ix' u i now.0 now.1 ∙ ap (find_from n ix' u) next ∙ rest ∙ sym was
      ]
]
