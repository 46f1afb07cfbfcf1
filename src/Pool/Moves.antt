-- ===== src/Pool/Moves.antt =====
-- What each operation on the arenas of src/mm_lock.c keeps.
use native.Mathlib.Decide.{dec_lt}
use mathlib.Core.Path.{subst}
use mathlib.Core.Option.{none-ne-some, some-injective}
use mars_memory_allocator.Base.{
  ℕ, ◌+◌, ◌≤◌, ◌≡◌, refl, ap, inl, inr, Bool, true, false, ◌||◌, Option, some, List, [], ◌∷◌, ◌++◌,
  arith, ◌==◌, if◌then◌else◌, Bool-cases, Option-cases, length, length-append,
}
use mars_memory_allocator.Pool.{
  Pool, on_thread_exit, occurs, pick, settle_in, arena_adopt, arenas_reset, clear_claims, but_first,
}
use mars_memory_allocator.Bitmap.{update}

abbrev pub bit : Bool → ℕ
bit b = if b then 1 else 0

pub record PoolOk (st : Pool) : Type 0 where
  pub spoken_for : (a : ℕ) → occurs a st.orphans + bit (st.claimed a) ≤ 1
  pub not_main : occurs st.main st.orphans ≡ 0
  pub listed : (a : ℕ) → occurs a st.orphans ≤ occurs a st.arenas
  pub distinct : (a : ℕ) → occurs a st.arenas ≤ 1
  pub claims_listed : (a : ℕ) → bit (st.claimed a) ≤ occurs a st.arenas
  pub first : (rest : List ℕ) × (st.arenas ≡ st.main ∷ rest)
  pub counted : st.count ≡ length st.arenas

occurs-append :
    (a : ℕ) (xs : List ℕ) (x : ℕ)
    → occurs a (xs ++ (x ∷ [])) ≡ occurs a xs + (if a == x then 1 else 0)
unfolding occurs
occurs-append a [] x = omega arith
occurs-append a (y ∷ xs) x = let r = occurs-append a xs x in omega arith

pub on_thread_exit-PoolOk : (st : Pool) (thread : ℕ) → PoolOk st → PoolOk (on_thread_exit st thread)
unfolding on_thread_exit occurs
on_thread_exit-PoolOk st thread v =
    let a = st.key thread in
    elim (Bool-cases (a == 0 || a == st.main)) [
      | inl e ↦ rw e v
      | inr e ↦ elim (Bool-cases (st.claimed a)) [
        | inl c ↦
            rw (e, c)
              (record {
                spoken_for = λ b. let h = v.spoken_for b in ground arith;
                not_main = ground arith;
                listed = λ b.
                    let h = v.listed b in
                    let g = v.claims_listed b in let k = v.spoken_for b in ground arith;
                distinct = v.distinct;
                claims_listed = λ b. let h = v.claims_listed b in ground arith;
                first = v.first;
                counted = v.counted;
              })
        | inr c ↦ rw (e, c) v
      ]
    ]

-- an arena that is on the list and no orphan may be claimed
settle_in-PoolOk :
    (st : Pool) (thread a : ℕ)
    → PoolOk st
    → occurs a st.orphans ≡ 0
    → 1 ≤ occurs a st.arenas
    → PoolOk (settle_in st thread a)
settle_in-PoolOk st thread a v o l = record {
  spoken_for = λ b. let h = v.spoken_for b in ground arith;
  not_main = v.not_main;
  listed = v.listed;
  distinct = v.distinct;
  claims_listed = λ b. let h = v.claims_listed b in ground arith;
  first = v.first;
  counted = v.counted;
}

main_listed : (st : Pool) → PoolOk st → 1 ≤ occurs st.main st.arenas
unfolding occurs
main_listed st v = let f = v.first.1 in rw f (ground arith)

-- the list with a new arena at its end
grown-PoolOk :
    (st : Pool) (fresh : ℕ)
    → PoolOk st
    → occurs fresh st.arenas ≡ 0
    → PoolOk (record st { arenas = st.arenas ++ (fresh ∷ []); count = st.count + 1 })
grown-PoolOk st fresh v z = record {
  spoken_for = v.spoken_for;
  not_main = v.not_main;
  listed = λ b. let h = v.listed b in let e = occurs-append b st.arenas fresh in omega arith;
  distinct = λ b. let h = v.distinct b in let e = occurs-append b st.arenas fresh in ground arith;
  claims_listed =
      λ b. let h = v.claims_listed b in let e = occurs-append b st.arenas fresh in omega arith;
  first = (v.first.0 ++ (fresh ∷ []), rw (v.first.1) refl);
  counted = let c = v.counted in let e = length-append st.arenas (fresh ∷ []) in omega arith;
}

-- the list of orphans without its first
unorphaned-PoolOk :
    (st : Pool) (a : ℕ) (more : List ℕ)
    → PoolOk st
    → st.orphans ≡ a ∷ more
    → PoolOk (record st { orphans = more }) × (occurs a more ≡ 0) × (1 ≤ occurs a st.arenas)
unfolding occurs
unorphaned-PoolOk st a more v e =
    let fewer : (b : ℕ) → occurs b st.orphans ≡ (if b == a then 1 else 0) + occurs b more =
      λ b. ap (occurs b) e in
    (
      record {
        spoken_for = λ b. let h = v.spoken_for b in let f = fewer b in omega arith;
        not_main = let h = v.not_main in let f = fewer st.main in omega arith;
        listed = λ b. let h = v.listed b in let f = fewer b in omega arith;
        distinct = v.distinct;
        claims_listed = v.claims_listed;
        first = v.first;
        counted = v.counted;
      },
      (let h = v.spoken_for a in let f = fewer a in ground arith),
      (let h = v.listed a in let f = fewer a in ground arith),
    )

-- what a thread is given for its own is on the list, and no orphan any more
abbrev Picked : Option (ℕ × Pool) → Type 0
Picked o =
    (r : ℕ × Pool)
    → o ≡ some r
    → PoolOk r.1 × (occurs r.0 r.1.orphans ≡ 0) × (1 ≤ occurs r.0 r.1.arenas)

picked :
    (a : ℕ) (st : Pool)
    → PoolOk st × (occurs a st.orphans ≡ 0) × (1 ≤ occurs a st.arenas)
    → Picked (some (a, st))
picked a st v r e =
    subst (λ t. PoolOk t.1 × (occurs t.0 t.1.orphans ≡ 0) × (1 ≤ occurs t.0 t.1.arenas))
      (some-injective _ _ e) v

pick_orphan :
    (st : Pool) (fresh : ℕ) (orphans : List ℕ)
    → st.orphans ≡ orphans
    → PoolOk st
    → occurs fresh st.arenas ≡ 0
    → st.claimed st.main ≡ true
    → st.main_growable ≡ true
    → Picked (pick st fresh)
unfolding pick
pick_orphan st fresh (a ∷ more) e v z c g =
    rw (c, g, e) (picked a (record st { orphans = more }) (unorphaned-PoolOk st a more v e))
pick_orphan st fresh [] e v z c g = elim (Bool-cases (fresh == 0)) [
  | inl f ↦ rw (c, g, e, f) (λ r h. absurd (none-ne-some r h))
  | inr f ↦
      let grown = record st { arenas = st.arenas ++ (fresh ∷ []); count = st.count + 1 } in
      let o : occurs fresh st.orphans ≡ 0 = let h = v.listed fresh in omega arith in
      let l : 1 ≤ occurs fresh grown.arenas =
        let h = occurs-append fresh st.arenas fresh in ground arith in
      rw (c, g, e, f) (picked fresh grown (grown-PoolOk st fresh v z, o, l))
]

pick-Picked :
    (st : Pool) (fresh : ℕ) → PoolOk st → occurs fresh st.arenas ≡ 0 → Picked (pick st fresh)
unfolding pick
pick-Picked st fresh v z = elim (Bool-cases (st.claimed st.main)) [
  | inr c ↦ rw c (picked st.main st (v, v.not_main, main_listed st v))
  | inl c ↦ elim (Bool-cases st.main_growable) [
    | inr g ↦ rw (c, g) (λ r h. absurd (none-ne-some r h))
    | inl g ↦ pick_orphan st fresh st.orphans refl v z c g
  ]
]

sharing-PoolOk : (st : Pool) (self : ℕ → ℕ) → PoolOk st → PoolOk (record st { self = self })
sharing-PoolOk st self v = record {
  spoken_for = v.spoken_for;
  not_main = v.not_main;
  listed = v.listed;
  distinct = v.distinct;
  claims_listed = v.claims_listed;
  first = v.first;
  counted = v.counted;
}

pub growing-PoolOk :
    (st : Pool) (growable : Bool) → PoolOk st → PoolOk (record st { main_growable = growable })
growing-PoolOk st growable v = record {
  spoken_for = v.spoken_for;
  not_main = v.not_main;
  listed = v.listed;
  distinct = v.distinct;
  claims_listed = v.claims_listed;
  first = v.first;
  counted = v.counted;
}

pub arena_adopt-PoolOk :
    (st : Pool) (thread fresh : ℕ)
    → PoolOk st
    → occurs fresh st.arenas ≡ 0
    → PoolOk (arena_adopt st thread fresh).1
unfolding arena_adopt
arena_adopt-PoolOk st thread fresh v z = elim (Option-cases (pick st fresh)) [
  | inl e ↦ rw (arena_adopt, e) (sharing-PoolOk st (update st.self thread st.main) v)
  | inr e ↦
      let q = pick-Picked st fresh v z e.0 e.1 in
      rw (arena_adopt, e.1) (settle_in-PoolOk e.0.1 thread e.0.0 q.0 q.1 q.2)
]

pub unset : (b : Bool) → bit b ≤ 0 → b ≡ false
unset b h = ground arith

clear_claims_less :
    (l : List ℕ) (c : ℕ → Bool) (a : ℕ)
    → (bit (clear_claims l c a) ≤ bit (c a)) × (1 ≤ occurs a l → clear_claims l c a ≡ false)
unfolding clear_claims occurs
clear_claims_less [] c a = (omega arith, λ h. absurd (omega arith))
clear_claims_less (x ∷ xs) c a =
    let r = clear_claims_less xs (update c x false) a in
    let kept = r.0 in
    (
      ground arith,
      λ h. elim (Bool-cases (a == x)) [
        | inl e ↦ unset _ (ground arith)
        | inr e ↦ r.1 (ground arith)
      ],
    )

pub arenas_reset-PoolOk : (st : Pool) (thread : ℕ) → PoolOk st → PoolOk (arenas_reset st thread)
unfolding arenas_reset but_first occurs
arenas_reset-PoolOk st thread v =
    let rest = v.first.0 in
    let e = v.first.1 in
    let own : (b : ℕ) → occurs b st.arenas ≡ (if b == st.main then 1 else 0) + occurs b rest =
      λ b. ap (occurs b) e in
    let orphans : but_first st.arenas ≡ rest = ap but_first e in
    rw orphans (record {
      spoken_for = λ b.
          let c = clear_claims_less st.arenas st.claimed b in
          let d = v.distinct b in
          let o = own b in
          let c0 = c.0 in
          elim (Bool-cases (b == st.main)) [
            | inl f ↦ ground arith
            | inr f ↦ elim (dec_lt 0 (occurs b rest)) [
              | yes l ↦ let z = c.1 (ground arith) in ground arith
              | no l ↦ ground arith
            ]
          ];
      not_main = let d = v.distinct st.main in let o = own st.main in ground arith;
      listed = λ b. let o = own b in omega arith;
      distinct = v.distinct;
      claims_listed = λ b.
          let c = (clear_claims_less st.arenas st.claimed b).0 in
          let h = v.claims_listed b in let o = own b in ground arith;
      first = v.first;
      counted = v.counted;
    })
