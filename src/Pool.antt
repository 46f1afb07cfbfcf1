-- ===== src/Pool.antt =====
-- Which thread works in which arena, src/mm_lock.c under MM_LOCK_ARENA: adoption, the end of a
-- thread, and the reset of every arena. An arena is its address and NULL is 0. The memory that a
-- new arena is given and the contents that a reset clears are in Arena and in Remote; a thread
-- holds the lock of the list for the whole of each operation, so each is one step.
pub mod Moves
pub mod Sound
use mars_memory_allocator.Base.{
  ℕ, zero, suc, ◌+◌, ◌-◌, ◌*◌, ◌/◌, ◌%◌, ◌^◌, ◌≤◌, ◌<◌, ◌≡◌, refl, sym, ap, ◌∙◌, ◌≢◌, ◌↔◌, ◌⊎◌, inl,
  inr, Bool, true, false, not, ◌&&◌, ◌||◌, Option, none, some, List, [], ◌∷◌, ◌++◌, arith, ltb, leb,
  ◌==◌, if◌then◌else◌, ltb→lt, lt→ltb, leb→le, le→leb, eq→==, ==_iff, Bool-cases, Option-cases,
  length, get_or, length-append,
}
use mars_memory_allocator.Bitmap.{update}

-- The list of arenas in order, the main one first, the list of orphans through next_orphan, the
-- fields `claimed` and `epoch` of each arena, and of each thread mm_self and its thread-specific value.
pub record Pool : Type 0 where
  pub main : ℕ
  pub main_growable : Bool
  pub arenas : List ℕ
  pub orphans : List ℕ
  pub claimed : ℕ → Bool
  pub epoch_of : ℕ → ℕ
  pub epoch : ℕ
  pub count : ℕ
  pub self : ℕ → ℕ
  pub key : ℕ → ℕ

-- the arena that a thread gets for its own, before it is claimed; none is the main one, shared.
-- `fresh` is what arena_new answers.
unfoldable pub pick : Pool → ℕ → Option (ℕ × Pool)
pick st fresh =
    let grown = record st { arenas = st.arenas ++ (fresh ∷ []); count = st.count + 1 } in
    if not (st.claimed st.main)
    then some (st.main, st)
    else if not st.main_growable
    then none
    else elim st.orphans [
      | [] ↦ if fresh == 0 then none else some (fresh, grown)
      | a ∷ more ↦ some (a, record st { orphans = more })
    ]

-- `a->claimed = true; ... pthread_setspecific(g_thread_key, a);`
abbrev pub settle_in : Pool → (thread a : ℕ) → Pool
settle_in st thread a = record st {
  claimed = update st.claimed a true;
  epoch_of = update st.epoch_of a st.epoch;
  self = update st.self thread a;
  key = update st.key thread a;
}

-- mm_arena_adopt
unfoldable pub arena_adopt : Pool → (thread fresh : ℕ) → ℕ × Pool
unfolding pick
arena_adopt st thread fresh = elim (pick st fresh) [
  | none ↦ (st.main, record st { self = update st.self thread st.main })
  | some r ↦ (r.0, settle_in r.1 thread r.0)
]

-- on_thread_exit
unfoldable pub on_thread_exit : Pool → ℕ → Pool
on_thread_exit st thread =
    let a = st.key thread in
    if a == 0 || a == st.main
    then st
    else if st.claimed a
    then record st { claimed = update st.claimed a false; orphans = a ∷ st.orphans }
    else st

-- `a->claimed = false;` for every arena of the list
unfoldable pub clear_claims : List ℕ → (ℕ → Bool) → ℕ → Bool
clear_claims [] claimed = claimed
clear_claims (a ∷ more) claimed = clear_claims more (update claimed a false)

-- `g_arenas->next_arena` on
unfoldable pub but_first : List ℕ → List ℕ
but_first [] = []
but_first (a ∷ more) = more

-- mm_arenas_reset; mm_arena_reset, which it calls on each arena, clears the main one's `growable`
unfoldable pub arenas_reset : Pool → ℕ → Pool
unfolding clear_claims but_first
arenas_reset st thread = record st {
  main_growable = false;
  epoch = st.epoch + 1;
  claimed = update (clear_claims st.arenas st.claimed) st.main true;
  epoch_of = update st.epoch_of st.main (st.epoch + 1);
  orphans = but_first st.arenas;
  self = update st.self thread st.main;
}

-- how often an arena stands in a list
unfoldable pub occurs : ℕ → List ℕ → ℕ
occurs a [] = 0
occurs a (x ∷ xs) = (if a == x then 1 else 0) + occurs a xs

-- A thread adopts an arena, ends, or resets them all, and mm_arena_init_growable sets whether the
-- main one can grow. What arena_new maps is no arena yet.
pub data PoolStep (st : Pool) : Pool → Type 0 where
  adopting :
      (thread fresh : ℕ) → occurs fresh st.arenas ≡ 0 → PoolStep st (arena_adopt st thread fresh).1
  ending : (thread : ℕ) → PoolStep st (on_thread_exit st thread)
  resetting : (thread : ℕ) → PoolStep st (arenas_reset st thread)
  growing : (growable : Bool) → PoolStep st (record st { main_growable = growable })

-- a process in which no thread has called the allocator yet
abbrev pub new_pool : ℕ → Pool
new_pool main = record {
  main = main;
  main_growable = false;
  arenas = main ∷ [];
  orphans = [];
  claimed = λ _. false;
  epoch_of = λ _. 0;
  epoch = 0;
  count = 1;
  self = λ _. 0;
  key = λ _. 0;
}

pub data PoolReach (main : ℕ) : Pool → Type 0 where
  fresh_pool : PoolReach main (new_pool main)
  then_step : {s t : Pool} → PoolReach main s → PoolStep s t → PoolReach main t
