-- ===== src/Shim/Grants.antt =====
-- The blocks that the bootstrap pool of src/shim/mm_shim.c handed out, as they lie in memory.
use mars_memory_allocator.Base.{
  ℕ, ◌+◌, ◌-◌, ◌%◌, ◌≤◌, ◌<◌, ◌≡◌, ◌∙◌, ◌⊎◌, inl, inr, List, [], ◌∷◌, arith,
}
use mars_memory_allocator.Bitmap.{update}
use mars_memory_allocator.Memory.{Mem, load}
use mars_memory_allocator.Memory.Laws.{load_ext}

-- the blocks that were handed out, the latest first: their addresses and sizes
abbrev pub Grants : Type 0
Grants = List (ℕ × ℕ)

abbrev pub Within : ℕ → Grants → Type 0
Within x [] = ⊥
Within x ((at, size) ∷ gs) = ((at ≤ x) × (x < at + size)) ⊎ Within x gs

-- Every block lies below `top` and above those handed out before it, aligned, with its header in
-- front of it.
abbrev pub Stacked : ℕ → Mem → ℕ → Grants → Type 0
Stacked pool m top [] = Unit {0}
Stacked pool m top ((at, size) ∷ gs) =
    (pool + 16 ≤ at)
    × (at % 16 ≡ 0)
    × (at + size ≤ top)
    × (load 8 m (at - 16) ≡ size)
    × Stacked pool m (at - 16) gs

pub Stacked-above :
    (m m' : Mem) (pool top : ℕ) (gs : Grants)
    → ((x : ℕ) → x < top → m' x ≡ m x)
    → Stacked pool m top gs
    → Stacked pool m' top gs
Stacked-above m m' pool top [] h s = s
Stacked-above m m' pool top ((at, size) ∷ gs) h s =
    let low = s.0 in
    let below = s.2 in
    let head : load 8 m' (at - 16) ≡ load 8 m (at - 16) =
      load_ext 8 m m' (at - 16) (λ x g u. h x (omega arith)) in
    (s.0, s.1, s.2, head ∙ s.3, Stacked-above m m' pool (at - 16) gs (λ x u. h x (omega arith)) s.4)

pub Within-below :
    (m : Mem) (pool top x : ℕ) (gs : Grants) → Stacked pool m top gs → Within x gs → x < top
Within-below m pool top x [] s w = absurd w
Within-below m pool top x ((at, size) ∷ gs) s (inl w) = omega (arith, s.2)
Within-below m pool top x ((at, size) ∷ gs) s (inr w) =
    omega (arith, Within-below m pool (at - 16) x gs s.4 w, s.0, s.2)

pub Stacked-put :
    (m : Mem) (pool top x v : ℕ) (gs : Grants)
    → Stacked pool m top gs
    → Within x gs
    → Stacked pool (update m x v) top gs
Stacked-put m pool top x v [] s w = absurd w
Stacked-put m pool top x v ((at, size) ∷ gs) s (inl w) =
    let low = s.0 in
    let head : load 8 (update m x v) (at - 16) ≡ load 8 m (at - 16) =
      load_ext 8 m (update m x v) (at - 16) (λ y g u. ground arith) in
    (
      s.0,
      s.1,
      s.2,
      head ∙ s.3,
      Stacked-above m (update m x v) pool (at - 16) gs (λ y u. ground arith) s.4,
    )
Stacked-put m pool top x v ((at, size) ∷ gs) s (inr w) =
    let low = Within-below m pool (at - 16) x gs s.4 w in
    let head : load 8 (update m x v) (at - 16) ≡ load 8 m (at - 16) =
      load_ext 8 m (update m x v) (at - 16) (λ y g u. ground arith) in
    (s.0, s.1, s.2, head ∙ s.3, Stacked-put m pool (at - 16) x v gs s.4 w)
