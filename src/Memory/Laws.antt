-- ===== src/Memory/Laws.antt =====
-- What a store leaves for a load: its own value, and nothing changed outside its bytes.
use native.Mathlib.Nat.{pow-suc, div-div-eq-div-mul, mod-add-div}
use mars_memory_allocator.Base.{
  ℕ, zero, suc, ◌+◌, ◌*◌, ◌/◌, ◌%◌, ◌^◌, ◌≤◌, ◌<◌, ◌≡◌, refl, ap, ◌∙◌, ◌⊎◌, inl, List, [], ◌∷◌,
  arith, length,
}
use mars_memory_allocator.Bitmap.{update}
use mars_memory_allocator.Memory.{Mem, load, store, copy, read_bytes, write_bytes}

-- `x` is none of the `n` addresses from `a` on
abbrev pub Outside : ℕ → ℕ → ℕ → Type 0
Outside a n x = (x < a) ⊎ (a + n ≤ x)

-- two ranges that share no address
abbrev pub Apart : ℕ → ℕ → ℕ → ℕ → Type 0
Apart a n b k = (a + n ≤ b) ⊎ (b + k ≤ a)

pub store-Outside : (n : ℕ) (m : Mem) (a v x : ℕ) → Outside a n x → store n m a v x ≡ m x
unfolding store
store-Outside zero m a v x h = refl
store-Outside (suc n) m a v x h =
    ground (arith, store-Outside n (update m a (v % 256)) (a + 1) (v / 256) x)

pub load_ext :
    (n : ℕ) (m m' : Mem) (a : ℕ)
    → ((x : ℕ) → a ≤ x → x < a + n → m' x ≡ m x)
    → load n m' a ≡ load n m a
unfolding load
load_ext zero m m' a h = refl
load_ext (suc n) m m' a h = omega (
  arith,
  h a (omega arith) (omega arith),
  load_ext n m m' (a + 1) (λ x p q. h x (omega arith) (omega arith)),
)

mod-mul-split : (v k : ℕ) → v % 256 + 256 * (v / 256 % k) ≡ v % (256 * k)
mod-mul-split v k =
    let low : v / 256 % k + k * (v / (256 * k)) ≡ v / 256 =
      rw (div-div-eq-div-mul v 256 k) at (mod-add-div (v / 256) k) in
    omega (arith, low, mod-add-div v (256 * k))

update_self : (m : Mem) (a v : ℕ) → update m a v a ≡ v
update_self m a v = ground arith

-- A word stored and loaded again comes back, cut to its width.
pub load-store : (n : ℕ) (m : Mem) (a v : ℕ) → load n (store n m a v) a ≡ v % 256 ^ n
unfolding load store
load-store zero m a v = omega arith
load-store (suc n) m a v =
    let e : 256 ^ suc n ≡ 256 * 256 ^ n = omega (arith, pow-suc 256 n) in
    rw (e, load-store n)
      (omega (
        arith,
        store-Outside n (update m a (v % 256)) (a + 1) (v / 256) a (inl (omega arith)),
        update_self m a (v % 256),
        mod-mul-split v (256 ^ n),
      ))

-- A store leaves every word that it does not overlap.
pub load-store-Apart :
    (n k : ℕ) (m : Mem) (a b v : ℕ) → Apart a k b n → load n (store k m a v) b ≡ load n m b
load-store-Apart n k m a b v h =
    load_ext n m (store k m a v) b (λ x p q. store-Outside k m a v x (ground arith))

-- every address holds a byte
abbrev pub IsMem : Mem → Type 0
IsMem m = (x : ℕ) → m x < 256

pub store-IsMem : (n : ℕ) (m : Mem) (a v : ℕ) → IsMem m → IsMem (store n m a v)
unfolding store
store-IsMem zero m a v h = h
store-IsMem (suc n) m a v h =
    store-IsMem n (update m a (v % 256)) (a + 1) (v / 256) (λ x. ground (arith, h x))

pub load-lt : (n : ℕ) (m : Mem) (a : ℕ) → IsMem m → load n m a < 256 ^ n
unfolding load
load-lt zero m a h = omega arith
load-lt (suc n) m a h = omega (arith, pow-suc 256 n, h a, load-lt n m (a + 1) h)

pub copy-Outside : (n : ℕ) (m : Mem) (dst src x : ℕ) → Outside dst n x → copy n m dst src x ≡ m x
unfolding copy
copy-Outside zero m dst src x h = refl
copy-Outside (suc n) m dst src x h =
    ground (arith, copy-Outside n (update m dst (m src)) (dst + 1) (src + 1) x)

pub load-copy-Apart :
    (n k : ℕ) (m : Mem) (dst src b : ℕ) → Apart dst k b n → load n (copy k m dst src) b ≡ load n m b
load-copy-Apart n k m dst src b h =
    load_ext n m (copy k m dst src) b (λ x p q. copy-Outside k m dst src x (ground arith))

pub write_bytes-Outside :
    (bs : List ℕ) (m : Mem) (a x : ℕ) → Outside a (length bs) x → write_bytes m a bs x ≡ m x
unfolding write_bytes
write_bytes-Outside [] m a x h = refl
write_bytes-Outside (b ∷ bs) m a x h =
    ground (arith, write_bytes-Outside bs (update m a b) (a + 1) x)

-- A buffer written is read back.
pub read_bytes-write_bytes :
    (bs : List ℕ) (m : Mem) (a : ℕ) → read_bytes (length bs) (write_bytes m a bs) a ≡ bs
unfolding read_bytes write_bytes
read_bytes-write_bytes [] m a = refl
read_bytes-write_bytes (b ∷ bs) m a = rw (read_bytes-write_bytes bs) (
    ap (λ t. t ∷ bs)
      (write_bytes-Outside bs (update m a b) (a + 1) a (inl (omega arith)) ∙ update_self m a b))

pub load-write_bytes-Apart :
    (n : ℕ) (bs : List ℕ) (m : Mem) (a b : ℕ)
    → Apart a (length bs) b n
    → load n (write_bytes m a bs) b ≡ load n m b
load-write_bytes-Apart n bs m a b h =
    load_ext n m (write_bytes m a bs) b (λ x p q. write_bytes-Outside bs m a x (ground arith))

pub read_bytes_ext :
    (n : ℕ) (m m' : Mem) (a : ℕ)
    → ((x : ℕ) → a ≤ x → x < a + n → m' x ≡ m x)
    → read_bytes n m' a ≡ read_bytes n m a
unfolding read_bytes
read_bytes_ext zero m m' a h = refl
read_bytes_ext (suc n) m m' a h = rw (
  h a (omega arith) (omega arith),
  read_bytes_ext n m m' (a + 1) (λ x p q. h x (omega arith) (omega arith)),
)
