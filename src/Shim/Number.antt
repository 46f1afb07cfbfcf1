-- ===== src/Shim/Number.antt =====
-- say_num of src/shim/mm_shim.c: a number written out in decimal, from its last digit backwards.
use native.Mathlib.Nat.{pow-suc}
use mars_memory_allocator.Base.{
  ℕ, zero, suc, ◌+◌, ◌-◌, ◌*◌, ◌/◌, ◌%◌, ◌^◌, ◌≤◌, ◌<◌, ◌≡◌, refl, ap, ◌∙◌, inl, inr, List, [], ◌∷◌,
  arith, ◌==◌, Bool-cases, if◌then◌else◌,
}

-- `while (v != 0 && i > 0) { buf[--i] = (char)('0' + (v % 10)); v /= 10; }` with `i` places left, in
-- front of the text that is there
unfoldable pub digits_from : ℕ → ℕ → List ℕ → List ℕ
digits_from zero v text = text
digits_from (suc i) v text =
    let rest = digits_from i (v / 10) ((b'0' + v % 10) ∷ text) in if v == 0 then text else rest

-- say_num, the text without its terminator; one of the 24 places holds that
unfoldable pub say_num : ℕ → List ℕ
say_num v = if v == 0 then b'0' ∷ [] else digits_from 23 v []

-- the number that a text of digits stands for, after `acc`
abbrev pub read_from : ℕ → List ℕ → ℕ
read_from acc [] = acc
read_from acc (c ∷ cs) = read_from (acc * 10 + (c - b'0')) cs

abbrev pub IsDigits : List ℕ → Type 0
IsDigits [] = Unit {0}
IsDigits (c ∷ cs) = (b'0' ≤ c) × (c ≤ b'9') × IsDigits cs

digits_from-IsDigits : (i v : ℕ) (text : List ℕ) → IsDigits text → IsDigits (digits_from i v text)
unfolding digits_from
digits_from-IsDigits zero v text h = h
digits_from-IsDigits (suc i) v text h = elim (Bool-cases (v == 0)) [
  | inl e ↦ rw e h
  | inr e ↦
      rw e (digits_from-IsDigits i (v / 10) ((b'0' + v % 10) ∷ text) (omega arith, omega arith, h))
]

-- With room for every digit, reading from nothing what was put in front goes on as from the number.
read-digits_from :
    (i v : ℕ) (text : List ℕ) → v < 10 ^ i → read_from 0 (digits_from i v text) ≡ read_from v text
unfolding digits_from
read-digits_from zero v text l = let z : v ≡ 0 = omega arith in rw z refl
read-digits_from (suc i) v text l =
    let c = b'0' + v % 10 in
    let less : v / 10 < 10 ^ i = omega (arith, pow-suc 10 i) in
    let again = read-digits_from i (v / 10) (c ∷ text) less in
    let whole : v / 10 * 10 + (c - b'0') ≡ v = omega arith in
    elim (Bool-cases (v == 0)) [
      | inl e ↦ let z : v ≡ 0 = ground arith in rw (e, z) refl
      | inr e ↦ rw e (again ∙ ap (λ (n : ℕ). read_from n text) whole)
    ]

-- Every 64-bit number is written as decimal digits that read back as that number: the buffer has
-- room for all of them.
pub say_num-reads : (v : ℕ) → v < 2 ^ 64 → (read_from 0 (say_num v) ≡ v) × IsDigits (say_num v)
unfolding say_num
say_num-reads v l = elim (Bool-cases (v == 0)) [
  | inl e ↦ rw e (ground arith, (omega arith, omega arith, tt))
  | inr e ↦ rw e (read-digits_from 23 v [] (omega arith), digits_from-IsDigits 23 v [] tt)
]
