-- ===== src/Layout/Word/Laws.antt =====
-- What the control-word setters of src/mm_layout.h leave for its getters to read.
use mars_memory_allocator.Base.{ℕ, ◌%◌, ◌^◌, ◌<◌, ◌≡◌, Bool, true, false, arith}
use mars_memory_allocator.Layout.Word.{
  size_of, set_size, is_used, prev_in_use, is_quarantined, set_prev_in_use, slack_of, set_word,
}

-- a size that the 54-bit field holds
abbrev pub IsExtent : ℕ → Type 0
IsExtent n = (n % 16 ≡ 0) × (n < 2 ^ 58)

-- `w'` is a 64-bit word that reads as these fields
pub record Reads (w' n slack : ℕ) (used quarantined prev : Bool) : Type 0 where
  pub in_word : w' < 2 ^ 64
  pub size : size_of w' ≡ n
  pub slack_read : slack_of w' ≡ slack
  pub used_read : is_used w' ≡ used
  pub quarantined_read : is_quarantined w' ≡ quarantined
  pub prev_read : prev_in_use w' ≡ prev

-- The word that mm_set_word writes is of 64 bits, reads back the extent, the slack and both flags
-- that it was given, and keeps PREV_IN_USE, for a 16-granular extent below 2^58 and a slack of
-- seven bits.
pub set_word-Reads :
    (w n slack : ℕ) (used quarantined : Bool)
    → IsExtent n
    → slack < 2 ^ 7
    → Reads (set_word w n slack used quarantined) n slack used quarantined (prev_in_use w)
unfolding set_word size_of slack_of is_used is_quarantined prev_in_use
set_word-Reads w n slack true true e s = ground arith
set_word-Reads w n slack true false e s = ground arith
set_word-Reads w n slack false true e s = ground arith
set_word-Reads w n slack false false e s = ground arith

-- Setting the extent of a 64-bit word to a 16-granular one below 2^58 keeps the word in 64 bits,
-- its slack and its three flags.
pub set_size-Reads :
    (w n : ℕ)
    → w < 2 ^ 64
    → IsExtent n
    → Reads (set_size w n) n (slack_of w) (is_used w) (is_quarantined w) (prev_in_use w)
unfolding set_size size_of slack_of is_used is_quarantined prev_in_use
set_size-Reads w n h e = ground arith

-- Setting PREV_IN_USE of a 64-bit word sets that flag and keeps the word in 64 bits, its extent,
-- its slack and its other flags.
pub set_prev_in_use-Reads :
    (w : ℕ) (used : Bool)
    → w < 2 ^ 64
    → Reads (set_prev_in_use w used) (size_of w) (slack_of w) (is_used w) (is_quarantined w) used
unfolding set_prev_in_use size_of slack_of is_used is_quarantined prev_in_use
set_prev_in_use-Reads w true h = ground arith
set_prev_in_use-Reads w false h = ground arith
