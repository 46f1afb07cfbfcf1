-- ===== src/Confine.antt =====
-- The promise that every profile makes: nothing is written outside the spans, whatever the bytes
-- inside them say. `Confined st st'` holds of a step from `st` to `st'` that keeps it.
pub mod Safe
pub mod Push
pub mod Rebuild
pub mod Lists
pub mod Link
pub mod Abandon
pub mod Mirror
pub mod Rescue
pub mod RecoverNext
pub mod Quarantine
pub mod Join
pub mod Merge
pub mod Patrol
pub mod Free
pub mod Split
pub mod Find
pub mod Fresh
pub mod Malloc
pub mod Hands
pub mod Settle
pub mod Move
pub mod Realloc
pub mod Seal
pub mod Write
use mars_memory_allocator.Base.{
  ℕ, zero, suc, ◌+◌, ◌-◌, ◌*◌, ◌/◌, ◌%◌, ◌^◌, ◌≤◌, ◌<◌, ◌≡◌, refl, sym, ap, ◌∙◌, ◌≢◌, ◌↔◌, ◌⊎◌, inl,
  inr, Bool, true, false, not, ◌&&◌, ◌||◌, Option, none, some, List, [], ◌∷◌, ◌++◌, arith, ltb, leb,
  ◌==◌, if◌then◌else◌, ltb→lt, lt→ltb, leb→le, le→leb, eq→==, ==_iff, Bool-cases, Option-cases,
  length, get_or, length-append,
}
use mars_memory_allocator.Layout.{Profile, fast, hardened, paranoid, min_block}
use mars_memory_allocator.Memory.{Mem, store, copy}
use mars_memory_allocator.Memory.Laws.{store-Outside, copy-Outside}
use mars_memory_allocator.State.{Span, State, with_mem}
use mars_memory_allocator.Span.{span_of, in_span, index_find, unit_of, magic_for}

-- `x` is a byte of no span that the registry answers with
abbrev pub OutsideSpans : State → ℕ → Type 0
OutsideSpans st x =
    (q : ℕ)
    → span_of st q ≢ 0
    → (x < (st.desc (span_of st q)).lo) ⊎ ((st.desc (span_of st q)).hi ≤ x)

pub record Confined (st st' : State) : Type 0 where
  pub same_desc : st'.desc ≡ st.desc
  pub same_user : st'.user ≡ st.user
  pub same_index : st'.index ≡ st.index
  pub same_spans : st'.spans ≡ st.spans
  pub same_count : st'.span_count ≡ st.span_count
  pub outside : (x : ℕ) → OutsideSpans st x → st'.mem x ≡ st.mem x

-- A step that leaves the registry alone leaves its answers alone.
pub Confined-span_of : {st st' : State} → Confined st st' → (q : ℕ) → span_of st' q ≡ span_of st q
unfolding span_of
Confined-span_of c q = rw (c.same_desc, c.same_user, c.same_index) refl

pub Confined-refl : (st : State) → Confined st st
Confined-refl st = record {
  same_desc = refl;
  same_user = refl;
  same_index = refl;
  same_spans = refl;
  same_count = refl;
  outside = λ x h. refl;
}

OutsideSpans-step :
    {st st' : State} → Confined st st' → (x : ℕ) → OutsideSpans st x → OutsideSpans st' x
OutsideSpans-step {st} {st'} c x h q = rw (Confined-span_of c q, c.same_desc) (h q)

pub Confined-trans : {st st' st'' : State} → Confined st st' → Confined st' st'' → Confined st st''
Confined-trans {st} {st'} {st''} c d = record {
  same_desc = d.same_desc ∙ c.same_desc;
  same_user = d.same_user ∙ c.same_user;
  same_index = d.same_index ∙ c.same_index;
  same_spans = d.same_spans ∙ c.same_spans;
  same_count = d.same_count ∙ c.same_count;
  outside = λ x h. d.outside x (OutsideSpans-step c x h) ∙ c.outside x h;
}

-- what the registry answers with holds the address that was asked about
pub span_of_bounds :
    (st : State) (q : ℕ)
    → span_of st q ≢ 0
    → ((st.desc (span_of st q)).lo ≤ q) × (q < (st.desc (span_of st q)).hi)
unfolding span_of
span_of_bounds st q h = ground arith

-- `n` bytes from `a` on lie in the span of `b`
pub record InSpan (st : State) (b a n : ℕ) : Type 0 where
  pub found : span_of st b ≢ 0
  pub above : (st.desc (span_of st b)).lo ≤ a
  pub below : a + n ≤ (st.desc (span_of st b)).hi

pub InSpan-step :
    {st st' : State} {b a n : ℕ} → Confined st st' → InSpan st b a n → InSpan st' b a n
InSpan-step {b = b} c i = record {
  found = rw (Confined-span_of c b) i.found;
  above = rw (Confined-span_of c b, c.same_desc) i.above;
  below = rw (Confined-span_of c b, c.same_desc) i.below;
}

InSpan-outside :
    {st : State} {b a n : ℕ} (x : ℕ) → InSpan st b a n → OutsideSpans st x → (x < a) ⊎ (a + n ≤ x)
InSpan-outside {b = b} x i h = omega (arith, h b i.found, i.above, i.below)

pub store-Confined :
    (st : State) (n a v b : ℕ) → InSpan st b a n → Confined st (with_mem st (store n st.mem a v))
store-Confined st n a v b i = record {
  same_desc = refl;
  same_user = refl;
  same_index = refl;
  same_spans = refl;
  same_count = refl;
  outside = λ x h. store-Outside n st.mem a v x (InSpan-outside x i h);
}

pub copy-Confined :
    (st : State) (n dst src b : ℕ)
    → InSpan st b dst n
    → Confined st (with_mem st (copy n st.mem dst src))
copy-Confined st n dst src b i = record {
  same_desc = refl;
  same_user = refl;
  same_index = refl;
  same_spans = refl;
  same_count = refl;
  outside = λ x h. copy-Outside n st.mem dst src x (InSpan-outside x i h);
}
