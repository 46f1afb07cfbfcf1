-- ===== src/Registry.antt =====
-- The unit index and the span descriptors, as src/mm_arena.c keeps them: adding a unit with the
-- rehash that makes room, drawing and recycling descriptors, and registering a span.
use mars_memory_allocator.Base.{
  ℕ, zero, suc, ◌+◌, ◌-◌, ◌*◌, Bool, true, false, not, ◌||◌, Option, none, some, ltb, ◌==◌,
  if◌then◌else◌,
}
use mars_memory_allocator.State.{Index, Span, State, is_user, user_span, sub64}
use mars_memory_allocator.Platform.{Platform, sys_alloc}
use mars_memory_allocator.Span.{index_del, index_put, unit_of, tomb}

-- MM_INDEX_STATIC, and the sizes of mm_index, mm_unit_slot and mm_span on a 64-bit machine
abbrev pub index_static : ℕ
index_static = 1024

abbrev pub index_bytes : ℕ
index_bytes = 16

abbrev pub slot_bytes : ℕ
slot_bytes = 16

abbrev pub span_bytes : ℕ
span_bytes = 80

-- `while (cap < live * 4) cap *= 2;`, for as many doublings as a size_t has room for
unfoldable pub grown_cap : ℕ → ℕ → ℕ → ℕ
grown_cap zero cap need = cap
grown_cap (suc doublings) cap need =
    let rest = grown_cap doublings (cap * 2) need in if ltb cap need then rest else cap

-- the entries of the slots from 0 up to `n` of the old table, put into the new one
unfoldable pub put_all : ℕ → Index → Index → Option Index
put_all zero old ix = some ix
put_all (suc n) old ix =
    let s = old.span n in
    elim (put_all n old ix) [
      | none ↦ none
      | some ix1 ↦ if s == 0 || s == tomb then some ix1 else index_put ix1 (old.unit n) s
    ]

abbrev pub empty_index : ℕ → Index
empty_index cap = record { cap = cap; unit = λ _. 0; span = λ _. 0 }

abbrev pub zero_span : Span
zero_span = record {
  magic = 0;
  lo = 0;
  hi = 0;
  next = 0;
  index_base = 0;
  map_base = 0;
  map_size = 0;
  kind = user_span;
  fresh = false;
  trim_after = 0;
}

-- `*s = v` on a descriptor
abbrev pub set_desc : State → ℕ → Span → State
set_desc st s v = record st { desc = λ x. if x == s then v else st.desc x }

module _ (os : Platform) where
  -- index_rehash
  unfoldable pub index_rehash : State → Bool × State
  unfolding put_all
  index_rehash st =
      let cap = grown_cap 64 index_static ((st.index_live + 1) * 4) in
      let (table, st1) = sys_alloc os st (index_bytes + cap * slot_bytes) in
      if table == 0 then (false, st1) else elim (put_all st.index.cap st.index (empty_index cap)) [
        | none ↦ (false, st1)
        | some ix ↦ (true, record st1 { index = ix; index_used = st.index_live })
      ]

  -- the end of index_add, on a table with room
  unfoldable pub index_enter : State → ℕ → ℕ → Bool × State
  index_enter st unit s = elim (index_put st.index unit s) [
    | none ↦ (false, st)
    | some ix ↦ (
      true,
      record st { index = ix; index_used = st.index_used + 1; index_live = st.index_live + 1 },
    )
  ]

  -- index_add
  unfoldable pub index_add : State → ℕ → ℕ → Bool × State
  unfolding index_rehash index_enter
  index_add st unit s =
      let (roomy, st1) = index_rehash st in
      if ltb ((st.index_used + 1) * 2) st.index.cap
      then index_enter st unit s
      else if roomy
      then index_enter st1 unit s
      else (false, st1)

  -- index_del, with the count of live entries
  unfoldable pub index_drop : State → ℕ → State
  index_drop st unit =
      let (ix, gone) = index_del st.index unit in
      record st { index = ix; index_live = if gone then sub64 st.index_live 1 else st.index_live }

  -- `for (v = first; v < first + n; v++) index_del(v);`
  unfoldable pub drop_units : ℕ → State → ℕ → State
  unfolding index_drop
  drop_units zero st first = st
  drop_units (suc n) st first = drop_units n (index_drop st first) (first + 1)

  -- the loop of mm_span_register from the unit `u` on, for `n` units, of which `before` are filed
  unfoldable pub add_units : ℕ → State → (u s before : ℕ) → Bool × State
  unfolding index_add drop_units
  add_units zero st u s before = (true, st)
  add_units (suc n) st u s before =
      let (ok', st1) = index_add st u s in
      let rest = add_units n st1 (u + 1) s (before + 1) in
      if ok' then rest else (false, drop_units before st1 (u - before))

  -- the units that a mapping covers
  abbrev pub first_unit : Span → ℕ
  first_unit sp = unit_of sp.map_base

  abbrev pub unit_count : Span → ℕ
  unit_count sp = unit_of (sp.map_base + sp.map_size - 1) + 1 - unit_of sp.map_base

  -- mm_span_register
  unfoldable pub span_register : State → ℕ → Bool × State
  unfolding add_units
  span_register st s =
      let sp = st.desc s in
      if is_user sp.kind
      then (true, record st { user = s })
      else add_units (unit_count sp) st (first_unit sp) s 0

  -- mm_span_unregister
  unfoldable pub span_unregister : State → ℕ → State
  unfolding drop_units
  span_unregister st s =
      let sp = st.desc s in
      if is_user sp.kind
      then (if st.user == s then record st { user = 0 } else st)
      else drop_units (unit_count sp) st (first_unit sp)

  -- the end of span_desc_alloc: a descriptor off the slab
  unfoldable pub slab_take : State → ℕ × State
  slab_take st = (
    st.slab,
    set_desc (record st { slab = st.slab + span_bytes; slab_left = st.slab_left - span_bytes })
        st.slab zero_span,
  )

  -- span_desc_alloc; 0 is NULL
  unfoldable pub span_desc_alloc : State → ℕ × State
  unfolding slab_take
  span_desc_alloc st =
      let (page, st1) = sys_alloc os st os.page in
      let st2 = record st1 { slab = page } in
      if not (st.pool == 0)
      then (st.pool, set_desc (record st { pool = (st.desc st.pool).next }) st.pool zero_span)
      else if not (ltb st.slab_left span_bytes)
      then slab_take st
      else if page == 0
      then (0, st2)
      else slab_take (record st2 { slab_left = os.page })

  -- span_desc_free
  unfoldable pub span_desc_free : State → ℕ → State
  span_desc_free st s = record (set_desc st s (record (st.desc s) { next = st.pool })) { pool = s }
