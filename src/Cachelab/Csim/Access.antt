-- ===== src/Cachelab/Csim/Access.antt =====
-- `run` of cachelab/csim.c on one set does what the ideal cache does.
use mathlib.Core.List.{append-nil}
use native.Mathlib.Nat.{zero-add}
use introduction_to_computer.Common.{
  ℕ-cases, ℕ, suc, ◌+◌, ◌<◌, ◌≡◌, refl, ◌∙◌, inl, inr, none, some, [], ◌∷◌, ◌++◌, arith, length-map,
  get_or, set, ◌==◌, Option-cases, if◌then◌else◌,
}
use introduction_to_computer.Cachelab.Csim.{
  CacheInformation, CacheSet, SetLine, empty_line, calloc_lines, min_lru, evict, run_set,
  after_search, add_line, touch_line,
}
use introduction_to_computer.Cachelab.Csim.Ideal.{access}
use introduction_to_computer.Cachelab.Csim.Lines.{
  find, Used, update, find-tag, find-valid, search_hit, search_miss, set-append,
}
use introduction_to_computer.Cachelab.Csim.Lru.{
  view_line, view, stats, lookup-view, view-remove, view-take, view-get_or, Refines, fresh_line,
  Refines-hit, Refines-empty, Refines-full,
}

abbrev new_dirty : (sflag old : ℕ) → ℕ
new_dirty sflag old = if sflag == 1 then 1 else old

module _ (info : CacheInformation) (block_size t sflag : ℕ) (used : CacheSet) (u : Used used) where
  abbrev now : ℕ
  now = info.time + 1

  run_set-hit :
      (rest : CacheSet) (l : SetLine)
      → find t used ≡ some l
      → run_set info block_size t sflag (used ++ rest) ≡ (
        record info { time = now; hits = info.hits + 1 },
        update t (fresh_line t (new_dirty sflag l.dirty) now) used ++ rest,
      )
  unfolding run_set after_search touch_line
  run_set-hit rest l h =
      let (k, found, got, put) = search_hit 0 t used rest l u h in
      let same : record l { lru = now; dirty = new_dirty sflag l.dirty }
          ≡ fresh_line t (new_dirty sflag l.dirty) now =
        ground (arith, find-tag t used l h, find-valid t used l u h) in
      rw (found, zero-add) (simp (got, same, put))

  run_set-empty :
      (n : ℕ)
      → find t used ≡ none
      → run_set info block_size t sflag (used ++ calloc_lines (suc n)) ≡ (
        record info { time = now; misses = info.misses + 1 },
        (used ++ fresh_line t (new_dirty sflag 0) now ∷ []) ++ calloc_lines n,
      )
  unfolding run_set after_search add_line calloc_lines
  run_set-empty n h =
      let found = search_miss 0 t used (calloc_lines (suc n)) u h in
      rw (found, zero-add) (simp set-append)

  run_set-full :
      find t used ≡ none
      → run_set info block_size t sflag (used ++ calloc_lines 0) ≡ (
        record info {
          time = now;
          misses = info.misses + 1;
          evicts = info.evicts + 1;
          dirty_evicted =
              if (get_or used (evict used) empty_line).dirty == 1
              then info.dirty_evicted + block_size
              else info.dirty_evicted;
        },
        set used (evict used) (fresh_line t (new_dirty sflag 0) now) ++ calloc_lines 0,
      )
  unfolding run_set after_search add_line calloc_lines
  run_set-full h =
      let found = search_miss 0 t used (calloc_lines 0) u h in rw found (simp append-nil)

-- A set of `n + 1` lines after an access, against the ideal cache after the same access.
abbrev pub Follows :
    (n block_size t sflag : ℕ) → CacheInformation → CacheSet → CacheInformation × CacheSet → Type 0
Follows n block_size t sflag info stack (info', lines') =
    (stack' : CacheSet) × Refines (suc n) (info.time + 1) lines' stack'
    × (info'.time ≡ info.time + 1)
    × ((stats info', view stack')
        ≡ access (suc n) block_size t (sflag == 1) (stats info) (view stack))

module _ (n block_size t sflag : ℕ) (info : CacheInformation) (small : info.time < min_lru)
    {lines stack : CacheSet} (r : Refines (suc n) info.time lines stack) where
  Follows-hit :
      (l : SetLine)
      → find t stack ≡ some l
      → Follows n block_size t sflag info stack
          (run_set info block_size t sflag (r.used ++ calloc_lines r.free))
  unfolding access
  Follows-hit l h =
      rw
        (run_set-hit info block_size t sflag r.used r.used-Used (calloc_lines r.free) l
          (r.same t ∙ h))
        (
          _,
          Refines-hit r t (new_dirty sflag l.dirty) l h,
          refl,
          ground (arith, lookup-view t stack, view-remove t stack, h),
        )

  Follows-miss :
      find t stack ≡ none
      → Follows n block_size t sflag info stack
          (run_set info block_size t sflag (r.used ++ calloc_lines r.free))
  unfolding access
  Follows-miss h = elim (ℕ-cases r.free) [
    | inl e ↦
        let (victim, r') = Refines-full r t (new_dirty sflag 0) e small h in
        rw (e, run_set-full info block_size t sflag r.used r.used-Used (r.same t ∙ h))
          (
            _,
            r',
            refl,
            ground (
              arith,
              lookup-view t stack,
              length-map stack view_line,
              r.room,
              r.size,
              view-take n stack,
              view-get_or n stack,
              victim,
            ),
          )
    | inr (m, e) ↦
        rw (e, run_set-empty info block_size t sflag r.used r.used-Used m (r.same t ∙ h))
          (
            _,
            Refines-empty r t (new_dirty sflag 0) m e h,
            refl,
            ground (arith, lookup-view t stack, length-map stack view_line, r.room, r.size),
          )
  ]

  pub run_set-access :
      Follows n block_size t sflag info stack (run_set info block_size t sflag lines)
  run_set-access =
      rw r.split (elim (Option-cases (find t stack)) [
        | inl h ↦ Follows-miss h
        | inr (l, h) ↦ Follows-hit l h
      ])
