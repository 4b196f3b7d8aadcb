-- ===== src/Cachelab/Csim/Step.antt =====
-- One access to the whole cache of cachelab/csim.c against the ideal cache.
use native.Mathlib.Nat.{div-div-eq-div-mul, mod-lt, add_comm}
use introduction_to_computer.Common.{
  ℕ, suc, ◌+◌, ◌/◌, ◌%◌, ◌^◌, ◌<◌, ◌≡◌, refl, some, ap, sym, subst, ◌∙◌, List, [], arith, length,
  get_or, get_or-set, set, ◌==◌, if◌then◌else◌, pow-pos, pow-add, length-set, Bool-cases, inl, inr,
}
use introduction_to_computer.Cachelab.Csim.{
  CacheInformation, Cache, CacheSet, min_lru, run, run_set, get_tag, get_set_index,
}
use introduction_to_computer.Cachelab.Csim.Access.{run_set-access}
use introduction_to_computer.Cachelab.Csim.Address.{get_tag_lem, get_set_index_lem}
use introduction_to_computer.Cachelab.Csim.Ideal.{Block, Stats, Sets, access, access_address}
use introduction_to_computer.Cachelab.Csim.Lru.{view, stats, Refines, Refines-later}

-- The simulator's cache of `2 ^ s` sets of `n + 1` lines holds what the ideal cache holds.
pub record Models (n s b : ℕ) (info : CacheInformation) (c : Cache) (sets : Sets) : Type 0 where
  pub set_bits : c.s ≡ s
  pub block_bits : c.b ≡ b
  pub block_bytes : c.block_size ≡ 2 ^ b
  pub num_sets : length c.sets ≡ 2 ^ s
  pub each :
      (i : ℕ)
      → i < 2 ^ s
      → (stack : CacheSet) × Refines (suc n) info.time (get_or c.sets i []) stack
        × (view stack ≡ sets i)

Models-set :
    (n s b : ℕ) (info info' : CacheInformation) (c : Cache) (sets : Sets) (i : ℕ)
    (lines stack : CacheSet)
    → Models n s b info c sets
    → i < 2 ^ s
    → info'.time ≡ info.time + 1
    → Refines (suc n) (info.time + 1) lines stack
    → Models n s b info'
        (record c { sets = set c.sets i lines })
        (λ j. if j == i then view stack else sets j)
Models-set n s b info info' c sets i lines stack m lt time r = record {
  set_bits = m.set_bits;
  block_bits = m.block_bits;
  block_bytes = m.block_bytes;
  num_sets = omega (arith, length-set c.sets i lines, m.num_sets);
  each = λ j below.
      let got = get_or-set c.sets i j lines [] (omega (arith, m.num_sets)) in
      elim (Bool-cases (j == i)) [
        | inl same ↦ rw (got, same, time) (stack, r, refl)
        | inr other ↦
            let (old, r', v) = m.each j below in
            rw (got, other, time) (old, Refines-later (suc n) info.time _ old r', v)
      ];
}

module _ (n s b : ℕ) (info : CacheInformation) (c : Cache) (sets : Sets)
    (m : Models n s b info c sets) (addr : ℕ) (wide : addr < 2 ^ 64) (few : s < 32)
    (fine : s + b < 64) (small : info.time < min_lru) (sflag : ℕ) where
  abbrev pub i : ℕ
  i = addr / 2 ^ b % 2 ^ s

  abbrev pub t : ℕ
  t = addr / 2 ^ b / 2 ^ s

  in_range : i < 2 ^ s
  in_range = mod-lt (addr / 2 ^ b) (pow-pos s)

  tag_eq : get_tag addr c ≡ some t
  tag_eq =
      simp
        (
          get_tag_lem addr c wide (omega (arith, m.set_bits, m.block_bits)),
          m.set_bits,
          m.block_bits,
        )
        (ap some (rw (add_comm s b, pow-add) (sym (div-div-eq-div-mul addr (2 ^ b) (2 ^ s)))))

  index_eq : get_set_index addr c ≡ some i
  index_eq =
      get_set_index_lem addr c wide (omega (arith, m.set_bits)) (omega (arith, m.block_bits))
      ∙ simp (m.set_bits, m.block_bits)

  -- The simulator after the access.
  abbrev pub next : CacheInformation × Cache
  next =
      let (info', lines) = run_set info (2 ^ b) t sflag (get_or c.sets i []) in
      (info', record c { sets = set c.sets i lines })

  pub run_lem : run info c addr sflag ≡ some next
  unfolding run
  run_lem = rw (run, tag_eq, index_eq, m.block_bytes)

  -- What one access does to the simulator and to the ideal cache.
  abbrev pub After : CacheInformation × Cache → Stats × Sets → Type 0
  After (info', c') (stats', sets') =
      (stats info' ≡ stats') × (info'.time ≡ info.time + 1) × Models n s b info' c' sets'

  After-set :
      (res : CacheInformation × CacheSet) (out : Stats × List Block) (stack : CacheSet)
      → Refines (suc n) (info.time + 1) res.1 stack
      → res.0.time ≡ info.time + 1
      → (stats res.0, view stack) ≡ out
      → After
          (res.0, record c { sets = set c.sets i res.1 })
          (out.0, λ j. if j == i then out.1 else sets j)
  After-set res out stack r time e =
      subst
        (λ o.
          After (res.0, record c { sets = set c.sets i res.1 })
            (o.0, λ j. if j == i then o.1 else sets j))
        e (refl, time, Models-set n s b info res.0 c sets i res.1 stack m in_range time r)

  pub next-Models : After next (access_address (suc n) s b addr (sflag == 1) (stats info, sets))
  unfolding access_address
  next-Models =
      let (stack, r, v) = m.each i in_range in
      let (stack', r', time, out) = run_set-access n (2 ^ b) t sflag info small r in
      After-set _ _ stack' r' time (out ∙ ap (access (suc n) (2 ^ b) t (sflag == 1) (stats info)) v)
