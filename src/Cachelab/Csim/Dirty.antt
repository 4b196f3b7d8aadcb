-- ===== src/Cachelab/Csim/Dirty.antt =====
-- The dirty bytes that `dirtyInCache` of cachelab/csim.c counts are those of the ideal cache.
use introduction_to_computer.Common.{
  ℕ, zero, suc, ◌+◌, ◌<◌, ◌≡◌, refl, ap, sym, ◌∙◌, some, List, [], ◌∷◌, ◌++◌, arith, length, get_or,
  ◌==◌, if◌then◌else◌,
}
use introduction_to_computer.Cachelab.Csim.{
  CacheSet, SetLine, calloc_lines, dirty_in_set, dirty_in_sets,
}
use introduction_to_computer.Cachelab.Csim.Ideal.{Sets, dirty_bytes, dirty_from}
use introduction_to_computer.Cachelab.Csim.Lines.{find, Used, remove}
use introduction_to_computer.Cachelab.Csim.Recency.{find-remove, Used-remove, length-remove}
use introduction_to_computer.Cachelab.Csim.Lru.{view, Refines}

dirty-remove :
    (n t : ℕ) (ls : CacheSet) (l : SetLine)
    → find t ls ≡ some l
    → dirty_in_set n ls ≡ (if l.dirty == 1 then n else 0) + dirty_in_set n (remove t ls)
unfolding find remove dirty_in_set
dirty-remove n t [] l h = cc
dirty-remove n t (x ∷ ls) l h = ground (arith, dirty-remove n t ls l)

dirty_same :
    (n : ℕ) (ls ks : CacheSet)
    → Used ls
    → Used ks
    → ((j : ℕ) → find j ls ≡ find j ks)
    → length ls ≡ length ks
    → dirty_in_set n ls ≡ dirty_in_set n ks
unfolding find dirty_in_set
dirty_same n [] [] u v same size = refl
dirty_same n [] (k ∷ ks) u v same size = absurd (omega arith)
dirty_same n (l ∷ ls) ks u v same size =
    let found : find l.tag ks ≡ some l = sym (same l.tag) ∙ ground arith in
    omega (
      arith,
      dirty-remove n l.tag ks l found,
      dirty_same n ls (remove l.tag ks) u.2 (Used-remove l.tag ks v)
          (λ j. ground (arith, same j, find-remove l.tag j ks))
          (omega (arith, length-remove l.tag ks l found)),
    )

dirty-free : (n k : ℕ) (ls : CacheSet) → dirty_in_set n (ls ++ calloc_lines k) ≡ dirty_in_set n ls
unfolding dirty_in_set calloc_lines
dirty-free n zero [] = refl
dirty-free n (suc k) [] = omega (arith, dirty-free n k [])
dirty-free n k (l ∷ ls) = omega (arith, dirty-free n k ls)

dirty-view : (n : ℕ) (ls : CacheSet) → dirty_bytes n (view ls) ≡ dirty_in_set n ls
unfolding dirty_bytes dirty_in_set
dirty-view n [] = refl
dirty-view n (l ∷ ls) = omega (arith, dirty-view n ls)

pub dirty-Refines :
    (n : ℕ) {e now : ℕ} {lines stack : CacheSet}
    → Refines e now lines stack
    → dirty_in_set n lines ≡ dirty_bytes n (view stack)
dirty-Refines n {stack} r =
    rw (r.split, dirty-free, dirty-view)
      (dirty_same n r.used stack r.used-Used r.stack-Used r.same r.size)

pub dirty_in_sets-dirty_from :
    (n i : ℕ) (sets : List CacheSet) (blocks : Sets)
    → ((k : ℕ)
        → k < length sets
        → dirty_in_set n (get_or sets k []) ≡ dirty_bytes n (blocks (i + k)))
    → dirty_in_sets n sets ≡ dirty_from n blocks i (length sets)
unfolding dirty_in_sets dirty_from
dirty_in_sets-dirty_from n i [] blocks h = refl
dirty_in_sets-dirty_from n i (ls ∷ sets) blocks h =
    let e : i + 0 ≡ i = omega arith in
    omega (
      arith,
      h 0 (omega arith),
      ap (λ k. dirty_bytes n (blocks k)) e,
      dirty_in_sets-dirty_from n (i + 1) sets blocks
          (λ k lt. let e' : i + 1 + k ≡ i + suc k = omega arith in rw e' (h (suc k) (omega arith))),
    )
