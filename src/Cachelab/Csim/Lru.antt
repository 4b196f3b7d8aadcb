-- ===== src/Cachelab/Csim/Lru.antt =====
-- One access to a set of cachelab/csim.c against the ideal cache: the LRU counters of the lines
-- keep the recency order.
use introduction_to_computer.Common.{
  ℕ, zero, suc, ◌+◌, ◌≤◌, ◌<◌, ◌≡◌, refl, ap, sym, ◌∙◌, inl, inr, none, some, List, [], ◌∷◌, ◌++◌,
  map, false, arith, length, length-append, length-set, length-take, get_or, set, take, ◌==◌,
}
use introduction_to_computer.Cachelab.Csim.{
  CacheInformation, CacheSet, SetLine, empty_line, calloc_lines, min_lru, evict,
}
use introduction_to_computer.Cachelab.Csim.Evict.{Least, evict-Least}
use introduction_to_computer.Cachelab.Csim.Ideal.{Block, Stats, access}
use introduction_to_computer.Cachelab.Csim.Lines.{
  find, Used, update, remove, find-update, Used-update, length-update, find-append, Used-append,
  find-set, Used-set, find-get_or,
}
use introduction_to_computer.Cachelab.Csim.Recency.{
  Falling, Falling-mono, Falling-lru-lt, Falling-remove, Falling-take, last_least, find-remove,
  Used-remove, length-remove, find-take, Used-take,
}
use introduction_to_computer.Cachelab.Csim.Ideal

-- What the ideal cache sees of a line.
abbrev pub view_line : SetLine → Block
view_line l = (l.tag, l.dirty == 1)

abbrev pub view : CacheSet → List Block
view = map view_line

abbrev pub stats : CacheInformation → Stats
stats info = record {
  hits = info.hits;
  misses = info.misses;
  evicts = info.evicts;
  dirty_evicted = info.dirty_evicted;
}

pub lookup-view :
    (t : ℕ) (ls : CacheSet)
    → Ideal.lookup t (view ls) ≡ elim (find t ls) [ none ↦ none | some l ↦ some (l.dirty == 1) ]
unfolding Ideal.lookup find
lookup-view t [] = refl
lookup-view t (l ∷ ls) = ground (arith, lookup-view t ls)

pub view-remove : (t : ℕ) (ls : CacheSet) → Ideal.remove t (view ls) ≡ view (remove t ls)
unfolding Ideal.remove remove
view-remove t [] = refl
view-remove t (l ∷ ls) = ground (arith, view-remove t ls)

pub view-take : (n : ℕ) (ls : CacheSet) → take n (view ls) ≡ view (take n ls)
view-take zero ls = refl
view-take (suc n) [] = refl
view-take (suc n) (l ∷ ls) = ap (◌∷◌ (view_line l)) (view-take n ls)

pub view-get_or :
    (n : ℕ) (ls : CacheSet) → get_or (view ls) n (0, false) ≡ view_line (get_or ls n empty_line)
view-get_or n [] = refl
view-get_or zero (l ∷ ls) = refl
view-get_or (suc n) (l ∷ ls) = view-get_or n ls

-- The lines of a set of `e` lines hold the blocks of `stack`, which stands in the order of the
-- last use, none of them later than `now`.
pub record Refines (e now : ℕ) (lines stack : CacheSet) : Type 0 where
  pub free : ℕ
  pub used : CacheSet
  pub split : lines ≡ used ++ calloc_lines free
  pub room : length used + free ≡ e
  pub used-Used : Used used
  pub stack-Used : Used stack
  pub same : (j : ℕ) → find j used ≡ find j stack
  pub size : length used ≡ length stack
  pub falling : Falling (now + 1) stack

pub Refines-later :
    (e now : ℕ) (lines stack : CacheSet)
    → Refines e now lines stack
    → Refines e (now + 1) lines stack
Refines-later e now lines stack r = record {
  free = r.free;
  used = r.used;
  split = r.split;
  room = r.room;
  used-Used = r.used-Used;
  stack-Used = r.stack-Used;
  same = r.same;
  size = r.size;
  falling = Falling-mono (now + 1) (now + 1 + 1) stack (omega arith) r.falling;
}

-- The line for the block `t` after an access at the time `now`.
abbrev pub fresh_line : (t dirty now : ℕ) → SetLine
fresh_line t dirty now = record { valid = 1; dirty = dirty; lru = now; tag = t }

module _ {e now : ℕ} {lines stack : CacheSet} (r : Refines e now lines stack) (t dirty : ℕ) where
  abbrev pub x : SetLine
  x = fresh_line t dirty (now + 1)

  pub Refines-hit :
      (l : SetLine)
      → find t stack ≡ some l
      → Refines e (now + 1) (update t x r.used ++ calloc_lines r.free) (x ∷ remove t stack)
  unfolding find
  Refines-hit l h =
      let got : find t r.used ≡ some l = r.same t ∙ h in
      record {
        free = r.free;
        used = update t x r.used;
        split = refl;
        room = omega (arith, r.room, length-update t x r.used);
        used-Used = Used-update t x r.used l refl refl r.used-Used got;
        stack-Used =
            (refl, ground (arith, find-remove t t stack), Used-remove t stack r.stack-Used);
        same = λ j. ground (arith, find-update t j x r.used l, find-remove t j stack, r.same j);
        size = omega (arith, r.size, length-update t x r.used, length-remove t stack l h);
        falling = (omega arith, Falling-remove (now + 1) t stack r.falling);
      }

  pub Refines-empty :
      (n : ℕ)
      → r.free ≡ suc n
      → find t stack ≡ none
      → Refines e (now + 1) ((r.used ++ x ∷ []) ++ calloc_lines n) (x ∷ stack)
  unfolding find
  Refines-empty n room h =
      let absent : find t r.used ≡ none = r.same t ∙ h in
      record {
        free = n;
        used = r.used ++ x ∷ [];
        split = refl;
        room = omega (arith, r.room, length-append r.used (x ∷ []));
        used-Used = Used-append x r.used refl r.used-Used absent;
        stack-Used = (refl, h, r.stack-Used);
        same = λ j. ground (arith, find-append j x r.used, r.same j);
        size = omega (arith, r.size, length-append r.used (x ∷ []));
        falling = (omega arith, r.falling);
      }

Least-find : (m t : ℕ) (ls : CacheSet) (l : SetLine) → Least m ls → find t ls ≡ some l → m ≤ l.lru
unfolding find
Least-find m t [] l least h = cc
Least-find m t (y ∷ ls) l least h = ground (arith, Least-find m t ls l)

-- `evict` chooses the line of the block that the recency order has last.
victim-last :
    (n now : ℕ) (used stack : CacheSet)
    → Used used
    → Used stack
    → ((j : ℕ) → find j used ≡ find j stack)
    → length used ≡ length stack
    → length stack ≡ suc n
    → Falling (now + 1) stack
    → now < min_lru
    → (evict used < length used) × (get_or used (evict used) empty_line ≡ get_or stack n empty_line)
unfolding find
victim-last n now [] stack u v same size len f small = absurd (omega arith)
victim-last n now (l ∷ ls) stack u v same size len f small =
    let used : CacheSet = l ∷ ls in
    let first : find l.tag stack ≡ some l = sym (same l.tag) ∙ ground arith in
    let low : l.lru < min_lru = omega (arith, Falling-lru-lt (now + 1) l.tag stack l f first) in
    let (lt, least) = evict-Least l ls low in
    let victim : SetLine = get_or used (evict used) empty_line in
    let last : SetLine = get_or stack n empty_line in
    let at : find victim.tag stack ≡ some victim =
      sym (same victim.tag) ∙ find-get_or (evict used) used u lt in
    let last_at : find last.tag used ≡ some last =
      same last.tag ∙ find-get_or n stack v (omega arith) in
    elim (last_least (now + 1) n victim.tag stack victim f len at) [
      | inl e ↦ (lt, e)
      | inr below ↦ absurd (omega (arith, Least-find victim.lru last.tag used last least last_at))
    ]

module _ {n now : ℕ} {lines stack : CacheSet} (r : Refines (suc n) now lines stack)
    (t dirty : ℕ) where
  pub Refines-full :
      r.free ≡ 0
      → now < min_lru
      → find t stack ≡ none
      → (get_or r.used (evict r.used) empty_line ≡ get_or stack n empty_line)
        × Refines
            (suc n)
            (now + 1)
            (set r.used (evict r.used) (fresh_line t dirty (now + 1)) ++ calloc_lines 0)
            (fresh_line t dirty (now + 1) ∷ take n stack)
  unfolding find
  Refines-full none_free small h =
      let x = fresh_line t dirty (now + 1) in
      let k = evict r.used in
      let absent : find t r.used ≡ none = r.same t ∙ h in
      let len : length stack ≡ suc n = omega (arith, r.room, r.size) in
      let (lt, victim) =
        victim-last n now r.used stack r.used-Used r.stack-Used r.same r.size len r.falling small in
      (
        victim,
        record {
          free = 0;
          used = set r.used k x;
          split = refl;
          room = omega (arith, r.room, length-set r.used k x);
          used-Used = Used-set k x r.used refl r.used-Used lt absent;
          stack-Used =
              (refl, ground (arith, find-take t n stack), Used-take n stack r.stack-Used len);
          same = λ j. ground (arith, find-set j k x r.used, find-take j n stack, r.same j, victim);
          size = omega (arith, length-set r.used k x, length-take n stack, r.size, len);
          falling = (omega arith, Falling-take (now + 1) n stack r.falling);
        },
      )
