-- ===== src/Proxylab/Threads/Exclusion.antt =====
-- Which threads of proxylab/proxy.c use the cache at the same time.
use introduction_to_computer.Common.{
  ℕ, ◌≡◌, ◌≢◌, ◌∙◌, refl, sym, ap, subst, Bool, true, false, ◌==◌, ==-apart, Bool-cases, inl, inr,
  arith,
}
use introduction_to_computer.Proxylab.Threads.{
  Stage, created, locking, searching, inside, Passes, init_fails, reply, no_server, too_long,
  received, makes_no_room, Takes, take_to_search, take_to_add, Leaves, hit, miss, added, World,
  move, initialize, pass, take, leave, Reachable, here, later, start,
}

-- At most one thread holds the lock, and it is held exactly when one does.
pub record Exclusive (w : World) : Type 0 where
  pub one : (t u : ℕ) → inside (w.stage t) ≡ true → inside (w.stage u) ≡ true → t ≡ u
  pub held : w.locked ≡ true → (t : ℕ) × (inside (w.stage t) ≡ true)
  pub free : w.locked ≡ false → (t : ℕ) → inside (w.stage t) ≡ false

pub move_self : (t : ℕ) (s : Stage) (stage : ℕ → Stage) → move t s stage t ≡ s
move_self t s stage = ground arith

pub move_other : (t u : ℕ) (s : Stage) (stage : ℕ → Stage) → u ≢ t → move t s stage u ≡ stage u
move_other t u s stage ne = rw (==-apart u t ne)

-- A thread that is outside before and after changes nothing.
inside-move :
    (t u : ℕ) (s : Stage) (stage : ℕ → Stage)
    → inside (stage t) ≡ inside s
    → inside (move t s stage u) ≡ inside (stage u)
inside-move t u s stage e = elim (Bool-cases (u == t)) [
  | inl same ↦
      (let eq : u ≡ t = ground arith in rw same (sym e ∙ ap (λ v. inside (stage v)) (sym eq)))
  | inr other ↦ rw other
]

stay-Exclusive :
    (w : World) (t : ℕ) (s : Stage) (l : Bool)
    → inside (w.stage t) ≡ inside s
    → l ≡ w.locked
    → Exclusive w
    → Exclusive (record { stage = move t s w.stage; locked = l })
stay-Exclusive w t s l e el x =
    let same : (u : ℕ) → inside (move t s w.stage u) ≡ inside (w.stage u) =
      λ u. inside-move t u s w.stage e in
    record {
      one = λ a b ia ib. x.one a b (sym (same a) ∙ ia) (sym (same b) ∙ ib);
      held = λ h. (let (a, ia) = x.held (sym el ∙ h) in (a, same a ∙ ia));
      free = λ h a. same a ∙ x.free (sym el ∙ h) a;
    }

-- Who is inside after a thread went in where none was, or came out.
holder :
    (t a : ℕ) (s : Stage) (stage : ℕ → Stage)
    → ((u : ℕ) → inside (stage u) ≡ false)
    → inside (move t s stage a) ≡ true
    → a ≡ t
holder t a s stage none_in ia = elim (Bool-cases (a == t)) [
  | inl same ↦ ground arith
  | inr other ↦ absurd (cc (none_in a, rw other at ia))
]

none_left :
    (t a : ℕ) (s : Stage) (stage : ℕ → Stage)
    → ((u : ℕ) → inside (stage u) ≡ true → u ≡ t)
    → inside s ≡ false
    → inside (move t s stage a) ≡ false
none_left t a s stage only out = elim (Bool-cases (a == t)) [
  | inl same ↦ rw same out
  | inr other ↦ rw other (elim (Bool-cases (inside (stage a))) [
    | inl ia ↦ (let e = only a ia in absurd (ground arith))
    | inr oa ↦ oa
  ])
]

take-Exclusive :
    (w : World) (t : ℕ) (s : Stage)
    → w.locked ≡ false
    → inside s ≡ true
    → Exclusive w
    → Exclusive (record { stage = move t s w.stage; locked = true })
take-Exclusive w t s unlocked in_s x = record {
  one = λ a b ia ib.
      holder t a s w.stage (x.free unlocked) ia ∙ sym (holder t b s w.stage (x.free unlocked) ib);
  held = λ h. (t, rw (move_self t s w.stage) in_s);
  free = λ h a. absurd (cc h);
}

leave-Exclusive :
    (w : World) (t : ℕ) (s : Stage)
    → inside (w.stage t) ≡ true
    → inside s ≡ false
    → Exclusive w
    → Exclusive (record { stage = move t s w.stage; locked = false })
leave-Exclusive w t s in_t out x =
    let out_all : (a : ℕ) → inside (move t s w.stage a) ≡ false =
      λ a. none_left t a s w.stage (λ u iu. x.one u t iu in_t) out in
    record {
      one = λ a b ia ib. absurd (cc (out_all a, ia));
      held = λ h. absurd (cc h);
      free = λ h a. out_all a;
    }

Passes-outside : {s s' : Stage} → Passes s s' → inside s ≡ inside s'
Passes-outside init_fails = refl
Passes-outside reply = refl
Passes-outside no_server = refl
Passes-outside too_long = refl
Passes-outside received = refl
Passes-outside makes_no_room = refl

Takes-inside : {s s' : Stage} → Takes s s' → inside s' ≡ true
Takes-inside take_to_search = refl
Takes-inside take_to_add = refl

Leaves-outside : {s s' : Stage} → Leaves s s' → (inside s ≡ true) × (inside s' ≡ false)
Leaves-outside hit = (refl, refl)
Leaves-outside miss = (refl, refl)
Leaves-outside added = (refl, refl)

start-Exclusive : Exclusive start
start-Exclusive = record {
  one = λ t u it iu. absurd (cc it);
  held = λ h. absurd (cc h);
  free = λ h t. refl;
}

-- In the run, no thread calls `pthread_mutex_init` while the lock is held.
abbrev pub Calm : {v w : World} → Reachable v w → Type 0
Calm here = Unit {0}
Calm (later r (initialize w t e)) = (w.locked ≡ false) × Calm r
Calm (later r _) = Calm r

pub Calm-Exclusive : {v w : World} → Exclusive v → (r : Reachable v w) → Calm r → Exclusive w
Calm-Exclusive x here calm = x
Calm-Exclusive x (later r (initialize w t e)) (unlocked, calm) =
    stay-Exclusive w t locking false (ap inside e) (sym unlocked) (Calm-Exclusive x r calm)
Calm-Exclusive x (later r (pass w t {s} p)) calm =
    stay-Exclusive w t s w.locked (Passes-outside p) refl (Calm-Exclusive x r calm)
Calm-Exclusive x (later r (take w t {s} unlocked p)) calm =
    take-Exclusive w t s unlocked (Takes-inside p) (Calm-Exclusive x r calm)
Calm-Exclusive x (later r (leave w t {s} p)) calm =
    let (i, o) = Leaves-outside p in leave-Exclusive w t s i o (Calm-Exclusive x r calm)

-- As long as no thread calls `pthread_mutex_init` while another one holds the lock: however the
-- threads interleave, at most one of them is between a lock and its unlock, and the lock is held
-- exactly while one is.
pub Reachable-Exclusive : {w : World} (r : Reachable start w) → Calm r → Exclusive w
Reachable-Exclusive r calm = Calm-Exclusive start-Exclusive r calm

-- When a second thread calls `pthread_mutex_init` while the first is in the cache, it lets itself
-- in: for any two threads there is a run after which both are in the cache at once.
pub both_inside :
    (t u : ℕ)
    → t ≢ u
    → (w : World) × Reachable start w × (inside (w.stage t) ≡ true) × (inside (w.stage u) ≡ true)
both_inside t u ne =
    let s1 = move t locking start.stage in
    let s2 = move t searching s1 in
    let s3 = move u locking s2 in
    let s4 = move u searching s3 in
    let w1 : World = record { stage = s1; locked = false } in
    let w2 : World = record { stage = s2; locked = true } in
    let w3 : World = record { stage = s3; locked = false } in
    let w4 : World = record { stage = s4; locked = true } in
    let sent : u ≢ t = λ e. ne (sym e) in
    let t_waits : Takes (s1 t) searching =
      subst (λ s. Takes s searching) (sym (move_self t locking start.stage)) take_to_search in
    let u_new : s2 u ≡ created =
      move_other t u searching s1 sent ∙ move_other t u locking start.stage sent in
    let u_waits : Takes (s3 u) searching =
      subst (λ s. Takes s searching) (sym (move_self u locking s2)) take_to_search in
    (
      w4,
      later
          (later (later (later here (initialize start t refl)) (take w1 t refl t_waits))
            (initialize w2 u u_new))
          (take w3 u refl u_waits),
      ap inside (
          move_other u t searching s3 ne ∙ move_other u t locking s2 ne ∙ move_self t searching s1),
      ap inside (move_self u searching s3),
    )
