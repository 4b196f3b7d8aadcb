-- ===== src/Cachelab/Csim/Address.antt =====
-- How `getTag` and `getSetIndex` of cachelab/csim.c take an address apart.
use native.Mathlib.Nat.{
  div-mul-le_self, mul-div_cancel, mod-eq_of_lt, mod-mod_of_dvd, pow-le-pow_right,
}
use introduction_to_computer.Common.{
  ℕ, ◌+◌, ◌*◌, ◌/◌, ◌%◌, ◌^◌, ◌≤◌, ◌<◌, ◌≡◌, ap, some, arith, lt→ltb, pow-pos, pow-dvd-pow,
  bit_and-mask,
}
use introduction_to_computer.Cachelab.Csim.{Cache, get_tag, get_set_index}

-- A shift to the right and back, and to the right again, shifts once.
shift_back : (x k : ℕ) → x < 2 ^ 64 → x / 2 ^ k * 2 ^ k % 2 ^ 64 / 2 ^ k ≡ x / 2 ^ k
shift_back x k h =
    let fits : x / 2 ^ k * 2 ^ k < 2 ^ 64 = omega (arith, div-mul-le_self x (2 ^ k)) in
    rw (mod-eq_of_lt fits) (mul-div_cancel (x / 2 ^ k) (pow-pos k))

pub get_tag_lem :
    (addr : ℕ) (c : Cache)
    → addr < 2 ^ 64
    → c.s + c.b < 64
    → get_tag addr c ≡ some (addr / 2 ^ (c.s + c.b))
unfolding get_tag
get_tag_lem addr c h few = rw (lt→ltb (c.s + c.b) 64 few) (ap some (shift_back addr (c.s + c.b) h))

small_pow : (k : ℕ) → k < 32 → 2 ^ k % 2 ^ 32 ≡ 2 ^ k
small_pow k h = mod-eq_of_lt (
    let below : 2 ^ k ≤ 2 ^ 31 = pow-le-pow_right (omega arith) {j = 31} (omega arith) in
    omega arith)

pub get_set_index_lem :
    (addr : ℕ) (c : Cache)
    → addr < 2 ^ 64
    → c.s < 32
    → c.b < 64
    → get_set_index addr c ≡ some (addr / 2 ^ c.b % 2 ^ c.s)
unfolding get_set_index
get_set_index_lem addr c h hs hb =
    rw (lt→ltb c.s 32 hs, lt→ltb c.b 64 hb, small_pow c.s hs, shift_back addr c.b h, bit_and-mask)
      (ap some (mod-mod_of_dvd (2 ^ c.s) (addr / 2 ^ c.b) (pow-dvd-pow c.s 32 (omega arith))))
