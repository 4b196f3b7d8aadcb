-- ===== src/Datalab/Floats/Tests.antt =====
-- Runs of the model of datalab-handout/bits.c, and its theorems at concrete inputs.
use introduction_to_computer.Common.{◌⊎◌, ◌≢◌, ◌/◌, ◌%◌, ◌^◌, ◌≡◌, refl, if◌then◌else◌, arith}
use introduction_to_computer.Datalab.Floats.{
  float_scale4, scale_normalized, scale_denormalized, float_is_equal,
}
use introduction_to_computer.Datalab.Floats.Value.{decode}
use introduction_to_computer.Datalab.Floats.Equal.{same_value, float_is_equal_lem}
use introduction_to_computer.Datalab.Floats.Scale.{times4, float_scale4_lem}

-- 1.5 becomes 6.
scales_normal : float_scale4 0x3fc00000 ≡ 0x40c00000
unfolding float_scale4 scale_normalized
scales_normal = refl

-- The largest denormalized number becomes a normalized one.
scales_denormal : float_scale4 0x007fffff ≡ 0x017ffffe
unfolding float_scale4 scale_denormalized
scales_denormal = refl

-- The two zeros are equal.
equal_zeros : float_is_equal 0 0x80000000 ≡ 1
unfolding float_is_equal
equal_zeros = refl

-- A word that is not a number.
float_scale4_lem_example :
    (decode (float_scale4 0xffc00001) ≡ times4 (decode 0xffc00001))
    × ((float_scale4 0xffc00001 ≡ 0xffc00001) ⊎ (0xffc00001 / 2 ^ 23 % 256 ≢ 255))
float_scale4_lem_example = float_scale4_lem 0xffc00001 (omega arith)

-- 1 and 2 differ.
float_is_equal_lem_example :
    float_is_equal 0x3f800000 0x40000000
    ≡ (if same_value (decode 0x3f800000) (decode 0x40000000) then 1 else 0)
float_is_equal_lem_example = float_is_equal_lem 0x3f800000 0x40000000 (omega arith) (omega arith)
