-- ===== src/FixedPoint/Tests.antt =====
-- Fixed point numbers at concrete values.
use quick_mpc.Prelude.{◌*◌, ◌^◌, ◌≤◌, ◌<◌, ◌≡◌, refl, pos, negsuc, size, ◌-ℤ◌, ◌*ℤ◌, ◌/ℤ◌}
use quick_mpc.FixedPoint.{FixedPoint, mypow_loop, mypow, shift, max_int, mul}
use quick_mpc.FixedPoint.Products.{mul-error}

abbrev half : FixedPoint
half = record { value = pos 50000000 }

abbrev minus_third : FixedPoint
minus_third = record { value = negsuc 33333332 }

constants : (shift ≡ 10 ^ 8) × (max_int ≡ 10 ^ 10)
unfolding shift max_int mypow mypow_loop
constants = (refl, refl)

-- -1/3 times 1/2 is cut towards zero.
cut_product : (mul minus_third half).value ≡ negsuc 16666665
unfolding mul shift mypow mypow_loop ◌/ℤ◌ ◌*ℤ◌
cut_product = refl

mul-error_example :
    (size (half.value *ℤ minus_third.value -ℤ (mul half minus_third).value *ℤ pos shift) < shift)
    × (size (mul half minus_third).value * shift ≤ 50000000 * 33333333)
mul-error_example = mul-error half minus_third
