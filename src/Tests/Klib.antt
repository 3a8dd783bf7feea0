-- ===== src/Tests/Klib.antt =====
-- The functions of klib at concrete inputs.
use rv32i.Base.{◌≡◌, refl, ◌++◌, codes, none, some, arith}
use rv32i.Klib.{rand, srand, abs, digit_loop, skip_blanks, atoi}
use rv32i.Klib.Atoi.{decimal, blanks, atoi-decimal}

rand_one : rand 1 ≡ (1103527590, 16838)
unfolding rand
rand_one = refl

srand_rand : rand (srand 2) ≡ (2207042835, 908)
unfolding rand srand
srand_rand = refl

abs_values : (abs 5 ≡ some 5) × (abs 0xfffffffb ≡ some 5) × (abs 0x80000000 ≡ none)
unfolding abs
abs_values = (refl, refl, refl)

-- The greatest int itself overflows on the way.
atoi_limits : (atoi (codes "2147483599") ≡ some 2147483599) × (atoi (codes "2147483647") ≡ none)
unfolding atoi digit_loop skip_blanks
atoi_limits = (refl, refl)

atoi-decimal_example : atoi (blanks 2 ++ decimal 407 ++ codes "x1") ≡ some 407
atoi-decimal_example = atoi-decimal 2 407 (codes "x1") (omega arith) refl
