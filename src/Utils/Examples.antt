-- ===== src/Utils/Examples.antt =====
-- The properties of utils.go at concrete inputs, after the accounts of its test.
use galaxy.Base.{◌^◌, ◌-◌, ◌≡◌, refl, arith}
use galaxy.Utils.{abs}
use galaxy.Utils.Distance.{abs_linear}

abs_linear_example : (abs 4 2 ≡ 2) × (abs 2 4 ≡ 2)
abs_linear_example = abs_linear 4 2 (omega arith) (omega arith) (omega arith)

abs_wraps : abs 0 (2 ^ 64 - 1) ≡ 1
unfolding abs
abs_wraps = refl
