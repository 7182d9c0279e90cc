-- ===== src/Utils/Distance.antt =====
-- What `Abs` measures: the way round the circle of the uint64, not the way along the line.
use galaxy.Base.{ℕ, ◌-◌, ◌^◌, ◌<◌, ◌≤◌, ◌≡◌, arith, min}
use galaxy.Base.Words.{sub64}
use galaxy.Base.Bits.{bit_xor_none, bit_xor_all}
use galaxy.Utils.{abs}

-- For any two uint64 `abs` is the shorter of the two ways round from one to the other: the lesser
-- of the wrapped differences `x - y` and `y - x`.
pub abs_circular : (x y : ℕ) → x < 2 ^ 64 → y < 2 ^ 64 → abs x y ≡ min (sub64 x y) (sub64 y x)
unfolding abs
abs_circular x y hx hy = ground (arith, bit_xor_none (sub64 x y), bit_xor_all (sub64 x y))

-- So it is the distance along the line as long as that is below 2 ^ 63.
pub abs_linear :
    (x y : ℕ) → x < 2 ^ 64 → y ≤ x → x - y < 2 ^ 63 → (abs x y ≡ x - y) × (abs y x ≡ x - y)
abs_linear x y hx hy h = omega (arith, abs_circular x y, abs_circular y x)
