-- ===== src/Base/Words.antt =====
-- 32-bit words as natural numbers.
use Prim.Native.Nat.{ℕ, ◌*◌, ◌%◌, ◌^◌}

abbrev pub u32 : ℕ
u32 = 2 ^ 32

-- `x >>> 0`
unfoldable pub to_uint32 : ℕ → ℕ
to_uint32 x = x % u32

-- `Math.imul(a, b) >>> 0`
unfoldable pub imul : ℕ → ℕ → ℕ
imul a b = (a * b) % u32
