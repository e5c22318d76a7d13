-- ===== src/Prelude/Int.antt =====
-- Signed integers over the native numbers, for Go's `int`, under the library's names.
use Prim.Native.Nat.{ℕ, ◌+◌, ◌-◌}
use sipgox.Prelude.Tests.{leb, ◌==◌, if◌then◌else◌}

-- `negsuc n` is -(n + 1).
pub data ℤ : Type 0 where
  pos : ℕ → ℤ
  negsuc : ℕ → ℤ

-- a - b, as an integer.
abbrev pub sub_ℕ : ℕ → ℕ → ℤ
sub_ℕ a b = if leb b a then pos (a - b) else negsuc (b - a - 1)

-- `p++` on a 64-bit `int`, which wraps at its largest value.
unfoldable pub increment : ℤ → ℤ
increment (pos n) = if n == 0x7fff_ffff_ffff_ffff then negsuc n else pos (n + 1)
increment (negsuc n) = sub_ℕ 0 n
