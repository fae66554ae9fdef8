-- ===== src/Common/Words.antt =====
-- 32-bit words. An `int32_t` or a `uint32_t` is its bit pattern, a number below 2 ^ 32; where the
-- source compares signed words, `slt` reads the patterns as signed.
use Prim.Native.Nat.{ℕ, ◌+◌, ◌-◌, ◌%◌, ◌^◌}
use mathlib.Core.Bool.{Bool}
use cheeri_os.Common.Tests.{ltb}

abbrev pub word : ℕ
word = 2 ^ 32

-- -1 as an `int32_t`
abbrev pub minus_one : ℕ
minus_one = word - 1

abbrev pub add32 : ℕ → ℕ → ℕ
add32 a b = (a + b) % word

abbrev pub sub32 : ℕ → ℕ → ℕ
sub32 a b = (a + word - b) % word

-- a < b as `int32_t`
abbrev pub slt : ℕ → ℕ → Bool
slt a b = ltb ((a + 2 ^ 31) % word) ((b + 2 ^ 31) % word)
