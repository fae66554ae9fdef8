-- ===== src/MemCopy.antt =====
-- memcpy of student-distrib/lib.c, as its assembly runs: single bytes up to an aligned destination,
-- then double words, then the bytes that are left.
pub mod Disjoint
mod Tests
use cheeri_os.Common.{
  ℕ, zero, suc, ◌+◌, ◌*◌, ◌/◌, ◌%◌, Bool, true, false, ◌==◌, Mem, load8, store8, load32, store32,
}

-- .memcpy_bottom, with the count of edx
bytes : ℕ → (dest src : ℕ) → Mem → Mem
bytes zero dest src m = m
bytes (suc k) dest src m = bytes k (dest + 1) (src + 1) (store8 m dest (load8 m src))

-- rep movsl, with the count of ecx
double_words : ℕ → (dest src : ℕ) → Mem → Mem
double_words zero dest src m = m
double_words (suc k) dest src m =
    double_words k (dest + 4) (src + 4) (store32 m dest (load32 m src))

-- .memcpy_aligned
aligned : (n dest src : ℕ) → Mem → Mem
unfolding bytes double_words
aligned n dest src m =
    bytes (n % 4) (dest + n / 4 * 4) (src + n / 4 * 4) (double_words (n / 4) dest src m)

-- .memcpy_top
pub memcpy : (n dest src : ℕ) → Mem → Mem
memcpy zero dest src m = m
memcpy (suc n) dest src m = elim (dest % 4 == 0) [
  | true ↦ aligned (suc n) dest src m
  | false ↦ memcpy n (dest + 1) (src + 1) (store8 m dest (load8 m src))
]
