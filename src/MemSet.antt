-- ===== src/MemSet.antt =====
-- memset, memset_word, memset_dword, memmove and test_interrupts of student-distrib/lib.c, as their assembly
-- runs. `c` is the `int32_t` argument as a 32-bit pattern; addresses do not wrap.
mod Tests
pub mod Fill
pub mod Move
use cheeri_os.Common.{
  ℕ, zero, suc, ◌+◌, ◌*◌, ◌/◌, ◌%◌, ◌^◌, Bool, true, false, ◌==◌, leb, if◌then◌else◌, Mem, load8,
  store8, store32,
}
use cheeri_os.Screen.{video, num_rows, num_cols}

-- .memset_bottom, with the count of edx
bytes : ℕ → (s c : ℕ) → Mem → Mem
bytes zero s c m = m
bytes (suc k) s c m = bytes k (s + 1) c (store8 m s c)

-- rep stosl, with the count of ecx
stosl : ℕ → (s c : ℕ) → Mem → Mem
stosl zero s c m = m
stosl (suc k) s c m = stosl k (s + 4) c (store32 m s c)

-- rep stosw
stosw : ℕ → (s c : ℕ) → Mem → Mem
stosw zero s c m = m
stosw (suc k) s c m = stosw k (s + 2) c (store8 (store8 m s c) (s + 1) (c / 2 ^ 8))

-- c << 24 | c << 16 | c << 8 | c, for a byte c
abbrev pub repeated : ℕ → ℕ
repeated c = c * 2 ^ 24 + c * 2 ^ 16 + c * 2 ^ 8 + c

-- .memset_aligned
aligned : (n s c : ℕ) → Mem → Mem
aligned n s c m = bytes (n % 4) (s + n / 4 * 4) c (stosl (n / 4) s (repeated c) m)

-- .memset_top
memset_top : (n s c : ℕ) → Mem → Mem
memset_top zero s c m = m
memset_top (suc n) s c m = elim (s % 4 == 0) [
  | true ↦ aligned (suc n) s c m
  | false ↦ memset_top n (s + 1) c (store8 m s c)
]

pub memset : (s c n : ℕ) → Mem → Mem
memset s c n m = memset_top n s (c % 256) m

pub memset_word : (s c n : ℕ) → Mem → Mem
memset_word s c n m = stosw n s c m

pub memset_dword : (s c n : ℕ) → Mem → Mem
memset_dword s c n m = stosl n s c m

-- rep movsb upwards
movsb_up : ℕ → (dest src : ℕ) → Mem → Mem
movsb_up zero dest src m = m
movsb_up (suc k) dest src m = movsb_up k (dest + 1) (src + 1) (store8 m dest (load8 m src))

-- rep movsb downwards from dest + n - 1 and src + n - 1: with a count of k + 1 it moves byte k
movsb_down : ℕ → (dest src : ℕ) → Mem → Mem
movsb_down zero dest src m = m
movsb_down (suc k) dest src m = movsb_down k dest src (store8 m (dest + k) (load8 m (src + k)))

-- the direction flag that memmove leaves, and the memory
pub memmove : (dest src n : ℕ) → Mem → Bool × Mem
memmove dest src n m =
    if leb dest src then (false, movsb_up n dest src m) else (true, movsb_down n dest src m)

-- the loop, with `n` rounds left
increment_loop : ℕ → ℕ → Mem → Mem
increment_loop zero i m = m
increment_loop (suc n) i m =
    increment_loop n (i + 1) (store8 m (video + i * 2) ((load8 m (video + i * 2) + 1) % 256))

pub test_interrupts : Mem → Mem
test_interrupts m = increment_loop (num_rows * num_cols) 0 m
