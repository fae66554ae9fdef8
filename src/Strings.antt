-- ===== src/Strings.antt =====
-- The string functions of student-distrib/lib.c over the byte memory: strlen, strncmp, strcpy,
-- strncpy. A loop that runs to a NUL takes fuel and returns `none` when it has not met one; a counted
-- loop recurs on the rounds left. Pointers are not wrapped: C leaves that undefined.
pub mod Length
pub mod Compare
pub mod Copy
mod Tests
use cheeri_os.Common.{
  ℕ, zero, suc, ◌+◌, ◌-◌, Bool, true, false, not, ◌||◌, Option, none, some, ◌==◌, if◌then◌else◌,
  ltb, Mem, load8, store8, word, add32, sub32,
}

-- `len` is the local counter; the body of `while (s[len] != '\0')`.
unfoldable pub strlen_loop : ℕ → Mem → ℕ → ℕ → Option ℕ
strlen_loop zero m s len = none
strlen_loop (suc k) m s len = elim (load8 m (s + len) == 0) [
  | true ↦ some len
  | false ↦ strlen_loop k m s (len + 1)
]

-- A `uint32_t` counter meets a NUL within 2 ^ 32 rounds or never.
unfoldable pub strlen : Mem → ℕ → Option ℕ
strlen m s = strlen_loop word m s 0

-- an `int8_t` byte as an `int32_t` word
abbrev pub sign_extend : ℕ → ℕ
sign_extend b = if ltb b 128 then b else b + (word - 256)

strncmp_loop : ℕ → Mem → ℕ → ℕ → ℕ → ℕ
strncmp_loop zero m s1 s2 i = 0
strncmp_loop (suc k) m s1 s2 i =
    let rest = strncmp_loop k m s1 s2 (i + 1) in
    if not (load8 m (s1 + i) == load8 m (s2 + i)) || load8 m (s1 + i) == 0
    then sub32 (sign_extend (load8 m (s1 + i))) (sign_extend (load8 m (s2 + i)))
    else rest

pub strncmp : Mem → ℕ → ℕ → ℕ → ℕ
unfolding strncmp_loop
strncmp m s1 s2 n = strncmp_loop n m s1 s2 0

-- The source is read from the memory that the loop has already written.
unfoldable pub strcpy_loop : ℕ → Mem → ℕ → ℕ → ℕ → Option Mem
strcpy_loop zero m dest src i = none
strcpy_loop (suc k) m dest src i = elim (load8 m (src + i) == 0) [
  | true ↦ some (store8 m (dest + i) 0)
  | false ↦ strcpy_loop k (store8 m (dest + i) (load8 m (src + i))) dest src (i + 1)
]

unfoldable pub strcpy : Mem → ℕ → ℕ → Option Mem
strcpy m dest src = strcpy_loop word m dest src 0

-- the second loop of strncpy
strncpy_pad : ℕ → Mem → ℕ → ℕ → Mem
strncpy_pad zero m dest i = m
strncpy_pad (suc k) m dest i = strncpy_pad k (store8 m (dest + i) 0) dest (i + 1)

-- the first one, with `n - i` rounds left, and what follows it
strncpy_loop : ℕ → Mem → ℕ → ℕ → ℕ → Mem
strncpy_loop zero m dest src i = m
strncpy_loop (suc k) m dest src i = elim (load8 m (src + i) == 0) [
  | true ↦ strncpy_pad (suc k) m dest i
  | false ↦ strncpy_loop k (store8 m (dest + i) (load8 m (src + i))) dest src (i + 1)
]

pub strncpy : Mem → ℕ → ℕ → ℕ → Mem
unfolding strncpy_loop strncpy_pad
strncpy m dest src n = strncpy_loop n m dest src 0
