-- ===== src/Programs/Support.antt =====
-- syscalls/ece391support.c: the string functions of the user programs, and ece391_fdputs. A loop that runs to a
-- NUL takes 2 ^ 32 rounds, as those of the kernel's functions do.
pub mod Agree
use cheeri_os.Common.{
  ℕ, zero, suc, ◌+◌, ◌*◌, ◌/◌, ◌%◌, Bool, true, false, not, Option, none, some, ◌>>=◌, ◌==◌, ltb,
  slt, if◌then◌else◌, Mem, load8, store8, word, sub32,
}
use cheeri_os.Output.{lookup, traps}
use cheeri_os.Programs.System.{System}

-- `for (len = 0; '\0' != *s; s++, len++)`
strlen_from : ℕ → Mem → (s len : ℕ) → Option ℕ
strlen_from zero m s len = none
strlen_from (suc k) m s len = elim (load8 m s == 0) [
  | true ↦ some len
  | false ↦ strlen_from k m (s + 1) (len + 1)
]

pub ece391_strlen : Mem → ℕ → Option ℕ
ece391_strlen m s = strlen_from word m s 0

-- `while ('\0' != (*dst++ = *src++))`
strcpy_from : ℕ → (dst src : ℕ) → Mem → Option Mem
strcpy_from zero dst src m = none
strcpy_from (suc k) dst src m =
    let m' = store8 m dst (load8 m src) in
    elim (load8 m src == 0) [ true ↦ some m' | false ↦ strcpy_from k (dst + 1) (src + 1) m' ]

pub ece391_strcpy : (dst src : ℕ) → Mem → Option Mem
ece391_strcpy dst src m = strcpy_from word dst src m

strcmp_from : ℕ → Mem → (s1 s2 : ℕ) → Option ℕ
strcmp_from zero m s1 s2 = none
strcmp_from (suc k) m s1 s2 = elim (load8 m s1 == load8 m s2) [
  | true ↦ elim (load8 m s1 == 0) [ true ↦ some 0 | false ↦ strcmp_from k m (s1 + 1) (s2 + 1) ]
  | false ↦ some (sub32 (load8 m s1) (load8 m s2))
]

pub ece391_strcmp : Mem → (s1 s2 : ℕ) → Option ℕ
ece391_strcmp m s1 s2 = strcmp_from word m s1 s2

-- with `n` left, which is not 0 when the loop begins
strncmp_from : ℕ → Mem → (s1 s2 : ℕ) → ℕ
strncmp_from zero m s1 s2 = 0
strncmp_from (suc n) m s1 s2 = elim (load8 m s1 == load8 m s2) [
  | true ↦ elim (load8 m s1 == 0) [ true ↦ 0 | false ↦ strncmp_from n m (s1 + 1) (s2 + 1) ]
  | false ↦ sub32 (load8 m s1) (load8 m s2)
]

pub ece391_strncmp : Mem → (s1 s2 n : ℕ) → ℕ
ece391_strncmp m s1 s2 n = strncmp_from n m s1 s2

-- `while (beg < end)`
reverse_loop : ℕ → (s beg end : ℕ) → Mem → Option Mem
reverse_loop zero s beg end m = if slt beg end then none else some m
reverse_loop (suc n) s beg end m = elim (slt beg end) [
  | true ↦
      reverse_loop n s (beg + 1) (sub32 end 1)
        (store8 (store8 m (s + end) (load8 m (s + beg))) (s + beg) (load8 m (s + end)))
  | false ↦ some m
]

pub ece391_strrev : ℕ → Mem → Option Mem
ece391_strrev s m = do
  n ← ece391_strlen m s
  if not (slt 0 (sub32 n 1)) then some m else reverse_loop n s 0 (sub32 n 1) m

-- `while (newval > 0)`
digits_loop : ℕ → (newval newbuf radix : ℕ) → Mem → Option (ℕ × Mem)
digits_loop zero newval newbuf radix m = none
digits_loop (suc n) newval newbuf radix m = elim (ltb 0 newval) [
  | true ↦ elim (traps newval radix) [
    | true ↦ none
    | false ↦
        digits_loop n (newval / radix) (newbuf + 1) radix
          (store8 m newbuf (lookup (newval % radix)))
  ]
  | false ↦ some (newbuf, m)
]

pub ece391_itoa : (value buf radix : ℕ) → Mem → Option Mem
ece391_itoa value buf radix m =
    if value == 0 then some (store8 (store8 m buf b'0') (buf + 1) 0) else do
      (end, m') ← digits_loop (value + 1) value buf radix m
      ece391_strrev buf (store8 m' end 0)

module _ {S : Type 0} (c : System S) where
  unfoldable pub ece391_fdputs : (fd s : ℕ) → S → Option S
  ece391_fdputs fd s st = do
    n ← ece391_strlen (c.memory st) s
    (v, st') ← c.write fd s n st
    some st'
