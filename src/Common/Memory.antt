-- ===== src/Common/Memory.antt =====
-- Byte memory. An address and a byte are numbers; a `uint32_t` is four bytes, the lowest first.
use Prim.Native.Nat.{ℕ, ◌+◌, ◌-◌, ◌*◌, ◌/◌, ◌%◌, ◌^◌, ◌≤◌, ◌<◌}
use mathlib.Core.Path.{◌≡◌, ap}
use mathlib.Core.Logic.{◌⊎◌}
use mathlib.Core.Bool.{Bool, ◌&&◌}
use native.Mathlib.Omega.{arith}
use cheeri_os.Common.Tests.{ltb, leb, ◌==◌, if◌then◌else◌}

abbrev pub Mem : Type 0
Mem = ℕ → ℕ

-- A cell counts modulo 256.
abbrev pub load8 : Mem → ℕ → ℕ
load8 m p = m p % 256

unfoldable pub store8 : Mem → ℕ → ℕ → Mem
store8 m p v a = if a == p then v else m a

unfoldable pub load32 : Mem → ℕ → ℕ
load32 m p =
    load8 m p + 2 ^ 8 * load8 m (p + 1) + 2 ^ 16 * load8 m (p + 2) + 2 ^ 24 * load8 m (p + 3)

unfoldable pub store32 : Mem → ℕ → ℕ → Mem
unfolding store8
store32 m p v =
    store8 (store8 (store8 (store8 m p v) (p + 1) (v / 2 ^ 8)) (p + 2) (v / 2 ^ 16)) (p + 3)
      (v / 2 ^ 24)

pub load32-lt : (m : Mem) (p : ℕ) → load32 m p < 2 ^ 32
unfolding load32
load32-lt m p = omega arith

pub load8-store8 :
    (m : Mem) (p v a : ℕ) → load8 (store8 m p v) a ≡ (if a == p then v % 256 else load8 m a)
unfolding store8
load8-store8 m p v a = ground arith

pub load32-store32 : (m : Mem) (p v : ℕ) → v < 2 ^ 32 → load32 (store32 m p v) p ≡ v
unfolding load32 store32
load32-store32 m p v h = ground arith

pub load8-store32_ne :
    (m : Mem) (p v a : ℕ) → (a < p) ⊎ (p + 4 ≤ a) → load8 (store32 m p v) a ≡ load8 m a
unfolding store32
load8-store32_ne m p v a away = ground arith

pub load32-store32_ne :
    (m : Mem) (p v q : ℕ) → (q + 4 ≤ p) ⊎ (p + 4 ≤ q) → load32 (store32 m p v) q ≡ load32 m q
unfolding load32
load32-store32_ne m p v q away = omega (
  arith,
  load8-store32_ne m p v q (omega arith),
  load8-store32_ne m p v (q + 1) (omega arith),
  load8-store32_ne m p v (q + 2) (omega arith),
  load8-store32_ne m p v (q + 3) (omega arith),
)

-- Words that are equal have equal bytes.
bytes_of_load32 :
    (m m' : Mem) (p q : ℕ)
    → load32 m p ≡ load32 m' q
    → (load8 m p ≡ load8 m' q)
      × (load8 m (p + 1) ≡ load8 m' (q + 1))
      × (load8 m (p + 2) ≡ load8 m' (q + 2))
      × (load8 m (p + 3) ≡ load8 m' (q + 3))
unfolding load32
bytes_of_load32 m m' p q e = omega arith

pub load8_of_load32 :
    (m m' : Mem) (p q j : ℕ) → load32 m p ≡ load32 m' q → j < 4 → load8 m (p + j) ≡ load8 m' (q + j)
load8_of_load32 m m' p q j e lt = ground (arith, bytes_of_load32 m m' p q e, cases)
  where
    cases : (j ≡ 0) ⊎ (j ≡ 1) ⊎ (j ≡ 2) ⊎ (j ≡ 3)
    cases = omega arith

pub load32-bytes :
    (m : Mem) (p : ℕ)
    → (load32 m p % 2 ^ 8 ≡ load8 m p)
      × (load32 m p / 2 ^ 8 % 2 ^ 8 ≡ load8 m (p + 1))
      × (load32 m p / 2 ^ 16 % 2 ^ 8 ≡ load8 m (p + 2))
      × (load32 m p / 2 ^ 24 % 2 ^ 8 ≡ load8 m (p + 3))
unfolding load32
load32-bytes m p = omega arith

-- the addresses `p`, ..., `p + n - 1`
abbrev pub within : ℕ → ℕ → ℕ → Bool
within p n a = leb p a && ltb a (p + n)

-- `m` holds the bytes of `m0`, but for the `n` bytes from `dst` on, which are those of `f`.
pub record Written (m0 : Mem) (dst n : ℕ) (f : ℕ → ℕ) (m : Mem) : Type 0 where
  pub at : (a : ℕ) → load8 m a ≡ (if within dst n a then f (a - dst) else load8 m0 a)

pub Written-zero : (m : Mem) (dst : ℕ) (f : ℕ → ℕ) → Written m dst 0 f m
Written-zero m dst f = record { at = λ a. ground arith }

-- One more byte.
pub Written-store8 :
    {m0 m : Mem} {dst n : ℕ} {f : ℕ → ℕ} (v : ℕ)
    → Written m0 dst n f m
    → v % 256 ≡ f n
    → Written m0 dst (n + 1) f (store8 m (dst + n) v)
unfolding store8
Written-store8 {dst} {n} {f} v w e = record { at = λ a. ground (arith, w.at a, split a) }
  where
    split : (a : ℕ) → a ≡ dst + n → f (a - dst) ≡ f n
    split a h = ap f (omega arith)

-- The same, with the address and the new count given by equations.
pub Written-store8_at :
    {m0 m : Mem} {dst n : ℕ} {f : ℕ → ℕ} (p v n' : ℕ)
    → Written m0 dst n f m
    → p ≡ dst + n
    → n' ≡ n + 1
    → v % 256 ≡ f n
    → Written m0 dst n' f (store8 m p v)
Written-store8_at p v n' w at count e = rw (at, count) (Written-store8 v w e)

-- Four more bytes.
pub Written-store32 :
    {m0 m : Mem} {dst n : ℕ} {f : ℕ → ℕ} (v : ℕ)
    → Written m0 dst n f m
    → v % 2 ^ 8 ≡ f n
    → v / 2 ^ 8 % 2 ^ 8 ≡ f (n + 1)
    → v / 2 ^ 16 % 2 ^ 8 ≡ f (n + 2)
    → v / 2 ^ 24 % 2 ^ 8 ≡ f (n + 3)
    → Written m0 dst (n + 4) f (store32 m (dst + n) v)
unfolding store32
Written-store32 {dst} {n} v w e0 e1 e2 e3 =
    Written-store8_at (dst + n + 3) (v / 2 ^ 24) (n + 4)
      (Written-store8_at (dst + n + 2) (v / 2 ^ 16) (n + 3)
        (Written-store8_at (dst + n + 1) (v / 2 ^ 8) (n + 2) (Written-store8 v w e0) (omega arith)
          (omega arith) e1)
        (omega arith) (omega arith) e2)
      (omega arith) (omega arith) e3

-- A written byte.
pub Written-inside :
    {m0 m : Mem} {dst n : ℕ} {f : ℕ → ℕ} (j : ℕ)
    → Written m0 dst n f m
    → j < n
    → load8 m (dst + j) ≡ f j
Written-inside {dst} {f} j w lt = ground (arith, w.at (dst + j), back)
  where
    back : f (dst + j - dst) ≡ f j
    back = ap f (omega arith)

-- Bytes outside the written ones are those of `m0`.
pub Written-load8 :
    {m0 m : Mem} {dst n : ℕ} {f : ℕ → ℕ} (p : ℕ)
    → Written m0 dst n f m
    → (p < dst) ⊎ (dst + n ≤ p)
    → load8 m p ≡ load8 m0 p
Written-load8 p w away = ground (arith, w.at p)

-- Words outside the written bytes are those of `m0`.
pub Written-load32 :
    {m0 m : Mem} {dst n : ℕ} {f : ℕ → ℕ} (p : ℕ)
    → Written m0 dst n f m
    → (p + 4 ≤ dst) ⊎ (dst + n ≤ p)
    → load32 m p ≡ load32 m0 p
unfolding load32
Written-load32 p w away = ground (arith, w.at p, w.at (p + 1), w.at (p + 2), w.at (p + 3))
