-- ===== src/Programs/Files/Copying.antt =====
-- The loop of cat over any system.
use Prim.Native.String.{String}
use native.Mathlib.Decide.{ℕ_discrete}
use cheeri_os.Common.{
  ℕ, zero, suc, ◌+◌, ◌≤◌, ◌<◌, ◌≡◌, refl, arith, ◌==◌, ◌>>=◌, false, some, minus_one,
}
use cheeri_os.Programs.System.{System}
use cheeri_os.Programs.Files.{cat_loop}

module _ {S : Type 0} (c : System S) (fd buf : ℕ) (R : ℕ → S → Type 0) where
  -- One round at a position before the end: some bytes are read, and they are written.
  abbrev pub Copies : ℕ → ℕ → S → Type 0
  Copies size pos s =
      (n : ℕ) × (s1 : S) × (s2 : S) × (c.read fd buf 1024 s ≡ some (n, s1))
      × (c.write 1 buf n s1 ≡ some (n, s2))
      × (0 < n)
      × (pos + n ≤ size)
      × R (pos + n) s2

  -- a round that copies n bytes
  cat_loop-round :
      (literal : String → ℕ) (k n : ℕ) (s s1 s2 : S)
      → c.read fd buf 1024 s ≡ some (n, s1)
      → c.write 1 buf n s1 ≡ some (n, s2)
      → 0 < n
      → n < minus_one
      → cat_loop c literal (suc k) fd buf s ≡ cat_loop c literal k fd buf s2
  unfolding cat_loop
  cat_loop-round literal k n s s1 s2 read write some_byte small =
      let byte : (n == 0) ≡ false = ground arith in
      let valid : (n == minus_one) ≡ false = ground arith in
      rw (read, ◌>>=◌, byte, valid, write, valid) refl

  -- If each round copies bytes of `size`, and a read at the end returns 0, the loop ends at the end with 0, when there
  -- is a round for each byte that is left, and one.
  pub cat_loop-ends :
      (literal : String → ℕ) (size : ℕ)
      → size < minus_one
      → ((pos : ℕ) (s : S) → pos < size → R pos s → Copies size pos s)
      → ((s : S) → R size s → (s' : S) × (c.read fd buf 1024 s ≡ some (0, s')) × R size s')
      → (rounds pos : ℕ) (s : S) → pos ≤ size
      → size < pos + rounds
      → R pos s
      → (s' : S) × (cat_loop c literal rounds fd buf s ≡ some (0, s')) × R size s'
  unfolding cat_loop
  cat_loop-ends literal size small copies stops zero pos s le enough r = absurd (omega arith)
  cat_loop-ends literal size small copies stops (suc k) pos s le enough r =
      elim (ℕ_discrete pos size) [
        | yes e ↦ let (s', read, r') = stops s (rw e at r) in (s', rw (cat_loop, read) refl, r')
        | no ne ↦
            let (n, s1, s2, read, write, some_byte, inside, r2) = copies pos s (omega arith) r in
            let (s', rest, r') =
              cat_loop-ends literal size small copies stops k (pos + n) s2 inside (omega arith)
                r2 in
            (
              s',
              rw (cat_loop-round literal k n s s1 s2 read write (omega arith) (omega arith)) rest,
              r',
            )
      ]
