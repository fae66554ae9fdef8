-- ===== src/Output/Reverse.antt =====
-- strrev of student-distrib/lib.c reverses a string in place.
use cheeri_os.Common.{
  ℕ, zero, suc, ◌+◌, ◌-◌, ◌*◌, ◌^◌, ◌≤◌, ◌<◌, ◌≡◌, ◌⊎◌, inl, inr, refl, ap, arith, Bool, false,
  Bool-cases, ◌&&◌, ◌||◌, leb, ltb, slt, sub32, if◌then◌else◌, some, Mem, load8, store8,
}
use cheeri_os.Strings.{strlen}
use cheeri_os.Strings.Length.{IsString, strlen-IsString}
use cheeri_os.Output.{strrev_loop, strrev}

-- The n bytes from s on stand in `m` in the opposite order, and the others as in `m0`.
pub record Reversed (m0 : Mem) (s n : ℕ) (m : Mem) : Type 0 where
  pub inside : (i j : ℕ) → i + j + 1 ≡ n → load8 m (s + i) ≡ load8 m0 (s + j)
  pub outside : (a : ℕ) → (a < s) ⊎ (s + n ≤ a) → load8 m a ≡ load8 m0 a

module _ (m0 : Mem) (s n : ℕ) where
  -- the first and the last `i` of the bytes
  abbrev at_ends : ℕ → ℕ → Bool
  at_ends i a = (leb s a && ltb a (s + i)) || (leb (s + n) (a + i) && ltb a (s + n))

  abbrev mirror : ℕ → ℕ
  mirror a = s + (s + n - (a + 1))

  -- what the loop has done after `i` rounds
  record Reversing (i : ℕ) (m : Mem) : Type 0 where
    at : (a : ℕ) → load8 m a ≡ (if at_ends i a then load8 m0 (mirror a) else load8 m0 a)

  Reversing-zero : Reversing 0 m0
  Reversing-zero = record { at = λ a. ground arith }

  -- one round, which swaps bytes i and e
  Reversing-suc :
      (i e : ℕ) (m : Mem)
      → e + 1 + i ≡ n
      → i < e
      → Reversing i m
      → Reversing (i + 1) (store8 (store8 m (s + e) (load8 m (s + i))) (s + i) (load8 m (s + e)))
  unfolding store8
  Reversing-suc i e m end lt w = record {
    at = λ a. ground (arith, w.at a, w.at (s + i), w.at (s + e), low a, high a);
  }
    where
      low : (a : ℕ) → a ≡ s + i → load8 m0 (mirror a) ≡ load8 m0 (s + e)
      low a h = ap (load8 m0) (omega arith)

      high : (a : ℕ) → a ≡ s + e → load8 m0 (mirror a) ≡ load8 m0 (s + i)
      high a h = ap (load8 m0) (omega arith)

  Reversing-Reversed :
      (i : ℕ) (m : Mem) → n ≤ 2 * i + 1 → 2 * i ≤ n + 1 → Reversing i m → Reversed m0 s n m
  Reversing-Reversed i m whole le w = record {
    inside = λ p q e. ground (arith, w.at (s + p), there p q e, middle p q e);
    outside = λ a away. ground (arith, w.at a);
  }
    where
      there : (p q : ℕ) → p + q + 1 ≡ n → load8 m0 (mirror (s + p)) ≡ load8 m0 (s + q)
      there p q e = ap (load8 m0) (omega arith)

      middle : (p q : ℕ) → p + q + 1 ≡ n → p ≡ q → load8 m0 (s + p) ≡ load8 m0 (s + q)
      middle p q e h = ap (λ j. load8 m0 (s + j)) h

  -- the loop from bytes i and e on: they meet after k rounds at most
  strrev_loop-Reversed :
      (k i e : ℕ) (m : Mem)
      → e + 1 + i ≡ n
      → n ≤ 2 ^ 31
      → n ≤ 2 * (i + k) + 1
      → 2 * i ≤ n + 1
      → Reversing i m
      → (m' : Mem) × (strrev_loop k s i e m ≡ some m') × Reversed m0 s n m'
  unfolding strrev_loop
  strrev_loop-Reversed zero i e m end small enough le w =
      let over : slt i e ≡ false = ground arith in
      (m, rw over refl, Reversing-Reversed i m (omega arith) le w)
  strrev_loop-Reversed (suc k) i e m end small enough le w = elim (Bool-cases (slt i e)) [
    | inl less ↦
        let lt : i < e = ground (arith, less) in
        let back : sub32 e 1 + 1 + (i + 1) ≡ n = omega arith in
        let next = store8 (store8 m (s + e) (load8 m (s + i))) (s + i) (load8 m (s + e)) in
        let (m', runs, r) =
          strrev_loop-Reversed k (i + 1) (sub32 e 1) next back small (omega arith) (omega arith)
            (Reversing-suc i e m end lt w) in
        (m', rw (less, strrev_loop) runs, r)
    | inr more ↦
        (m, rw (more, strrev_loop) refl, Reversing-Reversed i m (ground (arith, more)) le w)
  ]

strrev_loop-empty : (s : ℕ) (m : Mem) → strrev_loop 0 s 0 (sub32 0 1) m ≡ some m
unfolding strrev_loop
strrev_loop-empty s m = refl

-- For a string of at most 2 ^ 31 - 1 bytes strrev ends, with the bytes of the string in the opposite order
-- and all others as they were.
pub strrev-Reversed :
    (m0 : Mem) (s n : ℕ)
    → IsString m0 s n
    → n < 2 ^ 31
    → (m : Mem) × (strrev s m0 ≡ some m) × Reversed m0 s n m
unfolding strrev
strrev-Reversed m0 s zero str small =
    let measured : strlen m0 s ≡ some 0 = (strlen-IsString m0 s 0).1 (str, omega arith) in
    (
      m0,
      rw measured (strrev_loop-empty s m0),
      record { inside = λ i j e. absurd (omega arith); outside = λ a away. refl },
    )
strrev-Reversed m0 s (suc n) str small =
    let (m, runs, r) =
      strrev_loop-Reversed m0 s (suc n) (suc n) 0 n m0 (omega arith) (omega arith) (omega arith)
        (omega arith) (Reversing-zero m0 s (suc n)) in
    let measured : strlen m0 s ≡ some (suc n) =
      (strlen-IsString m0 s (suc n)).1 (str, omega arith) in
    let last : sub32 (suc n) 1 ≡ n = omega arith in (m, rw (measured, last) runs, r)
