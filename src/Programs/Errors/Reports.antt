-- ===== src/Programs/Errors/Reports.antt =====
-- syscalls/ece391syserr.c over any system: a call that returns -1 in every state that it meets.
use Prim.Native.String.{String}
use cheeri_os.Common.{ℕ, zero, suc, ◌+◌, ◌≤◌, ◌<◌, ◌≡◌, refl, arith, Option, some, minus_one}
use cheeri_os.Programs.System.{System}
use cheeri_os.Programs.Errors.{expect_error, expect_errors, try_fd}

-- When every state of `R` makes the call return -1, and `R` keeps holding.
abbrev pub Fails : {S : Type 0} → (S → Type 0) → (S → Option (ℕ × S)) → Type 0
Fails {S} R call = (s : S) → R s → (s' : S) × (call s ≡ some (minus_one, s')) × R s'

module _ {S : Type 0} (c : System S) (literal : String → ℕ) {R : S → Type 0} where
  pub expect_error-Fails :
      (text : String) (fail : ℕ) (call : S → Option (ℕ × S))
      → Fails R call
      → (s : S) → R s
      → (s' : S) × (expect_error c literal text fail call s ≡ some (fail, s')) × R s'
  unfolding expect_error
  expect_error-Fails text fail call fails s r = let (s', e, r') = fails s r in (s', rw e refl, r')

  pub expect_errors-Fails :
      (text : String) (call : ℕ → S → Option (ℕ × S)) (n i fail : ℕ)
      → ((j : ℕ) → i ≤ j → j < i + n → Fails R (call j))
      → (s : S) → R s
      → (s' : S) × (expect_errors c literal text call n i fail s ≡ some (fail, s')) × R s'
  unfolding expect_errors
  expect_errors-Fails text call zero i fail fails s r = (s, refl, r)
  expect_errors-Fails text call (suc n) i fail fails s r =
      let (s1, e1, r1) =
        expect_error-Fails text fail (call i) (fails i (omega arith) (omega arith)) s r in
      let (s2, e2, r2) =
        expect_errors-Fails text call n (i + 1) fail
          (λ j le lt. fails j (omega arith) (omega arith)) s1 r1 in
      (s2, rw (e1, e2) refl, r2)

  pub try_fd-Fails :
      (fd buf : ℕ)
      → Fails R (c.read fd buf 31)
      → Fails R (c.write fd buf 31)
      → Fails R (c.close fd)
      → (s : S) → R s
      → (s' : S) × (try_fd c literal fd buf s ≡ some (0, s')) × R s'
  unfolding try_fd
  try_fd-Fails fd buf reads writes closes s r =
      let (s1, e1, r1) = expect_error-Fails "read fail\n" 0 (c.read fd buf 31) reads s r in
      let (s2, e2, r2) = expect_error-Fails "write fail\n" 0 (c.write fd buf 31) writes s1 r1 in
      let (s3, e3, r3) = expect_error-Fails "close fail\n" 0 (c.close fd) closes s2 r2 in
      (s3, rw (e1, e2, e3) refl, r3)
