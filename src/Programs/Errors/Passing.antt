-- ===== src/Programs/Errors/Passing.antt =====
-- The tests of syscalls/ece391syserr.c on this kernel.
use Prim.Native.String.{String, len}
use cheeri_os.Common.{
  ℕ, ◌≤◌, ◌<◌, ◌≡◌, inl, inr, refl, arith, true, ◌||◌, Bool-cases, ltb, Mem, ◌>>=◌, slt,
}
use cheeri_os.Kernel.State.{Kernel, memory, descriptor}
use cheeri_os.Kernel.Calls.Descriptors.{IsOpenTable}
use cheeri_os.Programs.Session.{Session, Host}
use cheeri_os.Programs.Errors.{
  verdict, try_fd, err_neg_fd, err_big_fd, err_unopened, err_vidmap, err_stdin_out, neg_fd, big_fd,
}
use cheeri_os.Programs.Errors.Reports.{expect_error-Fails, expect_errors-Fails, try_fd-Fails}
use cheeri_os.Programs.Errors.Refusals.{
  IsPlaced, IsClocked, sys, read-Fails, write-Fails, close-Fails, vidmap-Fails, Passes,
  verdict-Passes,
}

-- The lines that the tests print when they pass are in the memory.
pub record ArePlaced (m : Mem) (literal : String → ℕ) : Type 0 where
  pub neg_fd : IsPlaced m (literal "err_neg_fd: PASS\n") "err_neg_fd: PASS\n"
  pub big_fd : IsPlaced m (literal "err_big_fd: PASS\n") "err_big_fd: PASS\n"
  pub unopened : IsPlaced m (literal "err_unopened: PASS\n") "err_unopened: PASS\n"
  pub vidmap : IsPlaced m (literal "err_vidmap: PASS\n") "err_vidmap: PASS\n"
  pub stdin_out : IsPlaced m (literal "err_stdin_out: PASS\n") "err_stdin_out: PASS\n"

module _ {D : Type 0} (h : Host D) (k : Kernel D) where
  -- on a descriptor that is out of range
  try_fd-Passes :
      (passed failed : String) (fd buf : ℕ) (s : Session D)
      → ((slt fd 0 || slt 7 fd) ≡ true)
      → IsPlaced (memory k) (h.literal passed) passed
      → len passed < 1024
      → IsOpenTable k
      → IsClocked k s
      → Passes h k passed (do
        (fail, s1) ← try_fd (sys h k) h.literal fd buf s
        verdict (sys h k) h.literal passed failed fail s1)
  try_fd-Passes passed failed fd buf s bad at short table c =
      let (s1, e1, c1) =
        try_fd-Fails (sys h k) h.literal fd buf (read-Fails h k fd buf 31 (inl bad))
          (write-Fails h k fd buf 31 (inl bad)) (close-Fails h k fd (inr (inl bad))) s c in
      rw e1 (verdict-Passes h k passed failed s1 at short table c1)

  err_unopened-Passes :
      (buf : ℕ) (s : Session D)
      → ((fd : ℕ) → 2 ≤ fd → fd < 8 → (descriptor k fd).flags ≡ 0)
      → IsPlaced (memory k) (h.literal "err_unopened: PASS\n") "err_unopened: PASS\n"
      → IsOpenTable k
      → IsClocked k s
      → Passes h k "err_unopened: PASS\n" (err_unopened (sys h k) h.literal buf s)
  unfolding err_unopened
  err_unopened-Passes buf s free at table c =
      let (s1, e1, c1) =
        expect_errors-Fails (sys h k) h.literal "close unopened or invalid fd fail\n"
          (sys h k).close 8 0 0
          (λ j le lt. close-Fails h k j (elim (Bool-cases (ltb j 2)) [
            | inl low ↦ inl (ground (arith, low))
            | inr high ↦ inr (inr (free j (ground (arith, high)) (omega arith)))
          ]))
          s c in
      let (s2, e2, c2) =
        expect_errors-Fails (sys h k) h.literal "read from unopened fd fail\n"
          (λ fd. (sys h k).read fd buf 31) 6 2 0
          (λ j le lt. read-Fails h k j buf 31 (inr (inr (free j le (omega arith))))) s1 c1 in
      let (s3, e3, c3) =
        expect_errors-Fails (sys h k) h.literal "write to unopened fd fail\n"
          (λ fd. (sys h k).write fd buf 31) 6 2 0
          (λ j le lt. write-Fails h k j buf 31 (inr (inr (free j le (omega arith))))) s2 c2 in
      rw (e1, e2, e3)
        (verdict-Passes h k "err_unopened: PASS\n" "err_unopened: FAIL\n" s3 at (omega arith) table
          c3)

  err_vidmap-Passes :
      (s : Session D)
      → IsPlaced (memory k) (h.literal "err_vidmap: PASS\n") "err_vidmap: PASS\n"
      → IsOpenTable k
      → IsClocked k s
      → Passes h k "err_vidmap: PASS\n" (err_vidmap (sys h k) h.literal s)
  unfolding err_vidmap
  err_vidmap-Passes s at table c =
      let (s1, e1, c1) =
        expect_error-Fails (sys h k) h.literal "Null pointer fail\n" 0 ((sys h k).vidmap 0)
          (vidmap-Fails h k 0 (inl refl)) s c in
      let (s2, e2, c2) =
        expect_error-Fails (sys h k) h.literal "Kernel pointer fail fail\n" 0
          ((sys h k).vidmap 0x400000) (vidmap-Fails h k 0x400000 (inr (omega arith))) s1 c1 in
      rw (e1, e2)
        (verdict-Passes h k "err_vidmap: PASS\n" "err_vidmap: FAIL\n" s2 at (omega arith) table c2)

  err_stdin_out-Passes :
      (buf : ℕ) (s : Session D)
      → IsPlaced (memory k) (h.literal "err_stdin_out: PASS\n") "err_stdin_out: PASS\n"
      → IsOpenTable k
      → IsClocked k s
      → Passes h k "err_stdin_out: PASS\n" (err_stdin_out (sys h k) h.literal buf s)
  unfolding err_stdin_out
  err_stdin_out-Passes buf s at table c =
      let (s1, e1, c1) =
        expect_error-Fails (sys h k) h.literal "write to stdin fail\n" 0 ((sys h k).write 0 buf 31)
          (write-Fails h k 0 buf 31 (inr (inl refl))) s c in
      let (s2, e2, c2) =
        expect_error-Fails (sys h k) h.literal "read from stdout fail\n" 0 ((sys h k).read 1 buf 31)
          (read-Fails h k 1 buf 31 (inr (inl refl))) s1 c1 in
      rw (e1, e2)
        (verdict-Passes h k "err_stdin_out: PASS\n" "err_stdin_out: FAIL\n" s2 at (omega arith)
          table c2)

  -- With the terminal on descriptors 0 and 1, the other six free, and the lines in the memory: err_neg_fd,
  -- err_big_fd, err_unopened, err_vidmap and err_stdin_out each return 0, and all that they change of the
  -- kernel is that the line that ends in PASS is written to the terminal, and the clock's chip.
  pub error_tests-Passes :
      (buf : ℕ) (s : Session D)
      → ArePlaced (memory k) h.literal
      → IsOpenTable k
      → ((fd : ℕ) → 2 ≤ fd → fd < 8 → (descriptor k fd).flags ≡ 0)
      → IsClocked k s
      → Passes h k "err_neg_fd: PASS\n" (err_neg_fd (sys h k) h.literal buf s)
        × Passes h k "err_big_fd: PASS\n" (err_big_fd (sys h k) h.literal buf s)
        × Passes h k "err_unopened: PASS\n" (err_unopened (sys h k) h.literal buf s)
        × Passes h k "err_vidmap: PASS\n" (err_vidmap (sys h k) h.literal s)
        × Passes h k "err_stdin_out: PASS\n" (err_stdin_out (sys h k) h.literal buf s)
  unfolding err_neg_fd err_big_fd
  error_tests-Passes buf s at table free c = (
    try_fd-Passes "err_neg_fd: PASS\n" "err_neg_fd: FAIL\n" neg_fd buf s refl at.neg_fd
        (omega arith) table c,
    try_fd-Passes "err_big_fd: PASS\n" "err_big_fd: FAIL\n" big_fd buf s refl at.big_fd
        (omega arith) table c,
    err_unopened-Passes buf s free at.unopened table c,
    err_vidmap-Passes s at.vidmap table c,
    err_stdin_out-Passes buf s at.stdin_out table c,
  )
