-- ===== src/Programs/Errors.antt =====
-- syscalls/ece391syserr.c: the program that tests how the system calls fail. Each of its tests counts the calls that
-- should have failed and did not; `call_sys` is the assembly that makes a call by its number.
pub mod Reports
pub mod Refusals
pub mod Passing
use Prim.Native.String.{String}
use cheeri_os.Common.{
  ℕ, zero, suc, ◌+◌, ◌-◌, Bool, true, false, not, Option, none, some, ◌>>=◌, ◌==◌, if◌then◌else◌,
  load8, add32, sub32, minus_one, word,
}
use cheeri_os.Programs.System.{System}
use cheeri_os.Programs.Files.{say}

-- NEG_FD and NEG_NUM
abbrev pub neg_fd : ℕ
neg_fd = word - 1073741823

-- BIG_FD and BIG_NUM
abbrev pub big_fd : ℕ
big_fd = 1073741823

module _ {S : Type 0} (c : System S) (literal : String → ℕ) where
  -- `if (-1 != value) { print text; fail = 2; }` after a call, with the fail so far
  unfoldable pub expect_error :
      String → (fail : ℕ) → (call : S → Option (ℕ × S)) → S → Option (ℕ × S)
  expect_error text fail call st = do
    (v, st1) ← call st
    if v == minus_one then some (fail, st1) else do st2 ← say c literal text st1; some (2, st2)

  -- the line with the result of a test
  unfoldable pub verdict : (passed failed : String) → (fail : ℕ) → S → Option (ℕ × S)
  verdict passed failed fail st =
      if fail == 0
      then (do st1 ← say c literal passed st; some (fail, st1))
      else do st1 ← say c literal failed st; some (fail, st1)

  -- read, write and close of a descriptor that is out of range
  unfoldable pub try_fd : (fd buf : ℕ) → S → Option (ℕ × S)
  try_fd fd buf st = do
    (f1, st1) ← expect_error "read fail\n" 0 (c.read fd buf 31) st
    (f2, st2) ← expect_error "write fail\n" f1 (c.write fd buf 31) st1
    expect_error "close fail\n" f2 (c.close fd) st2

  unfoldable pub err_neg_fd : (buf : ℕ) → S → Option (ℕ × S)
  err_neg_fd buf st = do
    (fail, st1) ← try_fd neg_fd buf st
    verdict "err_neg_fd: PASS\n" "err_neg_fd: FAIL\n" fail st1

  unfoldable pub err_big_fd : (buf : ℕ) → S → Option (ℕ × S)
  err_big_fd buf st = do
    (fail, st1) ← try_fd big_fd buf st
    verdict "err_big_fd: PASS\n" "err_big_fd: FAIL\n" fail st1

  -- the loop that opens the directory, with `n` rounds left: how many calls failed
  unfoldable pub open_lots : ℕ → (cnt : ℕ) → S → Option (ℕ × S)
  open_lots zero cnt st = some (cnt, st)
  open_lots (suc n) cnt st = do
    (v, st1) ← c.open_file (literal ".") st
    open_lots n (if v == minus_one then cnt + 1 else cnt) st1

  -- close of the descriptors from `i`, `n` of them
  unfoldable pub close_opened : (n i : ℕ) → S → Option S
  close_opened zero i st = some st
  close_opened (suc n) i st = do (v, st1) ← c.close i st; close_opened n (i + 1) st1

  unfoldable pub err_open_lots : S → Option (ℕ × S)
  err_open_lots st = do
    (cnt, st1) ← open_lots 7 0 st
    st2 ← close_opened 6 2 st1
    verdict "err_open_lots: PASS\n" "err_open_lots: FAIL\n" (if cnt == 1 then 0 else 2) st2

  unfoldable pub err_open : S → Option (ℕ × S)
  err_open st = do
    (f1, st1) ← expect_error "'helloo' fail\n" 0 (c.open_file (literal "helloo")) st
    (f2, st2) ← expect_error "'shel' fail\n" f1 (c.open_file (literal "shel")) st1
    (f3, st3) ← expect_error "empty string fail\n" f2 (c.open_file (literal "")) st2
    verdict "err_open: PASS\n" "err_open: FAIL\n" f3 st3

  -- a call for each descriptor from `i`, `n` of them, with the fail so far
  unfoldable pub expect_errors :
      String → (call : ℕ → S → Option (ℕ × S)) → (n i fail : ℕ) → S → Option (ℕ × S)
  expect_errors text call zero i fail st = some (fail, st)
  expect_errors text call (suc n) i fail st = do
    (f1, st1) ← expect_error text fail (call i) st
    expect_errors text call n (i + 1) f1 st1

  unfoldable pub err_unopened : (buf : ℕ) → S → Option (ℕ × S)
  err_unopened buf st = do
    (f1, st1) ← expect_errors "close unopened or invalid fd fail\n" c.close 8 0 0 st
    (f2, st2) ← expect_errors "read from unopened fd fail\n" (λ fd. c.read fd buf 31) 6 2 f1 st1
    (f3, st3) ← expect_errors "write to unopened fd fail\n" (λ fd. c.write fd buf 31) 6 2 f2 st2
    verdict "err_unopened: PASS\n" "err_unopened: FAIL\n" f3 st3

  unfoldable pub err_vidmap : S → Option (ℕ × S)
  err_vidmap st = do
    (f1, st1) ← expect_error "Null pointer fail\n" 0 (c.vidmap 0) st
    (f2, st2) ← expect_error "Kernel pointer fail fail\n" f1 (c.vidmap 0x400000) st1
    verdict "err_vidmap: PASS\n" "err_vidmap: FAIL\n" f2 st2

  unfoldable pub err_stdin_out : (buf : ℕ) → S → Option (ℕ × S)
  err_stdin_out buf st = do
    (f1, st1) ← expect_error "write to stdin fail\n" 0 (c.write 0 buf 31) st
    (f2, st2) ← expect_error "read from stdout fail\n" f1 (c.read 1 buf 31) st1
    verdict "err_stdin_out: PASS\n" "err_stdin_out: FAIL\n" f2 st2

  unfoldable pub err_syscall_num : (call_sys : ℕ → S → Option (ℕ × S)) → S → Option (ℕ × S)
  err_syscall_num call_sys st = do
    (f1, st1) ← expect_error "syscall 0 fail\n" 0 (call_sys big_fd) st
    (f2, st2) ← expect_error "big num syscall fail\n" f1 (call_sys neg_fd) st1
    (f3, st3) ← expect_error "neg num syscall fail\n" f2 (call_sys 0) st2
    verdict "err_syscall_num: PASS\n" "err_syscall_num: FAIL\n" f3 st3

  -- `case 0`: every test, and their values added up
  unfoldable pub run_all : (call_sys : ℕ → S → Option (ℕ × S)) → (buf : ℕ) → S → Option (ℕ × S)
  run_all call_sys buf st = do
    (v1, st1) ← err_neg_fd buf st
    (v2, st2) ← err_big_fd buf st1
    (v3, st3) ← err_open_lots st2
    (v4, st4) ← err_open st3
    (v5, st5) ← err_unopened buf st4
    (v6, st6) ← err_vidmap st5
    (v7, st7) ← err_stdin_out buf st6
    (v8, st8) ← err_syscall_num call_sys st7
    verdict "\nOverall Tests: PASS\n" "\nOverall Tests: FAIL\n"
        (v1 + v2 + v3 + v4 + v5 + v6 + v7 + v8) st8

  -- main; `buf` is its own array, `test_buf` that of the tests
  unfoldable pub syserr :
      (call_sys : ℕ → S → Option (ℕ × S)) → (buf test_buf : ℕ) → S → Option (ℕ × S)
  syserr call_sys buf test_buf st = do
    st1 ← say c literal "Choose from tests 1-8. 0 to run all: " st
    (cnt, st2) ← c.read 0 buf 127 st1
    let select = sub32 (load8 (c.memory st2) buf) b'0'
    if cnt == minus_one
        then (do st3 ← say c literal "Can't read test #\n" st2; some (2, st3))
        else if select == 0
        then run_all call_sys test_buf st2
        else if select == 1
        then err_neg_fd test_buf st2
        else if select == 2
        then err_big_fd test_buf st2
        else if select == 3
        then err_open_lots st2
        else if select == 4
        then err_open st2
        else if select == 5
        then err_unopened test_buf st2
        else if select == 6
        then err_vidmap st2
        else if select == 7
        then err_stdin_out test_buf st2
        else if select == 8
        then err_syscall_num call_sys st2
        else do
          st3 ← say c literal "Invalid test number. Choose from tests 1-8 or 0" st2
          some (0, st3)
