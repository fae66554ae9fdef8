-- ===== src/Programs/Tests.antt =====
-- The theorems on the user programs, on the sample kernel with the program's constants in its memory.
use Prim.Native.String.{String, len, char_at}
use Prim.Native.Char.{code}
use native.Mathlib.Decide.{ℕ_discrete}
use cheeri_os.Common.{
  [], ℕ, zero, suc, ◌+◌, ◌-◌, ◌*◌, ◌/◌, ◌%◌, ◌<◌, ◌≡◌, ◌≢◌, ◌↔◌, ◌∙◌, refl, arith, true, false, not,
  Bool, ◌&&◌, ◌==◌, ltb, if◌then◌else◌, some, Mem, load8, minus_one,
}
use cheeri_os.Strings.{strlen, strncmp, strcpy}
use cheeri_os.Output.{strrev, itoa}
use cheeri_os.Kernel.State.{Kernel, set_memory, set_descriptor, file_table}
use cheeri_os.Kernel.Sample.{bytes, idle, both}
use cheeri_os.Kernel.Sample.Facts.{both-IsOpenTable, known, length_three, disk-IsApart}
use cheeri_os.Programs.Support.{
  ece391_strncmp, ece391_strlen, ece391_strcpy, ece391_strrev, ece391_itoa,
}
use cheeri_os.Programs.Support.Agree.{support_agrees}
use cheeri_os.Programs.Session.{Session, Host, kernel_system}
use cheeri_os.Programs.Files.{cat_loop}
use cheeri_os.Programs.Files.Printing.{IsPrintable, IsCopied, size}
use cheeri_os.Programs.Files.Printed.{cat_loop-IsCopied}
use cheeri_os.Programs.Errors.{err_neg_fd, err_big_fd, err_unopened, err_vidmap, err_stdin_out}
use cheeri_os.Programs.Errors.Refusals.{IsPlaced, sys, Passes}
use cheeri_os.Programs.Errors.Passing.{ArePlaced, error_tests-Passes}

abbrev text_of : ℕ → String
text_of t =
    if t == 0
    then "err_neg_fd: PASS\n"
    else if t == 1
    then "err_big_fd: PASS\n"
    else if t == 2
    then "err_unopened: PASS\n"
    else if t == 3
    then "err_vidmap: PASS\n"
    else "err_stdin_out: PASS\n"

-- Line t stands at 100000 + 100 * t.
abbrev lines : Mem
lines a =
    if ltb a 100000
    then bytes a
    else code (char_at (text_of ((a - 100000) / 100)) ((a - 100000) % 100))

-- The five lines differ in their fifth character.
abbrev literal : String → ℕ
literal text =
    let c = code (char_at text 4) in
    if c == b'n'
    then 100000
    else if c == b'b'
    then 100100
    else if c == b'u'
    then 100200
    else if c == b'v'
    then 100300
    else 100400

abbrev host : Host ℕ
host = record {
  hw = idle;
  arrivals = λ n. record {
    segment = record { past_scan = λ i. 0; past_chars = λ i. 0 };
    scans = [];
    ticks = 0;
  };
  run = λ command k. some (minus_one, k);
  dentry = 80000;
  page_table = 0x6000;
  literal = literal;
}

abbrev program : Kernel ℕ
program = set_memory lines both

place :
    (t i : ℕ) → i < 100 → load8 lines (100000 + 100 * t + i) ≡ code (char_at (text_of t) i) % 256
place t i lt =
    let above : ltb (100000 + 100 * t + i) 100000 ≡ false = ground arith in
    let line : (100000 + 100 * t + i - 100000) / 100 ≡ t = omega arith in
    let column : (100000 + 100 * t + i - 100000) % 100 ≡ i = omega arith in
    rw (above, line, column) refl

-- the first n characters are not NUL
all_nonzero : ℕ → String → Bool
all_nonzero zero text = true
all_nonzero (suc n) text = not (code (char_at text n) % 256 == 0) && all_nonzero n text

all_nonzero_lem :
    (n : ℕ) (text : String) (i : ℕ)
    → all_nonzero n text ≡ true
    → i < n
    → code (char_at text i) % 256 ≢ 0
unfolding all_nonzero
all_nonzero_lem zero text i e lt = absurd (omega arith)
all_nonzero_lem (suc n) text i e lt = elim (ℕ_discrete i n) [
  | yes same ↦ rw same (ground (arith, e))
  | no other ↦ all_nonzero_lem n text i (ground (arith, e)) (omega arith)
]

line-IsPlaced :
    (t : ℕ)
    → len (text_of t) < 100
    → all_nonzero (len (text_of t)) (text_of t) ≡ true
    → code (char_at (text_of t) (len (text_of t))) % 256 ≡ 0
    → IsPlaced lines (100000 + 100 * t) (text_of t)
line-IsPlaced t short nonzero nul = record {
  contents = λ i lt. place t i (omega arith);
  string = record {
    nonzero = λ i lt.
        rw (place t i (omega arith)) (all_nonzero_lem (len (text_of t)) (text_of t) i nonzero lt);
    ends = place t (len (text_of t)) short ∙ nul;
  };
  real = omega arith;
}

placed : ArePlaced lines literal
unfolding all_nonzero
placed = record {
  neg_fd = line-IsPlaced 0 (omega arith) refl refl;
  big_fd = line-IsPlaced 1 (omega arith) refl refl;
  unopened = line-IsPlaced 2 (omega arith) refl refl;
  vidmap = line-IsPlaced 3 (omega arith) refl refl;
  stdin_out = line-IsPlaced 4 (omega arith) refl refl;
}

error_tests-Passes_example :
    let s : Session ℕ = record { kernel = program; reads = 0 } in
    Passes host program "err_neg_fd: PASS\n" (err_neg_fd (sys host program) literal 70000 s)
    × Passes host program "err_big_fd: PASS\n" (err_big_fd (sys host program) literal 70000 s)
    × Passes host program "err_unopened: PASS\n" (err_unopened (sys host program) literal 70000 s)
    × Passes host program "err_vidmap: PASS\n" (err_vidmap (sys host program) literal s)
    × Passes host program "err_stdin_out: PASS\n" (err_stdin_out (sys host program) literal 70000 s)
error_tests-Passes_example =
    error_tests-Passes host program 70000 (record { kernel = program; reads = 0 }) placed
      both-IsOpenTable (λ fd low high. ground arith) (program.rtc, 0, refl)

-- the sample's file open at its start
abbrev opened : Kernel ℕ
opened = set_descriptor 2 (record { fjt_ptr = file_table; inode = 0; file_pos = 0; flags = 1 }) both

opened-IsPrintable : IsPrintable opened 2 70000
opened-IsPrintable = record {
  table = λ fd lt. record { flag = ground arith; terminal = λ le. ground arith };
  valid = (omega arith, omega arith);
  used = refl;
  type = refl;
  known = known;
  short = omega (arith, length_three);
  from_buf = disk-IsApart 70000 1024 (omega arith);
  from_video = disk-IsApart 0xB8000 4000 (omega arith);
  boot = (omega arith, omega arith);
  apart = omega arith;
  real = omega arith;
  inside = omega arith;
}

cat_loop-IsCopied_example :
    (s' : Session ℕ) × (cat_loop
        (kernel_system host)
        literal
        4
        2
        70000
        (record { kernel = opened; reads = 0 })
      ≡ some (0, s'))
    × IsCopied opened 2 70000 (size opened 2 70000) s'.kernel
cat_loop-IsCopied_example =
    cat_loop-IsCopied host opened 2 70000 4 0 opened-IsPrintable refl (omega (arith, length_three))

support_agrees_example :
    (ece391_strlen bytes 60000 ≡ strlen bytes 60000)
    × (ece391_strcpy 70000 60000 bytes ≡ strcpy bytes 70000 60000)
    × (ece391_strrev 60000 bytes ≡ strrev 60000 bytes)
    × (ece391_itoa 65535 70000 16 bytes ≡ itoa 65535 70000 16 bytes)
    × ((ece391_strncmp bytes 60000 60001 4 ≡ 0) ↔ (strncmp bytes 60000 60001 4 ≡ 0))
support_agrees_example = support_agrees bytes 60000 60000 60001 4 70000 60000 65535 70000 16
