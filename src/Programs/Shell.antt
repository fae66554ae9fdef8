-- ===== src/Programs/Shell.antt =====
-- The programs that talk to the terminal: syscalls/ece391shell.c, syscalls/ece391counter.c, syscalls/ece391hello.c
-- and syscalls/ece391testprint.c.
use Prim.Native.String.{String}
use cheeri_os.Common.{
  ℕ, zero, suc, ◌+◌, ◌-◌, true, false, not, ◌&&◌, ◌||◌, Option, none, some, ◌>>=◌, ◌==◌, ltb, slt,
  if◌then◌else◌, Mem, load8, add32, minus_one,
}
use cheeri_os.Programs.System.{System}
use cheeri_os.Programs.Support.{ece391_strlen, ece391_strcmp, ece391_itoa, ece391_fdputs}
use cheeri_os.Programs.Files.{say, fail, poke, bufsize}

-- the length of the line without the newline that ends it
pub trim : Mem → (buf cnt : ℕ) → ℕ
trim m buf cnt = if slt 0 cnt && load8 m (buf + (cnt - 1)) == b'\n' then cnt - 1 else cnt

module _ {S : Type 0} (c : System S) (literal : String → ℕ) where
  -- what the shell prints for the value of execute
  pub report : (rval : ℕ) → S → Option S
  report rval st =
      if rval == minus_one
      then say c literal "no such command\n" st
      else if rval == 256
      then say c literal "program terminated by exception\n" st
      else if not (rval == 0)
      then say c literal "program terminated abnormally\n" st
      else some st

  -- `while (1)` of the shell, with `n` rounds left
  pub shell_loop : ℕ → (buf : ℕ) → S → Option (ℕ × S)
  shell_loop zero buf st = none
  shell_loop (suc n) buf st = do
    st1 ← say c literal "391OS> " st
    (cnt, st2) ← c.read 0 buf (bufsize - 1) st1
    elim (cnt == minus_one) [
      | true ↦ fail c literal 3 "read from keyboard failed\n" st2
      | false ↦ do
        let st3 = poke c (buf + trim (c.memory st2) buf cnt) 0 st2
        v ← ece391_strcmp (c.memory st3) buf (literal "exit")
        elim (v == 0) [
          | true ↦ some (0, st3)
          | false ↦ elim (load8 (c.memory st3) buf == 0) [
            | true ↦ shell_loop n buf st3
            | false ↦ do
              (rval, st4) ← c.execute buf st3
              st5 ← report rval st4
              shell_loop n buf st5
          ]
        ]
    ]

  -- main of the shell
  pub shell : ℕ → (buf : ℕ) → S → Option (ℕ × S)
  shell n buf st = do st' ← say c literal "Starting 391 Shell\n" st; shell_loop n buf st'

  -- main of hello
  pub hello : (buf : ℕ) → S → Option (ℕ × S)
  hello buf st = do
    st1 ← say c literal "Hi, what's your name? " st
    (cnt, st2) ← c.read 0 buf (bufsize - 1) st1
    if cnt == minus_one then fail c literal 3 "Can't read name from keyboard.\n" st2 else do
      st3 ← say c literal "Hello, " (poke c (buf + cnt) 0 st2)
      st4 ← ece391_fdputs c 1 buf st3
      some (0, st4)

  -- main of testprint
  pub testprint : S → Option (ℕ × S)
  testprint st = fail c literal 0 "Hello, if this ran, the program was correct. Yay!\n" st

  -- the last number to print, for the first byte of the answer
  pub last_number : (answer : ℕ) → ℕ
  last_number answer =
      if answer == b'0'
      then 100
      else if answer == b'1'
      then 10000
      else if answer == b'2'
      then 100000
      else 0

  -- `for (i = 0; i < max; i++)`, with `n` numbers left
  pub count_loop : ℕ → (i buf : ℕ) → S → Option (ℕ × S)
  count_loop zero i buf st = some (0, st)
  count_loop (suc n) i buf st = do
    m ← ece391_itoa (add32 i 1) buf 10 (c.memory st)
    st1 ← ece391_fdputs c 1 buf (c.set_memory m st)
    st2 ← say c literal "\n" st1
    count_loop n (i + 1) buf st2

  -- main of counter
  pub counter : (buf : ℕ) → S → Option (ℕ × S)
  counter buf st = do
    st1 ← say c literal "Enter the Test Number: (0): 100, (1): 10000, (2): 100000\n" st
    (cnt, st2) ← c.read 0 buf (bufsize - 1) st1
    if cnt == minus_one then fail c literal 3 "Can't read the number from keyboard.\n" st2 else do
      let st3 = poke c (buf + cnt) 0 st2
      let answer = load8 (c.memory st3) buf
      n ← ece391_strlen (c.memory st3) buf
      if ltb 2 n || (n == 2 && (ltb answer b'0' || ltb b'2' answer))
          then fail c literal 0 "Wrong Choice!\n" st3
          else count_loop (last_number answer) 0 buf st3
