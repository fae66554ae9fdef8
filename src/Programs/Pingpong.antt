-- ===== src/Programs/Pingpong.antt =====
-- syscalls/ece391pingpong.c. The program never returns: its result is the state after some rounds.
use Prim.Native.String.{String}
use cheeri_os.Common.{ℕ, zero, suc, ◌+◌, ◌-◌, Option, some, ◌>>=◌, ◌==◌, if◌then◌else◌, store32}
use cheeri_os.Programs.System.{System}
use cheeri_os.Programs.Support.{ece391_fdputs}
use cheeri_os.Programs.Files.{poke}

-- BUFMAX is 79 + 2, STARTLOOP 1 + 1 and LOOPMAX 79 + 2 - 2 - 1.
abbrev bufmax : ℕ
bufmax = 81

abbrev startloop : ℕ
startloop = 2

abbrev loopmax : ℕ
loopmax = 78

-- Z is followed by A.
pub next_char : ℕ → ℕ
next_char curchar = if curchar == b'Z' then b'A' else (curchar + 1)

module _ {S : Type 0} (c : System S) (literal : String → ℕ) where
  -- spaces at buf[i], ..., `n` of them
  pub clear_from : ℕ → (buf i : ℕ) → S → S
  clear_from zero buf i st = st
  clear_from (suc n) buf i st = clear_from n buf (i + 1) (poke c (buf + i) b' ' st)

  -- one picture: the character at column j, and the wait for a tick
  pub draw : (rtc_fd garbage buf curchar j : ℕ) → S → Option S
  draw rtc_fd garbage buf curchar j st = do
    st1 ←
        ece391_fdputs c 1 buf
          (poke c (buf + j) curchar (clear_from (loopmax - startloop) buf startloop st))
    (n, st2) ← c.read rtc_fd garbage 4 st1
    some st2

  -- `for (j = STARTLOOP; j < LOOPMAX; j++)`, with `n` columns left
  pub move_out : ℕ → (rtc_fd garbage buf curchar j : ℕ) → S → Option S
  move_out zero rtc_fd garbage buf curchar j st = some st
  move_out (suc n) rtc_fd garbage buf curchar j st = do
    st1 ← draw rtc_fd garbage buf curchar j st
    move_out n rtc_fd garbage buf curchar (j + 1) st1

  -- `for (j = LOOPMAX - 1; j >= STARTLOOP; j--)`, with `n` columns left
  pub bounce_back : ℕ → (rtc_fd garbage buf curchar : ℕ) → S → Option S
  bounce_back zero rtc_fd garbage buf curchar st = some st
  bounce_back (suc n) rtc_fd garbage buf curchar st = do
    st1 ← draw rtc_fd garbage buf curchar (startloop + n) st
    bounce_back n rtc_fd garbage buf curchar st1

  -- `while (1)`, for `n` rounds
  pub rounds : ℕ → (rtc_fd garbage buf curchar : ℕ) → S → Option S
  rounds zero rtc_fd garbage buf curchar st = some st
  rounds (suc n) rtc_fd garbage buf curchar st = do
    st1 ← move_out (loopmax - startloop) rtc_fd garbage buf curchar startloop st
    st2 ← bounce_back (loopmax - startloop) rtc_fd garbage buf curchar st1
    rounds n rtc_fd garbage buf (next_char curchar) st2

  -- main, for `n` rounds; `ret_val` and `garbage` are the addresses of its variables
  pub pingpong : ℕ → (buf ret_val garbage : ℕ) → S → Option S
  pingpong n buf ret_val garbage st = do
    let walls = poke c (buf + 1) b'|' (
        poke c (buf + (bufmax - 3)) b'|' (
          poke c (buf + (bufmax - 2)) b'\n'
            (poke c (buf + (bufmax - 1)) 0 (clear_from bufmax buf 0 st))))
    (rtc_fd, st1) ← c.open_file (literal "rtc") walls
    (v, st2) ← c.write rtc_fd ret_val 4 (c.set_memory (store32 (c.memory st1) ret_val 32) st1)
    rounds n rtc_fd garbage buf b'A' (c.set_memory (store32 (c.memory st2) ret_val v) st2)
