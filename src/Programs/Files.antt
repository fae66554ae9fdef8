-- ===== src/Programs/Files.antt =====
-- cat, ls and grep: syscalls/ece391cat.c, syscalls/ece391ls.c and syscalls/ece391grep.c.
pub mod Copying
pub mod Printing
pub mod Printed
use Prim.Native.String.{String}
use cheeri_os.Common.{
  ℕ, zero, suc, ◌+◌, ◌-◌, Bool, true, false, not, ◌&&◌, Option, none, some, ◌>>=◌, ◌==◌, slt,
  if◌then◌else◌, Mem, load8, store8, add32, ltb, sub32, minus_one,
}
use cheeri_os.Programs.System.{System}
use cheeri_os.Programs.Support.{ece391_strlen, ece391_strcpy, ece391_strncmp, ece391_fdputs}

-- ece391_fdputs of a string constant to descriptor 1
abbrev pub say : {S : Type 0} → System S → (String → ℕ) → String → S → Option S
say c literal text st = ece391_fdputs c 1 (literal text) st

-- print a constant and return a value
abbrev pub fail : {S : Type 0} → System S → (String → ℕ) → (value : ℕ) → String → S → Option (ℕ × S)
fail c literal value text st = do st' ← say c literal text st; some (value, st')

-- one byte of the program's memory
abbrev pub poke : {S : Type 0} → System S → (p v : ℕ) → S → S
poke c p v st = c.set_memory (store8 (c.memory st) p v) st

-- the buffer sizes
abbrev pub bufsize : ℕ
bufsize = 1024

abbrev pub sbufsize : ℕ
sbufsize = 33

module _ {S : Type 0} (c : System S) (literal : String → ℕ) where
  -- `while (0 != (cnt = ece391_read (fd, buf, 1024)))`, with `n` rounds left
  unfoldable pub cat_loop : ℕ → (fd buf : ℕ) → S → Option (ℕ × S)
  cat_loop zero fd buf st = none
  cat_loop (suc n) fd buf st = do
    (cnt, st1) ← c.read fd buf 1024 st
    elim (cnt == 0) [
      | true ↦ some (0, st1)
      | false ↦ elim (cnt == minus_one) [
        | true ↦ fail c literal 3 "file read failed\n" st1
        | false ↦ do
          (v, st2) ← c.write 1 buf cnt st1
          elim (v == minus_one) [ true ↦ some (3, st2) | false ↦ cat_loop n fd buf st2 ]
      ]
    ]

  -- main of cat
  unfoldable pub cat : ℕ → (buf : ℕ) → S → Option (ℕ × S)
  cat n buf st = do
    (v, st1) ← c.getargs buf 1024 st
    if not (v == 0) then fail c literal 3 "could not read arguments\n" st1 else do
      (fd, st2) ← c.open_file buf st1
      if fd == minus_one then fail c literal 2 "file not found\n" st2 else cat_loop n fd buf st2

  -- `while (0 != (cnt = ece391_read (fd, buf, SBUFSIZE-1)))`
  pub ls_loop : ℕ → (fd buf : ℕ) → S → Option (ℕ × S)
  ls_loop zero fd buf st = none
  ls_loop (suc n) fd buf st = do
    (cnt, st1) ← c.read fd buf (sbufsize - 1) st
    elim (cnt == 0) [
      | true ↦ some (0, st1)
      | false ↦ elim (cnt == minus_one) [
        | true ↦ fail c literal 3 "directory entry read failed\n" st1
        | false ↦ do
          (v, st2) ← c.write 1 buf (add32 cnt 1) (poke c (buf + cnt) b'\n' st1)
          elim (v == minus_one) [ true ↦ some (3, st2) | false ↦ ls_loop n fd buf st2 ]
      ]
    ]

  -- main of ls
  pub ls : ℕ → (buf : ℕ) → S → Option (ℕ × S)
  ls n buf st = do
    (fd, st1) ← c.open_file (literal ".") st
    if fd == minus_one then fail c literal 2 "directory open failed\n" st1 else ls_loop n fd buf st1

  -- `while (line_end < last && '\n' != data[line_end])`, with `n` rounds left
  pub find_line_end : ℕ → (text_buf last line_end : ℕ) → Mem → ℕ
  find_line_end zero text_buf last line_end m = line_end
  find_line_end (suc n) text_buf last line_end m =
      let rest = find_line_end n text_buf last (line_end + 1) m in
      if slt line_end last && not (load8 m (text_buf + line_end) == b'\n') then rest else line_end

  -- the search of a line, with `n` places left: prints it at the first match. `s` points at signed characters,
  -- `data` at unsigned ones: a first byte from 128 on equals none.
  pub search_line : ℕ → (s s_len fname text_buf line_start check : ℕ) → S → Option S
  search_line zero s s_len fname text_buf line_start check st = some st
  search_line (suc n) s s_len fname text_buf line_start check st =
      let m = c.memory st in
      elim (ltb (load8 m s) 128
        && load8 m s == load8 m (text_buf + check)
        && ece391_strncmp m (text_buf + check) s s_len == 0) [
          | true ↦ do
            st1 ← ece391_fdputs c 1 fname st
            st2 ← say c literal ":" st1
            st3 ← ece391_fdputs c 1 (text_buf + line_start) st2
            say c literal "\n" st3
          | false ↦ search_line n s s_len fname text_buf line_start (check + 1) st
        ]

  -- the lines of the buffer, with `n` rounds left: what `last` is behind it
  pub lines_loop : ℕ → (s s_len fname text_buf cnt last line_start : ℕ) → S → Option (ℕ × S)
  lines_loop zero s s_len fname text_buf cnt last line_start st = none
  lines_loop (suc n) s s_len fname text_buf cnt last line_start st =
      let line_end = find_line_end bufsize text_buf last line_start (c.memory st) in
      let st1 = poke c (text_buf + line_end) 0 st in
      elim (not (load8 (c.memory st) (text_buf + line_end) == b'\n')
        && not (cnt == 0)
        && not (line_start == 0)) [
          | true ↦ do
            m ← ece391_strcpy text_buf (text_buf + line_start) (c.memory st1)
            some (sub32 last line_start, c.set_memory m st1)
          | false ↦ do
            st2 ←
                search_line (line_end - line_start) s s_len fname text_buf line_start line_start st1
            elim (slt (line_end + 1) last) [
              | true ↦ lines_loop n s s_len fname text_buf cnt last (line_end + 1) st2
              | false ↦ some (0, st2)
            ]
        ]

  -- `while (1)` of do_one_file, and what follows it
  pub file_loop : ℕ → (s s_len fname text_buf fd last : ℕ) → S → Option (ℕ × S)
  file_loop zero s s_len fname text_buf fd last st = none
  file_loop (suc n) s s_len fname text_buf fd last st = do
    (cnt, st1) ← c.read fd (text_buf + last) (sub32 bufsize last) st
    elim (cnt == minus_one) [
      | true ↦ fail c literal minus_one "file read failed\n" st1
      | false ↦ do
        (last', st2) ← lines_loop (bufsize + 1) s s_len fname text_buf cnt (add32 last cnt) 0 st1
        elim (cnt == 0) [
          | true ↦ do
            (v, st3) ← c.close fd st2
            if v == minus_one
                then fail c literal minus_one "file close failed\n" st3
                else some (0, st3)
          | false ↦ file_loop n s s_len fname text_buf fd last' st2
        ]
    ]

  pub do_one_file : ℕ → (s fname text_buf : ℕ) → S → Option (ℕ × S)
  do_one_file n s fname text_buf st = do
    s_len ← ece391_strlen (c.memory st) s
    (fd, st1) ← c.open_file fname st
    if fd == minus_one
        then fail c literal minus_one "file open failed\n" st1
        else file_loop n s s_len fname text_buf fd 0 st1

  -- the loop over the directory; do_one_file takes `n` rounds for each file
  pub grep_loop : ℕ → (n fd buf pattern text_buf : ℕ) → S → Option (ℕ × S)
  grep_loop zero n fd buf pattern text_buf st = none
  grep_loop (suc k) n fd buf pattern text_buf st = do
    (cnt, st1) ← c.read fd buf (sbufsize - 1) st
    elim (cnt == 0) [
      | true ↦ some (0, st1)
      | false ↦ elim (cnt == minus_one) [
        | true ↦ fail c literal 3 "directory entry read failed\n" st1
        | false ↦ elim (load8 (c.memory st1) buf == b'.') [
          | true ↦ grep_loop k n fd buf pattern text_buf st1
          | false ↦ do
            (v, st2) ← do_one_file n pattern buf text_buf (poke c (buf + cnt) 0 st1)
            elim (v == 0) [
              | true ↦ grep_loop k n fd buf pattern text_buf st2
              | false ↦ some (3, st2)
            ]
        ]
      ]
    ]

  -- main of grep
  pub grep : (k n buf pattern text_buf : ℕ) → S → Option (ℕ × S)
  grep k n buf pattern text_buf st = do
    (v, st1) ← c.getargs pattern bufsize st
    if not (v == 0) then fail c literal 3 "could not read argument\n" st1 else do
      (fd, st2) ← c.open_file (literal ".") st1
      if fd == minus_one
          then fail c literal 2 "directory open failed\n" st2
          else grep_loop k n fd buf pattern text_buf st2
