-- ===== src/Kernel/History.antt =====
-- Processes over time: the system calls of the process that runs, execute, halt and keyboard interrupts, one
-- after the other. What execute and halt leave is where the next process runs.
use cheeri_os.Common.{
  ℕ, ◌%◌, ◌==◌, ◌||◌, List, [], ◌∷◌, Bool-cases, inl, inr, Option, some, ◌>>=◌, Each, Each-bind,
  Each-then, Each-if, leb, slt, minus_one, word, load8,
}
use cheeri_os.Strings.{strlen}
use cheeri_os.FileSystem.Layout.{inode_length}
use cheeri_os.FileSystem.Data.{read_data}
use cheeri_os.FileSystem.Directory.{dir_read, read_dentry_by_name}
use cheeri_os.Keyboard.Handler.Bounds.{IsKeyboard, keyboard_handler-IsKeyboard}
use cheeri_os.Keyboard.Terminal.{read_terminal}
use cheeri_os.Keyboard.Terminal.Bounds.{read_terminal-IsKeyboard, write_terminal-IsKeyboard}
use cheeri_os.Ports.{Machine}
use cheeri_os.Rtc.{rtc_read}
use cheeri_os.Kernel.State.{
  Kernel, Table, missing, std_table, rtc_table, file_table, dir_table, memory, descriptor,
  process_args,
}
use cheeri_os.Kernel.Files.{Arrivals, file_read, read_directory, call_read, call_write}
use cheeri_os.Kernel.Calls.{
  open_entry, open_call, close, read, write, getargs, min_valid_fd, max_valid_fd,
}
use cheeri_os.Kernel.Calls.Descriptors.{open_entry-least}
use cheeri_os.Kernel.Calls.Steps.{
  Event, opening, closing, reading, writing, asking, pressing, event,
}
use cheeri_os.Kernel.Process.{Frame, execute, halt}
use cheeri_os.Kernel.Process.Counts.{IsCounted, memory-IsCounted, execute-IsCounted, halt-IsCounted}

module _ {D : Type 0} where
  abbrev Counted {ℓ} : {A : Type ℓ} → A × Kernel D → Type 0
  Counted x = IsCounted x.1

  open_entry-IsCounted :
      (dentry : ℕ) {k : Kernel D} → IsCounted k → IsCounted (open_entry dentry k).1
  open_entry-IsCounted dentry {k} v = elim (open_entry-least dentry k) [
    | inl (fd, least, e) ↦ rw e (record { keyboard = v.keyboard; count = v.count })
    | inr (used, e) ↦ rw e v
  ]

  open_call-IsCounted :
      (dentry filename : ℕ) {k : Kernel D}
      → IsCounted k
      → Each Counted (open_call dentry filename k)
  unfolding open_call
  open_call-IsCounted dentry filename {k} v = Each-then Counted (strlen (memory k) filename) _ (λ n.
      Each-if Counted (n == 0) _ _ v (
        Each-then Counted (read_dentry_by_name k.fs filename dentry (memory k)) _ (λ (check, m).
          Each-if Counted (check == minus_one) _ _ (memory-IsCounted m v)
            (open_entry-IsCounted dentry (memory-IsCounted m v)))))

  close-IsCounted : (fd : ℕ) {k : Kernel D} → IsCounted k → IsCounted (close fd k).1
  unfolding close
  close-IsCounted fd {k} v = elim (Bool-cases (slt fd min_valid_fd || slt max_valid_fd fd)) [
    | inl e ↦ rw e v
    | inr e ↦ elim (Bool-cases ((descriptor k fd).flags == 0)) [
      | inl free ↦ rw (e, free) v
      | inr used ↦ rw (e, used) (record { keyboard = v.keyboard; count = v.count })
    ]
  ]

  getargs-IsCounted :
      (buf nbytes : ℕ) {k : Kernel D} → IsCounted k → IsCounted (getargs buf nbytes k).1
  unfolding getargs
  getargs-IsCounted buf nbytes {k} v = elim (Bool-cases (buf == 0)) [
    | inl e ↦ rw e v
    | inr e ↦ elim (Bool-cases (load8 (memory k) (process_args k.curr) == 0)) [
      | inl none_given ↦ rw (e, none_given) v
      | inr given ↦ rw (e, given) (memory-IsCounted _ v)
    ]
  ]

  module _ (hw : Machine D) where
    call_read-IsCounted :
        (a : Arrivals) (table : Table) (dentry fd buf nbytes : ℕ) {k : Kernel D}
        → IsCounted k
        → Each Counted (call_read hw a table dentry fd buf nbytes k)
    unfolding call_read read_directory file_read
    call_read-IsCounted a missing dentry fd buf nbytes v = tt
    call_read-IsCounted a std_table dentry fd buf nbytes {k} v =
        Each-bind Counted (λ x. IsKeyboard x.1)
          (read_terminal a.segment a.scans fd buf nbytes k.keyboard) _
          (read_terminal-IsKeyboard a.segment a.scans fd buf nbytes v.keyboard)
          (λ (n, keyboard, rest) w. record { keyboard = w; count = v.count })
    call_read-IsCounted a rtc_table dentry fd buf nbytes {k} v =
        Each-then Counted (rtc_read hw a.ticks fd buf nbytes k.rtc) _
          (λ (n, rtc). record { keyboard = v.keyboard; count = v.count })
    call_read-IsCounted a file_table dentry fd buf nbytes {k} v =
        let f = descriptor k fd in
        Each-if Counted (leb (inode_length (memory k) k.fs f.inode) f.file_pos) _ _ v (
          Each-then Counted (read_data k.fs f.inode f.file_pos buf nbytes (memory k)) _ (λ (n, m).
            let w = memory-IsCounted m v in record { keyboard = w.keyboard; count = w.count }))
    call_read-IsCounted a dir_table dentry fd buf nbytes {k} v =
        Each-then Counted (dir_read k.fs dentry buf nbytes (memory k)) _ (λ (n, fs, m).
          let w = memory-IsCounted m v in record { keyboard = w.keyboard; count = w.count })

    call_write-IsCounted :
        (table : Table) (fd buf nbytes : ℕ) {k : Kernel D}
        → IsCounted k
        → Each Counted (call_write hw table fd buf nbytes k)
    unfolding call_write
    call_write-IsCounted missing fd buf nbytes v = tt
    call_write-IsCounted std_table fd buf nbytes v = record {
      keyboard = write_terminal-IsKeyboard fd buf nbytes v.keyboard;
      count = v.count;
    }
    call_write-IsCounted rtc_table fd buf nbytes v = record {
      keyboard = v.keyboard;
      count = v.count;
    }
    call_write-IsCounted file_table fd buf nbytes v = v
    call_write-IsCounted dir_table fd buf nbytes v = v

    read-IsCounted :
        (a : Arrivals) (dentry fd buf nbytes : ℕ) {k : Kernel D}
        → IsCounted k
        → Each Counted (read hw a dentry fd buf nbytes k)
    unfolding read
    read-IsCounted a dentry fd buf nbytes {k} v0 =
        let k1 = record k { rtc = record k.rtc { machine = hw.sti k.rtc.machine } } in
        let v : IsCounted k1 = record { keyboard = v0.keyboard; count = v0.count } in
        Each-if Counted (slt fd 0 || slt max_valid_fd fd) _ _ v (
          Each-if Counted (fd == 1) _ _ v (
            Each-if Counted (buf == 0) _ _ v (
              Each-if Counted ((descriptor k fd).flags == 0) _ _ v
                (call_read-IsCounted a (descriptor k fd).fjt_ptr dentry fd buf nbytes v))))

    write-IsCounted :
        (fd buf nbytes : ℕ) {k : Kernel D} → IsCounted k → Each Counted (write hw fd buf nbytes k)
    unfolding write
    write-IsCounted fd buf nbytes {k} v = Each-if Counted (slt fd 0 || slt max_valid_fd fd) _ _ v (
        Each-if Counted (fd == 0) _ _ v (
          Each-if Counted (buf == 0) _ _ v (
            Each-if Counted ((descriptor k fd).flags == 0) _ _ v
              (call_write-IsCounted (descriptor k fd).fjt_ptr fd buf nbytes v))))

    event-IsCounted : (e : Event) {k : Kernel D} → IsCounted k → Each Counted (event hw e k)
    unfolding event
    event-IsCounted (opening dentry filename) v = open_call-IsCounted dentry filename v
    event-IsCounted (closing fd) v = close-IsCounted fd v
    event-IsCounted (reading a dentry fd buf nbytes) v =
        read-IsCounted a dentry (fd % word) buf nbytes v
    event-IsCounted (writing fd buf nbytes) v = write-IsCounted fd buf nbytes v
    event-IsCounted (asking buf nbytes) v = getargs-IsCounted buf nbytes v
    event-IsCounted (pressing d scan) v = record {
      keyboard = keyboard_handler-IsKeyboard d scan v.keyboard;
      count = v.count;
    }

-- What happens to the kernel: a call or a key press, or the start or the end of a process.
pub data Action : Type 0 where
  calling : Event → Action
  executing : Frame → (command : ℕ) → Action
  halting : Frame → (shell status : ℕ) → Action

module _ {D : Type 0} (hw : Machine D) where
  pub action : Action → Kernel D → Option (Kernel D)
  action (calling e) k = do (n, k') ← event hw e k; some k'
  action (executing f command) k = do (outcome, k') ← execute hw f command k; some k'
  action (halting f shell status) k = do (r, k') ← halt hw f shell status k; some k'

  pub actions : List Action → Kernel D → Option (Kernel D)
  unfolding action
  actions [] k = some k
  actions (a ∷ rest) k = do k' ← action a k; actions rest k'

  action-IsCounted : (a : Action) {k : Kernel D} → IsCounted k → Each IsCounted (action a k)
  unfolding action
  action-IsCounted (calling e) {k} v =
      Each-bind IsCounted (λ x. IsCounted x.1) (event hw e k) _ (event-IsCounted hw e v)
        (λ (n, k') w. w)
  action-IsCounted (executing f command) {k} v =
      Each-bind IsCounted (λ x. IsCounted x.1) (execute hw f command k) _
        (execute-IsCounted hw f command k v) (λ (outcome, k') w. w)
  action-IsCounted (halting f shell status) {k} v =
      Each-bind IsCounted (λ x. IsCounted x.1) (halt hw f shell status k) _
        (halt-IsCounted hw f shell status k v) (λ (r, k') w. w)

  -- However system calls, keyboard interrupts, execute and halt follow each other, as long as each returns or passes
  -- on to another process: process_num stays the sum of programs_1, programs_2 and programs_3
  -- modulo 2 ^ 32, the terminal is one of the three, and the keyboard's counters and cursors stay in
  -- their bounds.
  pub actions-IsCounted :
      (rest : List Action) {k : Kernel D} → IsCounted k → Each IsCounted (actions rest k)
  unfolding actions
  actions-IsCounted [] v = v
  actions-IsCounted (a ∷ rest) {k} v =
      Each-bind IsCounted IsCounted (action a k) _ (action-IsCounted a v)
        (λ k' w. actions-IsCounted rest w)
