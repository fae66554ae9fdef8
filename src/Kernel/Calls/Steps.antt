-- ===== src/Kernel/Calls/Steps.antt =====
-- Whatever system calls on descriptors and keyboard interrupts come one after the other.
use cheeri_os.Common.{
  ℕ, ◌<◌, ◌≢◌, inl, inr, refl, arith, List, [], ◌∷◌, ◌==◌, ◌||◌, Bool-cases, Option, some, ◌>>=◌,
  Each, Each-bind, Each-then, Each-if, Each-else, slt, leb, add32, Mem, load8, minus_one, word, ◌%◌,
}
use cheeri_os.Strings.{strlen}
use cheeri_os.FileSystem.Layout.{inode_length}
use cheeri_os.FileSystem.Data.{read_data}
use cheeri_os.FileSystem.Directory.{dir_read, read_dentry_by_name}
use cheeri_os.Keyboard.Tables.{DataSegment}
use cheeri_os.Keyboard.Handler.{keyboard_handler}
use cheeri_os.Keyboard.Handler.Bounds.{
  IsKeyboard, keyboard_handler-IsKeyboard, on_screen-IsKeyboard,
}
use cheeri_os.Keyboard.Terminal.Bounds.{read_terminal-IsKeyboard, write_terminal-IsKeyboard}
use cheeri_os.Keyboard.Terminal.{read_terminal}
use cheeri_os.Ports.{Machine}
use cheeri_os.Rtc.{rtc_read}
use cheeri_os.Kernel.State.{
  Kernel, Table, missing, std_table, rtc_table, file_table, dir_table, FileDescriptor, closed,
  memory, set_memory, descriptor, set_descriptor, process_args,
}
use cheeri_os.Kernel.Files.{Arrivals, file_read, read_directory, call_read, call_write}
use cheeri_os.Kernel.Calls.{
  open_entry, open_call, close, read, write, getargs, min_valid_fd, max_valid_fd,
}
use cheeri_os.Kernel.Calls.Descriptors.{
  IsDescriptor, IsOpenTable, open_entry-least, opened, set_descriptor-IsOpenTable,
}

-- The keyboard's invariant, and that of the descriptors.
pub record IsRunning {D : Type 0} (k : Kernel D) : Type 0 where
  pub keyboard : IsKeyboard k.keyboard
  pub table : IsOpenTable k

module _ {D : Type 0} where
  -- what holds of the state in a call's result
  abbrev pub Running : ℕ × Kernel D → Type 0
  Running x = IsRunning x.1

  set_memory-IsRunning : (m : Mem) {k : Kernel D} → IsRunning k → IsRunning (set_memory m k)
  set_memory-IsRunning m {k} v = record {
    keyboard =
        on_screen-IsKeyboard v.keyboard (λ s. record s { mem = m })
          (omega (arith, v.keyboard.screen));
    table = v.table;
  }

  set_descriptor-IsRunning :
      (fd : ℕ) (f : FileDescriptor) {k : Kernel D}
      → IsRunning k
      → IsDescriptor fd f
      → IsRunning (set_descriptor fd f k)
  set_descriptor-IsRunning fd f {k} v new = record {
    keyboard = v.keyboard;
    table = set_descriptor-IsOpenTable fd f k v.table new;
  }

  open_entry-IsRunning :
      (dentry : ℕ) {k : Kernel D} → IsRunning k → IsRunning (open_entry dentry k).1
  open_entry-IsRunning dentry {k} v = elim (open_entry-least dentry k) [
    | inl (fd, least, e) ↦ rw e (
        set_descriptor-IsRunning fd (opened dentry fd k) v
          (record { flag = inr refl; terminal = λ h. absurd (omega (arith, least)) }))
    | inr (used, e) ↦ rw e v
  ]

  open_call-IsRunning :
      (dentry filename : ℕ) {k : Kernel D}
      → IsRunning k
      → Each Running (open_call dentry filename k)
  unfolding open_call
  open_call-IsRunning dentry filename {k} v = Each-then Running (strlen (memory k) filename) _ (λ n.
      Each-if Running (n == 0) _ _ v (
        Each-then Running (read_dentry_by_name k.fs filename dentry (memory k)) _ (λ (check, m).
          Each-if Running (check == minus_one) _ _ (set_memory-IsRunning m v)
            (open_entry-IsRunning dentry (set_memory-IsRunning m v)))))

  close-IsRunning : (fd : ℕ) {k : Kernel D} → IsRunning k → IsRunning (close fd k).1
  unfolding close
  close-IsRunning fd {k} v = elim (Bool-cases (slt fd min_valid_fd || slt max_valid_fd fd)) [
    | inl e ↦ rw e v
    | inr e ↦ elim (Bool-cases ((descriptor k fd).flags == 0)) [
      | inl free ↦ rw (e, free) v
      | inr used ↦
          rw (e, used)
            (set_descriptor-IsRunning fd closed v
              (record { flag = inl (refl, refl); terminal = λ h. absurd (ground (arith, e)) }))
    ]
  ]

  -- an operation that touches neither the processes nor the keyboard
  file_read-IsRunning :
      (fd buf nbytes : ℕ) {k : Kernel D}
      → IsRunning k
      → IsDescriptor fd (descriptor k fd)
      → (descriptor k fd).flags ≢ 0
      → Each Running (file_read fd buf nbytes k)
  unfolding file_read
  file_read-IsRunning fd buf nbytes {k} v d used =
      let f = descriptor k fd in
      Each-if Running (leb (inode_length (memory k) k.fs f.inode) f.file_pos) _ _ v (
        Each-then Running (read_data k.fs f.inode f.file_pos buf nbytes (memory k)) _ (λ (n, m).
          set_descriptor-IsRunning fd (record f { file_pos = add32 f.file_pos n })
            (set_memory-IsRunning m v)
            (record { flag = ground (arith, d.flag, used); terminal = d.terminal })))

  module _ (hw : Machine D) where
    call_read-IsRunning :
        (a : Arrivals) (table : Table) (dentry fd buf nbytes : ℕ) {k : Kernel D}
        → IsRunning k
        → IsDescriptor fd (descriptor k fd)
        → (descriptor k fd).flags ≢ 0
        → Each Running (call_read hw a table dentry fd buf nbytes k)
    unfolding call_read read_directory
    call_read-IsRunning a missing dentry fd buf nbytes v d used = tt
    call_read-IsRunning a std_table dentry fd buf nbytes {k} v d used =
        Each-bind Running (λ x. IsKeyboard x.1)
          (read_terminal a.segment a.scans fd buf nbytes k.keyboard) _
          (read_terminal-IsKeyboard a.segment a.scans fd buf nbytes v.keyboard)
          (λ (n, keyboard, rest) w. record { keyboard = w; table = v.table })
    call_read-IsRunning a rtc_table dentry fd buf nbytes {k} v d used =
        Each-then Running (rtc_read hw a.ticks fd buf nbytes k.rtc) _
          (λ (n, rtc). record { keyboard = v.keyboard; table = v.table })
    call_read-IsRunning a file_table dentry fd buf nbytes v d used =
        file_read-IsRunning fd buf nbytes v d used
    call_read-IsRunning a dir_table dentry fd buf nbytes {k} v d used =
        Each-then Running (dir_read k.fs dentry buf nbytes (memory k)) _ (λ (n, fs, m).
          let w = set_memory-IsRunning m v in record { keyboard = w.keyboard; table = w.table })

    call_write-IsRunning :
        (table : Table) (fd buf nbytes : ℕ) {k : Kernel D}
        → IsRunning k
        → Each Running (call_write hw table fd buf nbytes k)
    unfolding call_write
    call_write-IsRunning missing fd buf nbytes v = tt
    call_write-IsRunning std_table fd buf nbytes v = record {
      keyboard = write_terminal-IsKeyboard fd buf nbytes v.keyboard;
      table = v.table;
    }
    call_write-IsRunning rtc_table fd buf nbytes v = record {
      keyboard = v.keyboard;
      table = v.table;
    }
    call_write-IsRunning file_table fd buf nbytes v = v
    call_write-IsRunning dir_table fd buf nbytes v = v

    read-IsRunning :
        (a : Arrivals) (dentry fd buf nbytes : ℕ) {k : Kernel D}
        → fd < word
        → IsRunning k
        → Each Running (read hw a dentry fd buf nbytes k)
    unfolding read
    read-IsRunning a dentry fd buf nbytes {k} small v0 =
        let k1 = record k { rtc = record k.rtc { machine = hw.sti k.rtc.machine } } in
        let v : IsRunning k1 = record { keyboard = v0.keyboard; table = v0.table } in
        Each-else Running (slt fd 0 || slt max_valid_fd fd) _ _ v (λ valid.
          Each-if Running (fd == 1) _ _ v (
            Each-if Running (buf == 0) _ _ v (
              Each-else Running ((descriptor k fd).flags == 0) _ _ v (λ used.
                call_read-IsRunning a (descriptor k fd).fjt_ptr dentry fd buf nbytes v
                  (v.table fd (ground (arith, valid))) (ground (arith, used))))))

    write-IsRunning :
        (fd buf nbytes : ℕ) {k : Kernel D} → IsRunning k → Each Running (write hw fd buf nbytes k)
    unfolding write
    write-IsRunning fd buf nbytes {k} v = Each-if Running (slt fd 0 || slt max_valid_fd fd) _ _ v (
        Each-if Running (fd == 0) _ _ v (
          Each-if Running (buf == 0) _ _ v (
            Each-if Running ((descriptor k fd).flags == 0) _ _ v
              (call_write-IsRunning (descriptor k fd).fjt_ptr fd buf nbytes v))))

  getargs-IsRunning :
      (buf nbytes : ℕ) {k : Kernel D} → IsRunning k → IsRunning (getargs buf nbytes k).1
  unfolding getargs
  getargs-IsRunning buf nbytes {k} v = elim (Bool-cases (buf == 0)) [
    | inl e ↦ rw e v
    | inr e ↦ elim (Bool-cases (load8 (memory k) (process_args k.curr) == 0)) [
      | inl none_given ↦ rw (e, none_given) v
      | inr given ↦ rw (e, given) (set_memory-IsRunning _ v)
    ]
  ]

-- What happens to a process that runs: its calls, and keyboard interrupts between them. A descriptor comes in
-- a register of 32 bits.
pub data Event : Type 0 where
  opening : (dentry filename : ℕ) → Event
  closing : (fd : ℕ) → Event
  reading : Arrivals → (dentry fd buf nbytes : ℕ) → Event
  writing : (fd buf nbytes : ℕ) → Event
  asking : (buf nbytes : ℕ) → Event
  pressing : DataSegment → (scan : ℕ) → Event

module _ {D : Type 0} (hw : Machine D) where
  unfoldable pub event : Event → Kernel D → Option (ℕ × Kernel D)
  event (opening dentry filename) k = open_call dentry filename k
  event (closing fd) k = some (close fd k)
  event (reading a dentry fd buf nbytes) k = read hw a dentry (fd % word) buf nbytes k
  event (writing fd buf nbytes) k = write hw fd buf nbytes k
  event (asking buf nbytes) k = some (getargs buf nbytes k)
  event (pressing d scan) k = some (0, record k { keyboard = keyboard_handler d scan k.keyboard })

  pub events : List Event → Kernel D → Option (ℕ × Kernel D)
  unfolding event
  events [] k = some (0, k)
  events (e ∷ es) k = do (n, k') ← event e k; events es k'

  event-IsRunning : (e : Event) {k : Kernel D} → IsRunning k → Each (λ x. IsRunning x.1) (event e k)
  unfolding event
  event-IsRunning (opening dentry filename) v = open_call-IsRunning dentry filename v
  event-IsRunning (closing fd) v = close-IsRunning fd v
  event-IsRunning (reading a dentry fd buf nbytes) v =
      read-IsRunning hw a dentry (fd % word) buf nbytes (omega arith) v
  event-IsRunning (writing fd buf nbytes) v = write-IsRunning hw fd buf nbytes v
  event-IsRunning (asking buf nbytes) v = getargs-IsRunning buf nbytes v
  event-IsRunning (pressing d scan) v = record {
    keyboard = keyboard_handler-IsKeyboard d scan v.keyboard;
    table = v.table;
  }

  -- However open, close, read, write, getargs and keyboard interrupts follow each other, as long as each
  -- returns: descriptors 0 and 1 stay open on the terminal, a free descriptor is all zero, and the
  -- keyboard's counters and cursors stay in their bounds.
  pub events-IsRunning :
      (es : List Event) {k : Kernel D} → IsRunning k → Each (λ x. IsRunning x.1) (events es k)
  unfolding events
  events-IsRunning [] v = v
  events-IsRunning (e ∷ es) {k} v =
      Each-bind (λ x. IsRunning x.1) (λ x. IsRunning x.1) (event e k) _ (event-IsRunning e v)
        (λ (n, k') w. events-IsRunning es w)
