-- ===== src/Programs/Files/Printed.antt =====
-- cat of an open file on this kernel: the terminal shows the file.
use cheeri_os.Common.{ℕ, ◌+◌, ◌<◌, ◌≡◌, ◌∙◌, refl, ap, arith, leb, true, some}
use cheeri_os.Screen.Shown.{nothing}
use cheeri_os.FileSystem.Layout.{inode_length}
use cheeri_os.Keyboard.Terminal.Shown.{write_terminal-Shown}
use cheeri_os.Kernel.State.{
  Kernel, memory, set_memory, descriptor, set_descriptor, file_table, FileDescriptor,
}
use cheeri_os.Kernel.Files.{file_read}
use cheeri_os.Kernel.Calls.Terminal.{write-terminal, read-file}
use cheeri_os.Programs.Session.{Session, Host, kernel_system}
use cheeri_os.Programs.Files.{cat_loop}
use cheeri_os.Programs.Files.Printing.{
  IsPrintable, IsCopied, size, byte, file_read_on, stored_screen, table_after, IsCopied-next,
  at_end,
}
use cheeri_os.Programs.Files.Copying.{Copies, cat_loop-ends}

module _ {D : Type 0} (k0 : Kernel D) (fd buf : ℕ) (p : IsPrintable k0 fd buf) (h : Host D) where
  -- the invariant of the loop
  abbrev At : ℕ → Session D → Type 0
  At pos s = IsCopied k0 fd buf pos s.kernel

  copies :
      (pos : ℕ) (s : Session D)
      → pos < (size k0 fd buf)
      → At pos s
      → Copies (kernel_system h) fd buf At (size k0 fd buf) pos s
  copies pos s more c =
      let r = record s.kernel.rtc { machine = h.hw.sti s.kernel.rtc.machine } in
      let k = record s.kernel { rtc = r } in
      let used : (descriptor s.kernel fd).flags ≡ 1 =
        ap (λ (f : FileDescriptor). f.flags) c.file ∙ p.used in
      let type : (descriptor s.kernel fd).fjt_ptr ≡ file_table =
        ap (λ (f : FileDescriptor). f.fjt_ptr) c.file ∙ p.type in
      let on : IsCopied k0 fd buf pos k = record {
        same = c.same;
        fs = c.fs;
        table = c.table;
        file = c.file;
        inside = c.inside;
        shown = c.shown;
      } in
      let (n, m, runs, some_byte, most, le, bytes, away) = file_read_on k0 fd buf p pos k on more in
      let k1 =
        set_descriptor fd (record (descriptor k0 fd) { file_pos = pos + n }) (set_memory m k) in
      let (t, written, shown, keeps) =
        write_terminal-Shown (byte k0 fd buf) k0.keyboard.screen 1 buf pos n k1.keyboard p.real
          (omega arith) (omega (arith, p.apart)) bytes
          (record {
            column = c.inside.column;
            row = c.inside.row;
            wrapped = c.inside.wrapped;
            filled = c.inside.filled;
          })
          (stored_screen k0 fd buf p m on away) in
      let next = IsCopied-next k0 fd buf p pos n m t k on away shown keeps in
      (
        n,
        record { kernel = k1; reads = s.reads + 1 },
        record {
          kernel = record k1 { keyboard = record k1.keyboard { screen = t } };
          reads = s.reads + 1;
        },
        rw
            (
              read-file h.hw (h.arrivals s.reads) h.dentry fd buf 1024 s.kernel p.valid.0 p.valid.1
                  p.real used type,
              runs,
            )
            refl,
        rw
            (
              write-terminal h.hw k1 buf n (table_after k0 fd buf p (pos + n) m k c.table) p.real,
              written,
            )
            refl,
        some_byte,
        le,
        next,
      )

  stops :
      (s : Session D)
      → At (size k0 fd buf) s
      → (s' : Session D) × ((kernel_system h).read fd buf 1024 s ≡ some (0, s'))
        × At (size k0 fd buf) s'
  unfolding file_read
  stops s c =
      let k = record s.kernel {
        rtc = record s.kernel.rtc { machine = h.hw.sti s.kernel.rtc.machine };
      } in
      let used : (descriptor s.kernel fd).flags ≡ 1 =
        ap (λ (f : FileDescriptor). f.flags) c.file ∙ p.used in
      let type : (descriptor s.kernel fd).fjt_ptr ≡ file_table =
        ap (λ (f : FileDescriptor). f.fjt_ptr) c.file ∙ p.type in
      let ends : leb (inode_length (memory s.kernel) s.kernel.fs (descriptor s.kernel fd).inode)
            (descriptor s.kernel fd).file_pos
          ≡ true =
        at_end k0 fd buf p s.kernel c in
      (
        record { kernel = k; reads = s.reads + 1 },
        rw
            (
              read-file h.hw (h.arrivals s.reads) h.dentry fd buf 1024 s.kernel p.valid.0 p.valid.1
                  p.real used type,
              ends,
            )
            refl,
        record {
          same = c.same;
          fs = c.fs;
          table = c.table;
          file = c.file;
          inside = c.inside;
          shown = c.shown;
        },
      )

-- When a file of at most 2 ^ 20 bytes is open on `fd` at its start and does not overlap the buffer or the video
-- memory, nor they each other, the loop of cat ends with 0 once it may run more rounds than the file has bytes: from the
-- screen before, every byte of the file was put to the screen in order, the descriptor stands
-- at the end of the file, and the memory is changed only in the buffer and the video memory.
pub cat_loop-IsCopied :
    {D : Type 0} (h : Host D) (k : Kernel D) (fd buf rounds reads : ℕ)
    → IsPrintable k fd buf
    → (descriptor k fd).file_pos ≡ 0
    → size k fd buf < rounds
    → (s' : Session D) × (cat_loop
          (kernel_system h)
          h.literal
          rounds
          fd
          buf
          (record { kernel = k; reads = reads })
        ≡ some (0, s'))
      × IsCopied k fd buf (size k fd buf) s'.kernel
cat_loop-IsCopied h k fd buf rounds reads p start enough =
    cat_loop-ends (kernel_system h) fd buf (At k fd buf p h) h.literal (size k fd buf)
      (omega (arith, p.short)) (copies k fd buf p h) (stops k fd buf p h) rounds 0
      (record { kernel = k; reads = reads }) (omega arith) (omega arith)
      (record {
        same = record { at = λ a out outside. refl };
        fs = refl;
        table = p.table;
        file = ap (λ q. record (descriptor k fd) { file_pos = q }) start;
        inside = p.inside;
        shown = nothing;
      })
