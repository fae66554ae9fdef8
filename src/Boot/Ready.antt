-- ===== src/Boot/Ready.antt =====
-- What entry of student-distrib/kernel.c has set up when the shell runs.
use cheeri_os.Common.{ℕ, ◌+◌, ◌*◌, ◌^◌, ◌<◌, ◌≡◌}
use cheeri_os.Screen.{Screen}
use cheeri_os.Output.Framed.{IsPrinted}
use cheeri_os.Idt.{Handler, num_vec}
use cheeri_os.Idt.Vectors.{IsGate, handler_of}
use cheeri_os.Kernel.State.{Kernel}
use cheeri_os.Kernel.Process.Counts.{IsCounted}
use cheeri_os.Boot.{SegDesc, Boot, Image, Booted, stopped, ran, on_screen}

-- A descriptor of the GDT gives the segment of `lim` + 1 bytes at `addr`.
pub record IsSegment (addr lim : ℕ) (d : SegDesc) : Type 0 where
  pub base : d.base_31_24 * 2 ^ 24 + d.base_23_16 * 2 ^ 16 + d.base_15_00 ≡ addr
  pub limit : d.seg_lim_19_16 * 2 ^ 16 + d.seg_lim_15_00 ≡ lim
  pub present : d.present ≡ 1

-- The globals of the kernel that C starts with 0.
pub record IsZeroed {D : Type 0} (k : Kernel D) : Type 0 where
  pub processes : k.process_num ≡ 0
  pub programs : (t : ℕ) → k.programs t ≡ 0
  pub slots :
      (t : ℕ)
      → ((k.keyboard.slot t).filled ≡ 0)
        × ((k.keyboard.slot t).saved_x ≡ 0)
        × ((k.keyboard.slot t).saved_y ≡ 0)
        × ((k.keyboard.slot t).saved_newline ≡ 0)

module _ {D : Type 0} (image : Image) where
  -- the descriptor tables, and the invariant of the processes
  pub record IsReady (b : Boot D) : Type 0 where
    pub gates : (v : ℕ) → v < num_vec → IsGate v (image.handler (handler_of v)) (b.idt v)
    pub ldt : IsSegment image.ldt image.ldt_size b.ldt_desc
    pub tss : IsSegment image.tss image.tss_size b.tss_desc
    pub counted : IsCounted b.kernel

  -- How entry ends: it has returned early, and only the screen, with the video memory, and 17 bytes of printf's
  -- array have changed, or the shell was executed.
  abbrev pub IsBooted : Boot D → Booted D → Type 0
  IsBooted b (stopped b') =
      (s : Screen) × (b' ≡ on_screen s b) × IsPrinted image.conv_buf b.kernel.keyboard.screen s
  IsBooted b (ran outcome b') = IsReady b'
