-- ===== src/Boot.antt =====
-- entry of student-distrib/kernel.c. The assembly that loads lldt and ltr is left out; launch_tests of
-- student-distrib/tests.c is empty.
pub mod Multiboot
pub mod Ready
pub mod Refused
mod Tests
use Prim.Native.String.{String}
use cheeri_os.Common.{
  ℕ, ◌/◌, ◌%◌, ◌^◌, Bool, not, ◌&&◌, ◌==◌, if◌then◌else◌, List, [], ◌∷◌, Option, some, ◌>>=◌,
  load32,
}
use cheeri_os.Screen.{Screen, clear, clearscreen}
use cheeri_os.FileSystem.Layout.{file_sys_init}
use cheeri_os.Keyboard.Terminal.{keyboard_init}
use cheeri_os.Ports.{Machine}
use cheeri_os.Pic.{i8259_init}
use cheeri_os.Rtc.{rtc_init}
use cheeri_os.Paging.{paging_init}
use cheeri_os.Idt.{Handler, IdtEntry, init_idt_entry}
use cheeri_os.Kernel.State.{Kernel, memory}
use cheeri_os.Kernel.Process.{Frame, Outcome, execute}
use cheeri_os.Boot.Multiboot.{
  flags, check_flag, print, print_start, print_modules, print_sections, print_regions,
}

-- an entry of the GDT
pub record SegDesc : Type 0 where
  pub seg_lim_15_00 : ℕ
  pub base_15_00 : ℕ
  pub base_23_16 : ℕ
  pub type : ℕ
  pub sys : ℕ
  pub dpl : ℕ
  pub present : ℕ
  pub seg_lim_19_16 : ℕ
  pub avail : ℕ
  pub reserved : ℕ
  pub opsize : ℕ
  pub granularity : ℕ
  pub base_31_24 : ℕ

-- SET_LDT_PARAMS, and SET_TSS_PARAMS, which does the same
unfoldable pub set_params : (addr lim : ℕ) → SegDesc → SegDesc
set_params addr lim d = record d {
  base_31_24 = addr / 2 ^ 24 % 2 ^ 8;
  base_23_16 = addr / 2 ^ 16 % 2 ^ 8;
  base_15_00 = addr % 2 ^ 16;
  seg_lim_19_16 = lim / 2 ^ 16 % 2 ^ 4;
  seg_lim_15_00 = lim % 2 ^ 16;
}

-- a descriptor before the macro: the fields that it sets are 0 here
unfoldable segment : (opsize type : ℕ) → SegDesc
segment opsize type = record {
  seg_lim_15_00 = 0;
  base_15_00 = 0;
  base_23_16 = 0;
  type = type;
  sys = 0;
  dpl = 0;
  present = 1;
  seg_lim_19_16 = 0;
  avail = 0;
  reserved = 0;
  opsize = opsize;
  granularity = 0;
  base_31_24 = 0;
}

-- The machine that entry sets up: the kernel, whose esp0 is that of the TSS, and the descriptor tables.
pub record Boot (D : Type 0) : Type 0 where
  pub kernel : Kernel D
  pub idt : ℕ → IdtEntry
  pub ldt_desc : SegDesc
  pub tss_desc : SegDesc
  pub ldt_segment_selector : ℕ
  pub ss0 : ℕ

-- What the linker places, and the value that temp_start has before it is set.
pub record Image : Type 0 where
  pub handler : Handler → ℕ
  pub ldt : ℕ
  pub ldt_size : ℕ
  pub tss : ℕ
  pub tss_size : ℕ
  pub first_page_table : ℕ
  pub conv_buf : ℕ
  pub shell : ℕ
  pub temp_start : ℕ

-- entry returns early, or it executes the shell, and halts if that returns.
pub data Booted (D : Type 0) : Type 0 where
  stopped : Boot D → Booted D
  ran : Outcome → Boot D → Booted D

module _ {D : Type 0} where
  abbrev pub on_screen : Screen → Boot D → Boot D
  on_screen s b = record b {
    kernel = record b.kernel { keyboard = record b.kernel.keyboard { screen = s } };
  }

  module _ (hw : Machine D) (image : Image) where
    -- from the LDT entry to file_sys_init
    unfoldable pub set_up : (start : ℕ) → Boot D → Boot D
    unfolding segment
    set_up start b =
        let k = b.kernel in
        let x = keyboard_init hw (i8259_init hw k.rtc.machine) k.keyboard in
        record {
          kernel = record k {
            keyboard = x.1;
            rtc = rtc_init hw (record k.rtc { machine = x.0 });
            paging = paging_init image.first_page_table k.paging;
            fs = file_sys_init (memory k) k.fs start;
            esp0 = 0x800000;
          };
          idt = init_idt_entry image.handler b.idt;
          ldt_desc = set_params image.ldt image.ldt_size (segment 1 2);
          tss_desc = set_params image.tss image.tss_size (segment 0 9);
          ldt_segment_selector = 0x38;
          ss0 = 0x18;
        }

    -- from "Enabling Interrupts" on
    unfoldable pub start_shell : Frame → Boot D → Option (Booted D)
    start_shell f b = do
      s ← print image.conv_buf "Enabling Interrupts\n" [] b.kernel.keyboard.screen
      let on = on_screen (clearscreen s) b
      let k = record on.kernel {
        rtc = record b.kernel.rtc { machine = hw.sti b.kernel.rtc.machine };
      }
      (outcome, k') ← execute hw f image.shell k
      some (ran outcome (record on { kernel = k' }))

    unfoldable pub entry : Frame → (magic addr : ℕ) → Boot D → Option (Booted D)
    entry f magic addr b =
        let s0 = clear b.kernel.keyboard.screen in
        if not (magic == 0x2BADB002)
        then (do
          s1 ← print image.conv_buf "Invalid magic number: 0x%#x\n" (magic ∷ []) s0
          some (stopped (on_screen s1 b)))
        else do
          s1 ← print_start image.conv_buf addr s0
          (start, s2) ← print_modules image.conv_buf addr image.temp_start s1
          let set = load32 s2.mem (flags addr)
          if check_flag set 4 && check_flag set 5
              then (do
                s3 ← print image.conv_buf "Both bits 4 and 5 are set.\n" [] s2
                some (stopped (on_screen s3 b)))
              else do
                s3 ← print_sections image.conv_buf addr s2
                s4 ← print_regions image.conv_buf addr s3
                start_shell f (set_up start (on_screen s4 b))
