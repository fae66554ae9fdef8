-- ===== src/Boot/Tests.antt =====
-- The theorems on entry of student-distrib/kernel.c, with a boot loader's record of zeros at 30000.
use cheeri_os.Common.{◌≡◌, some, inl, ℕ, arith, refl}
use cheeri_os.Idt.{IdtEntry}
use cheeri_os.Kernel.Sample.{idle, shell_only, frame}
use cheeri_os.Screen.{Screen, clear, putc}
use cheeri_os.Output.Text.{put_all}
use cheeri_os.Screen.Bounds.{InScreen}
use cheeri_os.Output.Framed.{IsPrinted}
use cheeri_os.Output.Hex.{ShowsHex}
use cheeri_os.Boot.{SegDesc, Boot, Image, stopped, on_screen, entry}
use cheeri_os.Boot.Refused.{complaint, entry-refused}

abbrev image : Image
image = record {
  handler = λ h. 0x401000;
  ldt = 0x402000;
  ldt_size = 30;
  tss = 0x403000;
  tss_size = 104;
  first_page_table = 0x404000;
  conv_buf = 0x7F0160;
  shell = 60000;
  temp_start = 4096;
}

abbrev no_entry : IdtEntry
no_entry = record {
  offset_15_00 = 0;
  seg_selector = 0;
  reserved4 = 0;
  reserved3 = 0;
  reserved2 = 0;
  reserved1 = 0;
  size = 0;
  reserved0 = 0;
  dpl = 0;
  present = 0;
  offset_31_16 = 0;
}

abbrev no_segment : SegDesc
no_segment = record {
  seg_lim_15_00 = 0;
  base_15_00 = 0;
  base_23_16 = 0;
  type = 0;
  sys = 0;
  dpl = 0;
  present = 0;
  seg_lim_19_16 = 0;
  avail = 0;
  reserved = 0;
  opsize = 0;
  granularity = 0;
  base_31_24 = 0;
}

abbrev before : Boot ℕ
before = record {
  kernel = record shell_only { process_num = 0; programs = λ t. 0 };
  idt = λ v. no_entry;
  ldt_desc = no_segment;
  tss_desc = no_segment;
  ldt_segment_selector = 0;
  ss0 = 0;
}

before-InScreen : InScreen before.kernel.keyboard.screen
before-InScreen = record {
  column = omega arith;
  row = omega arith;
  wrapped = inl refl;
  filled = omega arith;
}

entry-refused_example :
    (t : Screen) × (entry idle image frame 0xCAFE 30000 before
      ≡ some (stopped (on_screen (putc b'\n' t) before)))
    × ShowsHex 0xCAFE image.conv_buf (put_all complaint (clear before.kernel.keyboard.screen)) t
    × IsPrinted image.conv_buf before.kernel.keyboard.screen (putc b'\n' t)
entry-refused_example =
    entry-refused idle image frame 0xCAFE 30000 before (omega arith) (omega arith) (omega arith)
      before-InScreen
