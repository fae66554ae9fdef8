-- ===== src/Idt/Tests.antt =====
-- The theorem on the table, with the handlers 16 bytes apart, at the vector of the keyboard.
use cheeri_os.Common.{ℕ, ◌+◌, ◌*◌, ◌%◌, ◌^◌, ◌<◌, ◌≡◌, refl, true, some, [], ◌∷◌, arith}
use cheeri_os.Output.Text.{put_all, is_text}
use cheeri_os.Kernel.State.{Kernel}
use cheeri_os.Kernel.Sample.{idle, frame, both}
use cheeri_os.Kernel.Process.{jump, return_value}
use cheeri_os.Kernel.Process.Parents.{IsLeft}
use cheeri_os.Idt.Exceptions.{exception}
use cheeri_os.Idt.Raised.{raised, exception-returns}
use cheeri_os.Idt.{
  IdtEntry, Handler, idt_default, linkage, keyboard_linkage, rtc_linkage, system_linkage,
  init_idt_entry,
}
use cheeri_os.Idt.Vectors.{IsGate, handler_of, init_idt_entry-IsGate}

abbrev blank : IdtEntry
blank = record {
  offset_15_00 = 0;
  seg_selector = 0;
  reserved4 = 0;
  reserved3 = 0;
  reserved2 = 0;
  reserved1 = 0;
  size = 0;
  reserved0 = 0;
  dpl = 0;
  present = 0;
  offset_31_16 = 0;
}

address : Handler → ℕ
address idt_default = 0x400000
address (linkage n) = 0x400100 + n % 32 * 16
address keyboard_linkage = 0x400300
address rtc_linkage = 0x400310
address system_linkage = 0x400320

address-small : (h : Handler) → address h < 2 ^ 32
unfolding address
address-small idt_default = omega arith
address-small (linkage n) = omega arith
address-small keyboard_linkage = omega arith
address-small rtc_linkage = omega arith
address-small system_linkage = omega arith

init_idt_entry-IsGate_example :
    IsGate 0x21 (address (handler_of 0x21)) (init_idt_entry address (λ v. blank) 0x21)
init_idt_entry-IsGate_example =
    init_idt_entry-IsGate address (λ v. blank) 0x21 address-small (omega arith)

text : is_text (b'O' ∷ b'V' ∷ []) ≡ true
unfolding is_text
text = refl

exception-returns_example :
    (k' : Kernel ℕ) × (exception (b'O' ∷ b'V' ∷ []) idle frame 70000 both
      ≡ some (jump 0x7FF001 0x7FF101 0, k'))
    × IsLeft (raised (put_all (b'O' ∷ b'V' ∷ []) both.keyboard.screen) both) k'
    × (return_value 0 k' ≡ (256, record k' { exception_flag = 0 }))
exception-returns_example =
    exception-returns (b'O' ∷ b'V' ∷ []) idle frame 70000 both text refl (omega arith) (omega arith)
