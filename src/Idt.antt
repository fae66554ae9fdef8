-- ===== src/Idt.antt =====
-- The interrupt descriptor table: init_idt_entry of student-distrib/idt_init.c, with the entry and
-- SET_IDT_ENTRY of student-distrib/x86_desc.h. The table is a function of the vector. `Handler` names what an entry
-- leads to, and `address` where the linker put it. lidt, which only loads the register, is left out.
mod Tests
pub mod Exceptions
pub mod Vectors
pub mod Raised
use cheeri_os.Common.{
  ℕ, zero, suc, ◌+◌, ◌/◌, ◌%◌, ◌^◌, Bool, true, false, ◌&&◌, List, [], ◌∷◌, ◌==◌, leb,
  if◌then◌else◌,
}

-- `reserved3` tells a trap gate (1) from an interrupt gate (0).
pub record IdtEntry : Type 0 where
  pub offset_15_00 : ℕ
  pub seg_selector : ℕ
  pub reserved4 : ℕ
  pub reserved3 : ℕ
  pub reserved2 : ℕ
  pub reserved1 : ℕ
  pub size : ℕ
  pub reserved0 : ℕ
  pub dpl : ℕ
  pub present : ℕ
  pub offset_31_16 : ℕ

abbrev pub num_vec : ℕ
num_vec = 256

abbrev pub kernel_cs : ℕ
kernel_cs = 0x0010

pub data Handler : Type 0 where
  idt_default : Handler
  linkage : (exception : ℕ) → Handler
  keyboard_linkage rtc_linkage system_linkage : Handler

-- SET_IDT_ENTRY
pub set_idt_entry : ℕ → IdtEntry → IdtEntry
set_idt_entry handler e = record e {
  offset_31_16 = handler / 2 ^ 16 % 2 ^ 16;
  offset_15_00 = handler % 2 ^ 16;
}

-- one round of the loop
pub default_entry : (handler i : ℕ) → IdtEntry → IdtEntry
default_entry handler i e = set_idt_entry handler (record e {
  seg_selector = kernel_cs;
  reserved4 = 0;
  reserved3 = if leb 0x20 i && leb i 0x2F then 0 else 1;
  reserved2 = 1;
  reserved1 = 1;
  size = 1;
  reserved0 = 0;
  dpl = if i == 0x80 then 3 else 0;
  present = 1;
})

abbrev pub update_entry : ℕ → (IdtEntry → IdtEntry) → (ℕ → IdtEntry) → ℕ → IdtEntry
update_entry i g idt v = if v == i then g (idt v) else idt v

-- the loop, with `n` rounds left
pub default_loop : ℕ → (handler i : ℕ) → (ℕ → IdtEntry) → ℕ → IdtEntry
default_loop zero handler i idt = idt
default_loop (suc n) handler i idt =
    default_loop n handler (i + 1) (update_entry i (default_entry handler i) idt)

-- SET_IDT_ENTRY for one vector after the other
pub set_entries : (Handler → ℕ) → List (ℕ × Handler) → (ℕ → IdtEntry) → ℕ → IdtEntry
set_entries address [] idt = idt
set_entries address ((v, h) ∷ calls) idt =
    set_entries address calls (update_entry v (set_idt_entry (address h)) idt)

-- the calls of SET_IDT_ENTRY behind the loop
pub vectors : List (ℕ × Handler)
vectors =
    (0x00, linkage 0x00)
    ∷ (0x01, linkage 0x01)
    ∷ (0x02, linkage 0x02)
    ∷ (0x03, linkage 0x03)
    ∷ (0x04, linkage 0x04)
    ∷ (0x05, linkage 0x05)
    ∷ (0x06, linkage 0x06)
    ∷ (0x07, linkage 0x07)
    ∷ (0x08, linkage 0x08)
    ∷ (0x09, linkage 0x09)
    ∷ (0x0A, linkage 0x0A)
    ∷ (0x0B, linkage 0x0B)
    ∷ (0x0C, linkage 0x0C)
    ∷ (0x0D, linkage 0x0D)
    ∷ (0x0E, linkage 0x0E)
    ∷ (0x10, linkage 0x10)
    ∷ (0x11, linkage 0x11)
    ∷ (0x12, linkage 0x12)
    ∷ (0x13, linkage 0x13)
    ∷ (0x21, keyboard_linkage)
    ∷ (0x28, rtc_linkage)
    ∷ (0x80, system_linkage)
    ∷ []

pub init_idt_entry : (Handler → ℕ) → (ℕ → IdtEntry) → ℕ → IdtEntry
init_idt_entry address idt =
    set_entries address vectors (default_loop num_vec (address idt_default) 0 idt)
