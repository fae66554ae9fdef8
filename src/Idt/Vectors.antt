-- ===== src/Idt/Vectors.antt =====
-- What the interrupt descriptor table holds after init_idt_entry of student-distrib/idt_init.c.
use cheeri_os.Common.{
  ℕ, zero, suc, ◌+◌, ◌*◌, ◌/◌, ◌%◌, ◌^◌, ◌<◌, ◌≡◌, inl, inr, refl, sym, arith, not, ◌&&◌, List, [],
  ◌∷◌, ◌==◌, ==_iff, Bool-cases, leb, if◌then◌else◌,
}
use cheeri_os.Idt.{
  IdtEntry, num_vec, kernel_cs, Handler, idt_default, linkage, keyboard_linkage, rtc_linkage,
  system_linkage, set_idt_entry, default_entry, update_entry, default_loop, set_entries, vectors,
  init_idt_entry,
}

-- The handler of a vector: Intel's exceptions but the reserved 15, the two devices, and the system call.
pub handler_of : ℕ → Handler
handler_of v =
    if leb v 0x13 && not (v == 0x0F)
    then linkage v
    else if v == 0x21
    then keyboard_linkage
    else if v == 0x28
    then rtc_linkage
    else if v == 0x80
    then system_linkage
    else idt_default

-- the handler of the last call for `v`
latest : List (ℕ × Handler) → ℕ → Handler → Handler
latest [] v old = old
latest ((w, h) ∷ calls) v old = latest calls v (if v == w then h else old)

-- where an entry leads
abbrev pub offset : IdtEntry → ℕ
offset e = e.offset_31_16 * 2 ^ 16 + e.offset_15_00

latest-handler_of : (v : ℕ) → latest vectors v idt_default ≡ handler_of v
unfolding latest vectors handler_of
latest-handler_of v = ground arith

-- The gate of a vector that leads to the address `a`.
pub record IsGate (v a : ℕ) (e : IdtEntry) : Type 0 where
  pub target : offset e ≡ a
  pub selector : e.seg_selector ≡ kernel_cs
  pub kind : e.reserved3 ≡ (if leb 0x20 v && leb v 0x2F then 0 else 1)
  pub privilege : e.dpl ≡ (if v == 0x80 then 3 else 0)
  pub bits :
      (e.present ≡ 1)
      × (e.size ≡ 1)
      × (e.reserved0 ≡ 0)
      × (e.reserved1 ≡ 1)
      × (e.reserved2 ≡ 1)
      × (e.reserved4 ≡ 0)

offset-whole : (a : ℕ) → a < 2 ^ 32 → a / 2 ^ 16 % 2 ^ 16 * 2 ^ 16 + a % 2 ^ 16 ≡ a
offset-whole a lt = omega arith

default_entry-IsGate : (v a : ℕ) (e : IdtEntry) → a < 2 ^ 32 → IsGate v a (default_entry a v e)
unfolding default_entry set_idt_entry
default_entry-IsGate v a e lt = record {
  target = offset-whole a lt;
  selector = refl;
  kind = refl;
  privilege = refl;
  bits = (refl, refl, refl, refl, refl, refl);
}

set_idt_entry-IsGate :
    (v a b : ℕ) (e : IdtEntry) → a < 2 ^ 32 → IsGate v b e → IsGate v a (set_idt_entry a e)
unfolding set_idt_entry
set_idt_entry-IsGate v a b e lt g = record {
  target = offset-whole a lt;
  selector = g.selector;
  kind = g.kind;
  privilege = g.privilege;
  bits = g.bits;
}

-- the vectors that the loop has passed
default_loop-IsGate :
    (n a i : ℕ) (idt : ℕ → IdtEntry)
    → a < 2 ^ 32
    → ((v : ℕ) → v < i → IsGate v a (idt v))
    → (v : ℕ) → v < i + n
    → IsGate v a (default_loop n a i idt v)
unfolding default_loop
default_loop-IsGate zero a i idt lt before v small = before v (omega arith)
default_loop-IsGate (suc n) a i idt lt before v small =
    default_loop-IsGate n a (i + 1) (update_entry i (default_entry a i) idt) lt
      (λ w le. elim (Bool-cases (w == i)) [
        | inl e ↦
            let same : w ≡ i = (==_iff w i).0 e in
            rw (e, same) (default_entry-IsGate i a (idt i) lt)
        | inr e ↦ rw e (before w (ground (arith, ==_iff w i)))
      ])
      v (omega arith)

-- the calls behind the loop: the last one for a vector counts
set_entries-IsGate :
    (address : Handler → ℕ) (calls : List (ℕ × Handler)) (idt : ℕ → IdtEntry) (v : ℕ)
    (old : Handler)
    → ((h : Handler) → address h < 2 ^ 32)
    → IsGate v (address old) (idt v)
    → IsGate v (address (latest calls v old)) (set_entries address calls idt v)
unfolding set_entries latest
set_entries-IsGate address [] idt v old lt g = g
set_entries-IsGate address ((w, h) ∷ calls) idt v old lt g =
    set_entries-IsGate address calls (update_entry w (set_idt_entry (address h)) idt) v
      (if v == w then h else old) lt
      (elim (Bool-cases (v == w)) [
        | inl e ↦ rw e (set_idt_entry-IsGate v (address h) (address old) (idt v) (lt h) g)
        | inr e ↦ rw e g
      ])

-- For addresses of 32 bits, after init_idt_entry each of the 256 vectors is a present 32-bit gate of the kernel's code
-- segment to its handler, whatever the table held before: the linkage of the exception for the
-- vectors up to 0x13 but 0x0F, the keyboard at 0x21, the real-time clock at 0x28, the system call
-- at 0x80, idt_default elsewhere. The vectors 0x20 to 0x2F are interrupt gates, the others trap
-- gates, and only 0x80 may be called from user code.
pub init_idt_entry-IsGate :
    (address : Handler → ℕ) (idt : ℕ → IdtEntry) (v : ℕ)
    → ((h : Handler) → address h < 2 ^ 32)
    → v < num_vec
    → IsGate v (address (handler_of v)) (init_idt_entry address idt v)
unfolding init_idt_entry
init_idt_entry-IsGate address idt v lt small =
    let g =
      set_entries-IsGate address vectors (default_loop num_vec (address idt_default) 0 idt) v
        idt_default lt
        (default_loop-IsGate num_vec (address idt_default) 0 idt (lt idt_default)
          (λ w le. absurd (omega arith)) v small) in
    rw (sym (latest-handler_of v)) g
