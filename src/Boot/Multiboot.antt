-- ===== src/Boot/Multiboot.antt =====
-- multiboot_info_t, module_t and memory_map_t of student-distrib/multiboot.h, as offsets, and what entry of
-- student-distrib/kernel.c prints of them.
pub mod Printed
use Prim.Native.String.{String, len, char_at}
use Prim.Native.Char.{code}
use cheeri_os.Common.{
  ℕ, zero, suc, ◌+◌, ◌/◌, ◌%◌, ◌^◌, Bool, true, false, ◌==◌, ltb, if◌then◌else◌, List, [], ◌∷◌,
  Option, none, some, ◌>>=◌, load8, load32, word, add32,
}
use cheeri_os.Strings.{sign_extend}
use cheeri_os.Screen.{Screen}
use cheeri_os.Output.{printf}

abbrev pub flags : (mbi : ℕ) → ℕ
flags mbi = mbi

abbrev pub mods_count : (mbi : ℕ) → ℕ
mods_count mbi = mbi + 20

abbrev pub mods_addr : (mbi : ℕ) → ℕ
mods_addr mbi = mbi + 24

-- elf_sec: num, size, addr and shndx
abbrev pub elf_sec : (mbi : ℕ) → ℕ
elf_sec mbi = mbi + 28

abbrev pub mmap_length : (mbi : ℕ) → ℕ
mmap_length mbi = mbi + 44

abbrev pub mmap_addr : (mbi : ℕ) → ℕ
mmap_addr mbi = mbi + 48

-- CHECK_FLAG
abbrev pub check_flag : (flags bit : ℕ) → Bool
check_flag flags bit = flags / 2 ^ bit % 2 == 1

-- the bytes of a text from its end: `n` of them
unfoldable pub text_bytes : ℕ → String → List ℕ → List ℕ
text_bytes zero text rest = rest
text_bytes (suc n) text rest = text_bytes n text (code (char_at text n) ∷ rest)

-- `conv_buf` is the address of the array of printf.
module _ (conv_buf : ℕ) where
  unfoldable pub print : String → (args : List ℕ) → Screen → Option Screen
  unfolding text_bytes
  print text args s = do (n, s') ← printf (text_bytes (len text) text []) args conv_buf s; some s'

  -- a line that is printed only if the flag is set
  pub print_if : (mbi bit : ℕ) → (Screen → Option Screen) → Screen → Option Screen
  print_if mbi bit line s = if check_flag (load32 s.mem (flags mbi)) bit then line s else some s

  -- the lines for the flags 0, 1 and 2, after that of the flags
  pub print_start : (mbi : ℕ) → Screen → Option Screen
  unfolding print_if
  print_start mbi s = do
    s1 ← print "flags = 0x%#x\n" (load32 s.mem (flags mbi) ∷ []) s
    s2 ←
        print_if mbi 0
          (λ s.
            print "mem_lower = %uKB, mem_upper = %uKB\n"
              (load32 s.mem (mbi + 4) ∷ load32 s.mem (mbi + 8) ∷ []) s)
          s1
    s3 ← print_if mbi 1 (λ s. print "boot_device = 0x%#x\n" (load32 s.mem (mbi + 12) ∷ []) s) s2
    print_if mbi 2 (λ s. print "cmdline = %s\n" (load32 s.mem (mbi + 16) ∷ []) s) s3

  -- the first bytes of a module, which are `char`s: `n` left
  pub first_bytes : ℕ → (module_at i : ℕ) → Screen → Option Screen
  first_bytes zero module_at i s = some s
  first_bytes (suc n) module_at i s = do
    s' ← print "0x%x " (sign_extend (load8 s.mem (load32 s.mem module_at + i)) ∷ []) s
    first_bytes n module_at (i + 1) s'

  -- `while (mod_count < mbi->mods_count)`
  pub modules_loop : ℕ → (mbi mod_count module_at : ℕ) → Screen → Option Screen
  unfolding first_bytes
  modules_loop zero mbi mod_count module_at s = none
  modules_loop (suc n) mbi mod_count module_at s =
      elim (ltb mod_count (load32 s.mem (mods_count mbi))) [
        | true ↦ do
          s1 ←
              print "Module %d loaded at address: 0x%#x\n" (mod_count ∷ load32 s.mem module_at ∷ [])
                s
          s2 ←
              print "Module %d ends at address: 0x%#x\n"
                (mod_count ∷ load32 s1.mem (module_at + 4) ∷ []) s1
          s3 ← print "First few bytes of module:\n" [] s2
          s4 ← first_bytes 16 module_at 0 s3
          s5 ← print "\n" [] s4
          modules_loop n mbi (mod_count + 1) (module_at + 16) s5
        | false ↦ some s
      ]

  -- The lines for flag 3, and temp_start, which was `start` before.
  pub print_modules : (mbi start : ℕ) → Screen → Option (ℕ × Screen)
  unfolding modules_loop
  print_modules mbi start s =
      if check_flag (load32 s.mem (flags mbi)) 3
      then (do
        let module_at = load32 s.mem (mods_addr mbi)
        s' ← modules_loop word mbi 0 module_at s
        some (load32 s.mem module_at, s'))
      else some (start, s)

  -- the line for flag 5
  pub print_sections : (mbi : ℕ) → Screen → Option Screen
  unfolding print_if
  print_sections mbi s =
      print_if mbi 5
        (λ s.
          print "elf_sec: num = %u, size = 0x%#x, addr = 0x%#x, shndx = 0x%#x\n"
            (load32 s.mem (elf_sec mbi)
              ∷ load32 s.mem (elf_sec mbi + 4)
              ∷ load32 s.mem (elf_sec mbi + 8)
              ∷ load32 s.mem (elf_sec mbi + 12)
              ∷ [])
            s)
        s

  -- the loop over the memory map
  regions_loop : ℕ → (mbi mmap : ℕ) → Screen → Option Screen
  regions_loop zero mbi mmap s = none
  regions_loop (suc n) mbi mmap s =
      elim (ltb mmap (add32 (load32 s.mem (mmap_addr mbi)) (load32 s.mem (mmap_length mbi)))) [
        | true ↦ do
          s' ←
              print
                "    size = 0x%x, base_addr = 0x%#x%#x\n    type = 0x%x,  length    = 0x%#x%#x\n"
                (load32 s.mem mmap
                  ∷ load32 s.mem (mmap + 8)
                  ∷ load32 s.mem (mmap + 4)
                  ∷ load32 s.mem (mmap + 20)
                  ∷ load32 s.mem (mmap + 16)
                  ∷ load32 s.mem (mmap + 12)
                  ∷ [])
                s
          regions_loop n mbi (add32 (add32 mmap (load32 s'.mem mmap)) 4) s'
        | false ↦ some s
      ]

  -- the lines for flag 6
  pub print_regions : (mbi : ℕ) → Screen → Option Screen
  unfolding print_if regions_loop
  print_regions mbi s =
      print_if mbi 6
        (λ s. do
          s' ←
              print "mmap_addr = 0x%#x, mmap_length = 0x%x\n"
                (load32 s.mem (mmap_addr mbi) ∷ load32 s.mem (mmap_length mbi) ∷ []) s
          regions_loop word mbi (load32 s'.mem (mmap_addr mbi)) s')
        s
