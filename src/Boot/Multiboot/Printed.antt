-- ===== src/Boot/Multiboot/Printed.antt =====
-- The lines that entry of student-distrib/kernel.c prints change only the screen and the array of printf.
use Prim.Native.String.{String, len}
use cheeri_os.Common.{
  ℕ, zero, suc, ◌+◌, ◌*◌, ◌^◌, ◌≤◌, ◌<◌, inl, inr, arith, ltb, Bool-cases, List, [], ◌∷◌, Option,
  none, some, ◌>>=◌, Each, Each-bind, Each-if, load8, load32, load32-lt, word,
}
use cheeri_os.Strings.{sign_extend}
use cheeri_os.Screen.{Screen, video, num_rows, num_cols}
use cheeri_os.Screen.Bounds.{InScreen}
use cheeri_os.Output.{printf}
use cheeri_os.Output.Framed.{IsPrinted, IsPrinted-trans, IsWords, printf-IsPrinted}
use cheeri_os.Boot.Multiboot.{
  flags, mods_count, mods_addr, check_flag, text_bytes, print, print_if, print_start, first_bytes,
  modules_loop, print_modules,
}

sign_extend-word : (m : ℕ → ℕ) (a : ℕ) → sign_extend (load8 m a) < 2 ^ 32
sign_extend-word m a = ground arith

module _ {conv : ℕ} (above : video + num_rows * num_cols * 2 ≤ conv) where
  pub print-IsPrinted :
      (text : String) (args : List ℕ) {s : Screen}
      → IsWords args
      → InScreen s
      → Each (IsPrinted conv s) (print conv text args s)
  unfolding print
  print-IsPrinted text args {s} words inside =
      Each-bind (IsPrinted conv s) (λ x. IsPrinted conv s x.1)
        (printf (text_bytes (len text) text []) args conv s) _
        (printf-IsPrinted above (text_bytes (len text) text []) args words inside) (λ (n, t) p. p)

  pub then_line :
      (o : Option Screen) {s t : Screen}
      → IsPrinted conv s t
      → Each (IsPrinted conv t) o
      → Each (IsPrinted conv s) o
  then_line none p q = tt
  then_line (some u) p q = IsPrinted-trans p q

  -- a line printed after others
  pub then_print :
      (text : String) (args : List ℕ) {s t : Screen}
      → IsWords args
      → IsPrinted conv s t
      → Each (IsPrinted conv s) (print conv text args t)
  then_print text args {s} {t} words p =
      then_line (print conv text args t) p (print-IsPrinted text args words p.inside)

  print_if-IsPrinted :
      (mbi bit : ℕ) (line : Screen → Option Screen) {s t : Screen}
      → IsPrinted conv s t
      → Each (IsPrinted conv s) (line t)
      → Each (IsPrinted conv s) (print_if conv mbi bit line t)
  unfolding print_if
  print_if-IsPrinted mbi bit line {s} {t} p q =
      Each-if (IsPrinted conv s) (check_flag (load32 t.mem (flags mbi)) bit) (line t) (some t) q p

  -- such a line with the words `args`
  print_if-line :
      (mbi bit : ℕ) (text : String) (args : Screen → List ℕ) {s t : Screen}
      → ((u : Screen) → IsWords (args u))
      → IsPrinted conv s t
      → Each (IsPrinted conv s) (print_if conv mbi bit (λ u. print conv text (args u) u) t)
  print_if-line mbi bit text args {s} {t} words p =
      print_if-IsPrinted mbi bit (λ u. print conv text (args u) u) p
        (then_print text (args t) (words t) p)

  pub print_start-IsPrinted :
      (mbi : ℕ) {s : Screen} → InScreen s → Each (IsPrinted conv s) (print_start conv mbi s)
  unfolding print_start
  print_start-IsPrinted mbi {s} inside =
      let P = IsPrinted conv s in
      Each-bind P P _ _
        (print-IsPrinted "flags = 0x%#x\n" (load32 s.mem (flags mbi) ∷ []) (load32-lt _ _, tt)
          inside)
        (λ s1 p1.
          Each-bind P P _ _
            (print_if-line mbi 0 "mem_lower = %uKB, mem_upper = %uKB\n"
              (λ u. load32 u.mem (mbi + 4) ∷ load32 u.mem (mbi + 8) ∷ [])
              (λ u. (load32-lt _ _, (load32-lt _ _, tt))) p1)
            (λ s2 p2.
              Each-bind P P _ _
                (print_if-line mbi 1 "boot_device = 0x%#x\n" (λ u. load32 u.mem (mbi + 12) ∷ [])
                  (λ u. (load32-lt _ _, tt)) p2)
                (λ s3 p3.
                  print_if-line mbi 2 "cmdline = %s\n" (λ u. load32 u.mem (mbi + 16) ∷ [])
                    (λ u. (load32-lt _ _, tt)) p3)))

  first_bytes-IsPrinted :
      (n module_at i : ℕ) {s t : Screen}
      → IsPrinted conv s t
      → Each (IsPrinted conv s) (first_bytes conv n module_at i t)
  unfolding first_bytes
  first_bytes-IsPrinted zero module_at i p = p
  first_bytes-IsPrinted (suc n) module_at i {s} {t} p =
      let P = IsPrinted conv s in
      Each-bind P P _ _ (then_print _ _ (sign_extend-word t.mem _, tt) p)
        (λ t' q. first_bytes-IsPrinted n module_at (i + 1) q)

  modules_loop-IsPrinted :
      (n mbi mod_count module_at : ℕ) {s t : Screen}
      → IsPrinted conv s t
      → Each (IsPrinted conv s) (modules_loop conv n mbi mod_count module_at t)
  unfolding modules_loop
  modules_loop-IsPrinted zero mbi mod_count module_at p = tt
  modules_loop-IsPrinted (suc n) mbi mod_count module_at {s} {t} p =
      let P = IsPrinted conv s in
      elim (Bool-cases (ltb mod_count (load32 t.mem (mods_count mbi)))) [
        | inl e ↦
            let small : mod_count < 2 ^ 32 = ground (arith, e, load32-lt t.mem (mods_count mbi)) in
            rw (e, modules_loop)
              (Each-bind P P _ _ (then_print _ _ (small, (load32-lt _ _, tt)) p) (λ s1 p1.
                Each-bind P P _ _ (then_print _ _ (small, (load32-lt _ _, tt)) p1) (λ s2 p2.
                  Each-bind P P _ _ (then_print _ _ tt p2) (λ s3 p3.
                    Each-bind P P _ _ (first_bytes-IsPrinted 16 module_at 0 p3) (λ s4 p4.
                      Each-bind P P _ _ (then_print _ _ tt p4) (λ s5 p5.
                        modules_loop-IsPrinted n mbi (mod_count + 1) (module_at + 16) p5))))))
        | inr e ↦ rw (e, modules_loop) p
      ]

  pub print_modules-IsPrinted :
      (mbi start : ℕ) {s t : Screen}
      → IsPrinted conv s t
      → Each (λ x. IsPrinted conv s x.1) (print_modules conv mbi start t)
  unfolding print_modules
  print_modules-IsPrinted mbi start {s} {t} p =
      let P : ℕ × Screen → Type 0 = λ x. IsPrinted conv s x.1 in
      let module_at = load32 t.mem (mods_addr mbi) in
      let lines = modules_loop conv word mbi 0 module_at t in
      let pair : Screen → Option (ℕ × Screen) = λ t'. some (load32 t.mem module_at, t') in
      Each-if P (check_flag (load32 t.mem (flags mbi)) 3) (lines >>= pair) (some (start, t))
        (Each-bind P (IsPrinted conv s) lines pair (modules_loop-IsPrinted word mbi 0 module_at p)
          (λ t' q. q))
        p
