-- ===== src/Boot/Refused.antt =====
-- entry of student-distrib/kernel.c for another boot loader.
use cheeri_os.Common.{
  ℕ, ◌+◌, ◌*◌, ◌^◌, ◌≤◌, ◌<◌, ◌≡◌, ◌≢◌, ◌∙◌, refl, true, false, ne→==, ◌==◌, List, [], ◌∷◌, ◌++◌,
  some,
}
use cheeri_os.Screen.{Screen, video, num_rows, num_cols, clear, putc}
use cheeri_os.Screen.Bounds.{InScreen, putc-Keeps, clear-Keeps}
use cheeri_os.Ports.{Machine}
use cheeri_os.Output.{plain, printf_loop, printf, convert}
use cheeri_os.Output.Text.{is_text, put_all, printf_loop-before, put_all-Keeps}
use cheeri_os.Output.Hex.{ShowsHex, convert-number}
use cheeri_os.Output.Framed.{IsPrinted, IsPrinted-trans, Keeps-IsPrinted}
use cheeri_os.Kernel.Process.{Frame}
use cheeri_os.Boot.{Boot, Image, stopped, on_screen, entry}
use cheeri_os.Boot.Multiboot.{text_bytes, print}

-- "Invalid magic number: 0x"
abbrev pub complaint : List ℕ
complaint =
    b'I' ∷ b'n' ∷ b'v' ∷ b'a' ∷ b'l' ∷ b'i' ∷ b'd' ∷ b' ' ∷ b'm' ∷ b'a' ∷ b'g' ∷ b'i' ∷ b'c' ∷ b' '
    ∷ b'n' ∷ b'u' ∷ b'm' ∷ b'b' ∷ b'e' ∷ b'r' ∷ b':' ∷ b' ' ∷ b'0' ∷ b'x' ∷ []

complaint-is_text : is_text complaint ≡ true
unfolding is_text
complaint-is_text = refl

conversion-printed :
    (magic conv_buf : ℕ) (s t : Screen)
    → convert true b'x' magic conv_buf s ≡ some t
    → printf_loop plain (b'%' ∷ b'#' ∷ b'x' ∷ b'\n' ∷ []) (magic ∷ []) conv_buf s
      ≡ some (putc b'\n' t)
unfolding printf_loop
conversion-printed magic conv_buf s t shows = rw shows refl

complaint-printed :
    (magic conv_buf : ℕ) (s t : Screen)
    → convert true b'x' magic conv_buf (put_all complaint s) ≡ some t
    → print conv_buf "Invalid magic number: 0x%#x\n" (magic ∷ []) s ≡ some (putc b'\n' t)
unfolding print text_bytes printf
complaint-printed magic conv_buf s t shows =
    let runs : printf_loop plain (complaint ++ (b'%' ∷ b'#' ∷ b'x' ∷ b'\n' ∷ [])) (magic ∷ [])
          conv_buf s
        ≡ some (putc b'\n' t) =
      printf_loop-before complaint (b'%' ∷ b'#' ∷ b'x' ∷ b'\n' ∷ []) (magic ∷ []) conv_buf s
        complaint-is_text
      ∙ conversion-printed magic conv_buf (put_all complaint s) t shows in
    rw runs refl

-- For a magic number of 32 bits that is not that of a multiboot loader, and with the cursor in the bounds of
-- InScreen and the buffer of printf above the video memory, entry returns: the screen was cleared and shows
-- the complaint, eight digits of the number and a newline. Outside the video memory and 17 bytes of that
-- buffer the memory is as it was, and so is the machine beside the screen and the memory.
pub entry-refused :
    {D : Type 0} (hw : Machine D) (image : Image) (f : Frame) (magic addr : ℕ) (b : Boot D)
    → magic < 2 ^ 32
    → magic ≢ 0x2BADB002
    → video + num_rows * num_cols * 2 ≤ image.conv_buf
    → InScreen b.kernel.keyboard.screen
    → (t : Screen) × (entry hw image f magic addr b ≡ some (stopped (on_screen (putc b'\n' t) b)))
      × ShowsHex magic image.conv_buf (put_all complaint (clear b.kernel.keyboard.screen)) t
      × IsPrinted image.conv_buf b.kernel.keyboard.screen (putc b'\n' t)
unfolding entry
entry-refused hw image f magic addr b small other above inside =
    let s = b.kernel.keyboard.screen in
    let cleared = clear-Keeps inside in
    let said = put_all-Keeps complaint cleared.inside in
    let wrong : (magic == 0x2BADB002) ≡ false = ne→== magic 0x2BADB002 other in
    let (t, runs, shows) =
      (convert-number magic image.conv_buf (put_all complaint (clear s)) small above
        said.inside).1 in
    (
      t,
      rw (wrong, complaint-printed magic image.conv_buf (clear s) t runs) refl,
      shows,
      IsPrinted-trans (Keeps-IsPrinted cleared) (
          IsPrinted-trans (Keeps-IsPrinted said) (
            IsPrinted-trans (record { inside = shows.inside; framed = shows.framed })
              (Keeps-IsPrinted (putc-Keeps b'\n' shows.inside)))),
    )
