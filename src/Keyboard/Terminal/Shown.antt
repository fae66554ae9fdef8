-- ===== src/Keyboard/Terminal/Shown.antt =====
-- write_terminal shows the buffer's bytes.
use cheeri_os.Common.{
  ℕ, zero, suc, ◌+◌, ◌*◌, ◌^◌, ◌≤◌, ◌<◌, ◌≡◌, ◌≢◌, ◌⊎◌, ◌∙◌, refl, arith, Mem, load8, ne→==, slt,
  false,
}
use cheeri_os.Screen.{Screen, video, num_rows, num_cols, putc}
use cheeri_os.Screen.Bounds.{
  InScreen, SameOutside, SameOutside-refl, SameOutside-trans, Keeps, putc-Keeps,
}
use cheeri_os.Screen.Shown.{Shown, put_next}
use cheeri_os.Keyboard.State.{Keyboard}
use cheeri_os.Keyboard.Terminal.{write_loop, write_terminal}

module _ (m0 : Mem) (f : ℕ → ℕ) (start : Screen) (buf pos n : ℕ)
    (apart : (buf + n ≤ video) ⊎ (video + num_rows * num_cols * 2 ≤ buf))
    (bytes : (j : ℕ) → j < n → load8 m0 (buf + j) ≡ f (pos + j)) where
  write_loop-Shown :
      (k i : ℕ) {s : Screen}
      → i + k ≡ n
      → InScreen s
      → SameOutside m0 s.mem
      → Shown f start (pos + i) s
      → Shown f start (pos + n) (write_loop k buf i s) × Keeps s (write_loop k buf i s)
  unfolding write_loop
  write_loop-Shown zero i {s} e inside same shown =
      let all : pos + i ≡ pos + n = omega arith in
      (rw all at shown, record { inside = inside; same = SameOutside-refl s.mem })
  write_loop-Shown (suc k) i {s} e inside same shown =
      let byte : load8 s.mem (buf + i) ≡ f (pos + i) =
        same.at (buf + i) (omega arith) ∙ bytes i (omega arith) in
      let keeps = putc-Keeps (load8 s.mem (buf + i)) inside in
      let next : Shown f start (pos + i + 1) (putc (load8 s.mem (buf + i)) s) =
        rw byte (put_next shown) in
      let count : pos + i + 1 ≡ pos + (i + 1) = omega arith in
      let (shown', keeps') =
        write_loop-Shown k (i + 1) (omega arith) keeps.inside (SameOutside-trans same keeps.same)
          (rw count at next) in
      (shown', record { inside = keeps'.inside; same = SameOutside-trans keeps.same keeps'.same })

-- Once the bytes before `pos` were shown, write_terminal of the next n shows those.
pub write_terminal-Shown :
    (f : ℕ → ℕ) (start : Screen) (fd buf pos n : ℕ) (k : Keyboard)
    → buf ≢ 0
    → n < 2 ^ 31
    → (buf + n ≤ video) ⊎ (video + num_rows * num_cols * 2 ≤ buf)
    → ((j : ℕ) → j < n → load8 k.screen.mem (buf + j) ≡ f (pos + j))
    → InScreen k.screen
    → Shown f start pos k.screen
    → (t : Screen) × (write_terminal fd buf n k ≡ (n, record k { screen = t }))
      × Shown f start (pos + n) t
      × Keeps k.screen t
unfolding write_terminal
write_terminal-Shown f start fd buf pos n k real small apart bytes inside shown =
    let nonnegative : slt n 0 ≡ false = ground arith in
    let at : pos ≡ pos + 0 = omega arith in
    let (shown', keeps) =
      write_loop-Shown k.screen.mem f start buf pos n apart bytes n 0 (omega arith) inside
        (SameOutside-refl k.screen.mem) (rw at at shown) in
    (write_loop n buf 0 k.screen, rw (ne→== buf 0 real, nonnegative) refl, shown', keeps)
