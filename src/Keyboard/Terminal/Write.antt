-- ===== src/Keyboard/Terminal/Write.antt =====
-- write_terminal is putc of each byte.
use cheeri_os.Common.{
  ℕ, zero, suc, ◌+◌, ◌*◌, ◌^◌, ◌≤◌, ◌<◌, ◌≡◌, ◌≢◌, ◌⊎◌, ◌∙◌, refl, ap, arith, List, [], ◌∷◌, Mem,
  load8, ne→==, slt, false,
}
use cheeri_os.Screen.{Screen, video, num_rows, num_cols, putc}
use cheeri_os.Screen.Bounds.{InScreen, ScreenCall, put, call, calls, putc-Keeps}
use cheeri_os.Keyboard.State.{Keyboard, on_screen}
use cheeri_os.Keyboard.Terminal.{write_loop, write_terminal}

-- putc of the bytes `i`, ..., `i + n - 1` that stood at `buf`
pub puts : Mem → ℕ → (buf i : ℕ) → List ScreenCall
puts m zero buf i = []
puts m (suc n) buf i = put (load8 m (buf + i)) ∷ puts m n buf (i + 1)

module _ (m0 : Mem) (buf n : ℕ)
    (apart : (buf + n ≤ video) ⊎ (video + num_rows * num_cols * 2 ≤ buf)) where
  write_loop-calls :
      (k i : ℕ) {s : Screen}
      → i + k ≡ n
      → InScreen s
      → ((j : ℕ) → j < n → load8 s.mem (buf + j) ≡ load8 m0 (buf + j))
      → write_loop k buf i s ≡ calls (puts m0 k buf i) s
  unfolding write_loop calls puts call
  write_loop-calls zero i e inside same = refl
  write_loop-calls (suc k) i {s} e inside same =
      let keeps = putc-Keeps (load8 s.mem (buf + i)) inside in
      write_loop-calls k (i + 1) (omega arith) keeps.inside
        (λ j lt. keeps.same.at (buf + j) (omega arith) ∙ same j lt)
      ∙ ap (λ c. calls (puts m0 k buf (i + 1)) (putc c s)) (same i (omega arith))

-- From a cursor in the bounds of InScreen, write_terminal of a buffer of nbytes bytes outside the video memory returns
-- nbytes, puts each of these bytes, as it was before the call, to the screen in order, and changes
-- nothing else.
pub write_terminal-calls :
    (fd buf nbytes : ℕ) (k : Keyboard)
    → InScreen k.screen
    → buf ≢ 0
    → nbytes < 2 ^ 31
    → (buf + nbytes ≤ video) ⊎ (video + num_rows * num_cols * 2 ≤ buf)
    → write_terminal fd buf nbytes k
      ≡ (nbytes, on_screen (calls (puts k.screen.mem nbytes buf 0)) k)
unfolding write_terminal
write_terminal-calls fd buf nbytes k inside real small apart =
    let nonnegative : slt nbytes 0 ≡ false = ground arith in
    rw (ne→== buf 0 real, nonnegative)
      (ap (λ s. (nbytes, record k { screen = s }))
        (write_loop-calls k.screen.mem buf nbytes apart nbytes 0 (omega arith) inside
          (λ j lt. refl)))
