-- ===== src/Screen/Shown.antt =====
-- What was put on the screen since an earlier state, when the rest of the memory changes in between.
use cheeri_os.Common.{ℕ, ◌+◌, ◌*◌, ◌≤◌, ◌<◌, ◌≡◌, Mem, load8}
use cheeri_os.Screen.{Screen, video, num_rows, num_cols, putc}

-- `m` has the bytes of `m0` in the video memory.
pub record SameVideo (m0 m : Mem) : Type 0 where
  pub at : (a : ℕ) → video ≤ a → a < video + num_rows * num_cols * 2 → load8 m a ≡ load8 m0 a

-- `Shown f s n t`: from `s` the screen came to `t` by putc of f 0, ..., f (n - 1) in this order and by
-- writes to the memory outside the video memory.
pub data Shown (f : ℕ → ℕ) (s : Screen) : ℕ → Screen → Type 0 where
  nothing : Shown f s 0 s
  put_next : {n : ℕ} {t : Screen} → Shown f s n t → Shown f s (n + 1) (putc (f n) t)
  stored :
      {n : ℕ} {t : Screen} (m : Mem)
      → SameVideo t.mem m
      → Shown f s n t
      → Shown f s n (record t { mem = m })
