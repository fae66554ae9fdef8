-- ===== src/Programs/Errors/Refusals.antt =====
-- The calls of syscalls/ece391syserr.c that this kernel refuses, and the line that a test prints.
use Prim.Native.String.{String, len, char_at}
use Prim.Native.Char.{code}
use cheeri_os.Common.{
  ℕ, ◌+◌, ◌<◌, ◌≡◌, ◌∙◌, ◌≢◌, ◌%◌, ◌⊎◌, refl, arith, true, ◌||◌, Option, some, Mem, load8,
  minus_one, slt,
}
use cheeri_os.Strings.Length.{IsString, strlen-IsString}
use cheeri_os.Rtc.{Driver}
use cheeri_os.Ports.{Machine}
use cheeri_os.Keyboard.Terminal.{write_terminal}
use cheeri_os.Paging.{vidmap}
use cheeri_os.Kernel.State.{Kernel, memory, descriptor}
use cheeri_os.Kernel.Files.{Arrivals}
use cheeri_os.Kernel.Calls.{close, read, write}
use cheeri_os.Kernel.Calls.Descriptors.{IsOpenTable}
use cheeri_os.Kernel.Calls.Terminal.{write-terminal}
use cheeri_os.Programs.System.{System}
use cheeri_os.Programs.Support.{ece391_strlen, ece391_fdputs}
use cheeri_os.Programs.Support.Agree.{strlen_agrees}
use cheeri_os.Programs.Session.{Session, Host, kernel_system}
use cheeri_os.Programs.Errors.{verdict}
use cheeri_os.Programs.Errors.Reports.{Fails}

-- The constant `text` stands at `p`.
pub record IsPlaced (m : Mem) (p : ℕ) (text : String) : Type 0 where
  pub contents : (i : ℕ) → i < len text → load8 m (p + i) ≡ code (char_at text i) % 256
  pub string : IsString m p (len text)
  pub real : p ≢ 0

module _ {D : Type 0} where
  -- the session of the kernel `k` with another clock
  abbrev pub clocked : Kernel D → Driver D → ℕ → Session D
  clocked k r n = record { kernel = record k { rtc = r }; reads = n }

  abbrev pub IsClocked : Kernel D → Session D → Type 0
  IsClocked k s = (r : Driver D) × (n : ℕ) × (s ≡ clocked k r n)

  -- the kernel after `text` was written to the terminal
  abbrev pub printed : ℕ → String → Kernel D → Kernel D
  printed p text k = record k { keyboard = (write_terminal 1 p (len text) k.keyboard).1 }

  module _ (hw : Machine D) (k : Kernel D) where
    read-refused :
        (a : Arrivals) (dentry fd buf nbytes : ℕ) (r : Driver D)
        → ((slt fd 0 || slt 7 fd) ≡ true) ⊎ (fd ≡ 1) ⊎ ((descriptor k fd).flags ≡ 0)
        → read hw a dentry fd buf nbytes (record k { rtc = r })
          ≡ some (minus_one, record k { rtc = record r { machine = hw.sti r.machine } })
    unfolding read
    read-refused a dentry fd buf nbytes r why = ground (arith, why)

    write-refused :
        (fd buf nbytes : ℕ) (r : Driver D)
        → ((slt fd 0 || slt 7 fd) ≡ true) ⊎ (fd ≡ 0) ⊎ ((descriptor k fd).flags ≡ 0)
        → write hw fd buf nbytes (record k { rtc = r }) ≡ some (minus_one, record k { rtc = r })
    unfolding write
    write-refused fd buf nbytes r why = ground (arith, why)

    close-refused :
        (fd : ℕ) (r : Driver D)
        → (fd < 2) ⊎ ((slt fd 0 || slt 7 fd) ≡ true) ⊎ ((descriptor k fd).flags ≡ 0)
        → close fd (record k { rtc = r }) ≡ (minus_one, record k { rtc = r })
    unfolding close
    close-refused fd r why = ground (arith, why)

  module _ (h : Host D) (k : Kernel D) where
    abbrev pub sys : System (Session D)
    sys = kernel_system h

    pub read-Fails :
        (fd buf nbytes : ℕ)
        → ((slt fd 0 || slt 7 fd) ≡ true) ⊎ (fd ≡ 1) ⊎ ((descriptor k fd).flags ≡ 0)
        → Fails (IsClocked k) (sys.read fd buf nbytes)
    read-Fails fd buf nbytes why s (r, n, e) = (
      clocked k (record r { machine = h.hw.sti r.machine }) (n + 1),
      rw (e, read-refused h.hw k (h.arrivals n) h.dentry fd buf nbytes r why) refl,
      (record r { machine = h.hw.sti r.machine }, n + 1, refl),
    )

    pub write-Fails :
        (fd buf nbytes : ℕ)
        → ((slt fd 0 || slt 7 fd) ≡ true) ⊎ (fd ≡ 0) ⊎ ((descriptor k fd).flags ≡ 0)
        → Fails (IsClocked k) (sys.write fd buf nbytes)
    write-Fails fd buf nbytes why s (r, n, e) =
        (clocked k r n, rw (e, write-refused h.hw k fd buf nbytes r why) refl, (r, n, refl))

    pub close-Fails :
        (fd : ℕ)
        → (fd < 2) ⊎ ((slt fd 0 || slt 7 fd) ≡ true) ⊎ ((descriptor k fd).flags ≡ 0)
        → Fails (IsClocked k) (sys.close fd)
    close-Fails fd why s (r, n, e) =
        (clocked k r n, rw (e, close-refused h.hw k fd r why) refl, (r, n, refl))

    pub vidmap-Fails :
        (place : ℕ) → (place ≡ 0) ⊎ (place < 0x8000000) → Fails (IsClocked k) (sys.vidmap place)
    unfolding vidmap
    vidmap-Fails place why s (r, n, e) =
        let refused : vidmap h.page_table place k.paging (memory k)
            ≡ (minus_one, k.paging, memory k) =
          ground (arith, why) in
        (clocked k r n, rw (e, refused) refl, (r, n, refl))

    -- The test returns 0, and the kernel is as before but for the clock and the line `text` on the terminal.
    abbrev pub Passes : String → Option (ℕ × Session D) → Type 0
    Passes text result =
        (r : Driver D) × (n : ℕ) × (result
          ≡ some (0, clocked (printed (h.literal text) text k) r n))

    pub verdict-Passes :
        (passed failed : String) (s : Session D)
        → IsPlaced (memory k) (h.literal passed) passed
        → len passed < 1024
        → IsOpenTable k
        → IsClocked k s
        → Passes passed (verdict sys h.literal passed failed 0 s)
    unfolding verdict ece391_fdputs
    verdict-Passes passed failed s at short table (r, n, e) =
        let measured : ece391_strlen (memory k) (h.literal passed) ≡ some (len passed) =
          strlen_agrees (memory k) (h.literal passed)
          ∙ (strlen-IsString (memory k) (h.literal passed) (len passed)).1
              (at.string, omega arith) in
        (
          r,
          n,
          rw
              (
                e,
                measured,
                write-terminal h.hw (record k { rtc = r }) (h.literal passed) (len passed) table
                    at.real,
              )
              refl,
        )
