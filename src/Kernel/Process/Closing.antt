-- ===== src/Kernel/Process/Closing.antt =====
-- The loop of halt in student-distrib/system_call.c that closes the descriptors.
use native.Mathlib.Decide.{ℕ_discrete}
use cheeri_os.Common.{
  ℕ, zero, suc, ◌+◌, ◌≤◌, ◌<◌, ◌≡◌, ◌∙◌, inl, inr, refl, sym, arith, true, ◌==◌, ◌||◌, ==_iff,
  Bool-cases, if◌then◌else◌, slt,
}
use cheeri_os.Kernel.State.{Kernel, Pcb, closed, descriptor, set_descriptor}
use cheeri_os.Kernel.Calls.{close, min_valid_fd, max_valid_fd}
use cheeri_os.Kernel.Calls.Open.{valid_fd}
use cheeri_os.Kernel.Calls.Descriptors.{descriptor-set}
use cheeri_os.Kernel.Process.{close_all}

-- a field that the new PCB of the slot `c` keeps
pcb-field :
    {A : Type 0} (g : Pcb → A) (p : Pcb) (pcb : ℕ → Pcb) (c n : ℕ)
    → g p ≡ g (pcb c)
    → g (if n == c then p else pcb n) ≡ g (pcb n)
pcb-field g p pcb c n e = elim (Bool-cases (n == c)) [
  | inl eq ↦ let same : n ≡ c = (==_iff n c).0 eq in rw (eq, same) e
  | inr eq ↦ rw eq
]

module _ {D : Type 0} where
  -- What closing descriptors leaves as it is.
  pub record IsClosing (k k' : Kernel D) : Type 0 where
    pub keyboard : k'.keyboard ≡ k.keyboard
    pub paging : k'.paging ≡ k.paging
    pub curr : k'.curr ≡ k.curr
    pub count : k'.process_num ≡ k.process_num
    pub programs : k'.programs ≡ k.programs
    pub active : k'.active ≡ k.active
    pub exception : k'.exception_flag ≡ k.exception_flag
    pub parent_pid : (n : ℕ) → (k'.pcb n).parent_pid ≡ (k.pcb n).parent_pid
    pub ksp_parent : (n : ℕ) → (k'.pcb n).ksp_parent ≡ (k.pcb n).ksp_parent
    pub kbp_parent : (n : ℕ) → (k'.pcb n).kbp_parent ≡ (k.pcb n).kbp_parent
    pub flags : (fd : ℕ) → (descriptor k fd).flags ≡ 0 → (descriptor k' fd).flags ≡ 0

  pub IsClosing-refl : (k : Kernel D) → IsClosing k k
  IsClosing-refl k = record {
    keyboard = refl;
    paging = refl;
    curr = refl;
    count = refl;
    programs = refl;
    active = refl;
    exception = refl;
    parent_pid = λ n. refl;
    ksp_parent = λ n. refl;
    kbp_parent = λ n. refl;
    flags = λ fd e. e;
  }

  IsClosing-trans : {k1 k2 k3 : Kernel D} → IsClosing k1 k2 → IsClosing k2 k3 → IsClosing k1 k3
  IsClosing-trans a b = record {
    keyboard = b.keyboard ∙ a.keyboard;
    paging = b.paging ∙ a.paging;
    curr = b.curr ∙ a.curr;
    count = b.count ∙ a.count;
    programs = b.programs ∙ a.programs;
    active = b.active ∙ a.active;
    exception = b.exception ∙ a.exception;
    parent_pid = λ n. b.parent_pid n ∙ a.parent_pid n;
    ksp_parent = λ n. b.ksp_parent n ∙ a.ksp_parent n;
    kbp_parent = λ n. b.kbp_parent n ∙ a.kbp_parent n;
    flags = λ fd e. b.flags fd (a.flags fd e);
  }

  set_descriptor-IsClosing : (fd : ℕ) (k : Kernel D) → IsClosing k (set_descriptor fd closed k)
  set_descriptor-IsClosing fd k =
      let p = record (k.pcb k.curr) {
        fd_arr = λ i. if i == fd then closed else (k.pcb k.curr).fd_arr i;
      } in
      record {
        keyboard = refl;
        paging = refl;
        curr = refl;
        count = refl;
        programs = refl;
        active = refl;
        exception = refl;
        parent_pid = λ n. pcb-field (λ p. p.parent_pid) p k.pcb k.curr n refl;
        ksp_parent = λ n. pcb-field (λ p. p.ksp_parent) p k.pcb k.curr n refl;
        kbp_parent = λ n. pcb-field (λ p. p.kbp_parent) p k.pcb k.curr n refl;
        flags = λ j e.
            rw (descriptor-set fd closed k j)
              (elim (Bool-cases (j == fd)) [ inl eq ↦ rw eq | inr eq ↦ rw eq e ]);
      }

  -- close, whatever it returns, leaves the descriptor free if it is one from 2 to 7
  close-closes :
      (fd : ℕ) (k : Kernel D)
      → fd < 8
      → IsClosing k (close fd k).1 × (2 ≤ fd → (descriptor (close fd k).1 fd).flags ≡ 0)
  unfolding close
  close-closes fd k lt = elim (Bool-cases (slt fd min_valid_fd || slt max_valid_fd fd)) [
    | inl e ↦ rw e (IsClosing-refl k, λ le. absurd (ground (arith, e, valid_fd fd lt le)))
    | inr e ↦ elim (Bool-cases ((descriptor k fd).flags == 0)) [
      | inl free ↦ rw (e, free) (IsClosing-refl k, λ le. (==_iff _ 0).0 free)
      | inr used ↦
          rw (e, used)
            (
              set_descriptor-IsClosing fd k,
              λ le.
                  let same : (fd == fd) ≡ true = (==_iff fd fd).1 refl in
                  rw (descriptor-set fd closed k fd, same) refl,
            )
    ]
  ]

  -- the loop of halt: the descriptors that it has passed are free
  pub close_all-closes :
      (n i : ℕ) (k : Kernel D)
      → i + n ≡ 8
      → ((fd : ℕ) → 2 ≤ fd → fd < i → (descriptor k fd).flags ≡ 0)
      → IsClosing k (close_all n i k)
        × ((fd : ℕ) → 2 ≤ fd → fd < 8 → (descriptor (close_all n i k) fd).flags ≡ 0)
  unfolding close_all
  close_all-closes zero i k e before = (IsClosing-refl k, λ fd a b. before fd a (omega arith))
  close_all-closes (suc n) i k e before =
      let (step, now) = close-closes i k (omega arith) in
      let (rest, all) = close_all-closes n (i + 1) (close i k).1 (omega arith) (λ fd a b.
        elim (ℕ_discrete fd i) [
          | yes same ↦ rw same (now (rw (sym same) a))
          | no ne ↦ step.flags fd (before fd a (omega arith))
        ]) in
      (IsClosing-trans step rest, all)
