-- ===== src/Programs/Support/Agree.antt =====
-- The string functions of the user programs do what those of the kernel do.
use native.Mathlib.Decide.{ℕ_discrete}
use cheeri_os.Common.{
  ℕ, zero, suc, ◌+◌, ◌/◌, ◌≡◌, ◌≢◌, ◌↔◌, ◌∙◌, inl, inr, refl, true, ==_iff, ne→==, sym, ap, arith,
  Bool-cases, false, not, Option, none, some, ◌>>=◌, ◌==◌, ltb, slt, if◌then◌else◌, Mem, load8,
  store8, word, sub32,
}
use cheeri_os.Strings.{strlen_loop, strlen, strncmp, strcpy_loop, strcpy}
use cheeri_os.Strings.Compare.{AgreeFrom, AgreeFrom-step, AgreeFrom-tail, strncmp-agree}
use cheeri_os.Output.{strrev_loop, strrev, traps, itoa_loop, itoa}
use cheeri_os.Programs.Support.{
  strncmp_from, ece391_strncmp, strlen_from, ece391_strlen, strcpy_from, ece391_strcpy,
  reverse_loop, ece391_strrev, digits_loop, ece391_itoa,
}

strlen_from-strlen_loop :
    (k : ℕ) (m : Mem) (s len p : ℕ) → p ≡ s + len → strlen_from k m p len ≡ strlen_loop k m s len
unfolding strlen_from strlen_loop
strlen_from-strlen_loop zero m s len p e = refl
strlen_from-strlen_loop (suc k) m s len p e = rw e (elim (Bool-cases (load8 m (s + len) == 0)) [
  | inl z ↦ rw (z, strlen_from, strlen_loop) refl
  | inr n ↦
      rw (n, strlen_from, strlen_loop)
        (strlen_from-strlen_loop k m s (len + 1) (s + len + 1) (omega arith))
])

strcpy_from-strcpy_loop :
    (k : ℕ) (m : Mem) (dst src i p q : ℕ)
    → p ≡ dst + i
    → q ≡ src + i
    → strcpy_from k p q m ≡ strcpy_loop k m dst src i
unfolding strcpy_from strcpy_loop
strcpy_from-strcpy_loop zero m dst src i p q e f = refl
strcpy_from-strcpy_loop (suc k) m dst src i p q e f =
    rw (e, f)
      (elim (Bool-cases (load8 m (src + i) == 0)) [
        | inl z ↦
            let nul : load8 m (src + i) ≡ 0 = ground (arith, z) in
            rw (z, strcpy_from, strcpy_loop) (ap (λ v. some (store8 m (dst + i) v)) nul)
        | inr n ↦
            rw (n, strcpy_from, strcpy_loop)
              (strcpy_from-strcpy_loop k (store8 m (dst + i) (load8 m (src + i))) dst src (i + 1)
                (dst + i + 1) (src + i + 1) (omega arith) (omega arith))
      ])

reverse_loop-strrev_loop :
    (n : ℕ) (s beg end : ℕ) (m : Mem) → reverse_loop n s beg end m ≡ strrev_loop n s beg end m
unfolding reverse_loop strrev_loop
reverse_loop-strrev_loop zero s beg end m = refl
reverse_loop-strrev_loop (suc n) s beg end m = elim (Bool-cases (slt beg end)) [
  | inl e ↦
      rw (e, reverse_loop, strrev_loop) (reverse_loop-strrev_loop n s (beg + 1) (sub32 end 1) _)
  | inr e ↦ rw (e, reverse_loop, strrev_loop) refl
]

digits_loop-itoa_loop :
    (n : ℕ) (newval newbuf radix : ℕ) (m : Mem)
    → digits_loop n newval newbuf radix m ≡ itoa_loop n newval newbuf radix m
unfolding digits_loop itoa_loop
digits_loop-itoa_loop zero newval newbuf radix m = refl
digits_loop-itoa_loop (suc n) newval newbuf radix m = elim (Bool-cases (ltb 0 newval)) [
  | inl e ↦ elim (Bool-cases (traps newval radix)) [
    | inl bad ↦ rw (e, bad, digits_loop, itoa_loop) refl
    | inr good ↦
        rw (e, good, digits_loop, itoa_loop)
          (digits_loop-itoa_loop n (newval / radix) (newbuf + 1) radix _)
  ]
  | inr e ↦ rw (e, digits_loop, itoa_loop) refl
]

pub strlen_agrees : (m : Mem) (s : ℕ) → ece391_strlen m s ≡ strlen m s
unfolding ece391_strlen strlen
strlen_agrees m s = strlen_from-strlen_loop word m s 0 s (omega arith)

-- a loop that does not begin
strrev_loop-none : (n s end : ℕ) (m : Mem) → slt 0 end ≡ false → strrev_loop n s 0 end m ≡ some m
unfolding strrev_loop
strrev_loop-none zero s end m e = rw e refl
strrev_loop-none (suc n) s end m e = rw (e, strrev_loop) refl

strrev_rest :
    (n s : ℕ) (m : Mem)
    → (if not (slt 0 (sub32 n 1)) then some m else reverse_loop n s 0 (sub32 n 1) m)
      ≡ strrev_loop n s 0 (sub32 n 1) m
strrev_rest n s m = elim (Bool-cases (slt 0 (sub32 n 1))) [
  | inl e ↦ rw e (reverse_loop-strrev_loop n s 0 (sub32 n 1) m)
  | inr e ↦ rw e (sym (strrev_loop-none n s (sub32 n 1) m e))
]

bind-ext :
    {A B : Type 0} (o : Option A) (f g : A → Option B)
    → ((x : A) → f x ≡ g x)
    → (o >>= f) ≡ (o >>= g)
bind-ext none f g h = refl
bind-ext (some x) f g h = h x

strrev_agrees : (s : ℕ) (m : Mem) → ece391_strrev s m ≡ strrev s m
unfolding ece391_strrev strrev
strrev_agrees s m = rw (strlen_agrees m s) (bind-ext (strlen m s) _ _ (λ n. strrev_rest n s m))

itoa_agrees :
    (value buf radix : ℕ) (m : Mem) → ece391_itoa value buf radix m ≡ itoa value buf radix m
unfolding ece391_itoa itoa
itoa_agrees value buf radix m = elim (Bool-cases (value == 0)) [
  | inl z ↦ rw z refl
  | inr n ↦
      rw (n, digits_loop-itoa_loop (value + 1) value buf radix m)
        (bind-ext (itoa_loop (value + 1) value buf radix m) _ _
          (λ (end, m'). strrev_agrees buf (store8 m' end 0)))
]

bytes_differ :
    (m : Mem) (p q : ℕ) → (load8 m p == load8 m q) ≡ false → sub32 (load8 m p) (load8 m q) ≢ 0
bytes_differ m p q differ z = absurd (ground arith)

differ-strncmp_from :
    (m : Mem) (k p q : ℕ)
    → (load8 m p == load8 m q) ≡ false
    → strncmp_from (suc k) m p q ≡ sub32 (load8 m p) (load8 m q)
unfolding strncmp_from
differ-strncmp_from m k p q differ = rw (differ, strncmp_from) refl

next-strncmp_from :
    (m : Mem) (k p q : ℕ)
    → (load8 m p == load8 m q) ≡ true
    → load8 m p ≢ 0
    → strncmp_from (suc k) m p q ≡ strncmp_from k m (p + 1) (q + 1)
unfolding strncmp_from
next-strncmp_from m k p q same ne = rw (same, ne→== _ 0 ne, strncmp_from) refl

module _ (m : Mem) (s1 s2 : ℕ) where
  strncmp_from-agree :
      (k i p q : ℕ) → p ≡ s1 + i → q ≡ s2 + i → strncmp_from k m p q ≡ 0 → AgreeFrom m s1 s2 i k
  unfolding strncmp_from
  strncmp_from-agree zero i p q e f z = λ j le lt nonzero. absurd (omega arith)
  strncmp_from-agree (suc k) i p q e f z =
      elim (Bool-cases (load8 m (s1 + i) == load8 m (s2 + i))) [
        | inr differ ↦ absurd (
            bytes_differ m (s1 + i) (s2 + i) differ
              (sym (differ-strncmp_from m k (s1 + i) (s2 + i) differ) ∙ rw (e, f) at z))
        | inl same ↦
            let byte = (==_iff _ _).0 same in
            elim (ℕ_discrete (load8 m (s1 + i)) 0) [
              | yes nul ↦ AgreeFrom-step m s1 s2 i k byte (inl nul)
              | no ne ↦ AgreeFrom-step m s1 s2 i k byte (
                  inr (
                    strncmp_from-agree k (i + 1) (s1 + i + 1) (s2 + i + 1) (omega arith)
                      (omega arith)
                      (sym (next-strncmp_from m k (s1 + i) (s2 + i) same ne) ∙ rw (e, f) at z)))
            ]
      ]

  agree-strncmp_from :
      (k i p q : ℕ) → p ≡ s1 + i → q ≡ s2 + i → AgreeFrom m s1 s2 i k → strncmp_from k m p q ≡ 0
  unfolding strncmp_from
  agree-strncmp_from zero i p q e f h = refl
  agree-strncmp_from (suc k) i p q e f h =
      let byte : load8 m (s1 + i) ≡ load8 m (s2 + i) =
        h i (omega arith) (omega arith) (λ t a b. absurd (omega arith)) in
      let same : (load8 m (s1 + i) == load8 m (s2 + i)) ≡ true = (==_iff _ _).1 byte in
      rw (e, f)
        (elim (ℕ_discrete (load8 m (s1 + i)) 0) [
          | yes nul ↦
              let test : (load8 m (s1 + i) == 0) ≡ true = (==_iff _ _).1 nul in
              rw (same, test, strncmp_from) refl
          | no ne ↦
              rw (same, ne→== _ 0 ne, strncmp_from)
                (agree-strncmp_from k (i + 1) (s1 + i + 1) (s2 + i + 1) (omega arith) (omega arith)
                  (AgreeFrom-tail m s1 s2 i k h ne))
        ])

strncmp_agrees : (m : Mem) (s1 s2 n : ℕ) → (ece391_strncmp m s1 s2 n ≡ 0) ↔ (strncmp m s1 s2 n ≡ 0)
unfolding ece391_strncmp
strncmp_agrees m s1 s2 n =
    let kernel = strncmp-agree m s1 s2 n in
    (
      λ z. kernel.1 (strncmp_from-agree m s1 s2 n 0 s1 s2 (omega arith) (omega arith) z),
      λ z. agree-strncmp_from m s1 s2 n 0 s1 s2 (omega arith) (omega arith) (kernel.0 z),
    )

-- ece391_strlen, ece391_strcpy, ece391_strrev and ece391_itoa return and write what strlen, strcpy, strrev and itoa of
-- the kernel do, for all arguments and memories; itoa has no result in either for a radix of 0 or a digit
-- behind the table of digits. ece391_strncmp is 0 exactly when strncmp of the kernel is (their other values may
-- differ, as one takes the bytes as unsigned and the other as signed); ece391_strcmp has no counterpart.
pub support_agrees :
    (m : Mem) (s s1 s2 n dst src value buf radix : ℕ)
    → (ece391_strlen m s ≡ strlen m s)
      × (ece391_strcpy dst src m ≡ strcpy m dst src)
      × (ece391_strrev s m ≡ strrev s m)
      × (ece391_itoa value buf radix m ≡ itoa value buf radix m)
      × ((ece391_strncmp m s1 s2 n ≡ 0) ↔ (strncmp m s1 s2 n ≡ 0))
unfolding ece391_strcpy strcpy
support_agrees m s s1 s2 n dst src value buf radix = (
  strlen_agrees m s,
  strcpy_from-strcpy_loop word m dst src 0 dst src (omega arith) (omega arith),
  strrev_agrees s m,
  itoa_agrees value buf radix m,
  strncmp_agrees m s1 s2 n,
)
