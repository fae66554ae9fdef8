-- ===== src/Output/Framed.antt =====
-- What printf of student-distrib/lib.c leaves alone, for every format and every argument of 32 bits.
use cheeri_os.Common.{
  ℕ, ◌+◌, ◌*◌, ◌%◌, ◌^◌, ◌≤◌, ◌<◌, ◌≡◌, ◌∙◌, inl, inr, refl, Bool, true, false, ◌==◌, ==_iff,
  Bool-cases, if◌then◌else◌, List, [], ◌∷◌, Each, Each-bind,
}
use cheeri_os.Screen.{Screen, video, num_rows, num_cols, putc}
use cheeri_os.Screen.Bounds.{InScreen, Keeps, putc-Keeps}
use cheeri_os.Output.{
  plain, conversion, Mode, takes_argument, convert, printf_loop, printf, print_string, puts,
}
use cheeri_os.Output.Numbers.{Framed, puts-Keeps}
use cheeri_os.Output.Hex.{convert-number}

-- A screen that printing may leave after `s`: the cursor is as InScreen says, and the memory is that of `s` outside the video
-- memory and the 17 bytes at `conv`.
pub record IsPrinted (conv : ℕ) (s t : Screen) : Type 0 where
  pub inside : InScreen t
  pub framed : Framed conv s.mem t.mem

-- all of them are words of 32 bits
abbrev pub IsWords : List ℕ → Type 0
IsWords [] = Unit
IsWords (a ∷ args) = (a < 2 ^ 32) × IsWords args

module _ {conv : ℕ} where
  pub IsPrinted-refl : {s : Screen} → InScreen s → IsPrinted conv s s
  IsPrinted-refl inside = record { inside = inside; framed = record { at = λ a out away. refl } }

  pub IsPrinted-trans :
      {s t u : Screen} → IsPrinted conv s t → IsPrinted conv t u → IsPrinted conv s u
  IsPrinted-trans p q = record {
    inside = q.inside;
    framed = record { at = λ a out away. q.framed.at a out away ∙ p.framed.at a out away };
  }

  pub Keeps-IsPrinted : {s t : Screen} → Keeps s t → IsPrinted conv s t
  Keeps-IsPrinted k = record {
    inside = k.inside;
    framed = record { at = λ a out away. k.same.at a out };
  }

  module _ (above : video + num_rows * num_cols * 2 ≤ conv) where
    string-IsPrinted :
        (s : ℕ) {t : Screen} → InScreen t → Each (IsPrinted conv t) (print_string s t)
    string-IsPrinted s {t} inside =
        Each-bind (IsPrinted conv t) (λ x. Keeps t x.1) (puts s t) _ (puts-Keeps s inside)
          (λ (n, t') k. Keeps-IsPrinted k)

    hex-IsPrinted :
        (alternate : Bool) (arg : ℕ) {t : Screen}
        → arg < 2 ^ 32
        → InScreen t
        → Each (IsPrinted conv t) (convert alternate b'x' arg conv t)
    hex-IsPrinted false arg {t} small inside =
        let (t', runs, shows) = (convert-number arg conv t small above inside).0 in
        rw runs (record { inside = shows.inside; framed = shows.framed })
    hex-IsPrinted true arg {t} small inside =
        let (t', runs, shows) = (convert-number arg conv t small above inside).1 in
        rw runs (record { inside = shows.inside; framed = shows.framed })

    decimal-IsPrinted :
        (arg : ℕ) {t : Screen}
        → arg < 2 ^ 32
        → InScreen t
        → Each (IsPrinted conv t) (convert false b'u' arg conv t)
          × Each (IsPrinted conv t) (convert false b'd' arg conv t)
    decimal-IsPrinted arg {t} small inside =
        let all = convert-number arg conv t small above inside in
        let (t', runs, shows) = all.2 in
        let (t'', runs', either) = all.3 in
        (
          rw runs (record { inside = shows.inside; framed = shows.framed }),
          rw runs' (elim either [
            | inl (shown, _) ↦ record { inside = shown.inside; framed = shown.framed }
            | inr (shown, _) ↦ record { inside = shown.inside; framed = shown.framed }
          ]),
        )

    convert-IsPrinted :
        (alternate : Bool) (c arg : ℕ) {t : Screen}
        → arg < 2 ^ 32
        → InScreen t
        → Each (IsPrinted conv t) (convert alternate c arg conv t)
    unfolding convert
    convert-IsPrinted alternate c arg {t} small inside = elim (Bool-cases (c == b'x')) [
      | inl x ↦
          let e : c ≡ b'x' = (==_iff c b'x').0 x in rw e (hex-IsPrinted alternate arg small inside)
      | inr nx ↦ rw nx (elim (Bool-cases (c == b'u')) [
        | inl u ↦ rw u (decimal-IsPrinted arg small inside).0
        | inr nu ↦ rw nu (elim (Bool-cases (c == b'd')) [
          | inl d ↦ rw d (decimal-IsPrinted arg small inside).1
          | inr nd ↦ rw nd (elim (Bool-cases (c == b'c')) [
            | inl e ↦ rw e (Keeps-IsPrinted (putc-Keeps (arg % 256) inside))
            | inr e ↦ rw e (string-IsPrinted arg inside)
          ])
        ])
      ])
    ]

    percent-IsPrinted :
        (c : ℕ) {t : Screen} → InScreen t → IsPrinted conv t (if c == b'%' then putc b'%' t else t)
    percent-IsPrinted c {t} inside = elim (Bool-cases (c == b'%')) [
      | inl e ↦ rw e (Keeps-IsPrinted (putc-Keeps b'%' inside))
      | inr e ↦ rw e (IsPrinted-refl inside)
    ]

    printf_loop-IsPrinted :
        (mode : Mode) (format args : List ℕ) (s : Screen) {t : Screen}
        → IsWords args
        → IsPrinted conv s t
        → Each (IsPrinted conv s) (printf_loop mode format args conv t)
    unfolding printf_loop
    printf_loop-IsPrinted plain [] args s words p = p
    printf_loop-IsPrinted (conversion alternate) [] args s words p = tt
    printf_loop-IsPrinted plain (c ∷ format) args s {t} words p = elim (Bool-cases (c == b'%')) [
      | inl e ↦ rw (e, printf_loop) (printf_loop-IsPrinted (conversion false) format args s words p)
      | inr e ↦
          rw (e, printf_loop)
            (printf_loop-IsPrinted plain format args s words
              (IsPrinted-trans p (Keeps-IsPrinted (putc-Keeps c p.inside))))
    ]
    printf_loop-IsPrinted (conversion alternate) (c ∷ format) [] s {t} words p =
        elim (Bool-cases (takes_argument c)) [
          | inl e ↦ rw (e, printf_loop) tt
          | inr e ↦
              rw (e, printf_loop)
                (elim (Bool-cases (c == b'#')) [
                  | inl h ↦ rw h (printf_loop-IsPrinted (conversion true) format [] s words p)
                  | inr h ↦ rw h (
                      printf_loop-IsPrinted plain format [] s words
                        (IsPrinted-trans p (percent-IsPrinted c p.inside)))
                ])
        ]
    printf_loop-IsPrinted (conversion alternate) (c ∷ format) (arg ∷ args) s {t} words p =
        elim (Bool-cases (takes_argument c)) [
          | inl e ↦
              rw (e, printf_loop)
                (Each-bind (IsPrinted conv s) (IsPrinted conv t) (convert alternate c arg conv t) _
                  (convert-IsPrinted alternate c arg words.0 p.inside)
                  (λ t' q. printf_loop-IsPrinted plain format args s words.1 (IsPrinted-trans p q)))
          | inr e ↦
              rw (e, printf_loop)
                (elim (Bool-cases (c == b'#')) [
                  | inl h ↦
                      rw h (printf_loop-IsPrinted (conversion true) format (arg ∷ args) s words p)
                  | inr h ↦ rw h (
                      printf_loop-IsPrinted plain format (arg ∷ args) s words
                        (IsPrinted-trans p (percent-IsPrinted c p.inside)))
                ])
        ]

    -- If printf ends, the cursor is as InScreen says, and only the video memory and the 17 bytes have changed.
    pub printf-IsPrinted :
        (format args : List ℕ) {s : Screen}
        → IsWords args
        → InScreen s
        → Each (λ x. IsPrinted conv s x.1) (printf format args conv s)
    unfolding printf
    printf-IsPrinted format args {s} words inside =
        Each-bind (λ x. IsPrinted conv s x.1) (IsPrinted conv s)
          (printf_loop plain format args conv s) _
          (printf_loop-IsPrinted plain format args s words (IsPrinted-refl inside)) (λ t p. p)
