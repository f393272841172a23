-- ===== src/Printf/Literal.antt =====
-- A format without conversions, `printf` of student-distrib/lib.c.
use mpf_cker_os.Base.{
  ℕ, zero, suc, ◌+◌, ◌<◌, ◌≡◌, refl, ◌∙◌, ◌≢◌, false, some, arith, Mem, inside, bytes_at,
}
use mpf_cker_os.Strings.Length.{IsString}
use mpf_cker_os.Screen.{Screen, putc, video}
use mpf_cker_os.Screen.Refine.{OnScreen, view, putc-OnScreen, putc_refines}
use mpf_cker_os.Screen.Bounds.{putc_outside}
use mpf_cker_os.Screen.Console.{Same, put_all}
use mpf_cker_os.Screen.Output.{Same-trans, put_all-Same}
use mpf_cker_os.Printf.{printf, printf_from}

module _ (format args : Mem) (conv n : ℕ) (plain : (i : ℕ) → i < n → format i ≢ b'%')
    (str : IsString format 0 n) where
  printf_from_literal :
      (f i k : ℕ) (s : Screen)
      → i + k ≡ n
      → k < f
      → OnScreen s
      → (t : Screen) × (printf_from f format args conv i 0 s ≡ some (n, t))
        × OnScreen t
        × Same (view t) (put_all (bytes_at format i k) (view s))
        × ((q : ℕ) → inside video 4000 q ≡ false → t.mem q ≡ s.mem q)
  unfolding printf_from put_all
  printf_from_literal zero i k s e h v = absurd (omega arith)
  printf_from_literal (suc f) i zero s e h v = (
    s,
    ground (arith, str.ends),
    v,
    record { col = refl; row = refl; grid = λ r c h l. refl },
    λ q o. refl,
  )
  printf_from_literal (suc f) i (suc k) s e h v =
      let (t, ran, on, shows, outside) =
        printf_from_literal f (i + 1) k (putc (format i) s) (omega arith) (omega arith)
          (putc-OnScreen (format i) v) in
      (
        t,
        ground (arith, str.before i, plain i, ran),
        on,
        Same-trans shows (
            put_all-Same (bytes_at format (i + 1) k) (putc-OnScreen (format i) v).row
              (putc_refines (format i) v)),
        λ q o. outside q o ∙ putc_outside (format i) q v o,
      )

  -- A format without `%` is written as it stands: with fuel for its length `printf` returns that
  -- length, leaves the console as after its characters, and changes no memory off the screen.
  pub printf_literal :
      (f : ℕ) (s : Screen)
      → n < f
      → OnScreen s
      → (t : Screen) × (printf f format args conv s ≡ some (n, t))
        × OnScreen t
        × Same (view t) (put_all (bytes_at format 0 n) (view s))
        × ((q : ℕ) → inside video 4000 q ≡ false → t.mem q ≡ s.mem q)
  unfolding printf
  printf_literal f s h v = printf_from_literal f 0 n s (omega arith) h v
