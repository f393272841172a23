-- ===== src/Terminal/Copying.antt =====
-- What the terminal writes and the arguments it hands out, student-distrib/terminal.c.
use mpf_cker_os.Base.{
  ℕ, zero, suc, ◌+◌, ◌-◌, ◌^◌, ◌≤◌, ◌<◌, ◌≡◌, refl, ap, ◌∙◌, subst, ◌⊎◌, false, ◌&&◌, [], ◌∷◌,
  arith, ltb, leb, ◌==◌, if◌then◌else◌, is_negative, Mem, update, inside, bytes_at, bytes_at-eq,
}
use mpf_cker_os.Terminal.{getargs_from, terminal_getargs, terminal_write_from, terminal_write}
use mpf_cker_os.Screen.{Screen, putc, video}
use mpf_cker_os.Screen.Bounds.{putc_outside}
use mpf_cker_os.Screen.Refine.{OnScreen, view, putc-OnScreen, putc_refines}
use mpf_cker_os.Screen.Console.{Same, put_all}
use mpf_cker_os.Screen.Output.{Same-trans, put_all-Same}

pub getargs_from_lem :
    (s : Mem) (dest i n : ℕ) (m : Mem) (q : ℕ)
    → getargs_from s dest i n m q
      ≡ (if leb (dest + i) q && ltb q (dest + i + n) then s (q - dest) else m q)
unfolding getargs_from
getargs_from_lem s dest i zero m q = ground arith
getargs_from_lem s dest i (suc n) m q =
    ground (arith, getargs_from_lem s dest (i + 1) n (update m (dest + i) (s i)) q)

-- `terminal_getargs` copies all the bytes asked for of the stored arguments but the last, which
-- becomes an end of line, and changes no other byte.
pub terminal_getargs_lem :
    (s : Mem) (dest n : ℕ) (m : Mem) (q : ℕ)
    → 0 < n
    → terminal_getargs s dest n m q
      ≡ (if inside dest n q then if q - dest == n - 1 then 0xa else s (q - dest) else m q)
unfolding terminal_getargs
terminal_getargs_lem s dest n m q h = ground (arith, getargs_from_lem s dest 0 n m q)

module _ (buf n : ℕ) (away : (buf + n ≤ video) ⊎ (video + 4000 ≤ buf)) where
  terminal_write_from_lem :
      (i k a : ℕ) (s : Screen)
      → i + k ≡ n
      → buf + i ≡ a
      → OnScreen s
      → let (t, count) = terminal_write_from buf i i k s in
        (count ≡ n)
        × OnScreen t
        × Same (view t) (put_all (bytes_at s.mem a k) (view s))
        × ((q : ℕ) → inside video 4000 q ≡ false → t.mem q ≡ s.mem q)
  unfolding terminal_write_from put_all
  terminal_write_from_lem i zero a s e e' v =
      (ground arith, v, record { col = refl; row = refl; grid = λ r c h l. refl }, λ q o. refl)
  terminal_write_from_lem i (suc k) a s e e' v =
      let s' : Screen = putc (s.mem (buf + i)) s in
      let keeps : (j : ℕ) → buf ≤ j → j < buf + n → s'.mem j ≡ s.mem j =
        λ j lo hi. putc_outside (s.mem (buf + i)) j v (ground arith) in
      let (ran, on, shows, outside) =
        terminal_write_from_lem (i + 1) k (a + 1) s' (omega arith) (omega arith)
          (putc-OnScreen (s.mem (buf + i)) v) in
      let same_bytes : bytes_at s'.mem (a + 1) k ≡ bytes_at s.mem (a + 1) k =
        bytes_at-eq s.mem _ (a + 1) k (λ j l. keeps (a + 1 + j) (omega arith) (omega arith)) in
      let shows' =
        subst
          (λ cs.
            Same (view (terminal_write_from buf (i + 1) (i + 1) k s').0) (put_all cs (view s')))
          same_bytes shows in
      let here : s.mem (buf + i) ≡ s.mem a = ap s.mem e' in
      (
        ran,
        on,
        Same-trans shows' (
            put_all-Same (bytes_at s.mem (a + 1) k) (putc-OnScreen (s.mem (buf + i)) v).row (
              subst (λ c. Same (view (putc (s.mem (buf + i)) s)) (put_all (c ∷ []) (view s))) here
                (putc_refines (s.mem (buf + i)) v))),
        λ q o. outside q o ∙ putc_outside (s.mem (buf + i)) q v o,
      )

  -- `terminal_write` of `n` bytes that do not lie in the video memory returns `n`, leaves the console
  -- as after those bytes in order, and changes no memory off the screen.
  pub terminal_write_lem :
      (s : Screen)
      → n < 2 ^ 31
      → OnScreen s
      → let (t, count) = terminal_write buf n s in
        (count ≡ n)
        × OnScreen t
        × Same (view t) (put_all (bytes_at s.mem buf n) (view s))
        × ((q : ℕ) → inside video 4000 q ≡ false → t.mem q ≡ s.mem q)
  unfolding terminal_write
  terminal_write_lem s h v =
      let small : is_negative n ≡ false = ground arith in
      rw small (terminal_write_from_lem 0 n buf s (omega arith) (omega arith) v)
