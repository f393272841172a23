-- ===== src/Printf/Numbers.antt =====
-- The conversions of `printf` of student-distrib/lib.c that write numbers.
use mpf_cker_os.Base.{
  ℕ, zero, suc, ◌+◌, ◌-◌, ◌^◌, ◌≤◌, ◌<◌, ◌≡◌, refl, ◌∙◌, subst, ◌≢◌, ◌⊎◌, inl, inr, Bool, false,
  some, arith, if◌then◌else◌, Bool-cases, is_negative, Mem, update, inside, bytes_at,
}
use mpf_cker_os.Strings.{itoa}
use mpf_cker_os.Strings.Length.{IsString}
use mpf_cker_os.Strings.Itoa.{Printed, itoa_bounded}
use mpf_cker_os.Screen.{Screen, puts, video}
use mpf_cker_os.Screen.Refine.{OnScreen, view}
use mpf_cker_os.Screen.Console.{Same, put_all}
use mpf_cker_os.Screen.Output.{puts_lem, Same-trans, put_all-Same}
use mpf_cker_os.Screen.Cells.{at}
use mpf_cker_os.Printf.{put_number, put_signed, negate, convert}

-- the console shows `s` and then the string of `n` bytes at `text` of the memory `m`; the other memory
-- is that of `s`, but for the frame of `len` bytes at `conv`
pub record Shows (m : Mem) (text n conv len : ℕ) (s t : Screen) : Type 0 where
  pub on : OnScreen t
  pub shown : Same (view t) (put_all (bytes_at m text n) (view s))
  pub elsewhere :
      (q : ℕ) → inside video 4000 q ≡ false → inside conv len q ≡ false → t.mem q ≡ s.mem q

module _ (conv : ℕ) (away : (conv + 64 ≤ video) ⊎ (video + 4000 ≤ conv)) (s : Screen)
    (on : OnScreen s) where
  -- `puts` of a string in the frame, on memory that differs from the screen's in the frame alone
  pub puts_frame :
      (f text n : ℕ) (m : Mem)
      → IsString m text n
      → n < f
      → conv ≤ text
      → text + n < conv + 64
      → ((q : ℕ) → inside conv 64 q ≡ false → m q ≡ s.mem q)
      → (t : Screen) × (k : ℕ) × (puts f text (record s { mem = m }) ≡ some (k, t))
        × Shows m text n conv 64 s t
  puts_frame f text n m str fuel lo hi same =
      let (t, ran, on', shown, outside) =
        puts_lem text n (ground arith) f (record s { mem = m }) str fuel
          (record { col = on.col; row = on.row }) in
      let cells : Same (view (record s { mem = m })) (view s) = record {
        col = refl;
        row = refl;
        grid = λ r c h l. same (at r c) (ground arith);
      } in
      (
        t,
        n,
        ran,
        record {
          on = on';
          shown = Same-trans shown (put_all-Same (bytes_at m text n) on.row cells);
          elsewhere = λ q p r. outside q p ∙ same q r;
        },
      )

  -- the digits of a value in the frame
  pub itoa_frame :
      (f k value text radix : ℕ) (m : Mem)
      → 2 ≤ radix
      → radix ≤ 36
      → value < radix ^ k
      → 0 < k
      → k < f
      → conv ≤ text
      → text + k < conv + 64
      → ((q : ℕ) → inside conv 64 q ≡ false → m q ≡ s.mem q)
      → (m' : Mem) × (n : ℕ) × (itoa f m value text radix ≡ some m')
        × (n ≤ k)
        × Printed m m' radix text n value
        × ((q : ℕ) → inside conv 64 q ≡ false → m' q ≡ s.mem q)
  itoa_frame zero k value text radix m lo hi h pos fuel l r same = absurd (omega arith)
  itoa_frame (suc f) k value text radix m lo hi h pos fuel l r same =
      let (m', n, ran, most, printed) =
        itoa_bounded radix lo hi f k m value text h pos (omega arith) in
      (m', n, ran, most, printed, λ q p. printed.elsewhere q (ground arith) ∙ same q p)

  -- the number in the frame, and the string from `text` on, which starts before it at most by a sign
  put_number_lem :
      (f k value buf radix text : ℕ) (m : Mem)
      → 2 ≤ radix
      → radix ≤ 36
      → value < radix ^ k
      → 0 < k
      → k + 1 < f
      → k < 60
      → ((q : ℕ) → inside conv 64 q ≡ false → m q ≡ s.mem q)
      → (buf ≡ text) ⊎ ((buf ≡ text + 1) × (m text ≢ 0))
      → text ≡ conv
      → (t : Screen) × (m' : Mem) × (n : ℕ) × (put_number f value buf radix text
            (record s { mem = m })
          ≡ some t)
        × (n ≤ k)
        × Printed m m' radix buf n value
        × Shows m' text (buf - text + n) conv 64 s t
  unfolding put_number
  put_number_lem f k value buf radix text m lo hi h pos fuel small same sign here =
      let (m', n, ran, most, printed, kept) =
        itoa_frame f k value buf radix m lo hi h pos (omega arith) (omega arith) (omega arith)
          same in
      let str : IsString m' text (buf - text + n) = record {
        ends = ground (arith, printed.string.ends);
        before = λ i p.
            ground (arith, sign, printed.string.before (i - (buf - text)), printed.elsewhere text);
      } in
      let (t, count, shown, shows) =
        puts_frame f text (buf - text + n) m' str (omega arith) (omega arith) (omega arith) kept in
      (t, m', n, ground (arith, ran, shown), most, printed, shows)

  -- `%u` of a word uses one argument and writes its decimal digits, at most ten, with no leading zero.
  pub convert_unsigned :
      (f buf esp : ℕ) (format args : Mem) (alternate : Bool)
      → 12 < f
      → format buf ≡ b'u'
      → args esp < 2 ^ 32
      → (t : Screen) × (m : Mem) × (n : ℕ) × (convert (suc f) format args conv buf alternate esp s
          ≡ some (buf, esp + 1, t))
        × (n ≤ 10)
        × Printed s.mem m 10 conv n (args esp)
        × Shows m conv n conv 64 s t
  unfolding convert
  convert_unsigned f buf esp format args alternate fuel u word =
      let (t, m, n, ran, most, printed, shows) =
        put_number_lem f 10 (args esp) conv 10 conv s.mem (omega arith) (omega arith) (omega arith)
          (omega arith) (omega arith) (omega arith) (λ q p. refl) (inl refl) refl in
      (
        t,
        m,
        n,
        ground (arith, ran),
        most,
        printed,
        subst (λ k. Shows m conv k conv 64 s t) (omega arith) shows,
      )

  -- `%d` uses one argument; of a negative one it writes `-` and the decimal digits of the magnitude, of
  -- any other one its decimal digits.
  pub convert_signed :
      (f buf esp : ℕ) (format args : Mem) (alternate : Bool)
      → 12 < f
      → format buf ≡ b'd'
      → args esp < 2 ^ 32
      → let minus = is_negative (args esp) in
        let sign : ℕ = if minus then 1 else 0 in
        (t : Screen) × (m0 : Mem) × (m : Mem) × (n : ℕ) × (convert
            (suc f)
            format
            args
            conv
            buf
            alternate
            esp
            s
          ≡ some (buf, esp + 1, t))
        × ((minus ≡ false) ⊎ (m conv ≡ b'-'))
        × Printed m0 m 10 (conv + sign) n (if minus then 2 ^ 32 - args esp else args esp)
        × Shows m conv (sign + n) conv 64 s t
  unfolding convert put_signed
  convert_signed f buf esp format args alternate fuel d word =
      elim (Bool-cases (is_negative (args esp))) [
        | inl minus ↦
            let m0 = update s.mem conv b'-' in
            let (t, m, n, ran, most, printed, shows) =
              put_number_lem f 10 (negate (args esp)) (conv + 1) 10 conv m0 (omega arith)
                (omega arith) (omega arith) (omega arith) (omega arith) (omega arith)
                (λ q p. ground arith) (inr (refl, ground arith)) refl in
            let magnitude : negate (args esp) ≡ 2 ^ 32 - args esp = ground arith in
            rw minus (
              t,
              m0,
              m,
              n,
              ground (arith, ran),
              inr (ground (arith, printed.elsewhere conv)),
              subst (λ v. Printed m0 m 10 (conv + 1) n v) magnitude printed,
              subst (λ k. Shows m conv k conv 64 s t) (omega arith) shows,
            )
        | inr plus ↦
            let (t, m, n, ran, most, printed, shows) =
              put_number_lem f 10 (args esp) conv 10 conv s.mem (omega arith) (omega arith)
                (omega arith) (omega arith) (omega arith) (omega arith) (λ q p. refl) (inl refl)
                refl in
            rw plus (
              t,
              s.mem,
              m,
              n,
              ground (arith, ran),
              inl refl,
              subst (λ b. Printed s.mem m 10 b n (args esp)) (omega arith) printed,
              subst (λ k. Shows m conv k conv 64 s t) (omega arith) shows,
            )
      ]
