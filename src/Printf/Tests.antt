-- ===== src/Printf/Tests.antt =====
-- Concrete formats.
use mpf_cker_os.Base.{
  ℕ, ◌+◌, ◌≤◌, ◌≡◌, refl, ◌⊎◌, inl, true, false, some, [], arith, minus_one, Mem, inside, bytes_at,
  place,
}
use mpf_cker_os.Strings.{codes}
use mpf_cker_os.Strings.Length.{IsString}
use mpf_cker_os.Strings.Itoa.{Printed}
use mpf_cker_os.Strings.Digits.{number}
use mpf_cker_os.Screen.{Screen, video}
use mpf_cker_os.Screen.Refine.{OnScreen, view}
use mpf_cker_os.Screen.Console.{Same, put_all}
use mpf_cker_os.Printf.{printf, convert}
use mpf_cker_os.Printf.Literal.{printf_literal}
use mpf_cker_os.Printf.Numbers.{Shows, convert_unsigned, convert_signed}
use mpf_cker_os.Printf.Hex.{convert_hex8}

abbrev origin : Screen
origin = record { x = 0; y = 0; mem = λ q. 0; ports = [] }

origin-OnScreen : OnScreen origin
origin-OnScreen = omega arith

abbrev greeting : Mem
greeting = place (λ q. 0) 0 (codes "Hi")

greeting-IsString : IsString greeting 0 2
greeting-IsString = record { ends = refl; before = λ i h. ground arith }

printf_literal_example :
    (t : Screen) × (printf 9 greeting (λ i. 0) 5000 origin ≡ some (2, t))
    × OnScreen t
    × Same (view t) (put_all (bytes_at greeting 0 2) (view origin))
    × ((q : ℕ) → inside video 4000 q ≡ false → t.mem q ≡ 0)
printf_literal_example =
    printf_literal greeting (λ i. 0) 5000 2 (λ i h. ground arith) greeting-IsString 9 origin
      (omega arith) origin-OnScreen

convert_unsigned_example :
    (t : Screen) × (m : Mem) × (n : ℕ) × (convert 14 (λ q. b'u') (λ i. 4096) 5000 1 false 0 origin
      ≡ some (1, 1, t))
    × (n ≤ 10)
    × Printed (λ q. 0) m 10 5000 n 4096
    × Shows m 5000 n 5000 64 origin t
convert_unsigned_example =
    convert_unsigned 5000 (inl (omega arith)) origin origin-OnScreen 13 1 0 (λ q. b'u') (λ i. 4096)
      false (omega arith) refl (omega arith)

-- -1
convert_signed_example :
    (t : Screen) × (m0 : Mem) × (m : Mem) × (n : ℕ) × (convert 14
        (λ q. b'd')
        (λ i. minus_one)
        5000
        1
        false
        0
        origin
      ≡ some (1, 1, t))
    × ((true ≡ false) ⊎ (m 5000 ≡ b'-'))
    × Printed m0 m 10 5001 n 1
    × Shows m 5000 (1 + n) 5000 64 origin t
convert_signed_example =
    convert_signed 5000 (inl (omega arith)) origin origin-OnScreen 13 1 0 (λ q. b'd')
      (λ i. minus_one) false (omega arith) refl (omega arith)

convert_hex8_example :
    (t : Screen) × (m : Mem) × (text : ℕ) × (convert 14
        (λ q. b'x')
        (λ i. 0xbeef)
        5000
        1
        true
        0
        origin
      ≡ some (1, 1, t))
    × (number m 16 text 8 ≡ 0xbeef)
    × Shows m text 8 5000 64 origin t
convert_hex8_example =
    convert_hex8 5000 (inl (omega arith)) origin origin-OnScreen 13 1 0 (λ q. b'x') (λ i. 0xbeef)
      (omega arith) refl (omega arith)
