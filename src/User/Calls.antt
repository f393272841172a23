-- ===== src/User/Calls.antt =====
-- What the user programs have of the kernel: the calls of syscalls/ece391syscall.S as a record of operations
-- over the state `W` of everything outside the program. A buffer is a memory from 0 on; `none` is a call
-- that has not ended. Beside it stands what the programs share.
use mpf_cker_os.Base.{ℕ, zero, suc, Option, none, some, List, Mem, get_or, bytes_at}
use Prim.Native.String.{String}
use mpf_cker_os.Strings.{codes}
use mpf_cker_os.User.{ece391_strlen}

infixl 5 ◌>>=◌
abbrev pub ◌>>=◌ {ℓ κ} : {A : Type ℓ} {B : Type κ} → Option A → (A → Option B) → Option B
none >>= f = none
some a >>= f = f a

pub record Calls (W : Type 0) : Type 0 where
  -- the descriptor, the count, the buffer; the buffer afterwards and the result
  pub ece391_read : ℕ → ℕ → Mem → W → Option (Mem × W × ℕ)
  -- the descriptor and the bytes
  pub ece391_write : ℕ → List ℕ → W → Option (W × ℕ)
  pub ece391_open : Mem → W → W × ℕ
  pub ece391_close : ℕ → W → W × ℕ
  -- the count, the buffer; the buffer afterwards and the result
  pub ece391_getargs : ℕ → Mem → W → Mem × W × ℕ
  pub ece391_execute : Mem → W → Option (W × ℕ)

-- a string constant
abbrev pub text : String → Mem
text s i = get_or (codes s) i 0

-- what a round of the loop of a program gives: the buffer for the next one, or the status
pub data Next (W : Type 0) : Type 0 where
  again : Mem → W → Next W
  exits : ℕ → W → Next W

module _ {W : Type 0} (c : Calls W) where
  unfoldable pub ece391_fdputs : ℕ → ℕ → Mem → ℕ → W → Option W
  ece391_fdputs f fd m s w = do
    n ← ece391_strlen f m s
    (w', r) ← c.ece391_write fd (bytes_at m s n) w
    some w'

  -- `ece391_fdputs` of a string constant
  unfoldable pub say : ℕ → String → W → Option W
  say fd s w = do (w', r) ← c.ece391_write fd (codes s) w; some w'

  -- a message, then the end of the program
  unfoldable pub complain : String → ℕ → W → Option (W × ℕ)
  complain s status w = do w' ← say 1 s w; some (w', status)

  abbrev pub stops : Option (W × ℕ) → Option (Next W)
  stops none = none
  stops (some (w, status)) = some (exits status w)

  -- a loop that ends by the end of the program, with fuel
  unfoldable pub forever : ℕ → (Mem → W → Option (Next W)) → Mem → W → Option (W × ℕ)
  forever zero round m w = none
  forever (suc f) round m w = elim (round m w) [
    | none ↦ none
    | some (again m' w') ↦ forever f round m' w'
    | some (exits status w') ↦ some (w', status)
  ]
