-- ===== src/Pic/Tests.antt =====
-- Concrete runs of the interrupt controllers.
use mpf_cker_os.Base.{◌≡◌, refl, [], ◌∷◌, arith, length}
use mpf_cker_os.Pic.{fresh_pic, enable_irq, disable_irq, send_eoi, i8259_init}
use mpf_cker_os.Pic.Masks.{masked, IsByteMasks, enable_irq_lem, disable_irq_low, disable_irq_high}
use mpf_cker_os.Pic.Masks.{send_eoi_lem}

fresh-IsByteMasks : IsByteMasks fresh_pic
fresh-IsByteMasks = omega arith

init_sequence : length (i8259_init fresh_pic).ports ≡ 12
unfolding i8259_init
init_sequence = refl

enable_irq_runs : (enable_irq 8 (enable_irq 1 fresh_pic)).ports ≡ (0xfe, 0xa1) ∷ (0xf9, 0x21) ∷ []
unfolding enable_irq
enable_irq_runs = refl

enable_irq_lem_example : masked (enable_irq 8 fresh_pic) 8 ≡ 0
enable_irq_lem_example = enable_irq_lem 8 8 (omega arith) (omega arith) fresh-IsByteMasks

disable_irq_low_example : masked (disable_irq 2 fresh_pic) 2 ≡ 1
disable_irq_low_example = disable_irq_low 2 2 (omega arith) (omega arith) fresh-IsByteMasks

disable_irq_high_example : masked (disable_irq 9 fresh_pic) 9 ≡ masked fresh_pic 9
disable_irq_high_example = disable_irq_high 9 9 (omega arith) (omega arith) fresh-IsByteMasks

send_eoi_lem_example : (send_eoi 8 fresh_pic).ports ≡ (0x62, 0x20) ∷ (0x60, 0xa0) ∷ []
send_eoi_lem_example = send_eoi_lem 8 fresh_pic (omega arith)
