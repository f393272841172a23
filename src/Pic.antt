-- ===== src/Pic.antt =====
-- The interrupt controllers of student-distrib/i8259.c: the two mask bytes, and the log of port
-- writes as pairs of a value and a port, the newest first. An interrupt line is below 32.
pub mod Masks
mod Tests
use mpf_cker_os.Base.{ℕ, ◌+◌, ◌-◌, ◌^◌, ◌==◌, leb, if◌then◌else◌, u8, bit_and, bit_or, List, ◌∷◌}

pub record Pic : Type 0 where
  pub master_mask : ℕ
  pub slave_mask : ℕ
  pub ports : List (ℕ × ℕ)

unfoldable pub outb : ℕ → ℕ → Pic → Pic
outb value port p = record p { ports = (value, port) ∷ p.ports }

-- `~x` on uint32_t
abbrev pub not32 : ℕ → ℕ
not32 x = 4294967295 - x

abbrev pub pic1_command : ℕ
pic1_command = 0x20

abbrev pub pic1_data : ℕ
pic1_data = 0x21

abbrev pub pic2_command : ℕ
pic2_command = 0xa0

abbrev pub pic2_data : ℕ
pic2_data = 0xa1

-- the two masks of a controller that has not been set up
abbrev pub fresh_pic : Pic
fresh_pic = record { master_mask = 0xfb; slave_mask = 0xff; ports = List.[] }

unfoldable pub i8259_init : Pic → Pic
unfolding outb
i8259_init p =
    let p1 = outb p.slave_mask pic2_data (outb p.master_mask pic1_data p) in
    let p2 =
      outb 0x01 pic1_data (outb 0x04 pic1_data (outb 0x20 pic1_data (outb 0x11 pic1_command p1))) in
    let p3 =
      outb 0x01 pic2_data (outb 0x02 pic2_data (outb 0x28 pic2_data (outb 0x11 pic2_command p2))) in
    outb p3.slave_mask pic2_data (outb p3.master_mask pic1_data p3)

unfoldable pub enable_irq : ℕ → Pic → Pic
unfolding outb
enable_irq irq p =
    if leb 8 irq
    then (let q = record p { slave_mask = u8 (bit_and p.slave_mask (not32 (2 ^ (irq - 8)))) } in
        outb q.slave_mask pic2_data q)
    else (let q = record p { master_mask = u8 (bit_and p.master_mask (not32 (2 ^ irq))) } in
        outb q.master_mask pic1_data q)

unfoldable pub disable_irq : ℕ → Pic → Pic
unfolding outb
disable_irq irq p =
    let q = record p {
      master_mask = u8 (bit_or p.master_mask (2 ^ irq));
      slave_mask = u8 (bit_or p.slave_mask (2 ^ irq));
    } in
    if bit_and irq 8 == 0 then outb q.master_mask pic1_data q else outb q.slave_mask pic2_data q

unfoldable pub send_eoi : ℕ → Pic → Pic
unfolding outb
send_eoi irq p =
    if leb 8 irq
    then outb (bit_or 0x60 2) pic1_command (outb (bit_or 0x60 (irq - 8)) pic2_command p)
    else outb (bit_or 0x60 irq) pic1_command p
