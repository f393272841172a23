-- ===== src/Emulate/Directory.antt =====
-- Reading the directory through syscalls/ece391emulate.c.
use mpf_cker_os.Base.{
  ℕ, zero, suc, ◌+◌, ◌-◌, ◌^◌, ◌≤◌, ◌<◌, min, ◌≡◌, refl, ap, ◌∙◌, ◌⊎◌, inl, inr, true, false, ◌&&◌,
  some, List, [], ◌∷◌, arith, ltb, leb, ◌==◌, if◌then◌else◌, Bool-cases, signed_ltb, Mem, update,
  inside, length, get_or, ℕ_discrete, dec_lt,
}
use mpf_cker_os.Emulate.{Linux, Emulated, pad_entry, copy_entry, ece391_read}

pad_entry_lem :
    (f buf nbytes copied q : ℕ) (m : Mem)
    → 32 ≤ copied + f
    → copied ≤ 32
    → nbytes < 2 ^ 31
    → let (m', r) = pad_entry f buf nbytes copied m in
      (copied ≤ nbytes → r ≡ min nbytes 32)
      × (m' q ≡ (if leb (buf + copied) q && ltb q (buf + min nbytes 32) then 0 else m q))
unfolding pad_entry
pad_entry_lem zero buf nbytes copied q m fuel low small = (λ l. omega arith, ground arith)
pad_entry_lem (suc f) buf nbytes copied q m fuel low small = elim (dec_lt copied (min nbytes 32)) [
  | yes more ↦
      let (r, at) =
        pad_entry_lem f buf nbytes (copied + 1) q (update m (buf + copied) 0) (omega (arith, fuel))
          (omega arith) small in
      (λ l. ground (arith, r (omega arith)), ground (arith, at, more))
  | no done ↦ (λ l. ground (arith, done), ground (arith, done))
]

pub get_or-from :
    (c : ℕ) (name : List ℕ) (q a : ℕ)
    → a ≤ q
    → get_or (c ∷ name) (q - a) 0 ≡ (if q == a then c else get_or name (q - (a + 1)) 0)
get_or-from c name q a h = elim (ℕ_discrete q a) [
  | yes same ↦
      let first : q - a ≡ 0 = omega (arith, same) in
      ap (λ i. get_or (c ∷ name) i 0) first ∙ ground (arith, same)
  | no other ↦
      let next : q - a ≡ suc (q - (a + 1)) = omega arith in
      ap (λ i. get_or (c ∷ name) i 0) next ∙ ground (arith, other)
]

-- the same from the byte `copied` of the entry on, for a count above it
copy_entry_lem :
    (name : List ℕ) (buf nbytes copied q : ℕ) (m : Mem)
    → copied < 32
    → copied < nbytes
    → nbytes < 2 ^ 31
    → let (m', r) = copy_entry name buf nbytes copied m in
      (r ≡ min nbytes 32)
      × (m' q ≡ (
          if leb (buf + copied) q && ltb q (buf + min nbytes 32)
          then get_or name (q - (buf + copied)) 0
          else m q))
unfolding copy_entry
copy_entry_lem [] buf nbytes copied q m low few small =
    let (r, at) = pad_entry_lem 32 buf nbytes copied q m (omega arith) (omega arith) small in
    (r (omega arith), ground (arith, at))
copy_entry_lem (c ∷ name) buf nbytes copied q m low few small =
    let m1 = update m (buf + copied) c in
    let byte = get_or-from c name q (buf + copied) in
    elim (dec_lt (copied + 1) (min nbytes 32)) [
      | yes more ↦
          let (r, at) =
            copy_entry_lem name buf nbytes (copied + 1) q m1 (omega arith) (omega arith) small in
          (ground (arith, r, more), ground (arith, at, more, byte))
      | no done ↦ (ground (arith, done), ground (arith, done, byte))
    ]

pad_entry_none :
    (f buf nbytes copied : ℕ) (m : Mem)
    → signed_ltb copied nbytes ≡ false
    → pad_entry f buf nbytes copied m ≡ (m, copied)
unfolding pad_entry
pad_entry_none zero buf nbytes copied m h = refl
pad_entry_none (suc f) buf nbytes copied m h = ground (arith, h)

-- a count that is negative or 0 is not above any length
none_below :
    (copied nbytes : ℕ)
    → copied < 32
    → (nbytes ≡ 0) ⊎ (2 ^ 31 ≤ nbytes)
    → nbytes < 2 ^ 32
    → signed_ltb copied nbytes ≡ false
none_below copied nbytes low (inl z) word = ground (arith, z)
none_below copied nbytes low (inr big) word = ground arith

-- the same for a count that is negative or 0
copy_entry_unpadded :
    (name : List ℕ) (buf nbytes copied q : ℕ) (m : Mem)
    → copied < 32
    → (nbytes ≡ 0) ⊎ (2 ^ 31 ≤ nbytes)
    → nbytes < 2 ^ 32
    → let (m', r) = copy_entry name buf nbytes copied m in
      let n = min (copied + length name) 32 in
      (r ≡ n)
      × (m' q ≡ (
          if leb (buf + copied) q && ltb q (buf + n)
          then get_or name (q - (buf + copied)) 0
          else m q))
unfolding copy_entry
copy_entry_unpadded [] buf nbytes copied q m low none_asked word =
    let same =
      pad_entry_none 32 buf nbytes copied m (none_below copied nbytes low none_asked word) in
    (ap (λ z. z.1) same ∙ omega arith, ap (λ z. z.0 q) same ∙ ground arith)
copy_entry_unpadded (c ∷ name) buf nbytes copied q m low none_asked word =
    let m1 = update m (buf + copied) c in
    let byte = get_or-from c name q (buf + copied) in
    elim (dec_lt (copied + 1) 32) [
      | yes more ↦
          let (r, at) =
            copy_entry_unpadded name buf nbytes (copied + 1) q m1 (omega arith) none_asked word in
          (ground (arith, r, more), ground (arith, at, more, byte))
      | no done ↦ (ground (arith, done), ground (arith, done, byte))
    ]

-- the bytes that a read of an entry stores, for the count as a signed number
abbrev pub stored : List ℕ → ℕ → ℕ
stored name nbytes = if signed_ltb 0 nbytes then min nbytes 32 else min (length name) 32

copy_entry_stored :
    (name : List ℕ) (buf nbytes q : ℕ) (m : Mem)
    → nbytes < 2 ^ 32
    → let (m', r) = copy_entry name buf nbytes 0 m in
      let n = stored name nbytes in
      (r ≡ n) × (m' q ≡ (if inside (buf + 0) n q then get_or name (q - (buf + 0)) 0 else m q))
copy_entry_stored name buf nbytes q m word = elim (Bool-cases (signed_ltb 0 nbytes)) [
  | inl positive ↦
      let (r, at) =
        copy_entry_lem name buf nbytes 0 q m (omega arith) (ground (arith, positive))
          (ground (arith, positive)) in
      (ground (arith, r, positive), ground (arith, at, positive))
  | inr negative ↦
      let (r, at) =
        copy_entry_unpadded name buf nbytes 0 q m (omega arith) (ground (arith, negative)) word in
      (ground (arith, r, negative), ground (arith, at, negative))
]

-- With the directory open on the descriptor and an entry left, a read of at least one byte gives 32 or the count,
-- whichever is less, and stores as many bytes of the name, with null bytes after it. For a count of 0
-- or a negative one it gives the length of the name, at most 32, and stores these bytes of it alone. No
-- other byte changes.
pub ece391_read_entry :
    {W : Type 0} (x : Linux W) (s : Emulated W) (fd buf nbytes q : ℕ) (m : Mem) (w' : W)
    (name : List ℕ)
    → s.dir ≡ true
    → s.dir_fd ≡ fd
    → x.readdir s.linux ≡ (w', some name)
    → nbytes < 2 ^ 32
    → let (m', s', r) = ece391_read x fd buf nbytes m s in
      let n = if signed_ltb 0 nbytes then min nbytes 32 else min (length name) 32 in
      (r ≡ n) × (m' q ≡ (if inside buf n q then get_or name (q - buf) 0 else m q)) × (s'.linux ≡ w')
unfolding ece391_read
ece391_read_entry x s fd buf nbytes q m w' name open_dir same entry word =
    let (r, at) = copy_entry_stored name buf nbytes q m word in
    let start : buf + 0 ≡ buf = omega arith in
    let from_start : get_or name (q - (buf + 0)) 0 ≡ get_or name (q - buf) 0 =
      ap (λ b. get_or name (q - b) 0) start in
    (
      ground (arith, r, open_dir, same, entry),
      ground (arith, at, open_dir, same, entry, from_start),
      ground (arith, open_dir, same, entry),
    )
