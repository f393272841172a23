-- ===== src/Filesys/Listing.antt =====
-- Reading a directory, student-distrib/filesys.c.
use mpf_cker_os.Base.{
  ℕ, zero, suc, ◌+◌, ◌-◌, ◌≤◌, ◌<◌, ◌≡◌, refl, sym, ap, ◌∙◌, ◌≢◌, ◌⊎◌, inr, true, false, none, some,
  arith, ltb, ◌==◌, if◌then◌else◌, u32, Mem, update, inside, IsBytes,
}
use mpf_cker_os.Strings.{strncpy}
use mpf_cker_os.Strings.Copies.{strncpy_lem, padded}
use mpf_cker_os.Filesys.{Filesys, Dentry, dir_read, read_dentry_by_index, name_length, clear_name}
use mpf_cker_os.Filesys.{store_name, copy_dentry, dentry_addr, store32}

-- the name has `n` bytes before its null byte, which is among its 32 bytes
pub record HasLength (name : Mem) (n : ℕ) : Type 0 where
  pub short : n ≤ 31
  pub ends : name n ≡ 0
  pub inner : (j : ℕ) → j < n → name j ≢ 0

name_length_from :
    (name : Mem) (n i left : ℕ)
    → HasLength name n
    → i ≤ n
    → i + left ≡ 32
    → name_length name i left ≡ n
unfolding name_length
name_length_from name n i zero h p e = absurd (omega (arith, h.short))
name_length_from name n i (suc left) h p e =
    ground (arith, h.ends, h.inner i, name_length_from name n (i + 1) left h)

-- An entry among the 64 is returned with the length of its name; no other index is accepted.
pub read_dentry_by_index_lem :
    (m : Mem) (fs : Filesys) (i n : ℕ)
    → HasLength (λ j. m (dentry_addr fs i + j)) n
    → read_dentry_by_index m fs i
      ≡ (if ltb i 64 then some (copy_dentry m (dentry_addr fs i), n) else none)
unfolding read_dentry_by_index
read_dentry_by_index_lem m fs i n h =
    ground (arith, name_length_from (λ j. m (dentry_addr fs i + j)) n 0 32 h)

clear_name_lem :
    (m : Mem) (buf i n q : ℕ) → clear_name m buf i n q ≡ (if inside (buf + i) n q then 0 else m q)
unfolding clear_name
clear_name_lem m buf i zero q = ground arith
clear_name_lem m buf i (suc n) q =
    ground (arith, clear_name_lem (update m (buf + i) 0) buf (i + 1) n q)

clear_name_all :
    (m : Mem) (buf n q : ℕ) → clear_name m buf 0 n q ≡ (if inside buf n q then 0 else m q)
clear_name_all m buf n q = ground (arith, clear_name_lem m buf 0 n q)

store_name_lem :
    (m : Mem) (a : ℕ) (name : Mem) (i n q : ℕ)
    → store_name m a name i n q ≡ (if inside (a + i) n q then name (q - a) else m q)
unfolding store_name
store_name_lem m a name i zero q = ground arith
store_name_lem m a name i (suc n) q =
    ground (arith, store_name_lem (update m (a + i) (name i)) a name (i + 1) n q)

-- memory after the entry has been copied to the local variable
abbrev with_entry : Mem → ℕ → Dentry → Mem
with_entry m local d =
    store32 (store32 (store_name m local d.name 0 32) (local + 32) d.file_type) (local + 36)
      d.inode_num

with_entry_lem :
    (m : Mem) (local : ℕ) (d : Dentry) (q : ℕ)
    → (inside local 32 q ≡ true → with_entry m local d q ≡ d.name (q - local))
      × (inside local 40 q ≡ false → with_entry m local d q ≡ m q)
with_entry_lem m local d q = (
  λ h. ground (arith, store_name_lem m local d.name 0 32 q),
  λ h. ground (arith, store_name_lem m local d.name 0 32 q),
)

-- the buffer, from what is known of memory at each step
buffer_lem :
    (m c e s : Mem) (buf local entry n nbytes q : ℕ)
    → nbytes ≤ 32
    → s q ≡ padded e buf local n nbytes q
    → ((j : ℕ) → j < 32 → e (local + j) ≡ m (entry + j))
    → e q ≡ c q
    → c q ≡ (if inside buf 32 q then 0 else m q)
    → n ≤ nbytes
    → s q ≡ (if inside buf 32 q then if ltb q (buf + n) then m (entry + (q - buf)) else 0 else m q)
buffer_lem m c e s buf local entry n nbytes q hi stored name off clear lo =
    ground (arith, name (q - buf))

module _ (local : ℕ) (m : Mem) (fs : Filesys) (buf nbytes n : ℕ) (in_range : fs.curfile < 64)
    (named : HasLength (λ j. m (dentry_addr fs fs.curfile + j)) n) (lo : n ≤ nbytes)
    (hi : nbytes ≤ 32) (off_stack : (buf + 32 ≤ local) ⊎ (local + 64 ≤ buf))
    (off_entry : (buf + 32 ≤ dentry_addr fs fs.curfile)
      ⊎ (dentry_addr fs fs.curfile + 64 ≤ buf)) where
  abbrev entry : ℕ
  entry = dentry_addr fs fs.curfile

  abbrev cleared : Mem
  cleared = clear_name m buf 0 32

  abbrev copied : Mem
  copied = with_entry cleared local (copy_dentry cleared entry)

  cleared-entry : (j : ℕ) → j < 32 → cleared (entry + j) ≡ m (entry + j)
  cleared-entry j h = ground (arith, clear_name_lem m buf 0 32 (entry + j))

  cleared-HasLength : HasLength (λ j. cleared (entry + j)) n
  cleared-HasLength =
      let s = named.short in
      record {
        short = s;
        ends = cleared-entry n (omega arith) ∙ named.ends;
        inner = λ j h e. named.inner j h (sym (cleared-entry j (omega arith)) ∙ e);
      }

  copied_name : (j : ℕ) → j < 32 → copied (local + j) ≡ m (entry + j)
  copied_name j h =
      let there : copied (local + j) ≡ cleared (entry + (local + j - local)) =
        (with_entry_lem cleared local (copy_dentry cleared entry) (local + j)).0 (ground arith) in
      there ∙ ap (λ (k : ℕ). cleared (entry + k)) (omega arith) ∙ cleared-entry j h

  stored_name : (q : ℕ) → strncpy copied buf local nbytes q ≡ padded copied buf local n nbytes q
  stored_name q =
      let s = named.short in
      strncpy_lem copied buf local n nbytes q lo
        (λ j h e. named.inner j h (sym (copied_name j (omega arith)) ∙ e))
        (inr (copied_name n (omega arith) ∙ named.ends)) (omega arith)

  pub dir_read_shape :
      let last = u32 (fs.curfile + 1) == fs.numdentries in
      dir_read local m fs buf nbytes ≡ (
        strncpy copied buf local nbytes,
        record fs { curfile = if last then 0 else fs.curfile + 1 },
        if last then 0 else n,
      )
  unfolding dir_read
  dir_read_shape =
      ground (arith, read_dentry_by_index_lem cleared fs fs.curfile n cleared-HasLength)

  -- A read of a directory stores the name of the current entry in the buffer, with null bytes up to 32,
  -- and moves on to the next entry. It returns the length of the name, but 0 for the last entry, where
  -- it starts over. Beside the buffer and the local entry no memory is changed.
  pub dir_read_lem :
      (q : ℕ)
      → inside local 40 q ≡ false
      → let last = u32 (fs.curfile + 1) == fs.numdentries in
        let (m', fs', r) = dir_read local m fs buf nbytes in
        (r ≡ (if last then 0 else n))
        × (fs'.curfile ≡ (if last then 0 else fs.curfile + 1))
        × (m' q ≡ (
            if inside buf 32 q then if ltb q (buf + n) then m (entry + (q - buf)) else 0 else m q))
  dir_read_lem q off = rw dir_read_shape (
    refl,
    refl,
    buffer_lem m cleared copied (strncpy copied buf local nbytes) buf local entry n nbytes q hi
        (stored_name q) copied_name
        ((with_entry_lem cleared local (copy_dentry cleared entry) q).1 off)
        (clear_name_all m buf 32 q) lo,
  )

  copied-IsBytes : IsBytes m → IsBytes copied
  copied-IsBytes h q =
      let before : cleared q < 256 = ground (arith, clear_name_all m buf 32 q, h q) in
      let name : cleared (entry + (q - local)) < 256 =
        ground (arith, clear_name_all m buf 32 (entry + (q - local)), h (entry + (q - local))) in
      let stored = store_name_lem cleared local (copy_dentry cleared entry).name 0 32 q in
      ground (arith, stored, before, name)

  pub dir_read-IsBytes : IsBytes m → IsBytes (dir_read local m fs buf nbytes).0
  dir_read-IsBytes h q =
      let shape : (dir_read local m fs buf nbytes).0 q ≡ strncpy copied buf local nbytes q =
        ap (λ z. z.0 q) dir_read_shape in
      ground (arith, shape, stored_name q, copied-IsBytes h q, copied-IsBytes h (local + q - buf))
