-- ===== src/User/CatTests.antt =====
-- `cat` on a concrete kernel with a file.
use mpf_cker_os.Base.{
  ℕ, ◌+◌, ◌-◌, ◌*◌, ◌/◌, ◌≤◌, ◌≡◌, refl, sym, ap, ◌∙◌, subst, ◌≢◌, inl, some, [], ◌++◌, arith, ◌==◌,
  if◌then◌else◌, Mem, inside, bytes_at, IsBytes,
}
use mathlib.Core.Path.{fun_ext}
use mpf_cker_os.Filesys.Image.{fs, disk_bytes}
use mpf_cker_os.Filesys.{
  load32, inode_addr, block_addr, Dentry, read_dentry_by_name, find_dentry, match_name, copy_dentry,
  file_length,
}
use mpf_cker_os.Filesys.Read.{file_byte}
use mpf_cker_os.Filesys.Same.{IsImage}
use mpf_cker_os.Memory.{memcpy}
use mpf_cker_os.Memory.Copy.{memcpy_lem}
use mpf_cker_os.Terminal.Copying.{terminal_getargs_lem}
use mpf_cker_os.Process.{get_fd_avail, get_fd_from}
use mpf_cker_os.Syscall.{Kernel, sys_getargs}
use mpf_cker_os.Syscall.Handler.{syscall_handler_asm, syscall_getargs}
use mpf_cker_os.Terminal.{terminal_getargs, getargs_from}
use mpf_cker_os.User.Programs.{cat}
use mpf_cker_os.User.Kernel.{World, kernel_calls, kernel_getargs, do_call, with_buffer}
use mpf_cker_os.User.Console.{console_drivers-IsConsole}
use mpf_cker_os.User.Sample.{process, start, no_drivers, drivers, setting, zeros}
use mpf_cker_os.User.CatFile.{cat-kernel_open}

abbrev name : Mem
name = (kernel_getargs setting 1024 zeros start).0

abbrev opening : World
opening = (kernel_getargs setting 1024 zeros start).1

-- the page and the arguments of the process hold the arguments of the line, and end in a line end
abbrev stored_at : ℕ → ℕ
stored_at j = if j == 1023 then b'\n' else start.caller.stored j

abbrev before : Mem
before = (with_buffer setting zeros start).kernel.mem

abbrev after : Mem
after q =
    if inside 0x100000 1024 q
    then stored_at (q - 0x100000)
    else if inside 0x200000 1024 q
    then stored_at (q - 0x200000)
    else before q

abbrev k : Kernel
k = (with_buffer setting name opening).kernel

abbrev a_entry : Dentry
a_entry = copy_dentry after 4224

sys_getargs_memory :
    (a b : ℕ) (s m : Mem) (q : ℕ)
    → s 0 ≢ 0
    → b + 1024 ≤ a
    → (sys_getargs a s b 1024 m).0 q ≡ (
        if inside b 1024 q
        then (if q - b == 1023 then 0xa else s (q - b))
        else if inside a 1024 q
        then (if q - a == 1023 then 0xa else s (q - a))
        else m q)
unfolding sys_getargs
sys_getargs_memory a b s m q h apart =
    let m1 = terminal_getargs s a 1024 m in
    let at = terminal_getargs_lem s a 1024 m in
    let first : m1 a ≡ s 0 = ground (arith, at a (omega arith)) in
    let copied : memcpy m1 b a 1024 q ≡ (if inside b 1024 q then m1 (a + (q - b)) else m1 q) =
      ground (arith, memcpy_lem m1 b a 1024 q (inl (omega (arith, apart)))) in
    let result : (sys_getargs a s b 1024 m).0 q ≡ memcpy m1 b a 1024 q = ground (arith, first, h) in
    result ∙ copied ∙ ground (arith, at q (omega arith), at (a + (q - b)) (omega arith), apart)

opening_mem : (q : ℕ) → opening.caller.kernel.mem q ≡ after q
unfolding kernel_getargs do_call syscall_handler_asm syscall_getargs
opening_mem q =
    sys_getargs_memory 0x200000 0x100000 start.caller.stored before q (omega arith) (omega arith)

page_same : (q : ℕ) → k.mem q ≡ opening.caller.kernel.mem q
unfolding kernel_getargs
page_same q = ground arith

k_mem : k.mem ≡ after
k_mem = fun_ext (λ q. page_same q ∙ opening_mem q)

finds_after : read_dentry_by_name after fs 0x100000 ≡ some a_entry
unfolding read_dentry_by_name find_dentry match_name
finds_after = refl

finds_a : read_dentry_by_name k.mem k.fs 0x100000 ≡ some a_entry
unfolding kernel_getargs do_call syscall_handler_asm syscall_getargs
finds_a = ap (λ m. read_dentry_by_name m fs 0x100000) k_mem ∙ finds_after

opening_disk : opening.caller.kernel.mem ≡ after
opening_disk = fun_ext opening_mem

-- the arguments hold bytes
stored-IsBytes : IsBytes start.caller.stored
stored-IsBytes q = ground arith

after-IsBytes : IsBytes after
after-IsBytes q =
    ground (arith, stored-IsBytes (q - 0x100000), stored-IsBytes (q - 0x200000), disk_bytes q)

opening-IsBytes : IsBytes opening.caller.kernel.mem
opening-IsBytes q = ground (arith, opening_mem q, after-IsBytes q)

name-IsBytes : IsBytes name
unfolding kernel_getargs
name-IsBytes q = ground (arith, opening-IsBytes (0x100000 + q))

room : (get_fd_avail process).1 ≡ 2
unfolding get_fd_avail get_fd_from
room = refl

after-IsImage : IsImage after fs 0 24576
after-IsImage = record {
  known = omega arith;
  size = omega arith;
  node = omega arith;
  blocks = λ p h.
      let first_block : p / 4096 ≡ 0 = omega (arith, h) in
      let number : load32 after (inode_addr fs 0 + 4 + 4 * (p / 4096)) ≡ 1 =
        ap (λ b. load32 after (inode_addr fs 0 + 4 + 4 * b)) first_block in
      omega (arith, ap (λ b. block_addr fs b) number);
}

getargs_runs : kernel_getargs setting 1024 zeros start ≡ (name, opening, 0)
unfolding kernel_getargs do_call syscall_handler_asm syscall_getargs sys_getargs terminal_getargs
    getargs_from
getargs_runs = refl

opening-IsImage : IsImage opening.caller.kernel.mem fs 0 24576
opening-IsImage = subst (λ m. IsImage m fs 0 24576) (sym opening_disk) after-IsImage

five : file_length opening.caller.kernel.mem fs 0 ≡ 5
five = ap (λ m. file_length m fs 0) opening_disk

cat-kernel_open_example :
    (w' : World) × (cat (kernel_calls setting) 9 zeros start ≡ some (w', 0))
    × (w'.console
        ≡ []
          ++ bytes_at
              (file_byte opening.caller.kernel.mem fs 0)
              0
              (file_length opening.caller.kernel.mem fs 0))
unfolding kernel_getargs do_call syscall_handler_asm syscall_getargs
cat-kernel_open_example =
    cat-kernel_open setting drivers 2 3000 24576 refl
      (console_drivers-IsConsole (λ k. 0) (λ k. 0) no_drivers (λ k. (omega arith, omega arith)))
      (omega arith) (omega arith) (omega arith) name opening a_entry
      (ground (arith, ap (λ m. m 0x100000) k_mem)) finds_a (omega (arith, room)) refl refl
      opening-IsImage opening-IsBytes name-IsBytes 9 zeros start getargs_runs (inl (omega arith))
      (omega (arith, five))
