-- ===== src/Seccomp/Filter.antt =====
-- internal/seccomp/filter_linux.go (buildFilter) and arch_amd64.go: the filter program. The audit
-- architecture is an argument. A syscall number with no name in the table has none of the names
-- that are tested for.
pub mod Machine
pub mod Decides
pub mod Tests
use faultbox.Base.{
  ℕ, ◌+◌, ◌-◌, ◌%◌, ◌^◌, Bool, true, false, ◌&&◌, ◌||◌, Option, none, some, List, [], ◌∷◌, ◌++◌,
  String, str_eq, ◌==◌, length, if◌then◌else◌,
}
use faultbox.Base.Int.{ℤ, pos, negsuc}

pub record SockFilter : Type 0 where
  pub code : ℕ
  pub jt : ℕ
  pub jf : ℕ
  pub k : ℕ

-- `bpfLD | bpfW | bpfABS`, `bpfJMP | bpfJEQ | bpfK` and `bpfRET`
abbrev pub bpf_load : ℕ
bpf_load = 0x20

abbrev pub bpf_jeq : ℕ
bpf_jeq = 0x15

abbrev pub bpf_ret : ℕ
bpf_ret = 0x06

abbrev pub ret_allow : ℕ
ret_allow = 0x7fff0000

abbrev pub ret_user_notif : ℕ
ret_user_notif = 0x7fc00000

abbrev pub offset_nr : ℕ
offset_nr = 0

abbrev pub offset_arch : ℕ
offset_arch = 4

abbrev pub offset_args0 : ℕ
offset_args0 = 16

abbrev pub load : ℕ → SockFilter
load k = record { code = bpf_load; jt = 0; jf = 0; k = k }

abbrev pub jeq : ℕ → ℕ → ℕ → SockFilter
jeq jt jf k = record { code = bpf_jeq; jt = jt; jf = jf; k = k }

abbrev pub ret : ℕ → SockFilter
ret k = record { code = bpf_ret; jt = 0; jf = 0; k = k }

unfoldable pub syscall_names : List (ℕ × String)
syscall_names =
    (0, "read")
    ∷ (1, "write")
    ∷ (2, "open")
    ∷ (3, "close")
    ∷ (17, "pread64")
    ∷ (18, "pwrite64")
    ∷ (19, "readv")
    ∷ (20, "writev")
    ∷ (42, "connect")
    ∷ (43, "accept")
    ∷ (44, "sendto")
    ∷ (45, "recvfrom")
    ∷ (46, "sendmsg")
    ∷ (47, "recvmsg")
    ∷ (49, "bind")
    ∷ (50, "listen")
    ∷ (41, "socket")
    ∷ (74, "fsync")
    ∷ (75, "fdatasync")
    ∷ (257, "openat")
    ∷ (83, "mkdir")
    ∷ (84, "rmdir")
    ∷ (87, "unlink")
    ∷ (263, "unlinkat")
    ∷ (258, "mkdirat")
    ∷ (4, "stat")
    ∷ (5, "fstat")
    ∷ (6, "lstat")
    ∷ (262, "newfstatat")
    ∷ (9, "mmap")
    ∷ (10, "mprotect")
    ∷ (12, "brk")
    ∷ (16, "ioctl")
    ∷ (21, "access")
    ∷ (56, "clone")
    ∷ (57, "fork")
    ∷ (59, "execve")
    ∷ (60, "exit")
    ∷ (61, "wait4")
    ∷ (39, "getpid")
    ∷ (63, "uname")
    ∷ (72, "fcntl")
    ∷ (78, "getdents")
    ∷ (89, "readlink")
    ∷ (217, "getdents64")
    ∷ (302, "prlimit64")
    ∷ (318, "getrandom")
    ∷ (231, "exit_group")
    ∷ (13, "sigaction")
    ∷ (14, "sigprocmask")
    ∷ (15, "sigreturn")
    ∷ (35, "nanosleep")
    ∷ (228, "clock_gettime")
    ∷ (230, "clock_nanosleep")
    ∷ (202, "futex")
    ∷ (7, "poll")
    ∷ (23, "select")
    ∷ (270, "pselect6")
    ∷ (271, "ppoll")
    ∷ []

unfoldable pub find_name : ℕ → List (ℕ × String) → Option String
find_name nr [] = none
find_name nr ((n, name) ∷ names) =
    let rest = find_name nr names in if n == nr then some name else rest

unfoldable pub syscall_name : ℕ → Option String
unfolding find_name syscall_names
syscall_name nr = find_name nr syscall_names

abbrev pub is_one_of : String → List String → Bool
is_one_of name [] = false
is_one_of name (s ∷ ss) = str_eq name s || is_one_of name ss

-- `uint32(allowFd)` for an exception that is switched on.
abbrev pub exception : ℤ → Option ℕ
exception (pos fd) = some (fd % 2 ^ 32)
exception (negsuc n) = none

abbrev pub exception_of : Option String → ℤ → ℤ → Option ℕ
exception_of none write_fd socket_fd = none
exception_of (some name) write_fd socket_fd =
    if is_one_of name ("write" ∷ "writev" ∷ "pwrite64" ∷ [])
    then exception write_fd
    else if is_one_of name
        ("read" ∷ "readv" ∷ "pread64" ∷ "sendmsg" ∷ "sendto" ∷ "recvmsg" ∷ "recvfrom" ∷ [])
    then exception socket_fd
    else none

-- `writeLike`, `socketLike` and the rest: the descriptor on which the syscall is let through.
unfoldable pub allowed_fd : ℤ → ℤ → ℕ → Option ℕ
unfolding syscall_name
allowed_fd write_fd socket_fd nr = exception_of (syscall_name nr) write_fd socket_fd

-- The instructions for one syscall: `emitFdWhitelist`, or the simple case.
abbrev pub block : ℕ → Option ℕ → List SockFilter
block nr (some fd) =
    jeq 0 5 nr
    ∷ load offset_args0
    ∷ jeq 1 0 fd
    ∷ ret ret_user_notif
    ∷ ret ret_allow
    ∷ load offset_nr
    ∷ []
block nr none = jeq 0 1 nr ∷ ret ret_user_notif ∷ []

unfoldable pub target_blocks : ℤ → ℤ → List ℕ → List SockFilter
target_blocks write_fd socket_fd [] = ret ret_allow ∷ []
target_blocks write_fd socket_fd (nr ∷ nrs) =
    block nr (allowed_fd write_fd socket_fd nr) ++ target_blocks write_fd socket_fd nrs

-- `uint8(len(insns) - archCheckIdx - 2)`, for the one instruction before the check.
abbrev pub patched_jump : ℕ → ℕ
patched_jump len = (len - 1 - 2) % 256

unfoldable pub build_filter : ℕ → List ℕ → ℤ → ℤ → List SockFilter
unfolding target_blocks
build_filter arch nrs write_fd socket_fd =
    let body = target_blocks write_fd socket_fd nrs in
    load offset_arch ∷ jeq 0 (patched_jump (3 + length body)) arch ∷ load offset_nr ∷ body
