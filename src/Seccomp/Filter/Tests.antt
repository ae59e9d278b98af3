-- ===== src/Seccomp/Filter/Tests.antt =====
-- Tests of the filter program of internal/seccomp/filter_linux.go: a filter for write, read and
-- openat that lets descriptor 2 be written, for x86-64.
use faultbox.Base.{ℕ, ◌≡◌, refl, some, List, [], ◌∷◌, arith}
use faultbox.Base.Int.{pos, negsuc}
use faultbox.Seccomp.Filter.{
  ret_allow, ret_user_notif, allowed_fd, target_blocks, build_filter, find_name, syscall_name,
  syscall_names,
}
use faultbox.Seccomp.Filter.Machine.{SeccompData, interpreter, interpret}
use faultbox.Seccomp.Filter.Decides.{build_filter-verdict, verdict, is_listed}

abbrev arch_x86_64 : ℕ
arch_x86_64 = 0xC000003E

abbrev targets : List ℕ
targets = 1 ∷ 0 ∷ 257 ∷ []

abbrev write_2 : SeccompData
write_2 = record { nr = 1; arch = arch_x86_64; args0 = 2 }

abbrev write_5 : SeccompData
write_5 = record { nr = 1; arch = arch_x86_64; args0 = 5 }

allowed_write : allowed_fd (pos 2) (negsuc 0) 1 ≡ some 2
unfolding allowed_fd syscall_name find_name syscall_names
allowed_write = refl

run_write :
    interpret (build_filter arch_x86_64 targets (pos 2) (negsuc 0)) 0 0 write_2 ≡ some ret_allow
unfolding interpret build_filter target_blocks allowed_fd syscall_name find_name syscall_names
run_write = refl

build_filter-verdict_example :
    interpret (build_filter arch_x86_64 targets (pos 2) (negsuc 0)) 0 0 write_5
    ≡ some (verdict arch_x86_64 targets (pos 2) (negsuc 0) write_5)
build_filter-verdict_example =
    build_filter-verdict interpreter write_5 arch_x86_64 0 targets (pos 2) (negsuc 0)
      (unfold target_blocks allowed_fd syscall_name find_name syscall_names in omega arith)

verdict_write : verdict arch_x86_64 targets (pos 2) (negsuc 0) write_5 ≡ ret_user_notif
unfolding verdict is_listed allowed_fd syscall_name find_name syscall_names
verdict_write = refl
