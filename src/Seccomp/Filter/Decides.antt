-- ===== src/Seccomp/Filter/Decides.antt =====
-- internal/seccomp/filter_linux.go: what the built program returns.
use mathlib.Core.List.{append_assoc}
use faultbox.Base.{
  ℕ, suc, ◌+◌, ◌%◌, ◌^◌, ◌<◌, ◌≡◌, refl, sym, ap, ◌∙◌, Bool, true, false, ◌||◌, Option, none, some,
  List, [], ◌∷◌, ◌++◌, get_elem?, length, length-append, ◌==◌, if◌then◌else◌, arith, Bool-cases,
  inl, inr,
}
use faultbox.Base.Int.{ℤ}
use faultbox.Seccomp.Filter.{
  SockFilter, load, jeq, ret, ret_allow, ret_user_notif, offset_nr, offset_arch, offset_args0,
  allowed_fd, block, target_blocks, patched_jump, build_filter,
}
use faultbox.Seccomp.Filter.Machine.{SeccompData, FilterMachine}

unfoldable pub is_listed : ℕ → List ℕ → Bool
is_listed nr [] = false
is_listed nr (n ∷ ns) = nr == n || is_listed nr ns

-- A filtered syscall is reported, but for the descriptor that is let through.
abbrev pub filtered : Option ℕ → ℕ → ℕ
filtered none arg = ret_user_notif
filtered (some fd) arg = if arg == fd then ret_allow else ret_user_notif

-- What the program is for: syscalls of another architecture and those not listed are let through.
unfoldable pub verdict : ℕ → List ℕ → ℤ → ℤ → SeccompData → ℕ
unfolding is_listed
verdict arch nrs write_fd socket_fd d =
    if d.arch == arch
    then if is_listed d.nr nrs
      then filtered (allowed_fd write_fd socket_fd d.nr) (d.args0 % 2 ^ 32)
      else ret_allow
    else ret_allow

get_elem?-append :
    (pre xs : List SockFilter) (j : ℕ) → get_elem? (pre ++ xs) (length pre + j) ≡ get_elem? xs j
get_elem?-append [] xs j = ap (get_elem? xs) (omega arith)
get_elem?-append (x ∷ pre) xs j =
    let next : length (x ∷ pre) + j ≡ suc (length pre + j) = omega arith in
    ap (get_elem? (x ∷ (pre ++ xs))) next ∙ get_elem?-append pre xs j

get_elem?-at :
    (prog pre xs : List SockFilter) (pc j : ℕ)
    → prog ≡ pre ++ xs
    → pc ≡ length pre + j
    → get_elem? prog pc ≡ get_elem? xs j
get_elem?-at prog pre xs pc j e at = let there = get_elem?-append pre xs j in rw (e, at) there

target_blocks-last :
    (write_fd socket_fd : ℤ) (nrs : List ℕ)
    → ((n : ℕ) × (length (target_blocks write_fd socket_fd nrs) ≡ suc n)
        × (get_elem? (target_blocks write_fd socket_fd nrs) n ≡ some (ret ret_allow)))
unfolding target_blocks
target_blocks-last write_fd socket_fd [] = (0, refl, refl)
target_blocks-last write_fd socket_fd (nr ∷ nrs) =
    let rest = target_blocks-last write_fd socket_fd nrs in
    let here = block nr (allowed_fd write_fd socket_fd nr) in
    let more = target_blocks write_fd socket_fd nrs in
    (
      length here + rest.0,
      omega (arith, length-append here more, rest.1),
      get_elem?-append here more rest.0 ∙ rest.2,
    )

module _ (m : FilterMachine) (d : SeccompData) (prog pre rest : List SockFilter) where
  block-simple_hit :
      (acc nr pc : ℕ)
      → prog ≡ pre ++ (block nr none ++ rest)
      → pc ≡ length pre
      → (acc == nr) ≡ true
      → m.eval prog pc acc d ≡ some ret_user_notif
  block-simple_hit acc nr pc e at hit =
      let jump =
        m.eval_jeq prog pc acc 0 1 nr d
          (get_elem?-at prog pre (block nr none ++ rest) pc 0 e (omega (arith, at))) in
      let stop =
        m.eval_ret prog (pc + 1 + 0) acc ret_user_notif d
          (get_elem?-at prog pre (block nr none ++ rest) (pc + 1 + 0) 1 e (omega (arith, at))) in
      jump ∙ ap (λ b. m.eval prog (pc + 1 + (if b then 0 else 1)) acc d) hit ∙ stop

  block_skip :
      (acc nr pc : ℕ) (fd : Option ℕ)
      → prog ≡ pre ++ (block nr fd ++ rest)
      → pc ≡ length pre
      → (acc == nr) ≡ false
      → m.eval prog pc acc d ≡ m.eval prog (length pre + length (block nr fd)) acc d
  block_skip acc nr pc none e at miss =
      m.eval_jeq prog pc acc 0 1 nr d
        (get_elem?-at prog pre (block nr none ++ rest) pc 0 e (omega (arith, at)))
      ∙ ap (λ b. m.eval prog (pc + 1 + (if b then 0 else 1)) acc d) miss
      ∙ ap (λ n. m.eval prog n acc d) (omega (arith, at))
  block_skip acc nr pc (some fd) e at miss =
      m.eval_jeq prog pc acc 0 5 nr d
        (get_elem?-at prog pre (block nr (some fd) ++ rest) pc 0 e (omega (arith, at)))
      ∙ ap (λ b. m.eval prog (pc + 1 + (if b then 0 else 5)) acc d) miss
      ∙ ap (λ n. m.eval prog n acc d) (omega (arith, at))

  block-fd_hit :
      (nr pc fd : ℕ)
      → prog ≡ pre ++ (block nr (some fd) ++ rest)
      → pc ≡ length pre
      → (d.nr == nr) ≡ true
      → m.eval prog pc d.nr d ≡ some (filtered (some fd) (d.args0 % 2 ^ 32))
  block-fd_hit nr pc fd e at hit =
      let arg = d.args0 % 2 ^ 32 in
      let at_j : (j : ℕ) → get_elem? prog (pc + j) ≡ get_elem? (block nr (some fd) ++ rest) j =
        λ j. get_elem?-at prog pre (block nr (some fd) ++ rest) (pc + j) j e (omega (arith, at)) in
      let here : get_elem? prog pc ≡ some (jeq 0 5 nr) =
        ap (get_elem? prog) (omega arith) ∙ at_j 0 in
      let loading : get_elem? prog (pc + 1 + 0) ≡ some (load offset_args0) =
        ap (get_elem? prog) (omega arith) ∙ at_j 1 in
      let testing : get_elem? prog (pc + 1 + 0 + 1) ≡ some (jeq 1 0 fd) =
        ap (get_elem? prog) (omega arith) ∙ at_j 2 in
      m.eval_jeq prog pc d.nr 0 5 nr d here
      ∙ ap (λ b. m.eval prog (pc + 1 + (if b then 0 else 5)) d.nr d) hit
      ∙ m.eval_load prog (pc + 1 + 0) d.nr offset_args0 d loading
      ∙ ap (λ w. m.eval prog (pc + 1 + 0 + 1) w d) (m.word_args0 d)
      ∙ m.eval_jeq prog (pc + 1 + 0 + 1) arg 1 0 fd d testing
      ∙ elim (Bool-cases (arg == fd)) [
        | inl allowed ↦ rw (allowed) (
            m.eval_ret prog (pc + 1 + 0 + 1 + 1 + 1) arg ret_allow d
              (ap (get_elem? prog) (omega arith) ∙ at_j 4))
        | inr reported ↦ rw (reported) (
            m.eval_ret prog (pc + 1 + 0 + 1 + 1 + 0) arg ret_user_notif d
              (ap (get_elem? prog) (omega arith) ∙ at_j 3))
      ]

  block_hit :
      (nr pc : ℕ) (fd : Option ℕ)
      → prog ≡ pre ++ (block nr fd ++ rest)
      → pc ≡ length pre
      → (d.nr == nr) ≡ true
      → m.eval prog pc d.nr d ≡ some (filtered fd (d.args0 % 2 ^ 32))
  block_hit nr pc none e at hit = block-simple_hit d.nr nr pc e at hit
  block_hit nr pc (some fd) e at hit = block-fd_hit nr pc fd e at hit

module _ (m : FilterMachine) (d : SeccompData) (write_fd socket_fd : ℤ)
    (prog : List SockFilter) where
  target_blocks-listed :
      (pre : List SockFilter) (nrs : List ℕ)
      → prog ≡ pre ++ target_blocks write_fd socket_fd nrs
      → m.eval prog (length pre) d.nr d
        ≡ some (
            if is_listed d.nr nrs
            then filtered (allowed_fd write_fd socket_fd d.nr) (d.args0 % 2 ^ 32)
            else ret_allow)
  unfolding target_blocks is_listed
  target_blocks-listed pre [] e =
      m.eval_ret prog (length pre) d.nr ret_allow d
        (get_elem?-at prog pre (ret ret_allow ∷ []) (length pre) 0 e (omega arith))
  target_blocks-listed pre (nr ∷ nrs) e =
      let fd = allowed_fd write_fd socket_fd nr in
      let rest = target_blocks write_fd socket_fd nrs in
      elim (Bool-cases (d.nr == nr)) [
        | inl hit ↦
            let same : nr ≡ d.nr = ground (arith, hit) in
            rw (hit) (
              block_hit m d prog pre rest nr (length pre) fd e refl hit
              ∙ ap (λ n. some (filtered (allowed_fd write_fd socket_fd n) (d.args0 % 2 ^ 32))) same)
        | inr miss ↦
            let later : prog ≡ (pre ++ block nr fd) ++ rest =
              e ∙ sym (append_assoc pre (block nr fd) rest) in
            rw (miss) (
              block_skip m d prog pre rest d.nr nr (length pre) fd e refl miss
              ∙ ap (λ n. m.eval prog n d.nr d) (sym (length-append pre (block nr fd)))
              ∙ target_blocks-listed (pre ++ block nr fd) nrs later)
      ]

-- On every machine with the documented behaviour, a program with fewer than 256 instructions behind
-- its first three returns, for every syscall, the verdict that it is for: a listed syscall of the
-- native architecture is reported, unless its first argument is the descriptor that is let through
-- for its family, and everything else is allowed.
pub build_filter-verdict :
    (m : FilterMachine) (d : SeccompData) (arch acc : ℕ) (nrs : List ℕ) (write_fd socket_fd : ℤ)
    → length (target_blocks write_fd socket_fd nrs) < 256
    → m.eval (build_filter arch nrs write_fd socket_fd) 0 acc d
      ≡ some (verdict arch nrs write_fd socket_fd d)
unfolding build_filter verdict
build_filter-verdict m d arch acc nrs write_fd socket_fd short =
    let body = target_blocks write_fd socket_fd nrs in
    let jump = patched_jump (3 + length body) in
    let prog = load offset_arch ∷ jeq 0 jump arch ∷ load offset_nr ∷ body in
    let last = target_blocks-last write_fd socket_fd nrs in
    m.eval_load prog 0 acc offset_arch d refl
    ∙ ap (λ w. m.eval prog 1 w d) (m.word_arch d)
    ∙ m.eval_jeq prog 1 d.arch 0 jump arch d refl
    ∙ elim (Bool-cases (d.arch == arch)) [
      | inl native ↦ rw (native) (
          m.eval_load prog 2 d.arch offset_nr d refl
          ∙ ap (λ w. m.eval prog 3 w d) (m.word_nr d)
          ∙ target_blocks-listed m d write_fd socket_fd prog
              (load offset_arch ∷ jeq 0 jump arch ∷ load offset_nr ∷ []) nrs refl)
      | inr foreign ↦ rw (foreign) (
          m.eval_ret prog (2 + jump) d.arch ret_allow d (
            get_elem?-at prog (load offset_arch ∷ jeq 0 jump arch ∷ load offset_nr ∷ []) body
              (2 + jump) last.0 refl (ground (arith, last.1, short))
            ∙ last.2))
    ]
