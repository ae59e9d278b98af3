-- ===== src/Seccomp/Filter/Machine.antt =====
-- The kernel's filter machine, which is not the program's code: what
-- internal/seccomp/filter_linux.go relies on, as the manual documents it, and an interpreter that
-- shows it can hold.
use faultbox.Base.{
  ℕ, zero, suc, ap, ◌∙◌, ◌+◌, ◌%◌, ◌^◌, ◌≡◌, refl, Option, none, some, List, [], ◌∷◌, get_elem?,
  ◌==◌, if◌then◌else◌, arith,
}
use faultbox.Seccomp.Filter.{
  SockFilter, bpf_load, bpf_jeq, load, jeq, ret, offset_nr, offset_arch, offset_args0,
}

-- What the kernel shows a filter of a syscall.
pub record SeccompData : Type 0 where
  pub nr : ℕ
  pub arch : ℕ
  pub args0 : ℕ

-- `eval prog pc acc d` is the value that the program returns from instruction `pc` on, with `acc`
-- in the accumulator; `word` is the 32-bit word at an offset of the data, on a little-endian
-- machine.
pub record FilterMachine : Type 0 where
  pub eval : List SockFilter → ℕ → ℕ → SeccompData → Option ℕ
  pub word : SeccompData → ℕ → ℕ
  pub word_nr : (d : SeccompData) → word d offset_nr ≡ d.nr
  pub word_arch : (d : SeccompData) → word d offset_arch ≡ d.arch
  pub word_args0 : (d : SeccompData) → word d offset_args0 ≡ d.args0 % 2 ^ 32
  pub eval_load :
      (prog : List SockFilter) (pc acc k : ℕ) (d : SeccompData)
      → get_elem? prog pc ≡ some (load k)
      → eval prog pc acc d ≡ eval prog (pc + 1) (word d k) d
  pub eval_jeq :
      (prog : List SockFilter) (pc acc jt jf k : ℕ) (d : SeccompData)
      → get_elem? prog pc ≡ some (jeq jt jf k)
      → eval prog pc acc d ≡ eval prog (pc + 1 + (if acc == k then jt else jf)) acc d
  pub eval_ret :
      (prog : List SockFilter) (pc acc k : ℕ) (d : SeccompData)
      → get_elem? prog pc ≡ some (ret k)
      → eval prog pc acc d ≡ some k

abbrev pub data_word : SeccompData → ℕ → ℕ
data_word d off = if off == 0 then d.nr else if off == 4 then d.arch else d.args0 % 2 ^ 32

-- An interpreter: the second argument is how many instructions are still to be skipped.
unfoldable pub interpret : List SockFilter → ℕ → ℕ → SeccompData → Option ℕ
interpret [] skip acc d = none
interpret (i ∷ is) (suc skip) acc d = interpret is skip acc d
interpret (i ∷ is) zero acc d =
    let loaded = interpret is 0 (data_word d i.k) d in
    let jumped = interpret is (if acc == i.k then i.jt else i.jf) acc d in
    if i.code == bpf_load then loaded else if i.code == bpf_jeq then jumped else some i.k

pub interpret-load :
    (prog : List SockFilter) (pc acc k : ℕ) (d : SeccompData)
    → get_elem? prog pc ≡ some (load k)
    → interpret prog pc acc d ≡ interpret prog (suc pc) (data_word d k) d
unfolding interpret
interpret-load [] pc acc k d e = absurd cc
interpret-load (i ∷ is) zero acc k d e =
    let found : i ≡ load k = cc in ap (λ j. interpret (j ∷ is) 0 acc d) found
interpret-load (i ∷ is) (suc pc) acc k d e = interpret-load is pc acc k d e

pub interpret-jeq :
    (prog : List SockFilter) (pc acc jt jf k : ℕ) (d : SeccompData)
    → get_elem? prog pc ≡ some (jeq jt jf k)
    → interpret prog pc acc d ≡ interpret prog (pc + 1 + (if acc == k then jt else jf)) acc d
unfolding interpret
interpret-jeq [] pc acc jt jf k d e = absurd cc
interpret-jeq (i ∷ is) zero acc jt jf k d e =
    let found : i ≡ jeq jt jf k = cc in
    let jump = if acc == k then jt else jf in
    let next : suc jump ≡ 0 + 1 + jump = omega arith in
    ap (λ j. interpret (j ∷ is) 0 acc d) found ∙ ap (λ n. interpret (i ∷ is) n acc d) next
interpret-jeq (i ∷ is) (suc pc) acc jt jf k d e =
    let jump = if acc == k then jt else jf in
    let next : suc (pc + 1 + jump) ≡ suc pc + 1 + jump = omega arith in
    interpret-jeq is pc acc jt jf k d e ∙ ap (λ n. interpret (i ∷ is) n acc d) next

pub interpret-ret :
    (prog : List SockFilter) (pc acc k : ℕ) (d : SeccompData)
    → get_elem? prog pc ≡ some (ret k)
    → interpret prog pc acc d ≡ some k
unfolding interpret
interpret-ret [] pc acc k d e = absurd cc
interpret-ret (i ∷ is) zero acc k d e =
    let found : i ≡ ret k = cc in ap (λ j. interpret (j ∷ is) 0 acc d) found
interpret-ret (i ∷ is) (suc pc) acc k d e = interpret-ret is pc acc k d e

-- The interpreter has the documented behaviour.
abbrev pub interpreter : FilterMachine
interpreter = record {
  eval = interpret;
  word = data_word;
  word_nr = λ d. refl;
  word_arch = λ d. refl;
  word_args0 = λ d. refl;
  eval_load = λ prog pc acc k d e.
      interpret-load prog pc acc k d e ∙ ap (λ n. interpret prog n (data_word d k) d) (omega arith);
  eval_jeq = interpret-jeq;
  eval_ret = interpret-ret;
}
