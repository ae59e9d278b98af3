-- ===== src/Engine/Fault.antt =====
-- internal/engine/fault.go: the text of a syscall fault rule. A rule has the fields that its text
-- has; the fields that the spec layer sets are zero in a parsed rule. Texts are bytes. The parsing
-- and printing of numbers, the float64 arithmetic and the numbers of the kernel's errors are
-- parameters (`FaultText`).
pub mod Parse
pub mod Segments
pub mod Errno
pub mod Printed
pub mod RoundTrip
pub mod Tests
use faultbox.Base.{
  ℕ, ◌+◌, ◌≡◌, Bool, true, false, ◌&&◌, ◌||◌, Option, none, some, List, [], ◌∷◌, ◌++◌, String,
  Bytes, codes, ◌==◌, if◌then◌else◌,
}
use faultbox.Base.Int.{ℤ, pos, negsuc, leb_ℤ}
use faultbox.Base.Split.{no_bytes, bytes_eq, lacks, no_space}

-- strconv, time and syscall, as the program calls them: `parse_float` is `ParseFloat(_, 64)`,
-- `hundredth` divides by 100, `out_of_range` tests `prob < 0 || prob > 1`, `format_percent` is
-- `Sprintf("%.0f", _ * 100)`, and the others are `ParseDuration`, `Duration.String`, `Atoi`, `%d`
-- and the constant of an error's name.
pub record FaultText : Type 1 where
  pub Float : Type 0
  pub parse_float : Bytes → Option Float
  pub hundredth : Float → Float
  pub out_of_range : Float → Bool
  pub format_percent : Float → Bytes
  pub parse_duration : Bytes → Option ℤ
  pub format_duration : ℤ → Bytes
  pub atoi : Bytes → Option ℤ
  pub itoa : ℤ → Bytes
  pub errno_number : String → ℕ

pub data FaultAction : Type 0 where
  action_deny action_delay action_hold action_trace : FaultAction

pub data FaultTrigger : Type 0 where
  trigger_always trigger_nth trigger_after : FaultTrigger

pub record FaultRule (Float : Type 0) : Type 0 where
  pub syscall : Bytes
  pub action : FaultAction
  pub errno : ℕ
  pub delay : ℤ
  pub probability : Float
  pub path_glob : Bytes
  pub trigger : FaultTrigger
  pub trigger_n : ℤ

pub data ParseError : Type 0 where
  no_equals empty_syscall no_params : ParseError
  delay_incomplete bad_duration negative_delay : ParseError
  unknown_errno bad_probability probability_range bad_nth bad_after : ParseError

pub data Parsed {ℓ} (A : Type ℓ) : Type ℓ where
  parsed : A → Parsed A
  refused : ParseError → Parsed A

-- `errnoMap`
abbrev pub errno_names : List String
errno_names =
    "ENOENT" ∷ "EACCES" ∷ "EPERM" ∷ "EIO" ∷ "ENOSPC" ∷ "EROFS" ∷ "EEXIST" ∷ "ENOTEMPTY" ∷ "ENFILE"
    ∷ "EMFILE" ∷ "EFBIG" ∷ "ECONNREFUSED" ∷ "ECONNRESET" ∷ "ECONNABORTED" ∷ "ETIMEDOUT"
    ∷ "ENETUNREACH" ∷ "EHOSTUNREACH" ∷ "EADDRINUSE" ∷ "EADDRNOTAVAIL" ∷ "EINTR" ∷ "EAGAIN"
    ∷ "ENOMEM" ∷ "EBUSY" ∷ "EINVAL" ∷ "ENOSYS" ∷ "EDEADLK" ∷ "ELOOP" ∷ "EDQUOT" ∷ "ENOLCK" ∷ []
