-- ===== src/Base/Errors.antt =====
-- The integers by which the C functions report: zero or a positive number, or a negative errno.
use mathlib.Core.Logic.{◌⊎◌, inl, inr}
use mathlib.Core.Path.{◌≡◌, refl}
use Prim.Native.Nat.{ℕ, zero, suc}
use mathlib.Core.Bool.{Bool, true, false}

-- The errno constants that the sources name; `other` is any further one that a callback returns.
pub data Errno : Type 0 where
  einval e2big eprototype enotsup ebusy eexist eacces ealready enospc erange ebadmsg : Errno
  enosys enoent enodev enomem : Errno
  other : ℕ → Errno

-- An `int` result.
pub data Status : Type 0 where
  ok : ℕ → Status
  err : Errno → Status

abbrev pub success : Status
success = ok 0

-- ret == 0
abbrev pub is_success : Status → Bool
is_success (ok zero) = true
is_success (ok (suc n)) = false
is_success (err e) = false

-- ret < 0
abbrev pub is_error : Status → Bool
is_error (ok n) = false
is_error (err e) = true

-- int first_error = 0; … if (ret < 0 && first_error == 0) first_error = ret;
abbrev pub first_of_errors : Status → Status → Status
first_of_errors (ok zero) (err e) = err e
first_of_errors first ret = first

pub Status-cases : (s : Status) → ((e : Errno) × (s ≡ err e)) ⊎ ((n : ℕ) × (s ≡ ok n))
Status-cases (err e) = inl (e, refl)
Status-cases (ok n) = inr (n, refl)
