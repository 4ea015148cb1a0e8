-- ===== src/Common/Results.antt =====
-- What a kernel function comes back with: a value, an error code (ErrorOr), or a failed Assert.

pub data Errno : Type 0 where
  eperm enoent esrch ebadf eagain enomem efault eexist enotdir einval epipe enosys : Errno
  eisdir espipe eoverflow enolink enotempty ebusy enospc : Errno

pub data Outcome {ℓ} (A : Type ℓ) : Type ℓ where
  ok : A → Outcome A
  err : Errno → Outcome A
  panic : Outcome A

infixl 5 ◌>>=◌
abbrev pub ◌>>=◌ {ℓ κ} : {A : Type ℓ} {B : Type κ} → Outcome A → (A → Outcome B) → Outcome B
ok a >>= f = f a
err e >>= f = err e
panic >>= f = panic
