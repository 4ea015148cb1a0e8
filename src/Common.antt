-- ===== src/Common.antt =====
-- Names that every part of the kernel model shares: the libraries' names passed on, Boolean tests,
-- lists and machine words over the native numbers.
mod Tests
mod Lists
mod Words
mod Ints
pub mod Prism
pub mod Family
mod Intervals
mod Results
pub use Tests.*
pub use Lists.*
pub use Intervals.*
pub use Results.{
  Errno, eperm, enoent, esrch, ebadf, eagain, enomem, efault, eexist, enotdir, einval, epipe,
  enosys, eisdir, espipe, eoverflow, enolink, enotempty, ebusy, enospc, Outcome, ok, err, panic,
  ◌>>=◌,
}
unfoldable pub use Words.*
unfoldable pub use Ints.*
pub use Prim.Native.Nat.{ℕ, zero, suc, ◌+◌, ◌-◌, ◌*◌, ◌/◌, ◌%◌, ◌^◌, ◌≤◌, ◌<◌, min}
pub use mathlib.Core.Path.{◌≡◌, refl, sym, ap, ◌∙◌}
pub use mathlib.Core.Logic.{◌≢◌, ◌↔◌, ◌⊎◌, inl, inr}
pub use mathlib.Core.Bool.{Bool, true, false, not, ◌&&◌, ◌||◌}
pub use mathlib.Core.Option.{Option, none, some}
pub use mathlib.Core.List.{List, [], ◌∷◌, ◌++◌, map}
pub use native.Mathlib.Omega.{arith}
unfoldable pub use native.Mathlib.Decide.{dec_lt, ℕ_discrete}
