-- ===== src/Vfs/Fifo.antt =====
-- Kernel/VFS/Fifo.{hpp,cpp}: pipes. The ring buffer is Prism's. A call that has to wait gives up
-- the lock and starts its loop again after the event, so each round is one step.
pub mod Order
mod Tests
use cryptix_os.Vfs.Ring.{RingOps, take}
use cryptix_os.Common.{
  ℕ, zero, suc, ◌+◌, ◌-◌, ◌*◌, ◌/◌, ◌%◌, ◌^◌, ◌≤◌, ◌<◌, min, ◌≡◌, refl, sym, ap, ◌∙◌, ◌≢◌, ◌↔◌, ◌⊎◌,
  inl, inr, Bool, true, false, not, ◌&&◌, ◌||◌, Option, none, some, List, [], ◌∷◌, ◌++◌, map, arith,
  dec_lt, ℕ_discrete, ltb, leb, ◌==◌, if◌then◌else◌, ltb→lt, lt→ltb, le→not-ltb, not-ltb→le, leb→le,
  ==_iff, tests, Bool-cases, Option-cases, length, get_elem?, set, length-append, All, Inserted,
  here, there, Inserted-All, All-Inserted, All-map, u64_mod, add64, sub64, mul64, add64-eq_add,
  sub64-eq_sub, mul64-eq_mul, sub64-add64, add64-lt, add64_add, add64_add_right, apart_of_disjoint,
  apart_scaled, Errno, eperm, enoent, esrch, ebadf, eagain, enomem, efault, eexist, enotdir, einval,
  epipe, enosys, ℤ, pos, negsuc, i32_max, to_i32, to_i32_small, increment, is_negative, int_eq,
  pos_injective, Outcome, ok, err, panic, ◌>>=◌,
}

pub data Direction : Type 0 where
  reading writing : Direction

-- How a round of Read or Write goes on: it waits for the event, or the call returns.
pub data Round (A : Type 0) : Type 0 where
  waits : Round A
  returns : A → Round A

module _ (R : RingOps) where
  open R use {Ring, used, capacity}

  -- `signals` counts the triggers of m_Event.
  pub record Fifo : Type 0 where
    pub reader_count : ℕ
    pub writer_count : ℕ
    pub signals : ℕ
    pub buffer : Ring
    pub non_blocking : Bool

  -- Open
  pub open_end : Fifo → Direction → Fifo
  open_end f reading = record f { reader_count = add64 f.reader_count 1; signals = f.signals + 1 }
  open_end f writing = record f { writer_count = add64 f.writer_count 1; signals = f.signals + 1 }

  -- A round of Read: the bytes that are put in the caller's buffer.
  pub read : Fifo → ℕ → Round (List ℕ) × Fifo
  read f count =
      let (bytes, rest) = R.read f.buffer (min count (used f.buffer)) in
      if used f.buffer == 0
      then (if f.writer_count == 0 || f.non_blocking then (returns [], f) else (waits, f))
      else (returns bytes, record f { buffer = rest; signals = f.signals + 1 })

  -- The count of Write once it is cut to the room in the buffer.
  pub clipped : Fifo → ℕ → ℕ
  clipped f count =
      if ltb (capacity f.buffer) (add64 (used f.buffer) count)
      then capacity f.buffer - used f.buffer
      else count

  -- A round of Write: how many bytes of the caller's buffer are written.
  pub write : Fifo → List ℕ → Round (Outcome ℕ) × Fifo
  write f bytes =
      let (written, rest) = R.write f.buffer (take (clipped f (length bytes)) bytes) in
      if f.reader_count == 0
      then (returns (err epipe), f)
      else if used f.buffer == capacity f.buffer
      then (waits, f)
      else (returns (ok written), record f { buffer = rest; signals = f.signals + 1 })
