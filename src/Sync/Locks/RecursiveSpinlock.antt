-- ===== src/Sync/Locks/RecursiveSpinlock.antt =====
-- Kernel/Library/Locking/RecursiveSpinlock.hpp over Spinlock.{hpp,cpp}, step by step, as a
-- recursive spinlock is not itself under a lock: each test of m_Owner, each try of the base lock
-- and each write is a step of its own. The count is only touched by the owner. Interrupt flags and
-- the base lock's panic after 10^8 rounds are left out.
pub mod Exclusion
mod Tests
use cryptix_os.Common.Family.{update}
use cryptix_os.Common.{
  ℕ, zero, suc, ◌+◌, ◌-◌, ◌*◌, ◌/◌, ◌%◌, ◌^◌, ◌≤◌, ◌<◌, min, ◌≡◌, refl, sym, ap, ◌∙◌, ◌≢◌, ◌↔◌, ◌⊎◌,
  inl, inr, Bool, true, false, not, ◌&&◌, ◌||◌, Option, none, some, List, [], ◌∷◌, ◌++◌, map, arith,
  dec_lt, ℕ_discrete, ltb, leb, ◌==◌, if◌then◌else◌, ltb→lt, lt→ltb, le→not-ltb, not-ltb→le, leb→le,
  ==_iff, Bool-cases, Option-cases, length, get_elem?, set, length-append, All, Inserted, here,
  there, Inserted-All, All-Inserted, All-map, u64_mod, add64, sub64, mul64, add64-eq_add,
  sub64-eq_sub, mul64-eq_mul, sub64-add64, add64-lt, add64_add, add64_add_right, apart_of_disjoint,
  apart_scaled, Errno, eperm, enoent, esrch, ebadf, eagain, enomem, efault, eexist, enotdir, einval,
  epipe, enosys, Outcome, ok, err, panic, ◌>>=◌,
}

-- Where a thread stands. Acquire: `again` has found itself the owner; `spinning` has not and
-- waits for the base lock; `taken` has it; `owning` has written m_Owner. Release: `clearing` has
-- counted down to 0, `opening` has cleared m_Owner. `ready` is between calls.
pub data Place : Type 0 where
  ready again spinning taken owning clearing opening : Place

-- The base lock, m_Owner and m_RecursionCount; where each thread stands, and how many of its
-- acquisitions it has not released yet.
pub record Spin : Type 0 where
  pub locked : Bool
  pub owner : Option ℕ
  pub recursion_count : ℕ
  pub place : ℕ → Place
  pub held : ℕ → ℕ

abbrev pub owned_by : Option ℕ → ℕ → Bool
owned_by none t = false
owned_by (some o) t = o == t

-- Acquire: if (m_Owner == current).
pub look : Spin → ℕ → Spin
look s t = record s { place = update s.place t (if owned_by s.owner t then again else spinning) }

-- ++m_RecursionCount;
pub count_up : Spin → ℕ → Spin
count_up s t = record s {
  recursion_count = add64 s.recursion_count 1;
  place = update s.place t ready;
  held = update s.held t (s.held t + 1);
}

-- One round of Spinlock::Acquire: TestAndAcquire.
pub test_and_acquire : Spin → ℕ → Spin
test_and_acquire s t =
    if s.locked then s else record s { locked = true; place = update s.place t taken }

-- m_Owner = current;
pub set_owner : Spin → ℕ → Spin
set_owner s t = record s { owner = some t; place = update s.place t owning }

-- m_RecursionCount = 1;
pub set_count : Spin → ℕ → Spin
set_count s t = record s {
  recursion_count = 1;
  place = update s.place t ready;
  held = update s.held t 1;
}

-- Release: the Assert, and --m_RecursionCount with the test for 0.
pub count_down : Spin → ℕ → Outcome Spin
count_down s t =
    let left = sub64 s.recursion_count 1 in
    if owned_by s.owner t && ltb 0 s.recursion_count
    then ok (record s {
      recursion_count = left;
      place = update s.place t (if left == 0 then clearing else ready);
      held = update s.held t (s.held t - 1);
    })
    else panic

-- m_Owner = nullptr;
pub clear_owner : Spin → ℕ → Spin
clear_owner s t = record s { owner = none; place = update s.place t opening }

-- Spinlock::Release.
pub open_lock : Spin → ℕ → Spin
open_lock s t = record s { locked = false; place = update s.place t ready }

-- Any thread moves at any time, as its place allows. A thread starts a release only if it has an
-- acquisition to release, and does not acquire 2^64 deep.
pub data Move (s : Spin) (t : ℕ) : Spin → Type 0 where
  looks : s.place t ≡ ready → s.held t + 1 < u64_mod → Move s t (look s t)
  counts_up : s.place t ≡ again → Move s t (count_up s t)
  tests_lock : s.place t ≡ spinning → Move s t (test_and_acquire s t)
  sets_owner : s.place t ≡ taken → Move s t (set_owner s t)
  sets_count : s.place t ≡ owning → Move s t (set_count s t)
  counts_down : {u : Spin} → s.place t ≡ ready → 0 < s.held t → count_down s t ≡ ok u → Move s t u
  clears_owner : s.place t ≡ clearing → Move s t (clear_owner s t)
  opens_lock : s.place t ≡ opening → Move s t (open_lock s t)

pub data Reached : Spin → Type 0 where
  unlocked : Reached (record {
    locked = false;
    owner = none;
    recursion_count = 0;
    place = λ _. ready;
    held = λ _. 0;
  })
  moved : {s u : Spin} (t : ℕ) → Reached s → Move s t u → Reached u
