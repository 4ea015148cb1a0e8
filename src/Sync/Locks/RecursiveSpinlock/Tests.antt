-- ===== src/Sync/Locks/RecursiveSpinlock/Tests.antt =====
-- One thread that acquires.
use cryptix_os.Sync.Locks.RecursiveSpinlock.{
  ready, Spin, look, test_and_acquire, set_owner, set_count, looks, tests_lock, sets_owner,
  sets_count, Reached, unlocked, moved,
}
use cryptix_os.Sync.Locks.RecursiveSpinlock.Exclusion.{spinlock_mutual_exclusion}
use cryptix_os.Common.{ℕ, ◌≡◌, refl, false, none, arith}

abbrev start : Spin
start = record {
  locked = false;
  owner = none;
  recursion_count = 0;
  place = λ _. ready;
  held = λ _. 0;
}

-- Thread 5 has acquired.
abbrev acquired : Spin
acquired = set_count (set_owner (test_and_acquire (look start 5) 5) 5) 5

acquired-Reached : Reached acquired
unfolding look test_and_acquire set_owner set_count
acquired-Reached =
    moved 5
      (moved 5 (moved 5 (moved 5 unlocked (looks refl (omega arith))) (tests_lock refl))
        (sets_owner refl))
      (sets_count refl)

acquired-held : acquired.held 5 ≡ 1
unfolding look test_and_acquire set_owner set_count
acquired-held = refl

spinlock_mutual_exclusion_example : ◌≡◌ {A = ℕ} 5 5
spinlock_mutual_exclusion_example =
    spinlock_mutual_exclusion 5 5 acquired-Reached (omega (arith, acquired-held))
      (omega (arith, acquired-held))
