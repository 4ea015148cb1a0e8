-- ===== src/Sync/Tests.antt =====
-- Concrete threads, events and locks, on which the laws are applied.
use cryptix_os.Common.Family.{update}
use cryptix_os.Sync.Event
use cryptix_os.Sync.Event.{Event, await, block, resume, listens, trigger}
use cryptix_os.Sync.Event.Wait.{Returned, wait_returns, wake_up_lost}
use cryptix_os.Sync.Locks.Mutex
use cryptix_os.Sync.Locks.Mutex.{mutual_exclusion, unlock_succeeds}
use cryptix_os.Sync.Locks.RecursiveMutex
use cryptix_os.Sync.Locks.RecursiveMutex.{
  recursive_mutual_exclusion, recursive_unlock, recursive_try_lock,
}
use cryptix_os.Common.{ℕ, ◌≡◌, refl, true, false, some, [], ◌∷◌, arith, ◌==◌, if◌then◌else◌}

abbrev quiet : Event
quiet = record { pending = 0; listeners = [] }

abbrev heard_by_7 : Event
heard_by_7 = record { pending = 0; listeners = record { thread = 7; which = 1 } ∷ [] }

-- Nobody listens to any event.
abbrev idle : Event.System
idle = record {
  events = λ _. quiet;
  attached = λ _. [];
  which = λ _. 0;
  blocked = λ _. false;
  interrupts = true;
}

-- Thread 7 sleeps and listens to event 3.
abbrev sleeping : Event.System
sleeping = record idle {
  events = λ e. if e == 3 then heard_by_7 else quiet;
  attached = λ t. if t == 7 then 3 ∷ [] else [];
  blocked = λ t. t == 7;
}

wait_returns_example :
    ((await idle 7 (4 ∷ 3 ∷ []) true).0 ≡ listens)
    × ((block (await idle 7 (4 ∷ 3 ∷ []) true).1 7).blocked 7 ≡ true)
    × Returned idle 7
        (4 ∷ 3 ∷ [])
        1
        3
        (resume (trigger (block (await idle 7 (4 ∷ 3 ∷ []) true).1 7) 3 false) 7 true)
wait_returns_example =
    wait_returns idle 7 (4 ∷ 3 ∷ []) 1 3 false true (((λ q. omega arith), tt), (tt, tt)) refl
      (refl, (refl, tt)) (tt, (tt, tt))

-- The trigger comes before the thread blocks.
wake_up_lost_example :
    ((block (trigger (await idle 7 (4 ∷ 3 ∷ []) true).1 3 false) 7).blocked 7 ≡ true)
    × (((block (trigger (await idle 7 (4 ∷ 3 ∷ []) true).1 3 false) 7).events 3).listeners ≡ [])
    × (((block (trigger (await idle 7 (4 ∷ 3 ∷ []) true).1 3 false) 7).events 3).pending ≡ 0)
    × ((trigger (block (trigger (await idle 7 (4 ∷ 3 ∷ []) true).1 3 false) 7) 3 false).blocked 7
        ≡ true)
wake_up_lost_example =
    wake_up_lost idle 7 (4 ∷ 3 ∷ []) 1 3 false false (((λ q. omega arith), tt), (tt, tt)) refl
      (refl, (refl, tt))

-- Thread 5 has taken the mutex.
taken : Mutex.Reach (record {
  mutex = record { locked = true; holder = some 5 };
  inside = update (λ _. false) 5 true;
})
unfolding Mutex.try_lock
taken = Mutex.next Mutex.start (Mutex.enter 5 refl)

mutual_exclusion_example : ◌≡◌ {A = ℕ} 5 5
mutual_exclusion_example = mutual_exclusion 5 5 taken refl refl

-- Thread 5 has taken the recursive mutex once.
taken_once : RecursiveMutex.Reach (record {
  mutex = record { locked = true; depth = 1; owner = some 5 };
  held = update (λ _. 0) 5 1;
})
unfolding RecursiveMutex.try_lock
taken_once = RecursiveMutex.next RecursiveMutex.start (RecursiveMutex.enter 5 (omega arith) refl)

recursive_mutual_exclusion_example : ◌≡◌ {A = ℕ} 5 5
recursive_mutual_exclusion_example =
    recursive_mutual_exclusion 5 5 taken_once (omega arith) (omega arith)
