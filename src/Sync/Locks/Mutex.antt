-- ===== src/Sync/Locks/Mutex.antt =====
-- Kernel/Library/Locking/Mutex.{hpp,cpp}, and threads that lock and unlock it.
use cryptix_os.Common.Family.{update}
use cryptix_os.Common.{
  ℕ, ◌≡◌, refl, Bool, true, false, not, ◌&&◌, Option, none, some, arith, ◌==◌, if◌then◌else◌,
  Outcome, ok, panic,
}

-- m_Locked and m_Holder. The event of the mutex only decides when a thread that failed tries again.
pub record Mutex : Type 0 where
  pub locked : Bool
  pub holder : Option ℕ

abbrev pub initial : Mutex
initial = record { locked = false; holder = none }

abbrev pub is_holder : Option ℕ → ℕ → Bool
is_holder none t = false
is_holder (some o) t = o == t

-- TryLock, which Lock repeats until it gives true.
unfoldable pub try_lock : Mutex → ℕ → Bool × Mutex
try_lock m current =
    if not m.locked then (true, record { locked = true; holder = some current }) else (false, m)

-- Unlock: the Assert fails unless the current thread holds the mutex.
pub unlock : Mutex → ℕ → Outcome Mutex
unlock m current =
    if m.locked && is_holder m.holder current
    then ok (record { locked = false; holder = none })
    else panic

-- The mutex, and which threads are between a successful TryLock and their Unlock.
pub record System : Type 0 where
  pub mutex : Mutex
  pub inside : ℕ → Bool

-- Any thread tries at any time; only a thread that is inside unlocks.
pub data Step (s : System) : System → Type 0 where
  enter :
      (t : ℕ) {m : Mutex}
      → try_lock s.mutex t ≡ (true, m)
      → Step s (record { mutex = m; inside = update s.inside t true })
  busy : (t : ℕ) {m : Mutex} → try_lock s.mutex t ≡ (false, m) → Step s (record s { mutex = m })
  leave :
      (t : ℕ) {m : Mutex}
      → s.inside t ≡ true
      → unlock s.mutex t ≡ ok m
      → Step s (record { mutex = m; inside = update s.inside t false })

pub data Reach : System → Type 0 where
  start : Reach (record { mutex = initial; inside = λ _. false })
  next : {s t : System} → Reach s → Step s t → Reach t

abbrev is_set : Option ℕ → Bool
is_set none = false
is_set (some o) = true

-- The mutex says who is inside, and is locked exactly while somebody is.
record Inv (s : System) : Type 0 where
  agrees : (t : ℕ) → s.inside t ≡ is_holder s.mutex.holder t
  lock_state : s.mutex.locked ≡ is_set s.mutex.holder

Step-Inv : {s t : System} → Step s t → Inv s → Inv t
unfolding try_lock unlock
Step-Inv {s} (enter t h) v = record {
  agrees = λ u. ground (arith, v.agrees u, v.lock_state);
  lock_state = ground (arith, v.lock_state);
}
Step-Inv {s} (busy t h) v = record {
  agrees = λ u. ground (arith, v.agrees u, v.lock_state);
  lock_state = ground (arith, v.lock_state);
}
Step-Inv {s} (leave t i h) v = record {
  agrees = λ u. ground (arith, v.agrees u, v.agrees t);
  lock_state = ground (arith, v.agrees t);
}

Reach-Inv : {s : System} → Reach s → Inv s
Reach-Inv start = record { agrees = λ t. refl; lock_state = refl }
Reach-Inv (next r st) = Step-Inv st (Reach-Inv r)

-- In every reachable state at most one thread is between TryLock and Unlock.
pub mutual_exclusion :
    {s : System} (t u : ℕ) → Reach s → s.inside t ≡ true → s.inside u ≡ true → t ≡ u
mutual_exclusion {s} t u r h k = let v = Reach-Inv r in ground (arith, v.agrees t, v.agrees u)

-- In every reachable state a thread that is inside can unlock: the Assert of Unlock holds, and the
-- mutex is free afterwards for whoever tries next.
pub unlock_succeeds :
    {s : System} (t u : ℕ)
    → Reach s
    → s.inside t ≡ true
    → (m : Mutex) × (unlock s.mutex t ≡ ok m) × ((try_lock m u).0 ≡ true)
unfolding unlock try_lock
unlock_succeeds {s} t u r h =
    let v = Reach-Inv r in
    (record { locked = false; holder = none }, ground (arith, v.agrees t, v.lock_state), refl)

-- In every reachable state in which a thread is inside, TryLock fails and changes nothing, whoever
-- calls it, also the thread that is inside.
pub try_lock_held :
    {s : System} (t u : ℕ) → Reach s → s.inside t ≡ true → try_lock s.mutex u ≡ (false, s.mutex)
unfolding try_lock
try_lock_held {s} t u r h = let v = Reach-Inv r in ground (arith, v.agrees t, v.lock_state)
