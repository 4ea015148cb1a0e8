-- ===== src/Sync/Locks/RecursiveMutex.antt =====
-- Kernel/Library/Locking/RecursiveMutex.{hpp,cpp}, and threads that lock and unlock it.
use cryptix_os.Common.Family.{update}
use cryptix_os.Common.{
  ℕ, ◌+◌, ◌-◌, ◌<◌, ◌≡◌, refl, ◌⊎◌, inl, inr, Bool, true, false, not, ◌&&◌, Option, none, some,
  arith, dec_lt, ◌==◌, if◌then◌else◌, u64_mod, add64, sub64, add64-eq_add, sub64-eq_sub, Outcome,
  ok, panic,
}

-- m_Locked, m_Depth and m_Owner.
pub record RecursiveMutex : Type 0 where
  pub locked : Bool
  pub depth : ℕ
  pub owner : Option ℕ

abbrev pub initial : RecursiveMutex
initial = record { locked = false; depth = 0; owner = none }

abbrev pub is_owner : Option ℕ → ℕ → Bool
is_owner none t = false
is_owner (some o) t = o == t

-- TryLock, which Lock repeats until it gives true.
unfoldable pub try_lock : RecursiveMutex → ℕ → Bool × RecursiveMutex
try_lock m current =
    if not m.locked
    then (true, record { locked = true; depth = 1; owner = some current })
    else if is_owner m.owner current
    then (true, record m { depth = add64 m.depth 1 })
    else (false, m)

-- Unlock: the mutex that is left, and whether its event is triggered.
pub unlock : RecursiveMutex → ℕ → Outcome (RecursiveMutex × Bool)
unlock m current =
    let depth = sub64 m.depth 1 in
    if not (m.locked && is_owner m.owner current)
    then panic
    else if depth == 0
    then ok (record { locked = false; depth = depth; owner = none }, true)
    else ok (record m { depth = depth }, false)

-- The mutex, and how many of its locks each thread has not undone yet.
pub record System : Type 0 where
  pub mutex : RecursiveMutex
  pub held : ℕ → ℕ

-- Any thread tries at any time, but not 2^64 deep; only a thread with a lock to undo unlocks.
pub data Step (s : System) : System → Type 0 where
  enter :
      (t : ℕ) {m : RecursiveMutex}
      → s.held t + 1 < u64_mod
      → try_lock s.mutex t ≡ (true, m)
      → Step s (record { mutex = m; held = update s.held t (s.held t + 1) })
  busy :
      (t : ℕ) {m : RecursiveMutex}
      → try_lock s.mutex t ≡ (false, m)
      → Step s (record s { mutex = m })
  leave :
      (t : ℕ) {m : RecursiveMutex} {wakes : Bool}
      → 0 < s.held t
      → unlock s.mutex t ≡ ok (m, wakes)
      → Step s (record { mutex = m; held = update s.held t (s.held t - 1) })

pub data Reach : System → Type 0 where
  start : Reach (record { mutex = initial; held = λ _. 0 })
  next : {s t : System} → Reach s → Step s t → Reach t

-- The depth counts the owner's locks, and nobody else has any.
record Inv (s : System) : Type 0 where
  counts : (t : ℕ) → s.held t ≡ (if is_owner s.mutex.owner t then s.mutex.depth else 0)
  shape :
      ((s.mutex.locked ≡ false) × (s.mutex.depth ≡ 0) × (s.mutex.owner ≡ none))
      ⊎ ((o : ℕ) × (s.mutex.locked ≡ true) × (0 < s.mutex.depth) × (s.mutex.owner ≡ some o))
  word : s.mutex.depth < u64_mod

enter-Inv :
    (s : System) (t : ℕ) (m : RecursiveMutex)
    → s.held t + 1 < u64_mod
    → try_lock s.mutex t ≡ (true, m)
    → Inv s
    → Inv (record { mutex = m; held = update s.held t (s.held t + 1) })
unfolding try_lock
enter-Inv s t m w h v = elim v.shape [
  | inl (l, d, o) ↦
      let e : m ≡ record { locked = true; depth = 1; owner = some t } = ground arith in
      rw e (record {
        counts = λ u. ground (arith, v.counts u, v.counts t);
        shape = inr (t, refl, omega arith, refl);
        word = omega arith;
      })
  | inr (o, l, d, q) ↦
      let e : m ≡ record { locked = true; depth = s.mutex.depth + 1; owner = some o } =
        ground (arith, v.counts t, add64-eq_add s.mutex.depth 1) in
      let mine : o ≡ t = ground arith in
      rw e (record {
        counts = λ u. ground (arith, v.counts u, v.counts t);
        shape = inr (o, refl, omega arith, refl);
        word = ground (arith, v.counts t);
      })
]

leave-Inv :
    (s : System) (t : ℕ) (m : RecursiveMutex) (wakes : Bool)
    → 0 < s.held t
    → unlock s.mutex t ≡ ok (m, wakes)
    → Inv s
    → Inv (record { mutex = m; held = update s.held t (s.held t - 1) })
unfolding unlock
leave-Inv s t m wakes i h v = elim v.shape [
  | inl (l, d, o) ↦ absurd (ground (arith, v.counts t))
  | inr (o, l, d, q) ↦
      let one : sub64 s.mutex.depth 1 ≡ s.mutex.depth - 1 =
        sub64-eq_sub s.mutex.depth 1 (omega arith) v.word in
      let mine : o ≡ t = ground (arith, v.counts t) in
      elim (dec_lt 1 s.mutex.depth) [
        | yes deep ↦
            let e : m ≡ record { locked = true; depth = s.mutex.depth - 1; owner = some o } =
              ground arith in
            let w = v.word in
            rw e (record {
              counts = λ u. ground (arith, v.counts u, v.counts t);
              shape = inr (o, refl, omega arith, refl);
              word = omega arith;
            })
        | no last ↦
            let e : m ≡ record { locked = false; depth = 0; owner = none } = ground arith in
            rw e (record {
              counts = λ u. ground (arith, v.counts u, v.counts t);
              shape = inl (refl, refl, refl);
              word = omega arith;
            })
      ]
]

busy-same : (m : RecursiveMutex) (t : ℕ) (n : RecursiveMutex) → try_lock m t ≡ (false, n) → n ≡ m
unfolding try_lock
busy-same m t n h = ground arith

Step-Inv : {s t : System} → Step s t → Inv s → Inv t
Step-Inv {s} (enter t {m = m} w h) v = enter-Inv s t m w h v
Step-Inv {s} (busy t {m = m} h) v =
    rw (busy-same s.mutex t m h) (record { counts = v.counts; shape = v.shape; word = v.word })
Step-Inv {s} (leave t {m = m} {wakes = b} i h) v = leave-Inv s t m b i h v

Reach-Inv : {s : System} → Reach s → Inv s
Reach-Inv start = record { counts = λ t. refl; shape = inl (refl, refl, refl); word = omega arith }
Reach-Inv (next r st) = Step-Inv st (Reach-Inv r)

-- In every reachable state at most one thread has locks to undo.
pub recursive_mutual_exclusion :
    {s : System} (t u : ℕ) → Reach s → 0 < s.held t → 0 < s.held u → t ≡ u
recursive_mutual_exclusion {s} t u r h k =
    let v = Reach-Inv r in ground (arith, v.counts t, v.counts u)

-- In every reachable state in which a thread has locks to undo, its next TryLock succeeds and goes
-- one deeper, and every other thread's TryLock fails and changes nothing.
pub recursive_try_lock :
    {s : System} (t u : ℕ)
    → Reach s
    → 0 < s.held t
    → s.held t + 1 < u64_mod
    → (try_lock s.mutex u
        ≡ (if t == u then (true, record s.mutex { depth = s.held t + 1 }) else (false, s.mutex)))
unfolding try_lock
recursive_try_lock {s} t u r h w =
    let v = Reach-Inv r in ground (arith, v.counts t, v.shape, add64-eq_add s.mutex.depth 1)

-- In every reachable state a thread with locks to undo can unlock: the Assert of Unlock holds. The
-- mutex is given up, and its event triggered, exactly with the last of these locks.
pub recursive_unlock :
    {s : System} (t : ℕ)
    → Reach s
    → 0 < s.held t
    → unlock s.mutex t ≡ (
        if s.held t == 1
        then ok (initial, true)
        else ok (record s.mutex { depth = s.held t - 1 }, false))
unfolding unlock
recursive_unlock {s} t r h =
    let v = Reach-Inv r in
    let w = v.word in ground (arith, v.counts t, v.shape, sub64-eq_sub s.mutex.depth 1)
