-- ===== src/Sync/Locks/Semaphore.antt =====
-- Kernel/Library/Locking/Semaphore.{hpp,cpp}.
use cryptix_os.Common.{
  ℕ, zero, suc, ◌+◌, ◌-◌, ◌<◌, ◌≡◌, refl, ◌∙◌, inl, inr, Bool, true, false, not, List, [], ◌∷◌,
  arith, ltb, ◌==◌, if◌then◌else◌, Bool-cases, u64_mod, add64, add64-eq_add,
}

-- m_Count, and the number of listeners of m_Event.
pub record Semaphore : Type 0 where
  pub count : ℕ
  pub waiters : ℕ

-- Signal: with a listener the event is triggered, which takes all listeners off it, and the count
-- stays; without one the count goes up.
pub signal : Semaphore → Semaphore
signal s =
    if not (s.waiters == 0) then record s { waiters = 0 } else record s { count = add64 s.count 1 }

pub try_wait : Semaphore → Bool × Semaphore
try_wait s = if ltb 0 s.count then (true, record s { count = s.count - 1 }) else (false, s)

-- One round of the loop of Wait: the thread gets through, or it goes to sleep as a listener.
pub wait_round : Semaphore → Bool × Semaphore
unfolding try_wait
wait_round s =
    let (through, s') = try_wait s in
    if through then (true, s') else (false, record s' { waiters = s'.waiters + 1 })

-- Calls that do not sleep: Signal and TryWait, in any order.
pub data Call : Type 0 where
  signals tries : Call

-- How many TryWaits gave true, and the semaphore that is left.
pub run : Semaphore → List Call → ℕ × Semaphore
unfolding signal try_wait
run s [] = (0, s)
run s (signals ∷ cs) = run (signal s) cs
run s (tries ∷ cs) =
    let (through, s') = try_wait s in
    let (passed, t) = run s' cs in if through then (passed + 1, t) else (passed, t)

abbrev pub signalled : List Call → ℕ
signalled [] = 0
signalled (signals ∷ cs) = signalled cs + 1
signalled (tries ∷ cs) = signalled cs

-- `n` times: somebody signals, and the thread that was asleep goes through its loop again. How
-- often it got through, and the semaphore that is left.
pub rounds : ℕ → Semaphore → ℕ × Semaphore
unfolding signal wait_round
rounds zero s = (0, s)
rounds (suc n) s =
    let (through, s') = wait_round (signal s) in
    let (passed, t) = rounds n s' in if through then (passed + 1, t) else (passed, t)

-- While nobody sleeps on the semaphore, and short of 2^64 signals, every signal lets one TryWait
-- through: what has got through and what is left make up the first count and the signals.
run_conserves :
    (s : Semaphore) (cs : List Call)
    → s.waiters ≡ 0
    → s.count + signalled cs < u64_mod
    → (run s cs).0 + (run s cs).1.count ≡ s.count + signalled cs
unfolding run
run_conserves s [] w b = omega arith
run_conserves s (signals ∷ cs) w b =
    let one = add64-eq_add s.count 1 (omega arith) in
    let e : signal s ≡ record s { count = s.count + 1 } = ground arith in
    rw (e, run) (run_conserves (record s { count = s.count + 1 }) cs w (omega arith) ∙ omega arith)
run_conserves s (tries ∷ cs) w b = elim (Bool-cases (ltb 0 s.count)) [
  | inl more ↦
      let ih = run_conserves (record s { count = s.count - 1 }) cs w (ground arith) in
      ground (arith, ih)
  | inr none_left ↦ let ih = run_conserves s cs w b in ground (arith, ih)
]

-- A signal that finds a sleeping thread is lost: however often somebody signals and the thread is
-- woken, it never gets through, as the count stays 0.
pub rounds_lost :
    (n : ℕ) (s : Semaphore)
    → s.count ≡ 0
    → 0 < s.waiters
    → ((rounds n s).0 ≡ 0) × ((rounds n s).1.count ≡ 0)
unfolding rounds
rounds_lost zero s c w = (refl, c)
rounds_lost (suc n) s c w =
    let e : wait_round (signal s) ≡ (false, record { count = 0; waiters = 1 }) = ground arith in
    rw (e, rounds) (rounds_lost n (record { count = 0; waiters = 1 }) refl (omega arith))
