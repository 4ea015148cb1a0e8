-- ===== src/Sync/Event/Laws.antt =====
-- Signals and waiting threads in Kernel/Scheduler/Event.cpp.
use mathlib.Core.Path.{subst}
use cryptix_os.Common.Family.{update, update_self, update_ne}
use cryptix_os.Sync.Event.{
  Listener, Event, System, check_pending, ready, listens, await, wake_one, wake, trigger,
}
use cryptix_os.Common.{
  ℕ, zero, suc, ◌+◌, ◌-◌, ◌<◌, ◌≡◌, refl, sym, ap, ◌∙◌, ◌≢◌, Bool, true, false, List, [], ◌∷◌,
  arith, if◌then◌else◌, lt→ltb, All, u64_mod, add64, add64-eq_add,
}

abbrev pub Distinct : List ℕ → Type 0
Distinct [] = Unit
Distinct (e ∷ es) = All (λ x. x ≢ e) es × Distinct es

-- No listener of the thread.
abbrev pub Unheard : ℕ → Event → Type 0
Unheard thread ev = All (λ l. l.thread ≢ thread) ev.listeners

-- A trigger that finds no listener adds one signal, unless it is to be dropped, and leaves the
-- interrupts disabled, whatever they were before.
trigger_unheard :
    (s : System) (e : ℕ) (drop : Bool)
    → (s.events e).listeners ≡ []
    → ((trigger s e drop).interrupts ≡ false)
      × (((trigger s e drop).events e).pending
          ≡ (if drop then (s.events e).pending else add64 (s.events e).pending 1))
      × ((trigger s e drop).blocked ≡ s.blocked)
unfolding trigger
trigger_unheard s e true h = rw (h, trigger) (refl, refl, refl)
trigger_unheard s e false h = rw (h, trigger) (refl, ground arith, refl)

wake-keeps :
    (s : System) (ls : List Listener) (t : ℕ) → s.blocked t ≡ false → (wake s ls).blocked t ≡ false
unfolding wake wake_one
wake-keeps s [] t h = h
wake-keeps s (l ∷ ls) t h = wake-keeps (wake_one s l) ls t (ground arith)

wake-All : (s : System) (ls : List Listener) → All (λ l. (wake s ls).blocked l.thread ≡ false) ls
unfolding wake wake_one
wake-All s [] = tt
wake-All s (l ∷ ls) = (
  wake-keeps (wake_one s l) ls l.thread (update_self s.blocked l.thread false),
  wake-All (wake_one s l) ls,
)

wake-others :
    (s : System) (ls : List Listener) (t : ℕ)
    → All (λ l. l.thread ≢ t) ls
    → ((wake s ls).blocked t ≡ s.blocked t) × ((wake s ls).which t ≡ s.which t)
unfolding wake wake_one
wake-others s [] t a = (refl, refl)
wake-others s (l ∷ ls) t (n, a) =
    let (b, w) = wake-others (wake_one s l) ls t a in
    (b ∙ update_ne s.blocked l.thread false t n, w ∙ update_ne s.which l.thread l.which t n)

-- What a trigger of the event makes of its listeners' threads.
pub record Woken (s : System) (e : ℕ) (l : Listener) (ls : List Listener) (s' : System)
    : Type 0 where
  pub awake : All (λ x. s'.blocked x.thread ≡ false) (l ∷ ls)
  pub others :
      (t : ℕ)
      → All (λ x. x.thread ≢ t) (l ∷ ls)
      → (s'.blocked t ≡ s.blocked t) × (s'.which t ≡ s.which t)
  pub cleared : s'.events ≡ update s.events e (record (s.events e) { listeners = [] })
  pub interrupts_kept : s'.interrupts ≡ s.interrupts

pub trigger_heard :
    (s : System) (e : ℕ) (drop : Bool) (l : Listener) (ls : List Listener)
    → (s.events e).listeners ≡ l ∷ ls
    → trigger s e drop ≡ record (wake s (l ∷ ls)) {
      events = update s.events e (record (s.events e) { listeners = [] });
      interrupts = s.interrupts;
    }
unfolding trigger
trigger_heard s e drop l ls h = rw (h, trigger)

-- A trigger that finds listeners wakes all their threads and no other thread, uses no signal,
-- leaves the event without listeners and every other event as it was, and the interrupts too.
trigger_wakes :
    (s : System) (e : ℕ) (drop : Bool) (l : Listener) (ls : List Listener)
    → (s.events e).listeners ≡ l ∷ ls
    → Woken s e l ls (trigger s e drop)
trigger_wakes s e drop l ls h =
    subst (Woken s e l ls) (sym (trigger_heard s e drop l ls h)) (record {
      awake = wake-All s (l ∷ ls);
      others = wake-others s (l ∷ ls);
      cleared = refl;
      interrupts_kept = refl;
    })

trigger_no_listener :
    (s : System) (e : ℕ)
    → (s.events e).listeners ≡ []
    → ((trigger s e false).events e).listeners ≡ []
unfolding trigger
trigger_no_listener s e h = rw (h, trigger) (ground arith)

-- `n` triggers in a row.
pub triggers : ℕ → System → ℕ → System
triggers zero s e = s
triggers (suc n) s e = triggers n (trigger s e false) e

-- `n` waits for one event in a row by one thread.
pub awaits : ℕ → System → ℕ → ℕ → System
awaits zero s thread e = s
awaits (suc n) s thread e = awaits n (await s thread (e ∷ []) true).1 thread e

-- The system with one signal of the event used.
abbrev signal_used : System → ℕ → System
signal_used s e = record s {
  events = update s.events e (record (s.events e) { pending = (s.events e).pending - 1 });
}

await_pending :
    (s : System) (thread e : ℕ) (es : List ℕ) (block : Bool)
    → 0 < (s.events e).pending
    → await s thread (e ∷ es) block ≡ (
      ready 0,
      record s {
        events = update s.events e (record (s.events e) { pending = (s.events e).pending - 1 });
      },
    )
unfolding await check_pending
await_pending s thread e es block h = rw (lt→ltb 0 (s.events e).pending h, await, check_pending)

await_none :
    (s : System) (thread e : ℕ)
    → (s.events e).pending ≡ 0
    → (await s thread (e ∷ []) true).0 ≡ listens
unfolding await check_pending
await_none s thread e h = ground arith

triggers_lem :
    (n : ℕ) (s : System) (e : ℕ)
    → (s.events e).listeners ≡ []
    → (s.events e).pending + n < u64_mod
    → (((triggers n s e).events e).pending ≡ (s.events e).pending + n)
      × (((triggers n s e).events e).listeners ≡ [])
      × ((triggers n s e).blocked ≡ s.blocked)
unfolding triggers
triggers_lem zero s e h w = (omega arith, h, refl)
triggers_lem (suc n) s e h w =
    let (_, counted, awake) = trigger_unheard s e false h in
    let one = add64-eq_add (s.events e).pending 1 (omega arith) in
    let (p, l, b) =
      triggers_lem n (trigger s e false) e (trigger_no_listener s e h) (omega arith) in
    (omega arith, l, b ∙ awake)

awaits_lem :
    (n : ℕ) (s : System) (thread e : ℕ)
    → (s.events e).pending ≡ n
    → (((awaits n s thread e).events e).pending ≡ 0) × ((awaits n s thread e).blocked ≡ s.blocked)
unfolding awaits
awaits_lem zero s thread e h = (h, refl)
awaits_lem (suc n) s thread e h =
    rw (await_pending s thread e [] true (omega arith), awaits)
      (awaits_lem n (signal_used s e) thread e
        (ap (λ (v : Event). v.pending) (update_self s.events e _) ∙ omega arith))

-- Signals sent while nobody listens are kept: after `n` triggers that are not dropped, on an event
-- with no listener and no signal, a thread that waits for it `n` times never blocks, and the next
-- wait does.
awaits-triggers :
    (n : ℕ) (s : System) (thread e : ℕ)
    → (s.events e).listeners ≡ []
    → (s.events e).pending ≡ 0
    → n < u64_mod
    → ((awaits n (triggers n s e) thread e).blocked ≡ s.blocked)
      × ((await (awaits n (triggers n s e) thread e) thread (e ∷ []) true).0 ≡ listens)
awaits-triggers n s thread e h p w =
    let (count, empty, same) = triggers_lem n s e h (omega arith) in
    let (left, quiet) = awaits_lem n (triggers n s e) thread e (omega arith) in
    (quiet ∙ same, await_none _ thread e left)
