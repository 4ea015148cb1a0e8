-- ===== src/Sync/Event.antt =====
-- Kernel/Scheduler/Event.{hpp,cpp}: events that threads wait for. Events and threads are numbers;
-- their state is in one record, with the interrupt flag of the processor that runs the operation.
-- On one processor, where interrupts are off during each of these parts, each is one step: `await`,
-- the part of Event::Await up to the end of the locks, when interrupts are on again; `block`, its
-- call of Scheduler::Block; `resume`, the part behind that; and `trigger`, which tests the
-- listeners before it takes the lock. Other threads may run between the steps of a wait. Block and
-- Unblock are taken for what they do to the thread's state.
pub mod Laws
pub mod Wait
use cryptix_os.Common.Family.{update}
use cryptix_os.Common.{
  ℕ, zero, suc, ◌+◌, ◌-◌, ◌*◌, ◌/◌, ◌%◌, ◌^◌, ◌≤◌, ◌<◌, min, ◌≡◌, refl, sym, ap, ◌∙◌, ◌≢◌, ◌↔◌, ◌⊎◌,
  inl, inr, Bool, true, false, not, ◌&&◌, ◌||◌, Option, none, some, List, [], ◌∷◌, ◌++◌, map, arith,
  dec_lt, ℕ_discrete, ltb, leb, ◌==◌, if◌then◌else◌, ltb→lt, lt→ltb, le→not-ltb, not-ltb→le, leb→le,
  ==_iff, tests, Bool-cases, Option-cases, length, get_elem?, set, length-append, All, Inserted,
  here, there, Inserted-All, All-Inserted, All-map, u64_mod, add64, sub64, mul64, add64-eq_add,
  sub64-eq_sub, mul64-eq_mul, sub64-add64, add64-lt, add64_add, add64_add_right, apart_of_disjoint,
  apart_scaled, Errno, eperm, enoent, esrch, ebadf, eagain, enomem, efault, eexist, enotdir, einval,
  epipe, enosys, Outcome, ok, err, panic, ◌>>=◌,
}

pub record Listener : Type 0 where
  pub thread : ℕ
  pub which : ℕ

pub record Event : Type 0 where
  pub pending : ℕ
  pub listeners : List Listener

pub record System : Type 0 where
  pub events : ℕ → Event
  pub attached : ℕ → List ℕ  -- Thread::Events()
  pub which : ℕ → ℕ  -- Thread::Which()
  pub blocked : ℕ → Bool
  pub interrupts : Bool

-- CheckPending: the first event that is pending gives one of its signals.
pub check_pending : (ℕ → Event) → List ℕ → ℕ → Option (ℕ × (ℕ → Event))
check_pending evs [] i = none
check_pending evs (e ∷ es) i =
    let rest = check_pending evs es (i + 1) in
    if ltb 0 (evs e).pending
    then some (i, update evs e (record (evs e) { pending = (evs e).pending - 1 }))
    else rest

-- The loop of AttachListeners over the events.
pub attach : (ℕ → Event) → ℕ → List ℕ → ℕ → ℕ → Event
attach evs thread [] i = evs
attach evs thread (e ∷ es) i =
    attach
      (update evs e (record (evs e) {
        listeners = (evs e).listeners ++ record { thread = thread; which = i } ∷ [];
      }))
      thread es (i + 1)

-- The inner loop of DetachListeners: behind an erased listener the iterator is advanced once more,
-- so that the next listener is not looked at.
pub detach_from : ℕ → List Listener → List Listener
detach_from thread [] = []
detach_from thread (l ∷ []) = if l.thread == thread then [] else l ∷ []
detach_from thread (l ∷ m ∷ ls) =
    let skip = m ∷ detach_from thread ls in
    let keep = l ∷ detach_from thread (m ∷ ls) in if l.thread == thread then skip else keep

pub detach : (ℕ → Event) → ℕ → List ℕ → ℕ → Event
detach evs thread [] = evs
detach evs thread (e ∷ es) =
    detach (update evs e (record (evs e) { listeners = detach_from thread (evs e).listeners }))
      thread es

-- How Event::Await goes on: it returns the index of a pending event, or nothing, or it is about to
-- block.
pub data Waiting : Type 0 where
  ready : ℕ → Waiting
  nothing : Waiting
  listens : Waiting

-- `thread` is the current thread. The saved interrupt flag is set back where Await returns; where
-- it listens to the events, interrupts are on.
pub await : System → ℕ → List ℕ → Bool → Waiting × System
await s thread es block =
    let listening = record s {
      events = attach s.events thread es 0;
      attached = update s.attached thread es;
      interrupts = true;
    } in
    elim (check_pending s.events es 0) [
      | some (i, evs) ↦ (ready i, record s { events = evs })
      | none ↦ if block then (listens, listening) else (nothing, s)
    ]

-- Scheduler::Block
pub block : System → ℕ → System
block s thread = record s { blocked = update s.blocked thread true }

-- The rest of Await once the thread runs again, with the interrupt flag that it saved.
pub resume : System → ℕ → Bool → ℕ × System
resume s thread saved = (
  s.which thread,
  record s {
    events = detach s.events thread (s.attached thread);
    attached = update s.attached thread [];
    interrupts = saved;
  },
)

-- The body of the loop of Trigger over the listeners: SetWhich and Scheduler::Unblock.
pub wake_one : System → Listener → System
wake_one s l = record s {
  which = update s.which l.thread l.which;
  blocked = update s.blocked l.thread false;
}

pub wake : System → List Listener → System
wake s [] = s
wake s (l ∷ ls) = wake (wake_one s l) ls

-- Trigger: without listeners it returns before the interrupt flag is set back.
pub trigger : System → ℕ → Bool → System
trigger s e drop =
    let ev = s.events e in
    let signalled = record ev { pending = add64 ev.pending 1 } in
    let cleared = update s.events e (record ev { listeners = [] }) in
    elim ev.listeners [
      | [] ↦ record s {
        events = if drop then s.events else update s.events e signalled;
        interrupts = false;
      }
      | l ∷ ls ↦ record (wake s (l ∷ ls)) { events = cleared; interrupts = s.interrupts }
    ]
