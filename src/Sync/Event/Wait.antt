-- ===== src/Sync/Event/Wait.antt =====
-- One wait from Event::Await to its return, in Kernel/Scheduler/Event.cpp.
use mathlib.Core.Path.{subst}
use cryptix_os.Common.Family.{update, update_self, update_ne}
use cryptix_os.Sync.Event.{
  Listener, Event, System, check_pending, attach, detach_from, detach, listens, await, block,
  resume, wake_one, wake, trigger,
}
use cryptix_os.Sync.Event.Laws.{Distinct, Unheard, trigger_heard}
use cryptix_os.Common.{
  ℕ, zero, suc, ◌+◌, ◌≡◌, refl, sym, ap, ◌∙◌, ◌≢◌, ◌⊎◌, inl, inr, Bool, true, false, none, some,
  List, [], ◌∷◌, ◌++◌, arith, ℕ_discrete, get_elem?, All,
}

-- The event with the thread at the end of its listeners.
abbrev pub heard : Event → ℕ → ℕ → Event
heard ev thread i = record ev {
  listeners = ev.listeners ++ record { thread = thread; which = i } ∷ [];
}

get-ne : (es : List ℕ) (k x e : ℕ) → All (λ y. y ≢ x) es → get_elem? es k ≡ some e → x ≢ e
get-ne [] k x e a h = λ _. absurd (cc)
get-ne (y ∷ ys) zero x e (a, as_) h = λ q. a (ground arith)
get-ne (y ∷ ys) (suc k) x e (a, as_) h = get-ne ys k x e as_ h

attach-out :
    (evs : ℕ → Event) (thread : ℕ) (es : List ℕ) (i e : ℕ)
    → All (λ x. x ≢ e) es
    → attach evs thread es i e ≡ evs e
unfolding attach
attach-out evs thread [] i e a = refl
attach-out evs thread (x ∷ es) i e (n, a) =
    attach-out (update evs x (heard (evs x) thread i)) thread es (i + 1) e a ∙ update_ne evs x _ e n

attach-at :
    (evs : ℕ → Event) (thread : ℕ) (es : List ℕ) (i k e : ℕ)
    → Distinct es
    → get_elem? es k ≡ some e
    → attach evs thread es i e ≡ heard (evs e) thread (i + k)
unfolding attach
attach-at evs thread [] i k e d g = cc
attach-at evs thread (x ∷ es) i zero e (n, d) g =
    let q : x ≡ e = ground arith in
    let z : i + 0 ≡ i = omega arith in
    rw (z, ← q)
      (attach-out (update evs x (heard (evs x) thread i)) thread es (i + 1) x n
        ∙ update_self evs x _)
attach-at evs thread (x ∷ es) i (suc k) e (n, d) g =
    attach-at (update evs x (heard (evs x) thread i)) thread es (i + 1) k e d g
    ∙ (let z : i + 1 + k ≡ i + suc k = omega arith in
        rw (z, update_ne evs x (heard (evs x) thread i) e (get-ne es k x e n g)))

-- A thread that is the last listener, and no other listener of the event, is taken out.
detach_from-last :
    (thread i : ℕ) (ls : List Listener)
    → All (λ l. l.thread ≢ thread) ls
    → detach_from thread (ls ++ record { thread = thread; which = i } ∷ []) ≡ ls
unfolding detach_from
detach_from-last thread i [] a = ground arith
detach_from-last thread i (l ∷ []) (n, a) = ground arith
detach_from-last thread i (l ∷ m ∷ ls) (n, a) = ground (arith, detach_from-last thread i (m ∷ ls) a)

detach_from-nil : (thread : ℕ) → detach_from thread [] ≡ []
unfolding detach_from
detach_from-nil thread = refl

detach-out :
    (evs : ℕ → Event) (thread : ℕ) (es : List ℕ) (e : ℕ)
    → All (λ x. x ≢ e) es
    → detach evs thread es e ≡ evs e
unfolding detach
detach-out evs thread [] e a = refl
detach-out evs thread (x ∷ es) e (n, a) =
    detach-out (update evs x (record (evs x) { listeners = detach_from thread (evs x).listeners }))
      thread es e a
    ∙ update_ne evs x _ e n

detach-at :
    (evs : ℕ → Event) (thread : ℕ) (es : List ℕ) (k e : ℕ)
    → Distinct es
    → get_elem? es k ≡ some e
    → detach evs thread es e ≡ record (evs e) { listeners = detach_from thread (evs e).listeners }
unfolding detach
detach-at evs thread [] k e d g = cc
detach-at evs thread (x ∷ es) zero e (n, d) g =
    let q : x ≡ e = ground arith in
    rw (← q) (
      detach-out
        (update evs x (record (evs x) { listeners = detach_from thread (evs x).listeners })) thread
        es x n
      ∙ update_self evs x _)
detach-at evs thread (x ∷ es) (suc k) e (n, d) g =
    detach-at (update evs x (record (evs x) { listeners = detach_from thread (evs x).listeners }))
      thread es k e d g
    ∙ rw (
        update_ne evs x (record (evs x) { listeners = detach_from thread (evs x).listeners }) e
          (get-ne es k x e n g))

wake-last :
    (s : System) (ls : List Listener) (x : Listener)
    → ((wake s (ls ++ x ∷ [])).which x.thread ≡ x.which)
      × ((wake s (ls ++ x ∷ [])).blocked x.thread ≡ false)
      × ((wake s (ls ++ x ∷ [])).attached ≡ s.attached)
unfolding wake wake_one
wake-last s [] x =
    (update_self s.which x.thread x.which, update_self s.blocked x.thread false, refl)
wake-last s (l ∷ ls) x = wake-last (wake_one s l) ls x

-- A trigger of an event whose last listener is `x`.
trigger-last :
    (s : System) (e : ℕ) (drop : Bool) (ls : List Listener) (x : Listener)
    → (s.events e).listeners ≡ ls ++ x ∷ []
    → ((trigger s e drop).which x.thread ≡ x.which)
      × ((trigger s e drop).blocked x.thread ≡ false)
      × ((trigger s e drop).attached ≡ s.attached)
      × ((trigger s e drop).events ≡ update s.events e (record (s.events e) { listeners = [] }))
trigger-last s e drop [] x h =
    rw (trigger_heard s e drop x [] h) (let (w, b, a) = wake-last s [] x in (w, b, a, refl))
trigger-last s e drop (l ∷ ls) x h =
    rw (trigger_heard s e drop l (ls ++ x ∷ []) h)
      (let (w, b, a) = wake-last s (l ∷ ls) x in (w, b, a, refl))

check_pending-none :
    (evs : ℕ → Event) (es : List ℕ) (i : ℕ)
    → All (λ x. (evs x).pending ≡ 0) es
    → check_pending evs es i ≡ none
unfolding check_pending
check_pending-none evs [] i a = refl
check_pending-none evs (e ∷ es) i (p, a) = ground (arith, check_pending-none evs es (i + 1) a)

All-get : {P : ℕ → Type 0} (es : List ℕ) → ((k x : ℕ) → get_elem? es k ≡ some x → P x) → All P es
All-get [] f = tt
All-get (e ∷ es) f = (f 0 e refl, All-get es (λ k x h. f (suc k) x h))

get-All : (P : ℕ → Type 0) (es : List ℕ) (k x : ℕ) → All P es → get_elem? es k ≡ some x → P x
get-All P [] k x a h = absurd (cc)
get-All P (e ∷ es) zero x (p, a) h = let q : e ≡ x = ground arith in subst P q p
get-All P (e ∷ es) (suc k) x (p, a) h = get-All P es k x a h

-- What is left of a wait for the events `es` by the thread, woken by the event `e` at position `k`.
pub record Returned (s : System) (thread : ℕ) (es : List ℕ) (k e : ℕ) (r : ℕ × System)
    : Type 0 where
  pub index : r.0 ≡ k
  pub running : r.1.blocked thread ≡ false
  pub detached : r.1.attached thread ≡ []
  pub source : r.1.events e ≡ record (s.events e) { listeners = [] }
  pub others : All (λ x. (x ≡ e) ⊎ (r.1.events x ≡ s.events x)) es

-- The system once Await has attached the thread, and once it has blocked it.
abbrev listening : System → ℕ → List ℕ → System
listening s thread es = record s {
  events = attach s.events thread es 0;
  attached = update s.attached thread es;
  interrupts = true;
}

abbrev sleeping : System → ℕ → List ℕ → System
sleeping s thread es = record (listening s thread es) { blocked = update s.blocked thread true }

await_listens :
    (s : System) (thread : ℕ) (es : List ℕ)
    → All (λ x. (s.events x).pending ≡ 0) es
    → await s thread es true ≡ (listens, listening s thread es)
unfolding await
await_listens s thread es quiet = rw (check_pending-none s.events es 0 quiet, await)

woken_returns :
    (s : System) (thread : ℕ) (es : List ℕ) (k e : ℕ) (drop saved : Bool)
    → Distinct es
    → get_elem? es k ≡ some e
    → All (λ x. Unheard thread (s.events x)) es
    → Returned s thread es k e (resume (trigger (sleeping s thread es) e drop) thread saved)
unfolding resume
woken_returns s thread es k e drop saved d g fresh = record {
  index = woken.0;
  running = woken.1;
  detached = update_self (trigger (sleeping s thread es) e drop).attached thread [];
  source =
      ap (λ (f : ℕ → Event). f e) left
      ∙ detach-at cleared thread es k e d g
      ∙ rw
          (
            update_self s₁.events e (record (s₁.events e) { listeners = [] }),
            here_at,
            detach_from-nil thread,
          )
          refl;
  others = All-get es (λ j x h. elim (ℕ_discrete x e) [
    | yes same ↦ inl same
    | no other ↦
        inr (
          ap (λ (f : ℕ → Event). f x) left ∙ detach-at cleared thread es j x d h ∙ back j x h other)
  ]);
}
  where
    s₁ : System
    s₁ = sleeping s thread es

    cleared : ℕ → Event
    cleared = update s₁.events e (record (s₁.events e) { listeners = [] })

    here_at : s₁.events e ≡ heard (s.events e) thread (0 + k)
    here_at = attach-at s.events thread es 0 k e d g

    woken :
        ((trigger s₁ e drop).which thread ≡ k)
        × ((trigger s₁ e drop).blocked thread ≡ false)
        × ((trigger s₁ e drop).attached ≡ s₁.attached)
        × ((trigger s₁ e drop).events ≡ cleared)
    woken =
        let (w, b, a, c) =
          trigger-last s₁ e drop (s.events e).listeners (record { thread = thread; which = 0 + k })
            (ap (λ (v : Event). v.listeners) here_at) in
        (w ∙ omega arith, b, a, c)

    left :
        detach (trigger s₁ e drop).events thread ((trigger s₁ e drop).attached thread)
        ≡ detach cleared thread es
    left = rw (woken.2, woken.3, update_self s.attached thread es)

    back :
        (j x : ℕ)
        → get_elem? es j ≡ some x
        → x ≢ e
        → record (cleared x) { listeners = detach_from thread (cleared x).listeners } ≡ s.events x
    back j x h other = rw (
      update_ne s₁.events e (record (s₁.events e) { listeners = [] }) x (λ q. other (sym q)),
      attach-at s.events thread es 0 j x d h,
      detach_from-last thread (0 + j) (s.events x).listeners
          (get-All (λ y. Unheard thread (s.events y)) es j x fresh h),
    )

trigger_unheard-blocked :
    (s : System) (e : ℕ) (drop : Bool) (thread : ℕ)
    → (s.events e).listeners ≡ []
    → (trigger s e drop).blocked thread ≡ s.blocked thread
unfolding trigger
trigger_unheard-blocked s e drop thread h = rw (h, trigger) refl

-- A thread that waits for distinct events, none of them with a signal and none already listened to
-- by it, listens to them and then blocks. A trigger, after it has blocked, of the event at position
-- `k` of the list makes it run again, and its wait then returns `k` and leaves no listener of it
-- behind: the triggered event has no listeners, and all the other events are as they were before
-- the wait.
pub wait_returns :
    (s : System) (thread : ℕ) (es : List ℕ) (k e : ℕ) (drop saved : Bool)
    → Distinct es
    → get_elem? es k ≡ some e
    → All (λ x. (s.events x).pending ≡ 0) es
    → All (λ x. Unheard thread (s.events x)) es
    → let asleep = block (await s thread es true).1 thread in
      ((await s thread es true).0 ≡ listens)
      × (asleep.blocked thread ≡ true)
      × Returned s thread es k e (resume (trigger asleep e drop) thread saved)
unfolding block
wait_returns s thread es k e drop saved d g quiet fresh =
    rw (await_listens s thread es quiet)
      (refl, update_self s.blocked thread true, woken_returns s thread es k e drop saved d g fresh)

-- A trigger that comes after the thread has attached itself but before it blocks is lost: the
-- thread blocks all the same, the event keeps no signal and no longer has it as a listener, and a
-- second trigger of the event does not wake it. The thread waits for distinct events, none of them
-- with a signal.
pub wake_up_lost :
    (s : System) (thread : ℕ) (es : List ℕ) (k e : ℕ) (drop again : Bool)
    → Distinct es
    → get_elem? es k ≡ some e
    → All (λ x. (s.events x).pending ≡ 0) es
    → let asleep = block (trigger (await s thread es true).1 e drop) thread in
      (asleep.blocked thread ≡ true)
      × ((asleep.events e).listeners ≡ [])
      × ((asleep.events e).pending ≡ 0)
      × ((trigger asleep e again).blocked thread ≡ true)
unfolding block
wake_up_lost s thread es k e drop again d g quiet =
    let t = listening s thread es in
    let u = trigger t e drop in
    let at = attach-at s.events thread es 0 k e d g in
    let (_, _, _, cleared) =
      trigger-last t e drop (s.events e).listeners (record { thread = thread; which = 0 + k })
        (ap (λ (v : Event). v.listeners) at) in
    let here_ : u.events e ≡ record (t.events e) { listeners = [] } =
      ap (λ (f : ℕ → Event). f e) cleared ∙ update_self t.events e _ in
    let asleep : System = record u { blocked = update u.blocked thread true } in
    let unheard : (asleep.events e).listeners ≡ [] = ap (λ (v : Event). v.listeners) here_ in
    let still : asleep.blocked thread ≡ true = update_self u.blocked thread true in
    rw (await_listens s thread es quiet) (
      still,
      unheard,
      ap (λ (v : Event). v.pending) here_
          ∙ ap (λ (v : Event). v.pending) at
          ∙ get-All (λ x. (s.events x).pending ≡ 0) es k e quiet g,
      trigger_unheard-blocked asleep e again thread unheard ∙ still,
    )
