-- ===== src/Sync/Locks/RecursiveSpinlock/Exclusion.antt =====
-- Who holds a recursive spinlock, under every interleaving.
use mathlib.Core.Path.{subst}
use cryptix_os.Common.Family.{update, update_self, update_ne}
use cryptix_os.Sync.Locks.RecursiveSpinlock.{
  Place, ready, again, spinning, taken, owning, clearing, opening, Spin, owned_by, look, count_up,
  test_and_acquire, set_owner, set_count, count_down, clear_owner, open_lock, Move, looks,
  counts_up, tests_lock, sets_owner, sets_count, counts_down, clears_owner, opens_lock, Reached,
  unlocked, moved,
}
use cryptix_os.Common.{
  ℕ, ◌+◌, ◌-◌, ◌<◌, ◌≡◌, refl, sym, ap, ◌∙◌, ◌≢◌, ◌⊎◌, inl, inr, true, false, Option, none, some,
  arith, ℕ_discrete, ltb, ◌==◌, if◌then◌else◌, ==_iff, u64_mod, sub64, add64-eq_add, sub64-eq_sub,
  Outcome, ok, err, panic,
}

-- What a thread that has no share in the base lock looks like: its place, m_Owner, its held count.
abbrev Outside : ℕ → Place → Option ℕ → ℕ → Type 0
Outside t p o n = ((p ≡ ready) ⊎ (p ≡ spinning)) × (n ≡ 0) × (owned_by o t ≡ false)

-- What the thread that has the base lock looks like, with m_RecursionCount.
abbrev Holding : ℕ → Place → Option ℕ → ℕ → ℕ → Type 0
Holding t ready o c n = (o ≡ some t) × (0 < n) × (c ≡ n) × (n < u64_mod)
Holding t again o c n = (o ≡ some t) × (0 < n) × (c ≡ n) × (n + 1 < u64_mod)
Holding t spinning o c n = ⊥
Holding t taken o c n = (o ≡ none) × (n ≡ 0)
Holding t owning o c n = (o ≡ some t) × (n ≡ 0)
Holding t clearing o c n = (o ≡ some t) × (n ≡ 0)
Holding t opening o c n = (o ≡ none) × (n ≡ 0)

abbrev Others : Spin → ℕ → Type 0
Others s h = (u : ℕ) → u ≢ h → Outside u (s.place u) s.owner (s.held u)

-- The base lock is free and everybody outside, or one thread holds it and all others are outside.
data Inv (s : Spin) : Type 0 where
  free :
      s.locked ≡ false
      → s.owner ≡ none
      → ((u : ℕ) → Outside u (s.place u) s.owner (s.held u))
      → Inv s
  held_by :
      (h : ℕ)
      → s.locked ≡ true
      → Holding h (s.place h) s.owner s.recursion_count (s.held h)
      → Others s h
      → Inv s

-- Thread `h` goes on to place `p`, with the owner and its held count changed: the others stay
-- outside.
Others-kept :
    (s : Spin) (h : ℕ) (p : Place) (o : Option ℕ) (held : ℕ → ℕ)
    → Others s h
    → ((u : ℕ) → u ≢ h → held u ≡ s.held u)
    → (o ≡ none) ⊎ (o ≡ some h)
    → (u : ℕ) → u ≢ h
    → Outside u (update s.place h p u) o (held u)
Others-kept s h p o held out same own u n =
    rw (update_ne s.place h p u (λ e. n (sym e)), same u n) (ground (arith, out u n))

-- A thread that is outside goes to another place outside.
Outside-moves :
    (s : Spin) (t : ℕ) (p : Place) (u : ℕ)
    → (p ≡ ready) ⊎ (p ≡ spinning)
    → Outside t (s.place t) s.owner (s.held t)
    → Outside u (s.place u) s.owner (s.held u)
    → Outside u (update s.place t p u) s.owner (s.held u)
Outside-moves s t p u h a b = ground arith

Move-Outside :
    {s : Spin} (t : ℕ) {u : Spin}
    → Outside t (s.place t) s.owner (s.held t)
    → Move s t u
    → (u ≡ record s { place = update s.place t spinning }) ⊎ (u ≡ test_and_acquire s t)
unfolding look
Move-Outside {s} t (p, z, o) (looks q w) = inl (rw o refl)
Move-Outside {s} t (p, z, o) (tests_lock q) = inr refl
Move-Outside {s} t (p, z, o) (counts_up q) = absurd (ground arith)
Move-Outside {s} t (p, z, o) (sets_owner q) = absurd (ground arith)
Move-Outside {s} t (p, z, o) (sets_count q) = absurd (ground arith)
Move-Outside {s} t (p, z, o) (counts_down q h e) = absurd (ground arith)
Move-Outside {s} t (p, z, o) (clears_owner q) = absurd (ground arith)
Move-Outside {s} t (p, z, o) (opens_lock q) = absurd (ground arith)

abbrev HoldsAt : Spin → ℕ → Place → Type 0
HoldsAt s t p = Holding t p s.owner s.recursion_count (s.held t)

opened :
    (s : Spin) (t u : ℕ)
    → s.owner ≡ none
    → s.held t ≡ 0
    → Others s t
    → Outside u (update s.place t ready u) s.owner (s.held u)
opened s t u o z out = elim (ℕ_discrete u t) [
  | yes e ↦ rw (e, update_self s.place t ready) (inl refl, z, rw o refl)
  | no n ↦ Others-kept s t ready s.owner s.held out (λ v m. refl) (inl o) u n
]

counted_down :
    (o : Option ℕ) (t n : ℕ)
    → o ≡ some t
    → n < u64_mod
    → Holding t (if n == 0 then clearing else ready) o n n
counted_down o t n e w = elim (ℕ_discrete n 0) [
  | yes z ↦ rw ((==_iff n 0).1 z) (e, z)
  | no p ↦ let q : (n == 0) ≡ false = ground arith in rw q (e, omega arith, refl, w)
]

abbrev value : Spin → Outcome Spin → Spin
value s (ok u) = u
value s (err _) = s
value s panic = s

counted_down-Inv :
    (s : Spin) (t : ℕ) {u : Spin}
    → s.locked ≡ true
    → HoldsAt s t ready
    → Others s t
    → count_down s t ≡ ok u
    → Inv u
unfolding count_down
counted_down-Inv s t {u} l (o, k, c, b) out e =
    let own : owned_by s.owner t ≡ true = ground arith in
    let up : ltb 0 s.recursion_count ≡ true = ground arith in
    let less : sub64 s.recursion_count 1 ≡ s.held t - 1 = rw c (sub64-eq_sub (s.held t) 1 k b) in
    let after = record s {
      recursion_count = sub64 s.recursion_count 1;
      place = update s.place t (if sub64 s.recursion_count 1 == 0 then clearing else ready);
      held = update s.held t (s.held t - 1);
    } in
    let counted : Holding t (if s.held t - 1 == 0 then clearing else ready) s.owner (s.held t - 1)
        (s.held t - 1) =
      counted_down s.owner t (s.held t - 1) o (omega arith) in
    let same : Outcome.ok after ≡ ok u = sym (rw (own, up) refl) ∙ e in
    subst Inv (ap (value s) same) (
      held_by t l (rw (update_self s.place t _, update_self s.held t (s.held t - 1), less) counted)
        (Others-kept s t _ s.owner (update s.held t (s.held t - 1)) out
          (λ v n. update_ne s.held t _ v (λ q. n (sym q))) (inr o)))

Move-holder :
    {s : Spin} (t : ℕ) {u : Spin}
    → s.locked ≡ true
    → HoldsAt s t (s.place t)
    → Others s t
    → Move s t u
    → Inv u
unfolding look count_up set_owner set_count clear_owner open_lock
Move-holder {s} t l hold out (looks q w) =
    let (o, k, c, b) : HoldsAt s t ready = rw q at hold in
    let own : owned_by s.owner t ≡ true = ground arith in
    held_by t l (rw (own, update_self s.place t again) (o, k, c, w)) (
      Others-kept s t (if owned_by s.owner t then again else spinning) s.owner s.held out
        (λ u n. refl) (inr o))
Move-holder {s} t l hold out (tests_lock q) = absurd ((rw q at hold))
Move-holder {s} t l hold out (counts_up q) =
    let (o, k, c, b) : HoldsAt s t again = rw q at hold in
    held_by t l
      (rw (update_self s.place t ready, update_self s.held t (s.held t + 1))
        (o, omega arith, (rw c (add64-eq_add (s.held t) 1 b)), b))
      (Others-kept s t ready s.owner (update s.held t (s.held t + 1)) out
        (λ u n. update_ne s.held t _ u (λ e. n (sym e))) (inr o))
Move-holder {s} t l hold out (sets_owner q) =
    let (o, z) : HoldsAt s t taken = rw q at hold in
    held_by t l (rw (update_self s.place t owning) (refl, z))
      (Others-kept s t owning (some t) s.held out (λ u n. refl) (inr refl))
Move-holder {s} t l hold out (sets_count q) =
    let (o, z) : HoldsAt s t owning = rw q at hold in
    held_by t l
      (rw (update_self s.place t ready, update_self s.held t 1) (o, omega arith, refl, omega arith))
      (Others-kept s t ready s.owner (update s.held t 1) out
        (λ u n. update_ne s.held t _ u (λ e. n (sym e))) (inr o))
Move-holder {s} t l hold out (counts_down q h e) = counted_down-Inv s t l (rw q at hold) out e
Move-holder {s} t l hold out (clears_owner q) =
    let (o, z) : HoldsAt s t clearing = rw q at hold in
    held_by t l (rw (update_self s.place t opening) (refl, z))
      (Others-kept s t opening none s.held out (λ u n. refl) (inl refl))
Move-holder {s} t l hold out (opens_lock q) =
    let (o, z) : HoldsAt s t opening = rw q at hold in free refl o (λ u. opened s t u o z out)

-- Every move keeps the invariant.
Move-Inv : {s : Spin} (t : ℕ) {u : Spin} → Inv s → Move s t u → Inv u
unfolding test_and_acquire
Move-Inv {s} t {u} (free l o out) m = elim (Move-Outside t (out t) m) [
  | inl e ↦
      subst Inv (sym e) (free l o (λ v. Outside-moves s t spinning v (inr refl) (out t) (out v)))
  | inr e ↦
      let taken_now : test_and_acquire s t
          ≡ record s { locked = true; place = update s.place t taken } =
        rw l refl in
      subst Inv (sym (e ∙ taken_now)) (
        held_by t refl (rw (update_self s.place t taken) (o, (out t).1))
          (Others-kept s t taken s.owner s.held (λ v n. out v) (λ v n. refl) (inl o)))
]
Move-Inv {s} t {u} (held_by h l hold out) m = elim (ℕ_discrete t h) [
  | yes e ↦ Move-holder t l (rw e hold) (rw e out) m
  | no n ↦ elim (Move-Outside t (out t n) m) [
    | inr e ↦
        let same : test_and_acquire s t ≡ s = rw l refl in
        subst Inv (sym (e ∙ same)) (held_by h l hold out)
    | inl e ↦ subst Inv (sym e) (
        held_by h l (rw (update_ne s.place t spinning h n) hold)
          (λ v q. Outside-moves s t spinning v (inr refl) (out t n) (out v q)))
  ]
]

Reached-Inv : {s : Spin} → Reached s → Inv s
Reached-Inv unlocked = free refl refl (λ u. (inl refl, refl, refl))
Reached-Inv (moved t r m) = Move-Inv t (Reached-Inv r) m

-- In every state that the threads can reach, however their steps interleave, at most one thread
-- has acquisitions that it has not released.
pub spinlock_mutual_exclusion :
    {s : Spin} (t u : ℕ) → Reached s → 0 < s.held t → 0 < s.held u → t ≡ u
spinlock_mutual_exclusion {s} t u r h k = elim (Reached-Inv r) [
  | free l o out ↦ let z = (out t).1 in absurd (omega arith)
  | held_by v l hold out ↦ ground (arith, out t, out u)
]

-- In every reachable state, however the steps interleave, a thread between calls that has
-- acquisitions to release finds itself the owner: its next acquisition does not wait for the base
-- lock, and the Assert of its next release holds.
pub spinlock_owner :
    {s : Spin} (t : ℕ)
    → Reached s
    → s.place t ≡ ready
    → 0 < s.held t
    → ((look s t).place t ≡ again) × (count_down s t ≢ panic)
unfolding look count_down
spinlock_owner {s} t r p h = elim (Reached-Inv r) [
  | free l o out ↦ let z = (out t).1 in absurd (omega arith)
  | held_by v l hold out ↦ elim (ℕ_discrete t v) [
    | no n ↦ let z = (out t n).1 in absurd (omega arith)
    | yes e ↦
        let mine : HoldsAt s t (s.place t) = rw e hold in
        let (o, k, c, b) : HoldsAt s t ready = rw p at mine in
        let own : owned_by s.owner t ≡ true = ground arith in
        let up : ltb 0 s.recursion_count ≡ true = ground arith in
        rw (own, up, update_self s.place t again) (refl, λ q. ground arith)
  ]
]
