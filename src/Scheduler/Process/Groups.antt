-- ===== src/Scheduler/Process/Groups.antt =====
-- SetPGid and SetSid: a process group lies in one session.
use cryptix_os.Vfs.Map.{int_eq_refl, int_eq_ne}
use cryptix_os.Scheduler.Process.{
  Process, Table, store, sid, pgid_of, is_group_leader, is_child, change_group, start_session,
  join_group, target, set_pgid, set_sid,
}
use cryptix_os.Common.{
  ◌≡◌, refl, sym, ap, ◌∙◌, ◌≢◌, ◌↔◌, ◌⊎◌, inl, inr, true, false, not, ◌&&◌, some, ℕ_discrete,
  if◌then◌else◌, Bool-cases, Option-cases, ℤ, pos, negsuc, is_negative, int_eq, pos_injective,
  magnitude, ok,
}

-- The table holds a process under its number.
unfoldable pub Known : Table → Type 0
Known t = (k : ℤ) (p : Process) → t k ≡ some p → p.pid ≡ k

-- A process is in the session of the process that its group is named after, if there is one.
unfoldable pub Led : Table → Type 0
Led t =
    (k : ℤ) (p leader : Process) → t k ≡ some p → t (pgid_of p) ≡ some leader → sid p ≡ sid leader

pub int_eq-cases : (k j : ℤ) → (k ≡ j) ⊎ ((k ≢ j) × (int_eq k j ≡ false))
unfolding int_eq
int_eq-cases (pos m) (pos n) = elim (ℕ_discrete m n) [
  | yes q ↦ inl (ap pos q)
  | no q ↦
      inr (λ e. q (pos_injective m n e), int_eq_ne (pos m) (pos n) (λ e. q (pos_injective m n e)))
]
int_eq-cases (negsuc m) (negsuc n) = elim (ℕ_discrete m n) [
  | yes q ↦ inl (ap negsuc q)
  | no q ↦ inr (λ e. q (ap magnitude e), int_eq_ne (negsuc m) (negsuc n) (λ e. q (ap magnitude e)))
]
int_eq-cases (pos m) (negsuc n) = inr (λ e. absurd (cc), refl)
int_eq-cases (negsuc m) (pos n) = inr (λ e. absurd (cc), refl)

pub some_injective : {p q : Process} → some p ≡ some q → p ≡ q
some_injective e = cc

store-same : (t : Table) (p : Process) → store t p p.pid ≡ some p
store-same t p = rw (int_eq_refl p.pid) refl

store-other : (t : Table) (p : Process) (k : ℤ) → p.pid ≢ k → store t p k ≡ t k
store-other t p k h = rw (int_eq_ne p.pid k h) refl

-- Replacing the process `p` keeps the table known.
pub store-Known : (t : Table) (p : Process) → Known t → Known (store t p)
unfolding Known
store-Known t p known k q e = elim (int_eq-cases p.pid k) [
  | inl same ↦
      let f : some p ≡ some q = sym (store-same t p) ∙ ap (store t p) same ∙ e in
      ap (λ r. Process.pid r) (sym (some_injective f)) ∙ same
  | inr (apart, _) ↦ known k q (sym (store-other t p k apart) ∙ e)
]

-- Replacing the process `p` keeps groups in one session, if `p` is in the session of its leader
-- and those whose group is named after it are in its session.
pub store-Led :
    (t : Table) (p : Process)
    → Led t
    → ((leader : Process) → t (pgid_of p) ≡ some leader → p.pid ≢ pgid_of p → sid p ≡ sid leader)
    → ((k : ℤ) (q : Process) → p.pid ≢ k → t k ≡ some q → pgid_of q ≡ p.pid → sid q ≡ sid p)
    → Led (store t p)
unfolding Led
store-Led t p led follows leads k q leader e f = elim (int_eq-cases p.pid k) [
  | inl same ↦
      let g : p ≡ q = some_injective (sym (store-same t p) ∙ ap (store t p) same ∙ e) in
      let h : store t p (pgid_of p) ≡ some leader = ap (λ r. store t p (pgid_of r)) g ∙ f in
      ap sid (sym g) ∙ elim (int_eq-cases p.pid (pgid_of p)) [
        | inl own ↦ ap sid (some_injective (sym (store-same t p) ∙ ap (store t p) own ∙ h))
        | inr (apart, _) ↦ follows leader (sym (store-other t p (pgid_of p) apart) ∙ h) apart
      ]
  | inr (apart, _) ↦
      let g : t k ≡ some q = sym (store-other t p k apart) ∙ e in
      elim (int_eq-cases p.pid (pgid_of q)) [
        | inl own ↦
            leads k q apart g (sym own)
            ∙ ap sid (some_injective (sym (store-same t p) ∙ ap (store t p) own ∙ f))
        | inr (away, _) ↦ led k q leader g (sym (store-other t p (pgid_of q) away) ∙ f)
      ]
]

-- A process changes its group within its session.
change_group-Led :
    (t : Table) (p : Process) (pgid : ℤ)
    → Led t
    → t p.pid ≡ some p
    → ((leader : Process) → t pgid ≡ some leader → p.pid ≢ pgid → sid p ≡ sid leader)
    → Led (store t (change_group p pgid))
unfolding change_group Led
change_group-Led t p pgid led here_ follows =
    store-Led t (change_group p pgid) led follows
      (λ k q apart e own. led k q p e (ap t own ∙ here_))

join_group-kept :
    (t : Table) (p : Process) (pgid : ℤ)
    → Known t
    → Led t
    → t p.pid ≡ some p
    → Known (join_group t p pgid).1
      × Led (join_group t p pgid).1
      × (((join_group t p pgid).0 ≡ ok tt) ⊎ ((join_group t p pgid).1 ≡ t))
unfolding join_group
join_group-kept t p pgid known led found = elim (Bool-cases (int_eq pgid (pos 0))) [
  | inl zero_ ↦
      rw (join_group, zero_)
        (
          store-Known t (change_group p p.pid) known,
          change_group-Led t p p.pid led found (λ l e apart. absurd (apart refl)),
          inl refl,
        )
  | inr named ↦ elim (Bool-cases (is_negative pgid)) [
    | inl negative ↦ rw (join_group, named, negative) (known, led, inr refl)
    | inr natural ↦ elim (Option-cases (t pgid)) [
      | inl gone ↦ rw (join_group, named, natural, gone) (known, led, inr refl)
      | inr (leader, present) ↦ elim (int_eq-cases (sid p) (sid leader)) [
        | inl same ↦
            let one : int_eq (sid p) (sid leader) ≡ true =
              ap (int_eq (sid p)) (sym same) ∙ int_eq_refl (sid p) in
            rw (join_group, named, natural, present, one)
              (
                store-Known t (change_group p pgid) known,
                change_group-Led t p pgid led found
                    (λ l f _. same ∙ ap sid (some_injective (sym present ∙ f))),
                inl refl,
              )
        | inr (_, apart) ↦ rw (join_group, named, natural, present, apart) (known, led, inr refl)
      ]
    ]
  ]
]

-- The process that SetPGid is about is in the table.
target-found :
    (t : Table) (current p : Process) (pid : ℤ)
    → Known t
    → t current.pid ≡ some current
    → target t current pid ≡ some p
    → t p.pid ≡ some p
unfolding target Known
target-found t current p pid known running e = elim (Bool-cases (int_eq pid (pos 0))) [
  | inl zero_ ↦
      let own : current ≡ p =
        some_injective (sym (ap (λ b. if b then some current else t pid) zero_) ∙ e) in
      ap (λ q. t (Process.pid q)) (sym own) ∙ running ∙ ap some own
  | inr named ↦
      let other : t pid ≡ some p = sym (ap (λ b. if b then some current else t pid) named) ∙ e in
      ap t (known pid p other) ∙ other
]

-- SetPGid, whatever it answers, keeps every process under its number and every process in the
-- session of the process that its group is named after, when the table holds the calling process
-- and both were so before; it answers 0, or the table is as it was.
pub set_pgid-Led :
    (t : Table) (current : Process) (pid pgid : ℤ)
    → Known t
    → Led t
    → t current.pid ≡ some current
    → Known (set_pgid t current pid pgid).1
      × Led (set_pgid t current pid pgid).1
      × (((set_pgid t current pid pgid).0 ≡ ok tt) ⊎ ((set_pgid t current pid pgid).1 ≡ t))
unfolding set_pgid
set_pgid-Led t current pid pgid known led running = elim (Option-cases (target t current pid)) [
  | inl gone ↦ rw (set_pgid, gone) (known, led, inr refl)
  | inr (p, found) ↦
      elim (Bool-cases (not (int_eq p.pid current.pid) && not (is_child current p))) [
        | inl strange ↦ rw (set_pgid, found, strange) (known, led, inr refl)
        | inr ours ↦
            rw (set_pgid, found, ours)
              (join_group-kept t p pgid known led
                (target-found t current p pid known running found))
      ]
]

-- The other processes whose group is named after `p` are in the session that is named after `p`.
pub Followers : Table → Process → Type 0
Followers t p = (k : ℤ) (q : Process) → p.pid ≢ k → t k ≡ some q → pgid_of q ≡ p.pid → sid q ≡ p.pid

-- After SetSid of a process that is no group leader, every process is in the session of the process
-- that its group is named after exactly if the other processes whose group is named after the
-- caller already were in the session of that name, when before the call every process was in the
-- session of the process that its group is named after.
pub set_sid-Led_iff :
    (t : Table) (current : Process)
    → Led t
    → is_group_leader current ≡ false
    → Led (set_sid t current).1 ↔ Followers t current
unfolding set_sid Followers start_session Led
set_sid-Led_iff t current led no_leader =
    let new : Process = start_session current in
    rw (set_sid, no_leader)
      (
        λ after k q apart e own.
            after k q new (store-other t new k apart ∙ e) (ap (store t new) own ∙ store-same t new),
        λ followers. store-Led t new led (λ l e apart. absurd (apart refl)) followers,
      )
