-- ===== src/Scheduler/Process/Tests.antt =====
-- A process and its child in the same group, on which the laws are applied.
use cryptix_os.Scheduler.Process.{
  Credentials, Process, Table, store, sid, is_group_leader, set_pgid, set_sid,
}
use cryptix_os.Scheduler.Process.Groups.{
  Known, Led, Followers, int_eq-cases, some_injective, store-Known, store-Led, set_pgid-Led,
  set_sid-Led_iff,
}
use cryptix_os.Common.{
  ◌≡◌, refl, sym, ap, ◌∙◌, ◌↔◌, ◌⊎◌, inl, inr, none, some, [], ◌∷◌, if◌then◌else◌, ℤ, pos, int_eq,
  ok,
}

abbrev credentials_of : ℤ → Credentials
credentials_of pid = record {
  user_id = 7;
  group_id = 7;
  effective_user_id = 7;
  effective_group_id = 7;
  filesystem_user_id = 7;
  filesystem_group_id = 7;
  set_user_id = 7;
  set_group_id = 7;
  session_id = pid;
  process_group_id = pid;
}

abbrev shell : Process
shell = record {
  pid = pos 4;
  children = pos 5 ∷ [];
  credentials = credentials_of (pos 4);
  umask = 18;
}

abbrev child : Process
child = record { pid = pos 5; children = []; credentials = credentials_of (pos 4); umask = 18 }

abbrev empty : Table
empty k = none

abbrev alone : Table
alone = store empty shell

abbrev table : Table
table = store alone child

empty-Known : Known empty
unfolding Known
empty-Known k p e = absurd (cc)

empty-Led : Led empty
unfolding Led
empty-Led k p leader e f = absurd (cc)

table-Known : Known table
table-Known = store-Known alone child (store-Known empty shell empty-Known)

alone-Led : Led alone
alone-Led =
    store-Led empty shell empty-Led (λ leader e apart. absurd (cc)) (λ k q apart e own. absurd (cc))

table-Led : Led table
unfolding int_eq
table-Led =
    store-Led alone child alone-Led (λ leader e apart. ap sid (some_injective e))
      (λ k q apart e own. elim (int_eq-cases (pos 4) k) [
        | inl same ↦ ap sid (sym (some_injective (ap alone same ∙ e)))
        | inr (_, other) ↦
            let f : none ≡ some q = sym (ap (λ b. if b then some shell else none) other) ∙ e in
            absurd (cc)
      ])

-- The shell moves its child to a group of its own.
set_pgid-Led_example :
    Known (set_pgid table shell (pos 5) (pos 0)).1
    × Led (set_pgid table shell (pos 5) (pos 0)).1
    × (((set_pgid table shell (pos 5) (pos 0)).0 ≡ ok tt)
        ⊎ ((set_pgid table shell (pos 5) (pos 0)).1 ≡ table))
unfolding int_eq
set_pgid-Led_example = set_pgid-Led table shell (pos 5) (pos 0) table-Known table-Led refl

-- The child starts a session.
set_sid-Led_iff_example : Led (set_sid table child).1 ↔ Followers table child
unfolding is_group_leader int_eq
set_sid-Led_iff_example = set_sid-Led_iff table child table-Led refl
