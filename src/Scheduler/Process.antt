-- ===== src/Scheduler/Process.antt =====
-- Kernel/Scheduler/Process.{hpp,cpp} and Kernel/API/Process.cpp: the credentials of processes,
-- their groups and sessions. A pointer to a process is its number, under which the table holds it.
pub mod Groups
mod Tests
use cryptix_os.Common.{
  ℕ, zero, suc, ◌+◌, ◌-◌, ◌*◌, ◌/◌, ◌%◌, ◌^◌, ◌≤◌, ◌<◌, min, ◌≡◌, refl, sym, ap, ◌∙◌, ◌≢◌, ◌↔◌, ◌⊎◌,
  inl, inr, Bool, true, false, not, ◌&&◌, ◌||◌, Option, none, some, List, [], ◌∷◌, ◌++◌, map, arith,
  dec_lt, ℕ_discrete, ltb, leb, ◌==◌, if◌then◌else◌, ltb→lt, lt→ltb, le→not-ltb, not-ltb→le, leb→le,
  ==_iff, tests, Bool-cases, Option-cases, length, get_elem?, set, length-append, All, Inserted,
  here, there, Inserted-All, All-Inserted, All-map, u64_mod, add64, sub64, mul64, add64-eq_add,
  sub64-eq_sub, mul64-eq_mul, sub64-add64, add64-lt, add64_add, add64_add_right, apart_of_disjoint,
  apart_scaled, Errno, eperm, enoent, esrch, ebadf, eagain, enomem, efault, eexist, enotdir, einval,
  epipe, enosys, eisdir, espipe, eoverflow, ℤ, pos, negsuc, i32_max, to_i32, to_i32_small,
  increment, to_u64, to_i64, add_i64, to_i64_small, add_i64-eq_add, is_negative, int_eq,
  pos_injective, Outcome, ok, err, panic, ◌>>=◌,
}

pub record Credentials : Type 0 where
  pub user_id : ℕ
  pub group_id : ℕ
  pub effective_user_id : ℕ
  pub effective_group_id : ℕ
  pub filesystem_user_id : ℕ
  pub filesystem_group_id : ℕ
  pub set_user_id : ℕ
  pub set_group_id : ℕ
  pub session_id : ℤ
  pub process_group_id : ℤ

pub record Process : Type 0 where
  pub pid : ℤ
  pub children : List ℤ
  pub credentials : Credentials
  pub umask : ℕ

-- Scheduler::GetProcess: the null pointer is none.
abbrev pub Table : Type 0
Table = ℤ → Option Process

-- What the table holds after a change of the process `p`.
abbrev pub store : Table → Process → Table
store t p k = if int_eq p.pid k then some p else t k

abbrev pub sid : Process → ℤ
sid p = p.credentials.session_id

abbrev pub pgid_of : Process → ℤ
pgid_of p = p.credentials.process_group_id

pub is_group_leader : Process → Bool
is_group_leader p = int_eq p.pid (pgid_of p)

among : ℤ → List ℤ → Bool
among pid [] = false
among pid (child ∷ children) =
    let rest = among pid children in if int_eq pid child then true else rest

-- IsChild
pub is_child : Process → Process → Bool
is_child parent p = among p.pid parent.children

-- Process::SetPGid
pub change_group : Process → ℤ → Process
change_group p pgid = record p { credentials = record (p.credentials) { process_group_id = pgid } }

-- Process::SetSid
pub start_session : Process → Process
start_session p = record p {
  credentials = record (p.credentials) { session_id = p.pid; process_group_id = p.pid };
}

-- Process::SetReUID
set_re_uid : Process → ℕ → ℕ → Process
set_re_uid p ruid euid = record p {
  credentials = record (p.credentials) { user_id = ruid; effective_user_id = euid };
}

-- Process::SetReGID
set_re_gid : Process → ℕ → ℕ → Process
set_re_gid p rgid egid = record p {
  credentials = record (p.credentials) { group_id = rgid; effective_group_id = egid };
}

-- Process::Umask
set_umask : Process → ℕ → ℕ × Process
set_umask p mask = (p.umask, record p { umask = mask })

-- SetPGid from the test of `pgid` on.
pub join_group : Table → Process → ℤ → Outcome {0} Unit × Table
unfolding change_group
join_group t p pgid =
    if int_eq pgid (pos 0)
    then (ok tt, store t (change_group p p.pid))
    else if is_negative pgid
    then (err einval, t)
    else elim (t pgid) [
      | none ↦ (err eperm, t)
      | some leader ↦
          if int_eq (sid p) (sid leader)
          then (ok tt, store t (change_group p pgid))
          else (err eperm, t)
    ]

-- The process that SetPGid is about.
pub target : Table → Process → ℤ → Option Process
target t current pid = if int_eq pid (pos 0) then some current else t pid

-- SetPGid of the process `current`.
pub set_pgid : Table → Process → ℤ → ℤ → Outcome {0} Unit × Table
unfolding target is_child join_group
set_pgid t current pid pgid = elim (target t current pid) [
  | none ↦ (err esrch, t)
  | some p ↦
      if not (int_eq p.pid current.pid) && not (is_child current p)
      then (err eperm, t)
      else join_group t p pgid
]

-- GetPGid
get_pgid : Table → Process → ℤ → Outcome ℤ
unfolding is_child
get_pgid t current pid = if int_eq pid (pos 0) then ok (pgid_of current) else elim (t pid) [
  | none ↦ err eperm
  | some p ↦
      if not (int_eq p.pid current.pid) && not (is_child current p)
      then err eperm
      else ok (pgid_of p)
]

-- GetSid
get_sid : Table → Process → ℤ → Outcome ℤ
get_sid t current pid = if int_eq pid (pos 0) then ok (sid current) else elim (t pid) [
  | none ↦ err esrch
  | some p ↦ if int_eq (sid current) (sid p) then ok (sid p) else err eperm
]

-- SetSid of the process `current`.
pub set_sid : Table → Process → Outcome ℤ × Table
unfolding is_group_leader start_session
set_sid t current =
    if is_group_leader current
    then (err eperm, t)
    else (ok current.pid, store t (start_session current))
