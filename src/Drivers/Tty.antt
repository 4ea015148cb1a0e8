-- ===== src/Drivers/Tty.antt =====
-- Kernel/Drivers/TTY.{hpp,cpp}: terminals between the keyboard, the screen and the processes that
-- read. Characters are bytes. The circular queue is Prism's; the screen is the list of characters
-- put on it. Each operation on the queue is under the lock, and calls of SendBuffer do not overlap.
pub mod Input
pub mod Erase
mod Tests
use cryptix_os.Drivers.CircularQueue.{QueueOps}
use cryptix_os.Common.{
  ℕ, zero, suc, ◌+◌, ◌-◌, ◌*◌, ◌/◌, ◌%◌, ◌^◌, ◌≤◌, ◌<◌, min, ◌≡◌, refl, sym, ap, ◌∙◌, ◌≢◌, ◌↔◌, ◌⊎◌,
  inl, inr, Bool, true, false, not, ◌&&◌, ◌||◌, Option, none, some, List, [], ◌∷◌, ◌++◌, map, arith,
  dec_lt, ℕ_discrete, ltb, leb, ◌==◌, if◌then◌else◌, ltb→lt, lt→ltb, le→not-ltb, not-ltb→le, leb→le,
  ==_iff, tests, Bool-cases, Option-cases, length, get_elem?, set, length-append, All, Inserted,
  here, there, Inserted-All, All-Inserted, All-map, u64_mod, add64, sub64, mul64, add64-eq_add,
  sub64-eq_sub, mul64-eq_mul, sub64-add64, add64-lt, add64_add, add64_add_right, apart_of_disjoint,
  apart_scaled, Errno, eperm, enoent, esrch, ebadf, eagain, enomem, efault, eexist, enotdir, einval,
  epipe, enosys, eisdir, espipe, eoverflow, ℤ, pos, negsuc, i32_max, to_i32, to_i32_small,
  increment, is_negative, int_eq, pos_injective, Outcome, ok, err, panic, ◌>>=◌,
}

-- The indices into c_cc.
pub data ControlKey : Type 0 where
  vintr vquit verase vkill veof vtime vmin vswtc vstart vstop : ControlKey
  vsusp veol vreprint vdiscard vwerase vlnext veol2 : ControlKey

-- termios2: the flags that the code reads, bit by bit, and the control characters.
pub record Termios : Type 0 where
  pub istrip : Bool
  pub inlcr : Bool
  pub igncr : Bool
  pub icrnl : Bool
  pub opost : Bool
  pub onlcr : Bool
  pub onlret : Bool
  pub isig : Bool
  pub icanon : Bool
  pub echoes : Bool
  pub echoe : Bool
  pub echok : Bool
  pub echonl : Bool
  pub cc : ControlKey → ℕ

abbrev pub default_key : ControlKey → ℕ
default_key vintr = 3
default_key vquit = 28
default_key verase = 127
default_key vkill = 21
default_key veof = 4
default_key vtime = 0
default_key vmin = 1
default_key vswtc = 0
default_key vstart = 17
default_key vstop = 19
default_key vsusp = 26
default_key veol = 0
default_key vreprint = 18
default_key vdiscard = 15
default_key vwerase = 23
default_key vlnext = 22
default_key veol2 = 0

abbrev pub default_termios : Termios
default_termios = record {
  istrip = false;
  inlcr = false;
  igncr = false;
  icrnl = true;
  opost = true;
  onlcr = true;
  onlret = false;
  isig = true;
  icanon = true;
  echoes = true;
  echoe = true;
  echok = true;
  echonl = false;
  cc = default_key;
}

pub data InputState : Type 0 where
  normal escape_sequence : InputState

-- A char is signed and a control character is not: bytes from 128 on match none.
abbrev pub is_key : ℕ → ℕ → Bool
is_key c key = ltb c 128 && c == key

-- IsControl
abbrev pub is_control : ℕ → Bool
is_control c = leb 128 c || (ltb c 32 || c == 127)

abbrev pub sigint : ℕ
sigint = 2

abbrev pub sigquit : ℕ
sigquit = 3

-- The first `n` elements, and the others.
abbrev pub take : ℕ → List ℕ → List ℕ
take zero xs = []
take (suc n) [] = []
take (suc n) (x ∷ xs) = x ∷ take n xs

-- A computation that may run out of fuel (none).
abbrev pub Run : Type 0 → Type 0
Run A = Option (Outcome A)

abbrev pub then_run : {A B : Type 0} → Run A → (A → Run B) → Run B
then_run none f = none
then_run (some (ok a)) f = f a
then_run (some (err e)) f = some (err e)
then_run (some panic) f = some panic

module _ (Q : QueueOps) where
  open Q use {Queue, size, push, pop, pop_front, back}

  -- `screen` holds the characters put on the terminal, `signals` the signals sent with the process
  -- group; the counters hold how often m_OnAddLine and m_RawEvent were triggered.
  pub record Tty : Type 0 where
    pub termios : Termios
    pub pgid : ℕ
    pub raw_buffer : Queue
    pub line_queue : List (List ℕ)
    pub state : InputState
    pub screen : List ℕ
    pub signals : List (ℕ × ℕ)
    pub line_events : ℕ
    pub raw_events : ℕ

  pub set_termios : Tty → Termios → Tty
  set_termios t termios = record t { termios = termios; raw_buffer = Q.clear t.raw_buffer }

  pub send_signal : Tty → ℕ → Tty
  send_signal t signal =
      if t.pgid == 0 then t else record t { signals = t.signals ++ (t.pgid, signal) ∷ [] }

  pub echo_raw : Tty → ℕ → Tty
  echo_raw t c = record t { screen = t.screen ++ c ∷ [] }

  pub echo : Tty → ℕ → Tty
  echo t c =
      let expanded = if c == b'\n' && t.termios.onlcr then echo_raw t b'\r' else t in
      if not t.termios.opost
      then echo_raw t c
      else if c == b'\r' && t.termios.onlret
      then expanded
      else echo_raw expanded c

  pub enqueue_char : Tty → ℕ → Tty
  enqueue_char t c = record t { raw_buffer = push t.raw_buffer c }

  -- while (!m_RawBuffer.Empty()) line += m_RawBuffer.Pop();
  pub drain : ℕ → Queue → List ℕ × Queue
  drain zero q = ([], q)
  drain (suc fuel) q =
      let (line, rest) = drain fuel (pop q).1 in
      if size q == 0 then ([], q) else ((pop q).0 ∷ line, rest)

  pub add_line : Tty → Tty
  unfolding drain
  add_line t =
      let (line, rest) = drain (size t.raw_buffer) t.raw_buffer in
      record t {
        line_queue = t.line_queue ++ line ∷ [];
        raw_buffer = Q.clear rest;
        line_events = t.line_events + 1;
      }

  -- KillLine and FlushInput
  pub kill_line : Tty → Tty
  kill_line t = record t { raw_buffer = Q.clear t.raw_buffer }

  pub rub_out : ℕ → Tty → Tty
  unfolding echo_raw
  rub_out zero t = t
  rub_out (suc count) t =
      let rubbed = echo_raw (echo_raw (echo_raw t b'\x08') b' ') b'\x08' in
      if t.termios.echoes || t.termios.echok then rub_out count rubbed else t

  pub erase_char : Tty → Outcome Tty
  unfolding rub_out
  erase_char t =
      let (c, rest) = pop_front t.raw_buffer in
      if not t.termios.icanon
      then panic
      else if size t.raw_buffer == 0
      then ok t
      else ok (rub_out (if is_control c then 2 else 1) (record t { raw_buffer = rest }))

  -- A loop of EraseWord, while the last character is a space, or is none; on fuel, none when it
  -- runs out.
  pub erase_while : ℕ → Bool → Tty → Run Tty
  erase_while zero spaces t = none
  erase_while (suc fuel) spaces t =
      let again = then_run (some (erase_char t)) (erase_while fuel spaces) in
      let goes_on = if spaces then back t.raw_buffer == b' ' else not (back t.raw_buffer == b' ') in
      if not (size t.raw_buffer == 0) && goes_on then again else some (ok t)

  -- EraseWord. A round takes one character, so the size of the queue and one is fuel enough.
  pub erase_word : Tty → Run Tty
  erase_word t =
      then_run (erase_while (suc (size t.raw_buffer)) false t)
        (λ t'. erase_while (suc (size t'.raw_buffer)) true t')
