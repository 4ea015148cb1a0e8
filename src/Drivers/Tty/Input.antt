-- ===== src/Drivers/Tty/Input.antt =====
-- Input in Kernel/Drivers/TTY.cpp: SendBuffer, and Read.
pub mod Lines
use cryptix_os.Drivers.CircularQueue.{QueueOps}
use cryptix_os.Drivers.Tty.{
  ControlKey, vintr, vquit, verase, vkill, veof, vsusp, veol, vwerase, Termios, InputState, normal,
  escape_sequence, is_key, Run, then_run, sigint, sigquit, take, Tty, send_signal, echo_raw, echo,
  enqueue_char, add_line, kill_line, erase_char, erase_word,
}
use cryptix_os.Common.{
  ℕ, zero, suc, ◌+◌, ◌-◌, ◌*◌, ◌/◌, ◌%◌, ◌^◌, ◌≤◌, ◌<◌, min, ◌≡◌, refl, sym, ap, ◌∙◌, ◌≢◌, ◌↔◌, ◌⊎◌,
  inl, inr, Bool, true, false, not, ◌&&◌, ◌||◌, Option, none, some, List, [], ◌∷◌, ◌++◌, map, arith,
  dec_lt, ℕ_discrete, ltb, leb, ◌==◌, if◌then◌else◌, ltb→lt, lt→ltb, le→not-ltb, not-ltb→le, leb→le,
  ==_iff, tests, Bool-cases, Option-cases, length, get_elem?, set, length-append, All, Inserted,
  here, there, Inserted-All, All-Inserted, All-map, u64_mod, add64, sub64, mul64, add64-eq_add,
  sub64-eq_sub, mul64-eq_mul, sub64-add64, add64-lt, add64_add, add64_add_right, apart_of_disjoint,
  apart_scaled, Errno, eperm, enoent, esrch, ebadf, eagain, enomem, efault, eexist, enotdir, einval,
  epipe, enosys, eisdir, espipe, eoverflow, ℤ, pos, negsuc, i32_max, to_i32, to_i32_small,
  increment, is_negative, int_eq, pos_injective, Outcome, ok, err, panic, ◌>>=◌,
}

module _ (Q : QueueOps) where
  open Q use {size, pop}

  -- A step that takes the character, with whatever an erase comes to.
  abbrev taken : Run (Tty Q) → Run (Bool × Tty Q)
  taken r = then_run r (λ t. some (ok (true, t)))

  -- OnCanonChar: whether it took the character. none only if EraseWord runs out of fuel.
  pub on_canon_char : Tty Q → ℕ → Run (Bool × Tty Q)
  on_canon_char t c =
      let cc = t.termios.cc in
      let echoed = if t.termios.echoes || t.termios.echonl then echo Q t c else t in
      let erases = (is_key c (cc verase) || c == b'\x08') && t.termios.echoe in
      let erases_word = is_key c (cc vwerase) && t.termios.echoe in
      let escaped : Bool = elim t.state [ normal ↦ false | escape_sequence ↦ true ] in
      if escaped
      then some (ok (true, echo_raw Q t c))
      else if is_key c (cc veof)
      then some (ok (true, add_line Q t))
      else if is_key c (cc vkill) && t.termios.echok
      then some (ok (true, kill_line Q t))
      else if erases
      then taken (some (erase_char Q t))
      else if erases_word
      then taken (erase_word Q t)
      else if c == b'\n'
      then some (ok (true, add_line Q (enqueue_char Q echoed c)))
      else if is_key c (cc veol)
      then some (ok (false, add_line Q t))
      else some (ok (false, t))

  -- The end of the loop body of SendBuffer, for a character that OnCanonChar did not take.
  pub accept_char : Tty Q → ℕ → Tty Q
  accept_char t c =
      let queued = enqueue_char Q t c in if t.termios.echoes then echo Q queued c else queued

  -- From IsCanonicalMode() on in the loop body of SendBuffer.
  pub edit_char : Tty Q → ℕ → Run (Tty Q)
  edit_char t c =
      if not t.termios.icanon
      then some (ok (accept_char t c))
      else then_run (on_canon_char t c) (λ r. some (ok (if r.0 then r.1 else accept_char r.1 c)))

  -- The loop body of SendBuffer behind ISTRIP.
  pub send_stripped : Tty Q → ℕ → Run (Tty Q)
  send_stripped t c =
      let cc = t.termios.cc in
      if t.termios.isig && is_key c (cc vintr)
      then some (ok (send_signal Q t sigint))
      else if t.termios.isig && is_key c (cc vquit)
      then some (ok (send_signal Q t sigquit))
      else if t.termios.isig && is_key c (cc vsusp)
      then some (ok (send_signal Q t sigint))
      else if c == b'\n' && t.termios.inlcr
      then edit_char t b'\r'
      else if c == b'\r' && t.termios.igncr
      then some (ok t)
      else if c == b'\r' && t.termios.icrnl
      then edit_char t b'\n'
      else edit_char t c

  -- The loop of SendBuffer.
  pub send_chars : Tty Q → List ℕ → Run (Tty Q)
  send_chars t [] = some (ok t)
  send_chars t (c ∷ cs) =
      then_run (send_stripped t (if t.termios.istrip then c % 128 else c)) (λ t'. send_chars t' cs)

  abbrev pub starts_escape : List ℕ → Bool
  starts_escape [] = false
  starts_escape (c ∷ cs) = c == b'\x1b'

  -- SendBuffer, of one byte or more.
  pub send_buffer : Tty Q → List ℕ → Run (Tty Q)
  send_buffer t bytes =
      let begun = if starts_escape bytes then record t { state = escape_sequence } else t in
      then_run (send_chars begun bytes)
        (λ t'. some (ok (record t' { state = normal; raw_events = t'.raw_events + 1 })))

  -- The loop of Read in raw mode.
  pub read_raw : ℕ → Tty Q → List ℕ × Tty Q
  read_raw zero t = ([], t)
  read_raw (suc count) t =
      let (value, rest) = pop t.raw_buffer in
      let (bytes, t') = read_raw count (record t { raw_buffer = rest }) in (value ∷ bytes, t')

  -- Read once the thread no longer waits. In canonical mode there is then a line; none if not.
  pub read : Tty Q → ℕ → Option (List ℕ × Tty Q)
  read t bytes =
      if t.termios.icanon
      then (elim t.line_queue [
        | [] ↦ none
        | line ∷ lines ↦ some (take (min bytes (length line)) line, record t { line_queue = lines })
      ])
      else some (read_raw (min (size t.raw_buffer) bytes) t)
