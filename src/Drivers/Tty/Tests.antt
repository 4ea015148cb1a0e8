-- ===== src/Drivers/Tty/Tests.antt =====
-- A terminal with its default settings, on which the laws are applied.
use cryptix_os.Drivers.CircularQueue.{list_queue}
use cryptix_os.Drivers.Tty.{
  ControlKey, vintr, vquit, verase, vkill, veof, vtime, vmin, vswtc, vstart, vstop, vsusp, veol,
  vreprint, vdiscard, vwerase, vlnext, veol2, default_key, default_termios, normal, take, Tty,
}
use cryptix_os.Drivers.Tty.Input.{send_buffer, read}
use cryptix_os.Drivers.Tty.Input.Lines.{Plain, IsCooked, ended, send_buffer-line, read-send_buffer}
use cryptix_os.Common.{ℕ, min, ◌≡◌, refl, sym, ◌≢◌, none, some, List, [], ◌∷◌, ◌++◌, arith, All, ok}

abbrev idle : Tty list_queue
idle = record {
  termios = default_termios;
  pgid = 4;
  raw_buffer = [];
  line_queue = [];
  state = normal;
  screen = [];
  signals = [];
  line_events = 0;
  raw_events = 0;
}

-- "hi"
abbrev word : List ℕ
word = 104 ∷ 105 ∷ []

h_no_key : (k : ControlKey) → 104 ≢ default_key k
h_no_key vintr = omega arith
h_no_key vquit = omega arith
h_no_key verase = omega arith
h_no_key vkill = omega arith
h_no_key veof = omega arith
h_no_key vtime = omega arith
h_no_key vmin = omega arith
h_no_key vswtc = omega arith
h_no_key vstart = omega arith
h_no_key vstop = omega arith
h_no_key vsusp = omega arith
h_no_key veol = omega arith
h_no_key vreprint = omega arith
h_no_key vdiscard = omega arith
h_no_key vwerase = omega arith
h_no_key vlnext = omega arith
h_no_key veol2 = omega arith

i_no_key : (k : ControlKey) → 105 ≢ default_key k
i_no_key vintr = omega arith
i_no_key vquit = omega arith
i_no_key verase = omega arith
i_no_key vkill = omega arith
i_no_key veof = omega arith
i_no_key vtime = omega arith
i_no_key vmin = omega arith
i_no_key vswtc = omega arith
i_no_key vstart = omega arith
i_no_key vstop = omega arith
i_no_key vsusp = omega arith
i_no_key veol = omega arith
i_no_key vreprint = omega arith
i_no_key vdiscard = omega arith
i_no_key vwerase = omega arith
i_no_key vlnext = omega arith
i_no_key veol2 = omega arith

newline_no_key : (k : ControlKey) → 10 ≢ default_key k
newline_no_key vintr = omega arith
newline_no_key vquit = omega arith
newline_no_key verase = omega arith
newline_no_key vkill = omega arith
newline_no_key veof = omega arith
newline_no_key vtime = omega arith
newline_no_key vmin = omega arith
newline_no_key vswtc = omega arith
newline_no_key vstart = omega arith
newline_no_key vstop = omega arith
newline_no_key vsusp = omega arith
newline_no_key veol = omega arith
newline_no_key vreprint = omega arith
newline_no_key vdiscard = omega arith
newline_no_key vwerase = omega arith
newline_no_key vlnext = omega arith
newline_no_key veol2 = omega arith

idle-IsCooked : IsCooked list_queue idle
idle-IsCooked = record {
  canonical = refl;
  kept = refl;
  at_rest = refl;
  no_key = λ k e. newline_no_key k (sym e);
}

word-Plain : All (Plain default_termios) word
word-Plain = (
  record {
    short = omega arith;
    no_newline = omega arith;
    no_return = omega arith;
    no_backspace = omega arith;
    no_escape = omega arith;
    no_key = h_no_key;
  },
  (
    record {
      short = omega arith;
      no_newline = omega arith;
      no_return = omega arith;
      no_backspace = omega arith;
      no_escape = omega arith;
      no_key = i_no_key;
    },
    tt,
  ),
)

send_buffer-line_example :
    (q s : List ℕ) × ((q ≡ [])
      × (send_buffer list_queue idle (word ++ 10 ∷ [])
          ≡ some (
              ok (record (ended list_queue idle (word ++ 10 ∷ []) q s) {
                state = normal;
                raw_events = 1;
              }))))
send_buffer-line_example =
    send_buffer-line list_queue idle word idle-IsCooked refl word-Plain (omega arith)

read-send_buffer_example :
    (t t' : Tty list_queue) × ((send_buffer list_queue idle (word ++ 10 ∷ []) ≡ some (ok t))
      × (read list_queue t 2 ≡ some (take (min 2 3) (word ++ 10 ∷ []), t'))
      × (read list_queue t' 2 ≡ none))
read-send_buffer_example =
    read-send_buffer list_queue idle word 2 idle-IsCooked refl refl word-Plain (omega arith)

-- "ls -l" typed and not yet ended.
abbrev typing : Tty list_queue
typing = record idle { raw_buffer = 108 ∷ 115 ∷ 32 ∷ 45 ∷ 108 ∷ [] }
