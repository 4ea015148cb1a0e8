-- ===== src/Drivers/Tty/Input/Lines.antt =====
-- Lines typed and read in canonical mode.
use mathlib.Core.List.{append_assoc, append-nil}
use cryptix_os.Drivers.CircularQueue.{QueueOps}
use cryptix_os.Drivers.Tty.{
  ControlKey, Termios, normal, escape_sequence, is_key, Run, then_run, take, Tty, echo_raw, echo,
  enqueue_char, drain, add_line,
}
use cryptix_os.Drivers.Tty.Input.{
  on_canon_char, accept_char, edit_char, send_stripped, send_chars, starts_escape, send_buffer,
  read,
}
use cryptix_os.Drivers.Tty.Erase.{redrawn}
use cryptix_os.Common.{
  ℕ, suc, ◌+◌, ◌%◌, ◌≤◌, ◌<◌, min, ◌≡◌, refl, sym, ap, ◌∙◌, ◌≢◌, inl, inr, Bool, true, false, ◌&&◌,
  ◌||◌, none, some, List, [], ◌∷◌, ◌++◌, arith, ◌==◌, if◌then◌else◌, Bool-cases, length,
  length-append, All, ok, err, panic,
}

-- A character that the line discipline only puts in the queue: a 7-bit one that is neither a
-- line end, a backspace nor an escape, nor one of the control characters.
pub record Plain (termios : Termios) (c : ℕ) : Type 0 where
  pub short : c < 128
  pub no_newline : c ≢ b'\n'
  pub no_return : c ≢ b'\r'
  pub no_backspace : c ≢ b'\x08'
  pub no_escape : c ≢ b'\x1b'
  pub no_key : (k : ControlKey) → c ≢ termios.cc k

and-false : (b : Bool) → (b && false) ≡ false
and-false true = refl
and-false false = refl

Plain-key : (tm : Termios) (c : ℕ) → Plain tm c → (k : ControlKey) → is_key c (tm.cc k) ≡ false
Plain-key tm c p k = let n = p.no_key k in ground arith

then_run_assoc :
    {A B C : Type 0} (r : Run A) (f : A → Run B) (h : A → Run C) (g : B → Run C)
    → ((a : A) → h a ≡ then_run (f a) g)
    → then_run r h ≡ then_run (then_run r f) g
then_run_assoc none f h g e = refl
then_run_assoc (some (ok a)) f h g e = e a
then_run_assoc (some (err _)) f h g e = refl
then_run_assoc (some panic) f h g e = refl

module _ (Q : QueueOps) where
  open Q use {Queue, items, size}

  send-Plain :
      (t : Tty Q) (c : ℕ)
      → t.termios.icanon ≡ true
      → t.state ≡ normal
      → Plain t.termios c
      → send_stripped Q t (if t.termios.istrip then c % 128 else c) ≡ some (ok (accept_char Q t c))
  unfolding send_stripped edit_char on_canon_char
  send-Plain t c canon st p =
      let strip : (if t.termios.istrip then c % 128 else c) ≡ c =
        let h = p.short in let e : c % 128 ≡ c = omega arith in ground arith in
      let key = Plain-key t.termios c p in
      let newline : (c == b'\n') ≡ false = let n = p.no_newline in ground arith in
      let return : (c == b'\r') ≡ false = let n = p.no_return in ground arith in
      let backspace : (c == b'\x08') ≡ false = let n = p.no_backspace in ground arith in
      simp (strip, key, newline, return, backspace, canon, st, and-false)

  echo-redrawn : (t : Tty Q) (c : ℕ) → (s : List ℕ) × (echo Q t c ≡ redrawn Q t t.raw_buffer s)
  unfolding echo echo_raw
  echo-redrawn t c = elim (Bool-cases t.termios.opost) [
    | inr raw ↦ (t.screen ++ c ∷ [], simp raw)
    | inl post ↦ elim (Bool-cases (c == b'\n' && t.termios.onlcr)) [
      | inl e ↦ elim (Bool-cases (c == b'\r' && t.termios.onlret)) [
        | inl r ↦ (t.screen ++ b'\r' ∷ [], simp (post, e, r))
        | inr r ↦ ((t.screen ++ b'\r' ∷ []) ++ c ∷ [], simp (post, e, r))
      ]
      | inr e ↦ elim (Bool-cases (c == b'\r' && t.termios.onlret)) [
        | inl r ↦ (t.screen, simp (post, e, r))
        | inr r ↦ (t.screen ++ c ∷ [], simp (post, e, r))
      ]
    ]
  ]

  accept-redrawn :
      (t : Tty Q) (c : ℕ)
      → (s : List ℕ) × (accept_char Q t c ≡ redrawn Q t (Q.push t.raw_buffer c) s)
  unfolding accept_char enqueue_char
  accept-redrawn t c = elim (Bool-cases t.termios.echoes) [
    | inl e ↦ let (s, h) = echo-redrawn (enqueue_char Q t c) c in (s, simp (e, h))
    | inr e ↦ (t.screen, simp e)
  ]

  send_chars-Plain :
      (xs : List ℕ) (t : Tty Q)
      → t.termios.icanon ≡ true
      → t.state ≡ normal
      → All (Plain t.termios) xs
      → length (items t.raw_buffer) + length xs ≤ Q.capacity
      → (q : Queue) × (s : List ℕ) × ((items q ≡ items t.raw_buffer ++ xs)
          × (send_chars Q t xs ≡ some (ok (redrawn Q t q s))))
  unfolding send_chars
  send_chars-Plain [] t canon st plain room = (t.raw_buffer, t.screen, (sym (append-nil _), refl))
  send_chars-Plain (c ∷ cs) t canon st (p, ps) room =
      let (s, accepted) = accept-redrawn t c in
      let pushed = Q.push-items t.raw_buffer c (omega arith) in
      let longer = ap length pushed ∙ length-append (items t.raw_buffer) (c ∷ []) in
      let (q, s', (e, run)) =
        send_chars-Plain cs (redrawn Q t (Q.push t.raw_buffer c) s) canon st ps (omega arith) in
      (
        q,
        s',
        (
          e ∙ ap (λ l. l ++ cs) pushed ∙ append_assoc (items t.raw_buffer) (c ∷ []) cs,
          ap (λ r. then_run r (λ t'. send_chars Q t' cs))
                (send-Plain t c canon st p ∙ ap (λ u. some (ok u)) accepted)
              ∙ run,
        ),
      )

  send_chars-append :
      (xs ys : List ℕ) (t : Tty Q)
      → send_chars Q t (xs ++ ys) ≡ then_run (send_chars Q t xs) (λ t'. send_chars Q t' ys)
  unfolding send_chars
  send_chars-append [] ys t = refl
  send_chars-append (x ∷ xs) ys t =
      then_run_assoc (send_stripped Q t (if t.termios.istrip then x % 128 else x))
        (λ t'. send_chars Q t' xs) (λ t'. send_chars Q t' (xs ++ ys)) (λ t'. send_chars Q t' ys)
        (send_chars-append xs ys)

  drain-items : (xs : List ℕ) (q : Queue) → items q ≡ xs → (drain Q (length xs) q).0 ≡ xs
  unfolding drain
  drain-items [] q e = refl
  drain-items (x ∷ xs) q e =
      let (v, rest) = Q.pop-items q x xs e in
      let sized : size q ≡ suc (length xs) = Q.size-items q ∙ ap length e in
      let some_left : (size q == 0) ≡ false = ground arith in
      simp (some_left, v, drain-items xs (Q.pop q).1 rest)

  -- The terminal after a line end: the queue is a line more.
  pub ended : Tty Q → List ℕ → Queue → List ℕ → Tty Q
  ended t line q s = record t {
    raw_buffer = q;
    screen = s;
    line_queue = t.line_queue ++ line ∷ [];
    line_events = t.line_events + 1;
  }

  add_line-ended :
      (t : Tty Q)
      → (q : Queue) × ((items q ≡ []) × (add_line Q t ≡ ended t (items t.raw_buffer) q t.screen))
  unfolding add_line ended
  add_line-ended t =
      let sized = Q.size-items t.raw_buffer in
      let line =
        ap (λ n. (drain Q n t.raw_buffer).0) sized
        ∙ drain-items (items t.raw_buffer) t.raw_buffer refl in
      (Q.clear (drain Q (size t.raw_buffer) t.raw_buffer).1, (Q.clear-items _, simp line))

  strip_newline : (b : Bool) → (if b then b'\n' % 128 else b'\n') ≡ b'\n'
  strip_newline true = refl
  strip_newline false = refl

  newline_taken :
      (t : Tty Q)
      → t.termios.icanon ≡ true
      → t.termios.inlcr ≡ false
      → t.state ≡ normal
      → ((k : ControlKey) → t.termios.cc k ≢ b'\n')
      → send_chars Q t (b'\n' ∷ [])
        ≡ some (
            ok (
              add_line Q (
                enqueue_char Q
                  (if t.termios.echoes || t.termios.echonl then echo Q t b'\n' else t)
                  b'\n')))
  unfolding send_chars send_stripped edit_char on_canon_char
  newline_taken t canon keep st key =
      let no_key : (k : ControlKey) → is_key b'\n' (t.termios.cc k) ≡ false =
        λ k. let n = key k in ground arith in
      ap (λ c. then_run (send_stripped Q t c) (λ t'. some (ok t'))) (strip_newline t.termios.istrip)
      ∙ simp (no_key, keep, canon, st, and-false)

  send_newline :
      (t : Tty Q)
      → t.termios.icanon ≡ true
      → t.termios.inlcr ≡ false
      → t.state ≡ normal
      → ((k : ControlKey) → t.termios.cc k ≢ b'\n')
      → length (items t.raw_buffer) < Q.capacity
      → (q : Queue) × (s : List ℕ) × ((items q ≡ [])
          × (send_chars Q t (b'\n' ∷ [])
              ≡ some (ok (ended t (items t.raw_buffer ++ b'\n' ∷ []) q s))))
  unfolding enqueue_char ended
  send_newline t canon keep st key room =
      let (s, echoed) = echoed_newline in
      let pushed = Q.push-items t.raw_buffer b'\n' room in
      let (q, (empty, line)) = add_line-ended (redrawn Q t (Q.push t.raw_buffer b'\n') s) in
      (
        q,
        s,
        (
          empty,
          newline_taken t canon keep st key
              ∙ ap (λ u. some (ok (add_line Q (enqueue_char Q u b'\n')))) echoed
              ∙ ap (λ u. some (ok u)) line
              ∙ ap (λ l. some (ok (ended t l q s))) pushed,
        ),
      )
    where
      echoed_newline :
          (s : List ℕ) × ((if t.termios.echoes || t.termios.echonl then echo Q t b'\n' else t)
            ≡ redrawn Q t t.raw_buffer s)
      echoed_newline = elim (Bool-cases (t.termios.echoes || t.termios.echonl)) [
        | inl e ↦ let (s, h) = echo-redrawn t b'\n' in (s, simp (e, h))
        | inr e ↦ (t.screen, simp e)
      ]

  -- A terminal in canonical mode that takes line ends as they are.
  pub record IsCooked (t : Tty Q) : Type 0 where
    pub canonical : t.termios.icanon ≡ true
    pub kept : t.termios.inlcr ≡ false
    pub at_rest : t.state ≡ normal
    pub no_key : (k : ControlKey) → t.termios.cc k ≢ b'\n'

  -- In canonical mode, with line ends taken as they are, a line of plain characters and a line end
  -- that is typed into an empty queue with room for it
  -- is put into the line queue as one line, exactly as typed, and the queue is empty again; no
  -- signal is sent, and whoever waits for a line is woken once.
  pub send_buffer-line :
      (t : Tty Q) (xs : List ℕ)
      → IsCooked t
      → items t.raw_buffer ≡ []
      → All (Plain t.termios) xs
      → length xs < Q.capacity
      → (q : Queue) × (s : List ℕ) × ((items q ≡ [])
          × (send_buffer Q t (xs ++ b'\n' ∷ [])
              ≡ some (
                  ok (record (ended t (xs ++ b'\n' ∷ []) q s) {
                    state = normal;
                    raw_events = t.raw_events + 1;
                  }))))
  unfolding send_buffer ended
  send_buffer-line t xs cooked empty plain room =
      let none_yet = ap length empty in
      let (q, s, (filled, run)) =
        send_chars-Plain xs t cooked.canonical cooked.at_rest plain (omega arith) in
      let here = filled ∙ ap (λ l. l ++ xs) empty in
      let (q', s', (empty', run')) =
        send_newline (redrawn Q t q s) cooked.canonical cooked.kept cooked.at_rest cooked.no_key
          (omega (arith, ap length here)) in
      let finish : Tty Q → Run (Tty Q) =
        λ t'. some (ok (record t' { state = normal; raw_events = t'.raw_events + 1 })) in
      (
        q',
        s',
        (
          empty',
          ap
                (λ (b : Bool).
                  then_run
                    (send_chars Q (if b then record t { state = escape_sequence } else t)
                      (xs ++ b'\n' ∷ []))
                    finish)
                (no_escape xs plain)
              ∙ ap (λ r. then_run r finish)
                  (send_chars-append xs (b'\n' ∷ []) t
                    ∙ ap (λ r. then_run r (λ t'. send_chars Q t' (b'\n' ∷ []))) run
                    ∙ run')
              ∙ ap (λ l. finish (ended t (l ++ b'\n' ∷ []) q' s')) here,
        ),
      )
    where
      no_escape :
          (ys : List ℕ) → All (Plain t.termios) ys → starts_escape Q (ys ++ b'\n' ∷ []) ≡ false
      no_escape [] _ = refl
      no_escape (y ∷ ys) (p, _) = let n = p.no_escape in ground arith

  -- What is typed is what is read: a line of plain characters and a line end, typed into an empty
  -- queue with room for it in canonical mode while no line waits, is handed to the next read, but
  -- only as many bytes of it as that read has room for. The others are lost: no line is left for
  -- the read after it.
  pub read-send_buffer :
      (t : Tty Q) (xs : List ℕ) (bytes : ℕ)
      → IsCooked t
      → items t.raw_buffer ≡ []
      → t.line_queue ≡ []
      → All (Plain t.termios) xs
      → length xs < Q.capacity
      → (t' t'' : Tty Q) × ((send_buffer Q t (xs ++ b'\n' ∷ []) ≡ some (ok t'))
          × (read Q t' bytes
              ≡ some (take (min bytes (length (xs ++ b'\n' ∷ []))) (xs ++ b'\n' ∷ []), t''))
          × (read Q t'' bytes ≡ none))
  unfolding read ended
  read-send_buffer t xs bytes cooked empty none_waiting plain room =
      let (q, s, (_, sent)) = send_buffer-line t xs cooked empty plain room in
      let line = xs ++ b'\n' ∷ [] in
      let t' = record (ended t line q s) { state = normal; raw_events = t.raw_events + 1 } in
      let one : t'.line_queue ≡ line ∷ [] = ap (λ l. l ++ line ∷ []) none_waiting in
      (
        t',
        record t' { line_queue = [] },
        (sent, simp (cooked.canonical, one), simp (cooked.canonical)),
      )
