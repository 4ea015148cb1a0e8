-- ===== src/Drivers/Tty/Erase.antt =====
-- What erasing does to the characters typed.
use cryptix_os.Drivers.CircularQueue.{QueueOps, first}
use cryptix_os.Drivers.Tty.{
  is_control, then_run, Tty, echo_raw, rub_out, erase_char, erase_while, erase_word,
}
use cryptix_os.Common.{
  ℕ, zero, suc, ◌+◌, ◌<◌, ◌≡◌, refl, sym, ap, ◌∙◌, ◌⊎◌, inl, inr, Bool, true, false, not, ◌&&◌,
  ◌||◌, some, List, [], ◌∷◌, ◌++◌, arith, ◌==◌, if◌then◌else◌, ==_iff, Bool-cases, length,
  length-append, ok,
}

-- The terminal with another queue and another screen.
abbrev pub redrawn : (Q : QueueOps) → Tty Q → Q.Queue → List ℕ → Tty Q
redrawn Q t q screen = record t { raw_buffer = q; screen = screen }

module _ (Q : QueueOps) where
  open Q use {Queue, items, size, back}

  -- Same terminal but for the queue and the screen.
  rub_out-redrawn :
      (count : ℕ) (t : Tty Q) → (s : List ℕ) × (rub_out Q count t ≡ redrawn Q t t.raw_buffer s)
  unfolding rub_out
  rub_out-redrawn zero t = (t.screen, refl)
  rub_out-redrawn (suc count) t = elim (Bool-cases (t.termios.echoes || t.termios.echok)) [
    | inl e ↦
        let (s, h) =
          rub_out-redrawn count (echo_raw Q (echo_raw Q (echo_raw Q t b'\x08') b' ') b'\x08') in
        (s, rw e h)
    | inr e ↦ (t.screen, rw e refl)
  ]

  size-empty : (q : Queue) → items q ≡ [] → (size q == 0) ≡ true
  size-empty q e = let h = Q.size-items q in (==_iff (size q) 0).1 (h ∙ ap length e)

  size-cons : (q : Queue) (b : ℕ) (rest : List ℕ) → items q ≡ b ∷ rest → (size q == 0) ≡ false
  size-cons q b rest e =
      let h : size q ≡ suc (length rest) = Q.size-items q ∙ ap length e in ground arith

  -- In canonical mode EraseChar takes the character at the front of the queue, the oldest one, and
  -- changes nothing else but the screen; on an empty queue it changes nothing.
  erase_char_cases :
      (t : Tty Q)
      → t.termios.icanon ≡ true
      → ((items t.raw_buffer ≡ []) × (erase_char Q t ≡ ok t))
        ⊎ (b : ℕ) × (rest : List ℕ) × (q : Queue) × (s : List ℕ) × ((items t.raw_buffer ≡ b ∷ rest)
            × (items q ≡ rest)
            × (erase_char Q t ≡ ok (redrawn Q t q s)))
  unfolding erase_char
  erase_char_cases t canon = by_items (items t.raw_buffer) refl
    where
      by_items :
          (xs : List ℕ)
          → items t.raw_buffer ≡ xs
          → ((items t.raw_buffer ≡ []) × (erase_char Q t ≡ ok t))
            ⊎ (b : ℕ) × (rest : List ℕ) × (q : Queue) × (s : List ℕ) × ((items t.raw_buffer
                  ≡ b ∷ rest)
                × (items q ≡ rest)
                × (erase_char Q t ≡ ok (redrawn Q t q s)))
      by_items [] e = inl (e, simp (canon, size-empty t.raw_buffer e))
      by_items (b ∷ rest) e =
          let (_, popped) = Q.pop_front-items t.raw_buffer b rest e in
          let q = (Q.pop_front t.raw_buffer).1 in
          let (s, h) =
            rub_out-redrawn (if is_control (Q.pop_front t.raw_buffer).0 then 2 else 1)
              (record t { raw_buffer = q }) in
          inr (b, rest, q, s, (e, popped, simp (canon, size-cons t.raw_buffer b rest e) (ap ok h)))

  abbrev goes_on : Bool → Tty Q → Bool
  goes_on spaces t = if spaces then back t.raw_buffer == b' ' else not (back t.raw_buffer == b' ')

  erase_while_step :
      (fuel : ℕ) (spaces : Bool) (t t' : Tty Q)
      → (size t.raw_buffer == 0) ≡ false
      → goes_on spaces t ≡ true
      → erase_char Q t ≡ ok t'
      → erase_while Q (suc fuel) spaces t ≡ erase_while Q fuel spaces t'
  unfolding erase_while
  erase_while_step fuel spaces t t' some_left g e = simp (some_left, g, e)

  erase_while_stop :
      (fuel : ℕ) (spaces : Bool) (t : Tty Q)
      → (not (size t.raw_buffer == 0) && goes_on spaces t) ≡ false
      → erase_while Q (suc fuel) spaces t ≡ some (ok t)
  unfolding erase_while
  erase_while_stop fuel spaces t h = simp h

  goes_on-last :
      (t : Tty Q) (xs : List ℕ) (x : ℕ) (spaces : Bool)
      → items t.raw_buffer ≡ xs ++ x ∷ []
      → (x == b' ') ≡ spaces
      → goes_on spaces t ≡ true
  goes_on-last t xs x spaces e h = rw (Q.back-items t.raw_buffer x xs e) (ground arith)

  -- A loop of EraseWord that goes on at the last character takes all characters.
  erase_while_all :
      (xs : List ℕ) (x : ℕ) (fuel : ℕ) (spaces : Bool) (t : Tty Q)
      → t.termios.icanon ≡ true
      → items t.raw_buffer ≡ xs ++ x ∷ []
      → (x == b' ') ≡ spaces
      → length xs + 1 < fuel
      → (q : Queue) × (s : List ℕ) × ((items q ≡ [])
          × (erase_while Q fuel spaces t ≡ some (ok (redrawn Q t q s))))
  erase_while_all [] x (suc (suc fuel)) spaces t canon e last_is enough =
      elim (erase_char_cases t canon) [
        | inl (none_left, _) ↦ absurd (cc (e, none_left))
        | inr (b, rest, q, s, (front, left, erased)) ↦
            let empty : items q ≡ [] = left ∙ ap (λ l. (first l).1) (sym front ∙ e) in
            let stop : (not (size q == 0) && goes_on spaces (redrawn Q t q s)) ≡ false =
              rw (size-empty q empty) refl in
            (
              q,
              s,
              (
                empty,
                erase_while_step (suc fuel) spaces t _ (size-cons t.raw_buffer b rest front)
                      (goes_on-last t [] x spaces e last_is) erased
                    ∙ erase_while_stop fuel spaces (redrawn Q t q s) stop,
              ),
            )
      ]
  erase_while_all (y ∷ ys) x (suc fuel) spaces t canon e last_is enough =
      elim (erase_char_cases t canon) [
        | inl (none_left, _) ↦ absurd (cc (e, none_left))
        | inr (b, rest, q, s, (front, left, erased)) ↦
            let less : items q ≡ ys ++ x ∷ [] = left ∙ ap (λ l. (first l).1) (sym front ∙ e) in
            let (q', s', (empty, rest_erased)) =
              erase_while_all ys x fuel spaces (redrawn Q t q s) canon less last_is (omega arith) in
            (
              q',
              s',
              (
                empty,
                erase_while_step fuel spaces t _ (size-cons t.raw_buffer b rest front)
                      (goes_on-last t (y ∷ ys) x spaces e last_is) erased
                    ∙ rest_erased,
              ),
            )
      ]
  erase_while_all xs x zero spaces t canon e last_is enough = absurd (omega arith)
  erase_while_all [] x (suc zero) spaces t canon e last_is enough = absurd (omega arith)

  snoc_view : (xs : List ℕ) → (xs ≡ []) ⊎ (ys : List ℕ) × (x : ℕ) × (xs ≡ ys ++ x ∷ [])
  snoc_view [] = inl refl
  snoc_view (x ∷ xs) = elim (snoc_view xs) [
    | inl e ↦ inr ([], x, ap (λ l. x ∷ l) e)
    | inr (ys, y, e) ↦ inr (x ∷ ys, y, ap (λ l. x ∷ l) e)
  ]

  -- In canonical mode EraseWord always comes back and takes all characters of the line, not only
  -- the last word: its loops look at the back of the queue while EraseChar takes from the front.
  -- Nothing but the queue and the screen changes.
  erase_word_lem :
      (t : Tty Q)
      → t.termios.icanon ≡ true
      → (q : Queue) × (s : List ℕ) × ((items q ≡ [])
          × (erase_word Q t ≡ some (ok (redrawn Q t q s))))
  unfolding erase_word
  erase_word_lem t canon = elim (snoc_view (items t.raw_buffer)) [
    | inl empty ↦
        let stop : (spaces : Bool) → (not (size t.raw_buffer == 0) && goes_on spaces t) ≡ false =
          λ spaces. rw (size-empty t.raw_buffer empty) refl in
        (
          t.raw_buffer,
          t.screen,
          (
            empty,
            ap (λ r. then_run r (λ t'. erase_while Q (suc (size t'.raw_buffer)) true t'))
                  (erase_while_stop (size t.raw_buffer) false t (stop false))
                ∙ erase_while_stop (size t.raw_buffer) true t (stop true),
          ),
        )
    | inr (xs, x, e) ↦
        let enough : length xs + 1 < suc (size t.raw_buffer) = long_enough t xs x e in
        elim (Bool-cases (x == b' ')) [
          | inr other ↦
              let (q, s, (empty, run)) =
                erase_while_all xs x (suc (size t.raw_buffer)) false t canon e other enough in
              let stop : (not (size q == 0) && goes_on true (redrawn Q t q s)) ≡ false =
                rw (size-empty q empty) refl in
              (
                q,
                s,
                (
                  empty,
                  ap (λ r. then_run r (λ t'. erase_while Q (suc (size t'.raw_buffer)) true t')) run
                      ∙ erase_while_stop (size q) true (redrawn Q t q s) stop,
                ),
              )
          | inl space ↦
              let stop : (not (size t.raw_buffer == 0) && goes_on false t) ≡ false =
                rw (Q.back-items t.raw_buffer x xs e, space) (ground arith) in
              let (q, s, (empty, run)) =
                erase_while_all xs x (suc (size t.raw_buffer)) true t canon e space enough in
              (
                q,
                s,
                (
                  empty,
                  ap (λ r. then_run r (λ t'. erase_while Q (suc (size t'.raw_buffer)) true t'))
                        (erase_while_stop (size t.raw_buffer) false t stop)
                      ∙ run,
                ),
              )
        ]
  ]
    where
      long_enough :
          (t : Tty Q) (xs : List ℕ) (x : ℕ)
          → items t.raw_buffer ≡ xs ++ x ∷ []
          → length xs + 1 < suc (size t.raw_buffer)
      long_enough t xs x e =
          omega (arith, Q.size-items t.raw_buffer, ap length e, length-append xs (x ∷ []))
