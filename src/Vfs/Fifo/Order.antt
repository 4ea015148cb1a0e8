-- ===== src/Vfs/Fifo/Order.antt =====
-- The order of the bytes in a pipe.
use cryptix_os.Vfs.Ring.{RingOps, take, length-take}
use cryptix_os.Vfs.Fifo.{
  Direction, reading, writing, Round, waits, returns, Fifo, open_end, read, write, clipped,
}
use cryptix_os.Common.{
  ℕ, ◌+◌, ◌≤◌, ◌<◌, min, ◌≡◌, refl, sym, ap, ◌∙◌, inl, inr, ◌||◌, List, [], ◌∷◌, ◌++◌, arith, ◌==◌,
  Bool-cases, length, All, u64_mod, add64-eq_add, Outcome, ok, err, panic,
}

append_assoc : (xs ys zs : List ℕ) → (xs ++ ys) ++ zs ≡ xs ++ (ys ++ zs)
append_assoc [] ys zs = refl
append_assoc (x ∷ xs) ys zs = ap (λ l. x ∷ l) (append_assoc xs ys zs)

append_nil : (xs : List ℕ) → xs ++ [] ≡ xs
append_nil [] = refl
append_nil (x ∷ xs) = ap (λ l. x ∷ l) (append_nil xs)

-- What the caller of Read gets, and what of its bytes the caller of Write gets rid of.
abbrev pub received : Round (List ℕ) → List ℕ
received waits = []
received (returns bytes) = bytes

abbrev pub accepted : List ℕ → Round (Outcome ℕ) → List ℕ
accepted bytes waits = []
accepted bytes (returns (ok n)) = take n bytes
accepted bytes (returns (err _)) = []
accepted bytes (returns panic) = []

pub data Call : Type 0 where
  opens : Direction → Call
  reads : ℕ → Call
  writes : List ℕ → Call

module _ (R : RingOps) where
  open R use {contents, used, capacity}

  -- All bytes that reads got and all that writes got rid of, in the order of the calls, and the
  -- pipe that is left.
  pub run : Fifo R → List Call → List ℕ × List ℕ × Fifo R
  unfolding open_end read write
  run f [] = ([], [], f)
  run f (opens d ∷ cs) = run (open_end R f d) cs
  run f (reads n ∷ cs) =
      let (got, put, f') = run (read R f n).1 cs in (received (read R f n).0 ++ got, put, f')
  run f (writes bytes ∷ cs) =
      let (got, put, f') = run (write R f bytes).1 cs in
      (got, accepted bytes (write R f bytes).0 ++ put, f')

  read-contents :
      (f : Fifo R) (n : ℕ)
      → received (read R f n).0 ++ contents (read R f n).1.buffer ≡ contents f.buffer
  unfolding read
  read-contents f n = elim (Bool-cases (used f.buffer == 0)) [
    | inr some_left ↦ rw some_left (R.read-contents f.buffer (min n (used f.buffer)) (omega arith))
    | inl none_left ↦ elim (Bool-cases (f.writer_count == 0 || f.non_blocking)) [
      | inl e ↦ rw (none_left, e) refl
      | inr e ↦ rw (none_left, e) refl
    ]
  ]

  clipped_bounds :
      (f : Fifo R) (count : ℕ)
      → capacity f.buffer + count < u64_mod
      → (clipped R f count ≤ count) × (used f.buffer + clipped R f count ≤ capacity f.buffer)
  unfolding clipped
  clipped_bounds f count w =
      let b = R.used_bound f.buffer in
      let e = add64-eq_add (used f.buffer) count (omega arith) in ground arith

  write_taken :
      (b : R.Ring) (bytes : List ℕ) (n : ℕ)
      → n ≤ length bytes
      → used b + n ≤ capacity b
      → contents (R.write b (take n bytes)).1
        ≡ contents b ++ take (R.write b (take n bytes)).0 bytes
  write_taken b bytes n short fits =
      let l = length-take n bytes short in
      let h : used b + length (take n bytes) ≤ capacity b = omega arith in
      rw (R.write-length b (take n bytes) h, l) (R.write-contents b (take n bytes) h)

  write-contents :
      (f : Fifo R) (bytes : List ℕ)
      → capacity f.buffer + length bytes < u64_mod
      → contents (write R f bytes).1.buffer
        ≡ contents f.buffer ++ accepted bytes (write R f bytes).0
  unfolding write
  write-contents f bytes w = elim (Bool-cases (f.reader_count == 0)) [
    | inl e ↦ rw e (sym (append_nil _))
    | inr e ↦ elim (Bool-cases (used f.buffer == capacity f.buffer)) [
      | inl full ↦ rw (e, full) (sym (append_nil _))
      | inr room ↦
          let (short, fits) = clipped_bounds f (length bytes) w in
          rw (e, room) (write_taken f.buffer bytes (clipped R f (length bytes)) short fits)
    ]
  ]

  read-capacity : (f : Fifo R) (n : ℕ) → capacity (read R f n).1.buffer ≡ capacity f.buffer
  unfolding read
  read-capacity f n = ground (arith, R.read-capacity f.buffer (min n (used f.buffer)))

  write-capacity :
      (f : Fifo R) (bytes : List ℕ) → capacity (write R f bytes).1.buffer ≡ capacity f.buffer
  unfolding write
  write-capacity f bytes =
      ground (arith, R.write-capacity f.buffer (take (clipped R f (length bytes)) bytes))

  -- The bytes of each Write fit the address space beside a buffer of `room` bytes.
  abbrev pub Small : ℕ → Call → Type 0
  Small room (opens _) = Unit
  Small room (reads _) = Unit
  Small room (writes bytes) = room + length bytes < u64_mod

  -- Whatever calls are made, no byte is lost, invented or put out of order: the bytes that reads
  -- got, then those left in the buffer, are those that were in the buffer, then those that writes
  -- reported as written. The sizes are small enough for the address space.
  pub run_in_order :
      (f : Fifo R) (cs : List Call)
      → All (Small (capacity f.buffer)) cs
      → (run f cs).0 ++ contents (run f cs).2.buffer ≡ contents f.buffer ++ (run f cs).1
  unfolding run open_end
  run_in_order f [] small = sym (append_nil _)
  run_in_order f (opens reading ∷ cs) (_, small) = run_in_order (open_end R f reading) cs small
  run_in_order f (opens writing ∷ cs) (_, small) = run_in_order (open_end R f writing) cs small
  run_in_order f (reads n ∷ cs) (_, small) =
      let ih = run_in_order (read R f n).1 cs (rw (read-capacity f n) small) in
      append_assoc (received (read R f n).0) _ _
      ∙ ap (λ l. received (read R f n).0 ++ l) ih
      ∙ sym (append_assoc (received (read R f n).0) _ _)
      ∙ ap (λ l. l ++ (run (read R f n).1 cs).1) (read-contents f n)
  run_in_order f (writes bytes ∷ cs) (s, small) =
      let ih = run_in_order (write R f bytes).1 cs (rw (write-capacity f bytes) small) in
      ih
      ∙ ap (λ l. l ++ (run (write R f bytes).1 cs).1) (write-contents f bytes s)
      ∙ append_assoc (contents f.buffer) _ _
