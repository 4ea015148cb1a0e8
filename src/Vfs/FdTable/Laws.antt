-- ===== src/Vfs/FdTable/Laws.antt =====
-- Insert, Erase and the numbers that they hand out.
use cryptix_os.Vfs.Map.{MapOps}
use cryptix_os.Vfs.FdTable.{FdTable, get_fd, is_valid, insert, erase, close_fd, dup_at}
use cryptix_os.Common.{
  ℕ, ◌+◌, ◌≤◌, ◌<◌, ◌≡◌, refl, ◌∙◌, ◌≢◌, ◌⊎◌, inl, inr, true, false, none, some, arith, Bool-cases,
  Option-cases, ebadf, ℤ, pos, i32_max, to_i32, to_i32_small, increment, is_negative, pos_injective,
  ok, err,
}

-- No number from `n` on is in use.
abbrev IsBelow : {D : Type 0} (M : MapOps D) → ℕ → FdTable M → Type 0
IsBelow M n t = (k : ℕ) → n ≤ k → get_fd M t (pos k) ≡ none

-- `number` refers to `d`, and all other numbers to what they referred to in `t`.
abbrev pub Bound : {D : Type 0} (M : MapOps D) → FdTable M → ℤ → D → FdTable M → Type 0
Bound M t number d t' =
    (get_fd M t' number ≡ some d) × ((j : ℤ) → number ≢ j → get_fd M t' j ≡ get_fd M t j)

module _ {D : Type 0} (M : MapOps D) where
  -- What Insert leaves when it uses `number`.
  pub given : FdTable M → D → ℤ → ℤ × FdTable M
  given t d number = (
    number,
    record { table = M.assign t.table number d; next_index = to_i32 (increment t.next_index) },
  )

  pub given-Bound : (t : FdTable M) (d : D) (number : ℤ) → Bound M t number d (given t d number).1
  unfolding given get_fd
  given-Bound t d number =
      (M.find-assign t.table number d, λ j n. M.find-assign_ne t.table number j d n)

  insert-desired :
      (t : FdTable M) (d : D) (desired : ℤ)
      → is_negative desired ≡ false
      → is_valid M t desired ≡ false
      → insert M t d desired ≡ given t d desired
  unfolding insert given
  insert-desired t d desired n v = rw (n, v) refl

  insert-next :
      (t : FdTable M) (d : D) (desired : ℤ)
      → is_negative desired ≡ true
      → insert M t d desired ≡ given t d t.next_index
  unfolding insert given
  insert-next t d desired n = rw n refl

  get_fd-is_valid : (t : FdTable M) (k : ℤ) → get_fd M t k ≡ none → is_valid M t k ≡ false
  unfolding is_valid
  get_fd-is_valid t k e = rw (is_valid, e) refl

  pub unused-get_fd : (t : FdTable M) (k : ℤ) → is_valid M t k ≡ false → get_fd M t k ≡ none
  unfolding is_valid
  unused-get_fd t k h = elim (Option-cases (get_fd M t k)) [
    | inl e ↦ e
    | inr (d, e) ↦ let v : is_valid M t k ≡ true = rw (is_valid, e) refl in ground arith
  ]

  pub dup_at-free :
      (t : FdTable M) (d : D) (r : ℕ)
      → r < i32_max
      → is_valid M t (pos r) ≡ false
      → dup_at M t d (pos r) ≡ (ok (pos r), (given t d (pos r)).1)
  unfolding is_negative dup_at given
  dup_at-free t d r small free =
      rw (dup_at, to_i32_small r small, unused-get_fd t (pos r) free, free) refl

  -- The number that Insert uses is the desired one when that is not negative and not in use, and
  -- m_NextIndex otherwise. Afterwards it refers to the descriptor, and all other numbers to what
  -- they referred to before.
  insert_cases :
      (t : FdTable M) (d : D) (desired : ℤ)
      → (((is_negative desired ≡ false)
            × (is_valid M t desired ≡ false)
            × ((insert M t d desired).0 ≡ desired))
          ⊎ (((is_negative desired ≡ true) ⊎ (is_valid M t desired ≡ true))
              × ((insert M t d desired).0 ≡ t.next_index)))
        × Bound M t (insert M t d desired).0 d (insert M t d desired).1
  unfolding insert given
  insert_cases t d desired = elim (Bool-cases (is_negative desired)) [
    | inl n ↦ rw n (inr (inl refl, refl), given-Bound t d _)
    | inr n ↦ elim (Bool-cases (is_valid M t desired)) [
      | inl v ↦ rw (n, v) (inr (inr refl, refl), given-Bound t d _)
      | inr v ↦ rw (n, v) (inl (refl, refl, refl), given-Bound t d _)
    ]
  ]

  -- While m_NextIndex, short of 2^31 - 1, is above all numbers in use, an automatic Insert hands
  -- out a free number, and m_NextIndex is above all numbers in use again.
  insert_automatic :
      (t : FdTable M) (d : D) (desired : ℤ) (n : ℕ)
      → IsBelow M n t
      → t.next_index ≡ pos n
      → n + 1 < i32_max
      → is_negative desired ≡ true
      → (get_fd M t (insert M t d desired).0 ≡ none)
        × ((insert M t d desired).1.next_index ≡ pos (n + 1))
        × IsBelow M (n + 1) (insert M t d desired).1
  unfolding insert get_fd increment
  insert_automatic t d desired n b e small neg =
      rw (neg, e)
        (
          b n (omega arith),
          to_i32_small (n + 1) small,
          λ k h.
              M.find-assign_ne t.table (pos n) (pos k) d (λ q. omega (arith, pos_injective n k q))
              ∙ b k (omega arith),
        )

  -- Insert with a desired free number beyond m_NextIndex leaves m_NextIndex behind: the next
  -- automatic Insert hands out that number a second time and takes it from the first descriptor.
  insert_overwrites :
      (t : FdTable M) (a b : D) (desired : ℤ) (n : ℕ)
      → t.next_index ≡ pos n
      → n + 1 < i32_max
      → get_fd M t (pos (n + 1)) ≡ none
      → is_negative desired ≡ true
      → ((insert M t a (pos (n + 1))).0 ≡ pos (n + 1))
        × ((insert M (insert M t a (pos (n + 1))).1 b desired).0 ≡ pos (n + 1))
        × (get_fd M (insert M (insert M t a (pos (n + 1))).1 b desired).1 (pos (n + 1)) ≡ some b)
  unfolding given get_fd is_negative increment
  insert_overwrites t a b desired n e small free neg =
      let first = insert-desired t a (pos (n + 1)) refl (get_fd-is_valid t (pos (n + 1)) free) in
      rw (first, e, to_i32_small (n + 1) small, insert-next _ b desired neg)
        (refl, refl, M.find-assign _ _ b)

  -- Erase on a number that is not in use answers EBADF and changes nothing. Otherwise the number is
  -- free afterwards, all other numbers refer to what they referred to before, and m_NextIndex
  -- stays.
  erase_cases :
      (t : FdTable M) (fd : ℤ)
      → ((get_fd M t fd ≡ none) × (erase M t fd ≡ (err ebadf, t)))
        ⊎ ((get_fd M t fd ≢ none)
            × ((erase M t fd).0 ≡ ok tt)
            × (get_fd M (erase M t fd).1 fd ≡ none)
            × ((j : ℤ) → fd ≢ j → get_fd M (erase M t fd).1 j ≡ get_fd M t j)
            × ((erase M t fd).1.next_index ≡ t.next_index))
  unfolding erase get_fd
  erase_cases t fd = elim (Option-cases (M.find t.table fd)) [
    | inl e ↦ let same : erase M t fd ≡ (err ebadf, t) = rw (erase, e) refl in inl (e, same)
    | inr (d, e) ↦
        let gone : erase M t fd ≡ (ok tt, record t { table = M.erase t.table fd }) =
          rw (erase, e) refl in
        rw (gone, e)
          (inr (
            (λ q. ground arith),
            refl,
            M.find-erase t.table fd,
            (λ j n. M.find-erase_ne t.table fd j n),
            refl,
          ))
  ]

  -- CloseFd leaves what all other numbers refer to.
  pub close_fd_others :
      (t : FdTable M) (fd j : ℤ) → fd ≢ j → get_fd M (close_fd M t fd).1 j ≡ get_fd M t j
  unfolding close_fd
  close_fd_others t fd j n = elim (erase_cases t fd) [
    | inl (_, e) ↦ rw e refl
    | inr (_, _, _, others, _) ↦ others j n
  ]

  -- CloseFd fails on a number that is not in use, which leaves the table, and else frees the
  -- number.
  pub close_fd_cases :
      (t : FdTable M) (fd : ℤ)
      → ((get_fd M t fd ≡ none) × (close_fd M t fd ≡ (err ebadf, t)))
        ⊎ ((get_fd M t fd ≢ none)
            × ((close_fd M t fd).0 ≡ ok tt)
            × (get_fd M (close_fd M t fd).1 fd ≡ none))
  unfolding close_fd
  close_fd_cases t fd = elim (erase_cases t fd) [
    | inl h ↦ inl h
    | inr (used, done, gone, _, _) ↦ inr (used, done, gone)
  ]

  -- An automatic Insert under a number that is not in use leaves what the numbers in use refer to.
  pub insert_others :
      (t : FdTable M) (d : D) (desired k : ℤ) {x : D}
      → is_negative desired ≡ true
      → get_fd M t t.next_index ≡ none
      → get_fd M t k ≡ some x
      → get_fd M (insert M t d desired).1 k ≡ some x
  insert_others t d desired k neg free used =
      let apart : t.next_index ≢ k = λ q. absurd (cc) in
      rw (insert-next t d desired neg) ((given-Bound t d t.next_index).1 k apart ∙ used)
