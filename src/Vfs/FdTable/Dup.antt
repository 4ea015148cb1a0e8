-- ===== src/Vfs/FdTable/Dup.antt =====
-- DupFd.
use cryptix_os.Vfs.Map.{MapOps}
use cryptix_os.Vfs.FdTable.{FdTable, get_fd, is_valid, search, dup_fd}
use cryptix_os.Vfs.FdTable.Laws.{Bound, given, given-Bound, dup_at-free, unused-get_fd}
use cryptix_os.Common.{
  ℕ, zero, suc, ◌+◌, ◌-◌, ◌≤◌, ◌<◌, ◌≡◌, ◌≢◌, refl, sym, ap, ◌∙◌, ◌⊎◌, inl, inr, true, false, none,
  some, arith, dec_lt, ℕ_discrete, Bool-cases, Option-cases, ebadf, einval, ℤ, pos, negsuc, i32_max,
  to_i32, to_i32_small, increment, is_negative, int_eq, Outcome, ok, err,
}

-- DupFd starts its search at `new_number`, or at 0 when that is negative.
abbrev pub start : ℤ → ℕ
start (pos n) = n
start (negsuc _) = 0

-- How many negative numbers it goes through before.
abbrev pub lead : ℤ → ℕ
lead (pos _) = 0
lead (negsuc n) = n + 1

-- All numbers from `i` to below `j` are in use.
pub InUse : {D : Type 0} (M : MapOps D) → FdTable M → ℕ → ℕ → Type 0
InUse M t i j = (k : ℕ) → i ≤ k → k < j → is_valid M t (pos k) ≡ true

module _ {D : Type 0} (M : MapOps D) where
  is_valid-above : (t : FdTable M) (n : ℕ) → M.above t.table ≤ n → is_valid M t (pos n) ≡ false
  unfolding is_valid get_fd
  is_valid-above t n h = rw (is_valid, M.find-above t.table n h) refl

  -- From `n` on the search ends at the first free number, which is at most the bound on the keys.
  search_from :
      (fuel : ℕ) (t : FdTable M) (n : ℕ)
      → n < i32_max
      → M.above t.table < i32_max
      → M.above t.table < n + fuel
      → 0 < fuel
      → (r : ℕ) × ((search M fuel t (pos n) ≡ some (pos r))
          × (n ≤ r)
          × (r < i32_max)
          × (is_valid M t (pos r) ≡ false)
          × InUse M t n r)
  unfolding search InUse is_negative increment
  search_from zero t n small top enough f = ground arith
  search_from (suc fuel) t n small top enough f = elim (Bool-cases (is_valid M t (pos n))) [
    | inr free ↦
        rw (to_i32_small n small, free)
          (n, (refl, omega arith, small, free, λ k lo hi. ground arith))
    | inl used ↦ elim (dec_lt n (M.above t.table)) [
      | no beyond ↦ ground (arith, is_valid-above t n (omega arith))
      | yes l ↦
          let (r, (e, le, sm, fr, all)) =
            search_from fuel t (n + 1) (omega arith) top (omega arith) (omega arith) in
          rw (to_i32_small n small, used)
            (
              r,
              (
                e,
                omega arith,
                sm,
                fr,
                λ k lo hi. elim (ℕ_discrete k n) [
                  | yes q ↦ rw q used
                  | no q ↦ all k (omega arith) hi
                ],
              ),
            )
    ]
  ]

  -- From a negative number the search first counts up to 0.
  search_up :
      (n fuel : ℕ) (t : FdTable M) → search M (n + 1 + fuel) t (negsuc n) ≡ search M fuel t (pos 0)
  unfolding search is_negative increment
  search_up zero fuel t = let e : zero + 1 + fuel ≡ suc fuel = omega arith in rw e refl
  search_up (suc n) fuel t =
      let e : suc n + 1 + fuel ≡ suc (n + 1 + fuel) = omega arith in rw e (search_up n fuel t)

  -- The loop of DupFd ends within `lead new_number + above` rounds and finds the first free number.
  search_lem :
      (fuel : ℕ) (t : FdTable M) (new_number : ℤ)
      → start new_number < i32_max
      → M.above t.table < i32_max
      → lead new_number + M.above t.table < fuel
      → (r : ℕ) × ((search M fuel t new_number ≡ some (pos r))
          × (start new_number ≤ r)
          × (r < i32_max)
          × (is_valid M t (pos r) ≡ false)
          × InUse M t (start new_number) r)
  search_lem fuel t (pos n) small top enough =
      search_from fuel t n small top (omega arith) (omega arith)
  search_lem fuel t (negsuc n) small top enough =
      let e : n + 1 + (fuel - (n + 1)) ≡ fuel = omega arith in
      let up = search_up n (fuel - (n + 1)) t in
      let (r, (found, le, sm, fr, all)) =
        search_from (fuel - (n + 1)) t 0 small top (omega arith) (omega arith) in
      (r, (ap (λ f. search M f t (negsuc n)) (sym e) ∙ up ∙ found, le, sm, fr, all))

  -- DupFd with enough fuel always comes back. It answers EINVAL when the two numbers are equal,
  -- else EBADF when the old number is not in use, and the table stays as it is. Otherwise it
  -- answers the first number from the new one (from 0, when that is negative) on that is not in
  -- use, which from then on refers to the descriptor of the old number; all other numbers refer to
  -- what they referred to before. The numbers are below 2^31.
  pub dup_fd_cases :
      (fuel : ℕ) (t : FdTable M) (old_number new_number : ℤ)
      → start new_number < i32_max
      → M.above t.table < i32_max
      → lead new_number + M.above t.table < fuel
      → ((int_eq old_number new_number ≡ true)
          × (dup_fd M fuel t old_number new_number ≡ some (err einval, t)))
        ⊎ ((int_eq old_number new_number ≡ false)
            × (get_fd M t (to_i32 old_number) ≡ none)
            × (dup_fd M fuel t old_number new_number ≡ some (err ebadf, t)))
        ⊎ (r : ℕ) × (d : D) × (t' : FdTable M) × ((dup_fd M fuel t old_number new_number
              ≡ some (ok (pos r), t'))
            × (get_fd M t (to_i32 old_number) ≡ some d)
            × (start new_number ≤ r)
            × (is_valid M t (pos r) ≡ false)
            × InUse M t (start new_number) r
            × Bound M t (pos r) d t')
  unfolding dup_fd
  dup_fd_cases fuel t old_number new_number small top enough =
      elim (Bool-cases (int_eq old_number new_number)) [
        | inl same ↦ inl (same, rw (dup_fd, same) refl)
        | inr other ↦ elim (Option-cases (get_fd M t (to_i32 old_number))) [
          | inl closed ↦ inr (inl (other, closed, rw (dup_fd, other, closed) refl))
          | inr (d, opened) ↦
              let (r, (found, le, sm, free, all)) = search_lem fuel t new_number small top enough in
              let e : dup_fd M fuel t old_number new_number
                  ≡ some (ok (pos r), (given M t d (pos r)).1) =
                rw (dup_fd, other, opened, found) (ap some (dup_at-free M t d r sm free)) in
              inr (
                inr (
                  r,
                  d,
                  (given M t d (pos r)).1,
                  (e, opened, le, free, all, given-Bound M t d (pos r)),
                ))
        ]
      ]

  -- DupFd leaves what the numbers in use refer to.
  pub dup_fd_others :
      (fuel : ℕ) (t t' : FdTable M) (old_number new_number k : ℤ) {d : D} {result : Outcome ℤ}
      → start new_number < i32_max
      → M.above t.table < i32_max
      → lead new_number + M.above t.table < fuel
      → dup_fd M fuel t old_number new_number ≡ some (result, t')
      → get_fd M t k ≡ some d
      → get_fd M t' k ≡ some d
  dup_fd_others fuel t t' old_number new_number k small top enough e used =
      elim (dup_fd_cases fuel t old_number new_number small top enough) [
        | inl (_, f) ↦ let same : t' ≡ t = cc in rw same used
        | inr (inl (_, _, f)) ↦ let same : t' ≡ t = cc in rw same used
        | inr (inr (r, x, u, (f, _, _, free, _, (_, others)))) ↦
            let same : t' ≡ u = cc in
            let apart : pos r ≢ k = λ q. ground (arith, unused-get_fd M t (pos r) free) in
            rw same (others k apart ∙ used)
      ]

  -- The number that DupFd answers is one of an i32, and refers to what the old number refers to.
  pub dup_fd_bound :
      (fuel : ℕ) (t t' : FdTable M) (old_number new_number number : ℤ)
      → start new_number < i32_max
      → M.above t.table < i32_max
      → lead new_number + M.above t.table < fuel
      → dup_fd M fuel t old_number new_number ≡ some (ok number, t')
      → (d : D) × (get_fd M t (to_i32 old_number) ≡ some d)
        × (to_i32 number ≡ number)
        × (get_fd M t' number ≡ some d)
        × (get_fd M t number ≡ none)
  unfolding InUse
  dup_fd_bound fuel t t' old_number new_number number small top enough e =
      elim (dup_fd_cases fuel t old_number new_number small top enough) [
        | inl (_, f) ↦ absurd (cc)
        | inr (inl (_, _, f)) ↦ absurd (cc)
        | inr (inr (r, x, u, (f, opened, le, free, used, (bound, _)))) ↦
            let same : t' ≡ u = cc in
            let answer : number ≡ pos r = cc in
            let fits : r < i32_max = elim (dec_lt r i32_max) [
              | yes q ↦ q
              | no q ↦ ground (
                arith,
                used (r - 1) (omega arith) (omega arith),
                is_valid-above t (r - 1) (omega arith),
              )
            ] in
            rw (same, answer)
              (x, opened, to_i32_small r fits, bound, unused-get_fd M t (pos r) free)
      ]

  pub dup_fd_closed :
      (fuel : ℕ) (t : FdTable M) (old_number new_number : ℤ)
      → int_eq old_number new_number ≡ false
      → get_fd M t (to_i32 old_number) ≡ none
      → dup_fd M fuel t old_number new_number ≡ some (err ebadf, t)
  unfolding dup_fd
  dup_fd_closed fuel t old_number new_number other closed = rw (dup_fd, other, closed) refl
