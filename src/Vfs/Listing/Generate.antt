-- ===== src/Vfs/Listing/Generate.antt =====
-- Which records GenerateDirEntries makes, and when it ends.
use mathlib.Core.List.{append-nil, append_assoc}
use cryptix_os.Common.Prism.{MathOps}
use cryptix_os.Vfs.Listing.{
  Dirent, Stats, Child, Directory, Listing, push, visit, resume, is_empty, hand_out_generated,
  keep_flag, dot, dot_dot, parent_of, generate, generate_dir_entries, get_dir_entries,
}
use cryptix_os.Common.{
  ℕ, zero, suc, ◌+◌, ◌<◌, ◌≡◌, refl, sym, ap, ◌∙◌, inl, inr, false, Option, none, some, List, [],
  ◌∷◌, ◌++◌, map, arith, ◌==◌, Bool-cases, length, All, u64_mod, add64, add64-eq_add,
}

abbrev pub names : List Dirent → List (List ℕ)
names es = map (λ e. e.name) es

abbrev pub child_names : List Child → List (List ℕ)
child_names cs = map (λ c. c.name) cs

abbrev pub Present : Child → Type 0
Present c = (s : Stats) × c.inode ≡ some s

visit-none :
    (o : Option Stats) (offset : ℕ) (skipped self parent : Option Listing)
    (child : Stats → Option Listing)
    → skipped ≡ none
    → self ≡ none
    → parent ≡ none
    → ((s : Stats) → child s ≡ none)
    → visit o offset skipped self parent child ≡ none
unfolding visit
visit-none none offset skipped self parent child a b c d = a
visit-none (some s) offset skipped self parent child a b c d =
    let d' = d s in
    elim (Bool-cases (offset == 0)) [
      | inl z ↦ simp (z, b)
      | inr nz ↦ elim (Bool-cases (offset == 1)) [
        | inl o ↦ simp (nz, o, c)
        | inr no_o ↦ simp (nz, no_o, d')
      ]
    ]

visit_missing :
    (offset : ℕ) (skipped self parent : Option Listing) (child : Stats → Option Listing)
    → skipped ≡ none
    → visit none offset skipped self parent child ≡ none
unfolding visit
visit_missing offset skipped self parent child a = a

module _ (M : MathOps) where
  names-push :
      (es : List Dirent) (name : List ℕ) (offset : ℕ) (s : Stats)
      → names (push M es name offset s) ≡ names es ++ (name ∷ [])
  unfolding push
  names-push [] name offset s = refl
  names-push (e ∷ es) name offset s = ap (λ xs. e.name ∷ xs) (names-push es name offset s)

  -- A child without an inode keeps the loop from ending.
  generate_stuck :
      (fuel : ℕ) (d : Directory) (es : List Dirent) (before : List Child) (c : Child)
      (after : List Child) (offset : ℕ)
      → c.inode ≡ none
      → generate M fuel d es (before ++ (c ∷ after)) offset ≡ none
  unfolding generate
  generate_stuck zero d es before c after offset h = refl
  generate_stuck (suc fuel) d es [] c after offset h =
      ap
        (λ o.
          visit o offset (generate M fuel d es (c ∷ after) (add64 offset 1))
            (generate M fuel d (push M es (dot M) offset d.self) (c ∷ after) (add64 offset 1))
            (generate M fuel d (push M es (dot_dot M) offset (parent_of M d)) (c ∷ after)
              (add64 offset 1))
            (λ stats. generate M fuel d (push M es c.name offset stats) after (add64 offset 1)))
        h
      ∙ visit_missing offset _ _ _ _ (generate_stuck fuel d es [] c after (add64 offset 1) h)
  generate_stuck (suc fuel) d es (b ∷ before) c after offset h =
      let ih : (es' : List Dirent)
          → generate M fuel d es' (b ∷ before ++ (c ∷ after)) (add64 offset 1) ≡ none =
        λ es'. generate_stuck fuel d es' (b ∷ before) c after (add64 offset 1) h in
      visit-none b.inode offset _ _ _ _ (ih es) (ih (push M es (dot M) offset d.self))
        (ih (push M es (dot_dot M) offset (parent_of M d)))
        (λ stats.
          generate_stuck fuel d (push M es b.name offset stats) before c after (add64 offset 1) h)

  generate_children :
      (fuel : ℕ) (d : Directory) (es : List Dirent) (cs : List Child) (offset : ℕ)
      → All Present cs
      → 1 < offset
      → offset + length cs < u64_mod
      → length cs < fuel
      → (l : Listing) × (generate M fuel d es cs offset ≡ some l)
        × names l.entries ≡ names es ++ child_names cs
  unfolding generate visit
  generate_children zero d es cs offset p h k enough = absurd (omega arith)
  generate_children (suc fuel) d es [] offset p h k enough = (_, refl, sym (append-nil (names es)))
  generate_children (suc fuel) d es (c ∷ cs) offset ((s, e), p) h k enough =
      let a : add64 offset 1 ≡ suc offset = add64-eq_add offset 1 (omega arith) ∙ omega arith in
      let zero_no : (offset == 0) ≡ false = ground arith in
      let one_no : (offset == 1) ≡ false = ground arith in
      let (l, e', n) =
        generate_children fuel d (push M es c.name offset s) cs (suc offset) p (omega arith)
          (omega arith) (omega arith) in
      (
        l,
        simp (e, zero_no, one_no, a, e'),
        n
            ∙ ap (λ xs. xs ++ child_names cs) (names-push es c.name offset s)
            ∙ append_assoc (names es) (c.name ∷ []) (child_names cs),
      )

  generate-All :
      (fuel : ℕ) (d : Directory) (c : Child) (cs : List Child)
      → All Present (c ∷ cs)
      → length (c ∷ cs) + 2 < u64_mod
      → length (c ∷ cs) + 2 < fuel
      → (l : Listing) × (generate M fuel d [] (c ∷ cs) 0 ≡ some l)
        × names l.entries ≡ dot M ∷ dot_dot M ∷ child_names (c ∷ cs)
  unfolding generate visit
  generate-All zero d c cs p k enough = absurd (omega arith)
  generate-All (suc zero) d c cs p k enough = absurd (omega arith)
  generate-All (suc (suc fuel)) d c cs (q, p) k enough =
      let one = push M [] (dot M) 0 d.self in
      let two = push M one (dot_dot M) 1 (parent_of M d) in
      let (l, e, n) =
        generate_children fuel d two (c ∷ cs) 2 (q, p) (omega arith) (omega arith) (omega arith) in
      let a0 : add64 0 1 ≡ 1 = add64-eq_add 0 1 (omega arith) in
      let a1 : add64 1 1 ≡ 2 = add64-eq_add 1 1 (omega arith) in
      let present = q.1 in
      (
        l,
        simp (present, a0, a1, e),
        n
            ∙ ap (λ xs. xs ++ child_names (c ∷ cs))
                (names-push one (dot_dot M) 1 (parent_of M d)
                  ∙ ap (λ xs. xs ++ (dot_dot M ∷ [])) (names-push [] (dot M) 0 d.self)),
      )

  -- When all children of a directory have an inode and there is at least one, GenerateDirEntries
  -- comes to an end from the start of the directory, within three rounds more than there are
  -- children, and makes the records ".", ".." and one for each child, in this order. There are
  -- fewer than 2 ^ 64 - 2 children.
  pub names-generate_dir_entries :
      (fuel : ℕ) (d : Directory) (l : Listing) (c : Child) (cs : List Child)
      → d.children ≡ c ∷ cs
      → l.iterator ≡ []
      → All Present (c ∷ cs)
      → length (c ∷ cs) + 2 < u64_mod
      → length (c ∷ cs) + 2 < fuel
      → (l' : Listing) × (generate_dir_entries M fuel d l ≡ some l')
        × names l'.entries ≡ dot M ∷ dot_dot M ∷ child_names (c ∷ cs)
  unfolding generate_dir_entries resume keep_flag
  names-generate_dir_entries fuel d l c cs h i p k enough =
      let (l', e, n) = generate-All fuel d c cs p k enough in
      (record l' { should_regenerate = l.should_regenerate }, simp (i, h, e), n)

  -- When a child of the directory has no inode, GetDirEntries does not come back from a descriptor
  -- that has no records left and starts from the beginning, however many rounds it is given.
  get_dir_entries_stuck :
      (fuel : ℕ) (d : Directory) (l : Listing) (before : List Child) (c : Child)
      (after : List Child) (max_size : ℕ)
      → d.children ≡ before ++ (c ∷ after)
      → c.inode ≡ none
      → l.entries ≡ []
      → l.iterator ≡ []
      → get_dir_entries M fuel d l max_size ≡ none
  unfolding get_dir_entries generate_dir_entries resume keep_flag hand_out_generated is_empty
  get_dir_entries_stuck fuel d l before c after max_size h o e i =
      let stuck = generate_stuck fuel d [] before c after 0 o in simp (e, i, h, stuck)
