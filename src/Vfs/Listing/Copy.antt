-- ===== src/Vfs/Listing/Copy.antt =====
-- How many bytes GetDirEntries puts into the buffer.
use mathlib.Core.List.{append-nil, append_assoc}
use cryptix_os.Vfs.Listing.{
  Dirent, Listing, copy_and_pop, copy_entries, total, is_empty, copy_length, sizeof_dirent,
  hand_out, hand_out_list,
}
use cryptix_os.Common.{
  ℕ, ◌+◌, ◌-◌, ◌≤◌, ◌<◌, min, ◌≡◌, refl, ap, ◌∙◌, ◌⊎◌, inl, inr, true, false, List, [], ◌∷◌, ◌++◌,
  arith, ltb, ◌==◌, if◌then◌else◌, Bool-cases, All, u64_mod, add64, sub64, add64-eq_add,
  sub64-eq_sub, ok,
}

-- The bytes of the records, and that none of them is empty.
abbrev pub sizes : List Dirent → ℕ
sizes [] = 0
sizes (e ∷ es) = e.reclen + sizes es

abbrev pub Filled : Dirent → Type 0
Filled e = 0 < e.reclen

sizes-append : (xs ys : List Dirent) → sizes (xs ++ ys) ≡ sizes xs + sizes ys
sizes-append [] ys = omega arith
sizes-append (x ∷ xs) ys = let ih = sizes-append xs ys in omega (arith, ih)

total-sizes : (n : ℕ) (es : List Dirent) → n + sizes es < u64_mod → total n es ≡ n + sizes es
unfolding total
total-sizes n [] h = omega arith
total-sizes n (e ∷ es) h =
    let a : add64 n e.reclen ≡ n + e.reclen = add64-eq_add n e.reclen (omega arith) in
    let ih = total-sizes (n + e.reclen) es (omega arith) in rw (a, ih) (omega arith)

-- While the records fit below the bound, all of them are copied.
copy_entries-All :
    (limit bytes offset : ℕ) (out es : List Dirent)
    → All Filled es
    → offset + sizes es < limit
    → limit < u64_mod
    → copy_entries limit bytes offset out es
      ≡ record { bytes = offset + sizes es; offset = offset + sizes es; out = out ++ es; left = [] }
unfolding copy_entries copy_and_pop
copy_entries-All limit bytes offset out [] f h k =
    let go : ltb offset limit ≡ true = ground arith in
    let z : offset + 0 ≡ offset = omega arith in simp (go, z, append-nil out)
copy_entries-All limit bytes offset out (e ∷ es) (pos_e, f) h k =
    let go : ltb offset limit ≡ true = ground arith in
    let room : ltb (limit - offset) e.reclen ≡ false = ground arith in
    let some_e : (e.reclen == 0) ≡ false = ground arith in
    let a : add64 offset e.reclen ≡ offset + e.reclen =
      add64-eq_add offset e.reclen (omega arith) in
    let ih =
      copy_entries-All limit offset (offset + e.reclen) (out ++ (e ∷ [])) es f (omega arith) k in
    let s : offset + e.reclen + sizes es ≡ offset + (e.reclen + sizes es) = omega arith in
    simp (go, room, some_e, a, ih, s, append_assoc out (e ∷ []) es)

-- The loop never copies more than its bound.
copy_entries-le :
    (limit bytes offset : ℕ) (out es : List Dirent)
    → sizes out ≡ offset
    → offset ≤ limit
    → limit < u64_mod
    → sizes (copy_entries limit bytes offset out es).out ≤ limit
unfolding copy_entries copy_and_pop
copy_entries-le limit bytes offset out [] s h k = omega arith
copy_entries-le limit bytes offset out (e ∷ es) s h k = elim (Bool-cases (ltb offset limit)) [
  | inr stop ↦ rw stop (omega arith)
  | inl go ↦ elim (Bool-cases (ltb (limit - offset) e.reclen)) [
    | inl full ↦ rw (go, full, append-nil out) (omega arith)
    | inr room ↦
        let one : sizes (out ++ (e ∷ [])) ≡ offset + e.reclen =
          sizes-append out (e ∷ []) ∙ omega (arith, s) in
        let a : add64 offset e.reclen ≡ offset + e.reclen =
          add64-eq_add offset e.reclen (ground arith) in
        let fits : offset + e.reclen ≤ limit = ground arith in
        let ih = copy_entries-le limit offset (offset + e.reclen) (out ++ (e ∷ [])) es one fits k in
        elim (Bool-cases (e.reclen == 0)) [
          | inl nothing ↦ rw (go, room, nothing, one) fits
          | inr more ↦ rw (go, room, more, a) ih
        ]
  ]
]

copy_length-lt : (max_size : ℕ) (es : List Dirent) → copy_length max_size es < u64_mod
unfolding copy_length sub64
copy_length-lt max_size es = omega arith

copy_length-wraps :
    (max_size : ℕ) (es : List Dirent)
    → total 0 es ≡ sizes es
    → sizes es + sizeof_dirent < u64_mod
    → (max_size < sizeof_dirent) ⊎ (sizes es < sizeof_dirent)
    → sizes es < copy_length max_size es
unfolding copy_length sub64
copy_length-wraps max_size es t small short = rw t (ground arith)

hand_out_list-fits :
    (l : Listing) (es : List Dirent) (max_size : ℕ)
    → sizes es < u64_mod
    → max_size < u64_mod
    → sizeof_dirent ≤ max_size
    → sizeof_dirent ≤ sizes es
    → sizes (hand_out_list l es max_size).1 + sizeof_dirent ≤ max_size
unfolding hand_out_list copy_length
hand_out_list-fits l [] max_size small h room many = room
hand_out_list-fits l (e ∷ es) max_size small h room many =
    let all = sizes (e ∷ es) in
    let t : total 0 (e ∷ es) ≡ all = total-sizes 0 (e ∷ es) (omega arith) ∙ omega arith in
    let limit = min max_size all - sizeof_dirent in
    let b : sub64 (min max_size all) sizeof_dirent ≡ limit =
      sub64-eq_sub (min max_size all) sizeof_dirent (omega arith) (omega arith) in
    let le = copy_entries-le limit 0 0 [] (e ∷ es) refl (omega arith) (omega arith) in
    elim (Bool-cases (ltb max_size e.reclen)) [
      | inl first ↦ rw first room
      | inr fits ↦ rw (fits, t, b) (omega arith)
    ]

hand_out_list-overruns :
    (l : Listing) (e : Dirent) (es : List Dirent) (max_size : ℕ)
    → All Filled (e ∷ es)
    → sizes (e ∷ es) + sizeof_dirent < u64_mod
    → (max_size < sizeof_dirent) ⊎ (sizes (e ∷ es) < sizeof_dirent)
    → e.reclen ≤ max_size
    → hand_out_list l (e ∷ es) max_size ≡ (
      ok (if l.should_regenerate then 0 else sizes (e ∷ es)),
      e ∷ es,
      record l { entries = []; should_regenerate = true },
    )
unfolding hand_out_list is_empty
hand_out_list-overruns l e es max_size f small short first =
    let t : total 0 (e ∷ es) ≡ sizes (e ∷ es) =
      total-sizes 0 (e ∷ es) (omega arith) ∙ omega arith in
    let wraps : sizes (e ∷ es) < copy_length max_size (e ∷ es) =
      copy_length-wraps max_size (e ∷ es) t small short in
    let below : copy_length max_size (e ∷ es) < u64_mod = copy_length-lt max_size (e ∷ es) in
    let c =
      copy_entries-All (copy_length max_size (e ∷ es)) 0 0 [] (e ∷ es) f (omega arith) below in
    let z : 0 + sizes (e ∷ es) ≡ sizes (e ∷ es) = omega arith in
    let enough : ltb max_size e.reclen ≡ false = ground arith in simp (c, z, enough)

-- What GetDirEntries hands out of records that are left over leaves room for a dirent of 1048 bytes
-- in the buffer, if the buffer and the records take at least that much. Both take less than 2 ^ 64
-- bytes.
hand_out-fits :
    (l : Listing) (max_size : ℕ)
    → sizes l.entries < u64_mod
    → max_size < u64_mod
    → sizeof_dirent ≤ max_size
    → sizeof_dirent ≤ sizes l.entries
    → sizes (hand_out l max_size).1 + sizeof_dirent ≤ max_size
unfolding hand_out
hand_out-fits l max_size small h room many =
    hand_out_list-fits l l.entries max_size small h room many

-- When the buffer or the records left over take less than the 1048 bytes of a dirent, GetDirEntries
-- hands all of these records out, whatever the size of the buffer, provided that the first fits
-- into it, and returns their size unless the listing is at its end. No record is empty and together
-- they take less than 2 ^ 64 - 1048 bytes.
pub hand_out-overruns :
    (l : Listing) (e : Dirent) (es : List Dirent) (max_size : ℕ)
    → l.entries ≡ e ∷ es
    → All Filled (e ∷ es)
    → sizes (e ∷ es) + sizeof_dirent < u64_mod
    → (max_size < sizeof_dirent) ⊎ (sizes (e ∷ es) < sizeof_dirent)
    → e.reclen ≤ max_size
    → hand_out l max_size ≡ (
      ok (if l.should_regenerate then 0 else sizes (e ∷ es)),
      e ∷ es,
      record l { entries = []; should_regenerate = true },
    )
unfolding hand_out
hand_out-overruns l e es max_size eq f small short first =
    ap (λ x. hand_out_list l x max_size) eq
    ∙ hand_out_list-overruns l e es max_size f small short first
