-- ===== src/Vfs/SynthFs/Content.antt =====
-- What is read from a node after writing to it.
use native.Mathlib.Nat.{pow-suc, mul_assoc, mul_comm}
use cryptix_os.Vfs.Buffer.{BufferOps}
use cryptix_os.Memory.Pmm.{page_bytes}
use cryptix_os.Vfs.SynthFs.{Node, grow, read, write, resize_buffer, fill}
use cryptix_os.Common.{
  ℕ, zero, suc, ◌+◌, ◌-◌, ◌*◌, ◌^◌, ◌≤◌, ◌<◌, min, ◌≡◌, refl, sym, ap, ◌∙◌, inl, inr, false, some,
  List, arith, ltb, ◌==◌, if◌then◌else◌, Bool-cases, length, u64_mod, add64, sub64, mul64,
  add64-eq_add, sub64-eq_sub, mul64-eq_mul, pos, negsuc, ok, panic,
}

double : (c p q need : ℕ) → q ≡ p * 2 → need ≤ c * q → need ≤ c * 2 * p
double c p q need e h =
    let e' : c * q ≡ c * 2 * p = ap (λ x. c * x) (e ∙ mul_comm p 2) ∙ sym (mul_assoc c 2 p) in
    omega (arith, e', h)

-- The capacity that Write ends with has room for what is needed, and is never smaller than before.
grow_lem :
    (fuel need capacity : ℕ)
    → need ≤ 2 ^ 63
    → 0 < capacity
    → capacity < u64_mod
    → need ≤ capacity * 2 ^ fuel
    → (c : ℕ) × (grow (suc fuel) need capacity ≡ some c) × need ≤ c × capacity ≤ c × c < u64_mod
unfolding grow
grow_lem zero need capacity small h below enough =
    let e : 2 ^ 0 ≡ 1 = refl in
    let enough' : need ≤ capacity = ground (arith, e) in
    let stop : ltb capacity need ≡ false = ground arith in
    rw stop (capacity, refl, enough', omega arith, below)
grow_lem (suc fuel) need capacity small h below enough = elim (Bool-cases (ltb capacity need)) [
  | inl more ↦
      let less : capacity < need = ground arith in
      let m : mul64 capacity 2 ≡ capacity * 2 = mul64-eq_mul capacity 2 (omega arith) in
      let step : need ≤ capacity * 2 * 2 ^ fuel =
        double capacity (2 ^ fuel) (2 ^ suc fuel) need (pow-suc 2 fuel) enough in
      let (c, e, n, k, l) =
        grow_lem fuel need (capacity * 2) small (omega arith) (omega arith) step in
      rw (more, m) (c, e, n, omega arith, l)
  | inr enough' ↦ rw enough' (capacity, refl, ground arith, omega arith, below)
]

wrapped :
    (n offset count : ℕ)
    → n < offset
    → offset + count ≤ u64_mod
    → min count (sub64 n offset) ≡ count
unfolding sub64
wrapped n offset count h k = omega arith

module _ (B : BufferOps) where
  open B use {size, size-write, size-resize, read-write, read-write-before, read-resize}

  pub read_negative : (f : Node B) (n count : ℕ) → read B f (negsuc n) count ≡ panic
  unfolding read
  read_negative f n count = refl

  read_within :
      (f : Node B) (offset n : ℕ)
      → offset + n ≤ size f.buffer
      → size f.buffer < u64_mod
      → read B f (pos offset) n ≡ ok (n, B.read f.buffer offset n)
  unfolding read
  read_within f offset n h small =
      let e : sub64 (size f.buffer) offset ≡ size f.buffer - offset =
        sub64-eq_sub (size f.buffer) offset (omega arith) small in
      let m : min n (size f.buffer - offset) ≡ n = omega arith in rw (e, m) refl

  abbrev grown : Node B → ℕ → ℕ → List ℕ → Node B
  grown f capacity offset bytes =
      let r = resize_buffer B f capacity in record r { buffer = B.write r.buffer offset bytes }

  write_grown :
      (f : Node B) (offset capacity : ℕ) (bytes : List ℕ)
      → offset + length bytes < u64_mod
      → grow 65 (offset + length bytes) (if size f.buffer == 0 then page_bytes else size f.buffer)
        ≡ some capacity
      → write B f (pos offset) bytes ≡ some (ok (length bytes), grown f capacity offset bytes)
  unfolding write fill
  write_grown f offset capacity bytes h e =
      let need : add64 offset (length bytes) ≡ offset + length bytes =
        add64-eq_add offset (length bytes) h in
      rw (need, e) refl

  -- Write comes to an end whenever the end of the written bytes is at most 2 ^ 63, and writes them
  -- all. Read at the same offset then gives these bytes back, all of them, and what stood before
  -- them in the node is read as before. The node never becomes smaller, and its size is that of its
  -- buffer. Its mode stays.
  pub read-write_node :
      (f : Node B) (offset : ℕ) (bytes : List ℕ)
      → offset + length bytes ≤ 2 ^ 63
      → size f.buffer < u64_mod
      → (f' : Node B) × (write B f (pos offset) bytes ≡ some (ok (length bytes), f'))
        × (read B f' (pos offset) (length bytes) ≡ ok (length bytes, bytes))
        × ((from n : ℕ)
            → from + n ≤ offset
            → from + n ≤ size f.buffer
            → read B f' (pos from) n ≡ read B f (pos from) n)
        × size f.buffer ≤ size f'.buffer
        × (f'.metadata_size ≡ size f'.buffer)
        × f'.mode ≡ f.mode
  unfolding resize_buffer
  read-write_node f offset bytes h small =
      let start = if size f.buffer == 0 then page_bytes else size f.buffer in
      let (c, e, n, k, l) =
        grow_lem 64 (offset + length bytes) start h (ground arith) (ground arith) (ground arith) in
      let b = B.resize f.buffer c in
      let f' = grown f c offset bytes in
      let sb : size b ≡ c = size-resize f.buffer c in
      let sz : size f'.buffer ≡ c = size-write b offset bytes ∙ sb in
      let larger : size f.buffer ≤ c = ground arith in
      (
        f',
        write_grown f offset c bytes (omega arith) e,
        read_within f' offset (length bytes) (omega arith) (omega arith)
            ∙ ap (λ x. ok (length bytes, x)) (read-write b offset bytes (omega arith)),
        λ from m x y.
            read_within f' from m (omega arith) (omega arith)
            ∙ ap (λ x. ok (m, x))
                (read-write-before b offset bytes from m (omega arith) x
                  ∙ read-resize f.buffer c from m y (omega arith))
            ∙ sym (read_within f from m y small),
        omega arith,
        sb ∙ sym sz,
        refl,
      )

  -- Reading past the end of a node reports as many bytes as were asked for, though there are none.
  read_past_end :
      (f : Node B) (offset count : ℕ)
      → size f.buffer < offset
      → offset + count ≤ u64_mod
      → read B f (pos offset) count ≡ ok (count, B.read f.buffer offset count)
  unfolding read
  read_past_end f offset count h k =
      let m : min count (sub64 (size f.buffer) offset) ≡ count =
        wrapped (size f.buffer) offset count h k in
      rw m refl
