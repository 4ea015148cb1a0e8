-- ===== src/Vfs/Ext2Files/Content.antt =====
-- What ReadINode reads.
use mathlib.Core.List.{append-nil}
use cryptix_os.Vfs.Ext2Files.{Disk, Meta, read, get_inode_block, prepend, read_loop, read_inode}
use cryptix_os.Common.{
  List, [], add64, add64-eq_add, ap, arith, dec_lt, get_elem?, length, le→not-ltb, lt→ltb, min,
  refl, some, sub64, sub64-eq_sub, suc, sym, u64_mod, zero, ℕ, ◌%◌, ◌*◌, ◌++◌, ◌+◌, ◌-◌, ◌/◌, ◌<◌,
  ◌∙◌, ◌∷◌, ◌≡◌, ◌≤◌,
}

-- The byte at a place of the file.
abbrev pub file_byte : Disk → Meta → ℕ → ℕ
file_byte d m place =
    d.byte (get_inode_block d m (place / d.block_size) * d.block_size + place % d.block_size)

-- The bytes of the file from a place on.
pub content : Disk → Meta → ℕ → ℕ → List ℕ
content d m place zero = []
content d m place (suc n) = file_byte d m place ∷ content d m (place + 1) n

pub get_elem-content :
    (d : Disk) (m : Meta) (place n i : ℕ)
    → i < n
    → get_elem? (content d m place n) i
      ≡ some (
          d.byte (
            get_inode_block d m ((place + i) / d.block_size) * d.block_size
            + (place + i) % d.block_size))
unfolding content
get_elem-content d m place zero i h = absurd (omega arith)
get_elem-content d m place (suc n) zero h = let e : place + 0 ≡ place = omega arith in rw e refl
get_elem-content d m place (suc n) (suc i) h =
    let e : place + 1 + i ≡ place + suc i = omega arith in
    get_elem-content d m (place + 1) n i (omega arith) ∙ rw e refl

pub length-content : (d : Disk) (m : Meta) (place n : ℕ) → length (content d m place n) ≡ n
unfolding content
length-content d m place zero = refl
length-content d m place (suc n) = ap suc (length-content d m (place + 1) n)

content-append :
    (d : Disk) (m : Meta) (place a b : ℕ)
    → content d m place (a + b) ≡ content d m place a ++ content d m (place + a) b
unfolding content
content-append d m place zero b =
    let e : zero + b ≡ b = omega arith in
    let f : place + zero ≡ place = omega arith in rw (e, f) refl
content-append d m place (suc a) b =
    let e : suc a + b ≡ suc (a + b) = omega arith in
    let f : place + 1 + a ≡ place + suc a = omega arith in
    rw e (ap (λ t. file_byte d m place ∷ t) (content-append d m (place + 1) a b ∙ rw f refl))

-- A place inside block `k`.
file_byte_lem :
    (d : Disk) (m : Meta) (k below : ℕ)
    → below < d.block_size
    → file_byte d m (k * d.block_size + below)
      ≡ d.byte (get_inode_block d m k * d.block_size + below)
file_byte_lem d m k below h =
    let bs = d.block_size in
    let place = k * bs + below in
    let q : place / bs ≡ k = grind arith in
    let r : place % bs ≡ below = grind arith in
    ap (λ a. d.byte (get_inode_block d m a * bs + place % bs)) q
    ∙ ap (λ b. d.byte (get_inode_block d m k * bs + b)) r

-- Within a block the bytes of the file are those of the device.
pub read-content :
    (d : Disk) (m : Meta) (k below n : ℕ)
    → below + n ≤ d.block_size
    → read d (get_inode_block d m k * d.block_size + below) n
      ≡ content d m (k * d.block_size + below) n
unfolding read content
read-content d m k below zero h = refl
read-content d m k below (suc n) h =
    let bs = d.block_size in
    let start = get_inode_block d m k * bs in
    let f : start + below + 1 ≡ start + (below + 1) = omega arith in
    let g : k * bs + below + 1 ≡ k * bs + (below + 1) = omega arith in
    ap (λ b. b ∷ read d (start + below + 1) n) (sym (file_byte_lem d m k below (omega arith)))
    ∙ ap (λ t. file_byte d m (k * bs + below) ∷ t)
        (rw (f, g) (read-content d m k (below + 1) n (omega arith)))

-- A round of the loop in the middle of its bytes.
module _ (d : Disk) (m : Meta) (fuel k below head bytes offset : ℕ) (more : head < bytes)
    (place : add64 offset head ≡ k * d.block_size + below) (small : below < d.block_size) where
  read_loop-round :
      read_loop (suc fuel) d m offset head bytes
      ≡ prepend
          (content d m (k * d.block_size + below) (min (bytes - head) (d.block_size - below)))
          (read_loop fuel d m below (head + min (bytes - head) (d.block_size - below)) bytes)
  unfolding read_loop
  read_loop-round =
      let bs = d.block_size in
      let q : (k * bs + below) / bs ≡ k = grind arith in
      let r : (k * bs + below) % bs ≡ below = grind arith in
      rw (lt→ltb head bytes more, place, q, r, read_loop)
        (ap
          (λ t. prepend t (read_loop fuel d m below (head + min (bytes - head) (bs - below)) bytes))
          (read-content d m k below (min (bytes - head) (bs - below)) (omega arith)))

-- The loop is over once all bytes are read.
read_loop-end :
    (fuel : ℕ) (d : Disk) (m : Meta) (offset head bytes : ℕ)
    → bytes ≤ head
    → read_loop fuel d m offset head bytes ≡ some []
unfolding read_loop
read_loop-end zero d m offset head bytes h = rw (le→not-ltb head bytes h) refl
read_loop-end (suc fuel) d m offset head bytes h = rw (le→not-ltb head bytes h) refl

-- From the start of a block on, with the offset 0, the loop reads the rest of the bytes.
read_loop_from :
    (fuel k : ℕ) (d : Disk) (m : Meta) (bytes : ℕ)
    → 0 < d.block_size
    → bytes < u64_mod
    → bytes - k * d.block_size ≤ fuel
    → read_loop fuel d m 0 (k * d.block_size) bytes
      ≡ some (content d m (k * d.block_size) (bytes - k * d.block_size))
unfolding content
read_loop_from zero k d m bytes some_ small enough =
    let e : bytes - k * d.block_size ≡ 0 = omega arith in
    rw e (read_loop-end zero d m 0 (k * d.block_size) bytes (omega arith))
read_loop_from (suc fuel) k d m bytes some_ small enough =
    let bs = d.block_size in
    let head = k * bs in
    elim (dec_lt head bytes) [
      | no over ↦
          let e : bytes - head ≡ 0 = omega arith in
          rw e (read_loop-end (suc fuel) d m 0 head bytes (omega arith))
      | yes more ↦
          let p : add64 0 head ≡ head + 0 = add64-eq_add 0 head (omega arith) ∙ omega arith in
          let z : head + 0 ≡ head = omega arith in
          let round = read_loop-round d m fuel k 0 head bytes 0 more p some_ in
          elim (dec_lt bs (bytes - head)) [
            | no last ↦
                let n : min (bytes - head) (bs - 0) ≡ bytes - head = omega arith in
                let t = read_loop-end fuel d m 0 (head + (bytes - head)) bytes (omega arith) in
                round ∙ rw (n, z, t) (ap some (append-nil (content d m head (bytes - head))))
            | yes whole ↦
                let n : min (bytes - head) (bs - 0) ≡ bs = omega arith in
                let h : head + bs ≡ (k + 1) * bs = grind arith in
                let left : bytes - head ≡ bs + (bytes - (k + 1) * bs) = omega (arith, h) in
                let ih = read_loop_from fuel (k + 1) d m bytes some_ small (omega (arith, h)) in
                round
                ∙ rw (n, z, h, ih)
                    (ap some (
                      sym (
                        ap (content d m head) left
                        ∙ content-append d m head bs (bytes - (k + 1) * bs)
                        ∙ ap (λ a. content d m head bs ++ content d m a (bytes - (k + 1) * bs)) h)))
          ]
    ]

read_loop_start :
    (fuel : ℕ) (d : Disk) (m : Meta) (bytes : ℕ)
    → 0 < d.block_size
    → bytes < u64_mod
    → bytes ≤ fuel
    → read_loop fuel d m 0 0 bytes ≡ some (content d m 0 bytes)
read_loop_start fuel d m bytes some_ small enough =
    let z : 0 * d.block_size ≡ 0 = omega arith in
    let all : bytes - 0 ≡ bytes = omega arith in
    ap (λ h. read_loop fuel d m 0 h bytes) (sym z)
    ∙ read_loop_from fuel 0 d m bytes some_ small (omega arith)
    ∙ ap some (ap (λ h. content d m h (bytes - h)) z ∙ ap (content d m 0) all)

-- A ReadINode inside the file is the loop.
read_inode-inside :
    (fuel : ℕ) (d : Disk) (m : Meta) (offset bytes : ℕ)
    → offset + bytes ≤ m.size
    → m.size < u64_mod
    → read_inode fuel d m offset bytes ≡ read_loop fuel d m offset 0 bytes
unfolding read_inode
read_inode-inside fuel d m offset bytes h small =
    let e = add64-eq_add offset bytes (omega arith) in
    rw (le→not-ltb m.size offset (omega arith), e, le→not-ltb m.size (offset + bytes) h, read_inode)
      refl

-- ReadINode from the start of the file on, by the places of the file.
pub read_inode-content :
    (fuel : ℕ) (d : Disk) (m : Meta) (bytes : ℕ)
    → 0 < d.block_size
    → m.size < u64_mod
    → bytes < u64_mod
    → bytes ≤ fuel
    → read_inode fuel d m 0 bytes ≡ some (content d m 0 (min bytes m.size))
unfolding read_inode
read_inode-content fuel d m bytes some_ small small' enough =
    let e = add64-eq_add 0 bytes (omega arith) in
    let z : 0 + bytes ≡ bytes = omega arith in
    elim (dec_lt m.size bytes) [
      | yes past ↦
          let n : min bytes m.size ≡ m.size = omega arith in
          let q : sub64 m.size 0 ≡ m.size =
            sub64-eq_sub m.size 0 (omega arith) small ∙ omega arith in
          rw (le→not-ltb m.size 0 (omega arith), e, z, lt→ltb m.size bytes past, q, n, read_inode)
            (read_loop_start fuel d m m.size some_ small (omega arith))
      | no within ↦
          let n : min bytes m.size ≡ bytes = omega arith in
          rw
            (
              le→not-ltb m.size 0 (omega arith),
              e,
              z,
              le→not-ltb m.size bytes (omega arith),
              n,
              read_inode,
            )
            (read_loop_start fuel d m bytes some_ small' (omega arith))
    ]

-- ReadINode of some bytes inside one block and inside the file, by the places of the file.
pub read_inode_within :
    (fuel : ℕ) (d : Disk) (m : Meta) (offset bytes : ℕ)
    → 0 < d.block_size
    → 0 < bytes
    → offset % d.block_size + bytes ≤ d.block_size
    → offset + bytes ≤ m.size
    → m.size < u64_mod
    → 0 < fuel
    → read_inode fuel d m offset bytes ≡ some (content d m offset bytes)
read_inode_within zero d m offset bytes some_ more fits inside small enough = absurd (omega arith)
read_inode_within (suc fuel) d m offset bytes some_ more fits inside small enough =
    let bs = d.block_size in
    let k = offset / bs in
    let below = offset % bs in
    let split : offset ≡ k * bs + below = grind arith in
    let p : add64 offset 0 ≡ k * bs + below =
      add64-eq_add offset 0 (omega arith) ∙ omega (arith, split) in
    let n : min (bytes - 0) (bs - below) ≡ bytes = omega arith in
    let e = read_loop-end fuel d m below (0 + bytes) bytes (omega arith) in
    read_inode-inside (suc fuel) d m offset bytes inside small
    ∙ read_loop-round d m fuel k below 0 bytes offset more p (omega arith)
    ∙ rw (n, e)
        (ap some (
          append-nil (content d m (k * bs + below) bytes)
          ∙ ap (λ a. content d m a bytes) (sym split)))

-- ReadINode from the start of block `k` on of more bytes than a block, inside the file, reads block
-- `k` and then the bytes from the file's second block on, whatever `k` is: the loop replaces the
-- offset by its remainder. (With k = 0 these are the right bytes.)
pub read_inode_beyond :
    (fuel : ℕ) (d : Disk) (m : Meta) (k bytes : ℕ)
    → 0 < d.block_size
    → d.block_size < bytes
    → k * d.block_size + bytes ≤ m.size
    → m.size < u64_mod
    → bytes ≤ fuel
    → read_inode fuel d m (k * d.block_size) bytes
      ≡ some (
          content d m (k * d.block_size) d.block_size
          ++ content d m d.block_size (bytes - d.block_size))
read_inode_beyond zero d m k bytes some_ long inside small enough = absurd (omega arith)
read_inode_beyond (suc fuel) d m k bytes some_ long inside small enough =
    let bs = d.block_size in
    let p : add64 (k * bs) 0 ≡ k * bs + 0 = add64-eq_add (k * bs) 0 (omega arith) in
    let z : k * bs + 0 ≡ k * bs = omega arith in
    let n : min (bytes - 0) (bs - 0) ≡ bs = omega arith in
    let one : 0 + bs ≡ 1 * bs = omega arith in
    let e = read_loop_from fuel 1 d m bytes some_ (omega arith) (omega arith) in
    let unit : 1 * bs ≡ bs = omega arith in
    read_inode-inside (suc fuel) d m (k * bs) bytes inside small
    ∙ read_loop-round d m fuel k 0 0 bytes (k * bs) (omega arith) p some_
    ∙ rw (n, z, one, e, unit) refl
