-- ===== src/Vfs/SynthFs/Files.antt =====
-- Nodes in memory behind open files.
use cryptix_os.Vfs.Buffer.{BufferOps}
use cryptix_os.Vfs.Inode
use cryptix_os.Vfs.Inode.{InodeOps, new_file-kind, size-new_file, read-new_file, write-new_file}
use cryptix_os.Vfs.SynthFs
use cryptix_os.Vfs.SynthFs.{Node, is_directory_mode}
use cryptix_os.Vfs.SynthFs.Content.{read-write_node, read_negative}
use cryptix_os.Vfs.Description
use cryptix_os.Vfs.Description.Seek.{seek-before_start, back_from}
use cryptix_os.Vfs.Description.Access.{read_ok, write_ok, read_panic, seek_set_ok}
use cryptix_os.Vfs.Description.{Description, can_read, can_write}
use cryptix_os.Common.{
  ℕ, ◌+◌, ◌-◌, ◌^◌, ◌≤◌, ◌<◌, ◌≡◌, refl, ap, ◌∙◌, true, false, Option, none, some, List, arith,
  length, u64_mod, ℤ, pos, negsuc, to_i64, is_negative, Outcome, ok, err, panic,
}

-- A count of bytes is never negative here.
abbrev pub counted : Outcome (ℕ × List ℕ) → Outcome (ℤ × List ℕ)
counted (ok r) = ok (pos r.0, r.1)
counted (err e) = err e
counted panic = panic

abbrev pub written : Outcome ℕ → Outcome ℤ
written (ok n) = ok (pos n)
written (err e) = err e
written panic = panic

-- A Write whose loop does not end gives nothing back, as a panic does.
abbrev pub ended {ℓ} : {A : Type ℓ} → A → Option (Outcome ℕ × A) → Outcome ℤ × A
ended f none = (panic, f)
ended f (some r) = (written r.0, r.1)

module _ (B : BufferOps) where
  open B use {size}

  abbrev pub synth_inode : InodeOps
  synth_inode = record {
    Inode = Node B;
    is_directory = λ f. is_directory_mode f.mode;
    stat_size = λ f. f.metadata_size;
    read = λ f offset n. counted (SynthFs.read B f offset n);
    write = λ f offset bytes. ended f (SynthFs.write B f offset bytes);
    truncate = λ f n. SynthFs.truncate B f n;
  }

  -- A Seek with SEEK_END by more than the size of a file in memory, followed by a Read without an
  -- offset of its own, runs into the failed Assert of the node. The file is opened by its node,
  -- readable and no directory, its size and the offset before together fit in 63 bits, and so does
  -- the distance.
  seek-before_start-read :
      (d : Description synth_inode) (f : Node B) (n count : ℕ)
      → d.file ≡ some (Inode.new_file synth_inode f)
      → can_read d.access_mode ≡ true
      → is_directory_mode f.mode ≡ false
      → d.offset + f.metadata_size < 2 ^ 63
      → f.metadata_size ≤ n
      → n < 2 ^ 63
      → (Description.read synth_inode
          (Description.seek synth_inode d (pos 2) (negsuc n)).1
          count
          (negsuc 0)).0
        ≡ panic
  unfolding is_negative
  seek-before_start-read d f n count e r m fits small h =
      let file = Inode.new_file synth_inode f in
      let k = new_file-kind synth_inode f in
      let sz = size-new_file synth_inode f in
      let back = n - f.metadata_size in
      let d' : Description synth_inode = record d { offset = u64_mod - 1 - back } in
      let sought : Description.seek synth_inode d (pos 2) (negsuc n) ≡ (ok (negsuc back), d') =
        rw sz at (
          seek-before_start synth_inode d file n e (ap (λ x. x.socket) k) (ap (λ x. x.fifo) k)
            (rw sz fits) (rw sz small) h) in
      let failed : Inode.read synth_inode file count (to_i64 d'.offset) ≡ panic =
        read-new_file synth_inode f count (to_i64 d'.offset) m
        ∙ ap (λ x. counted (SynthFs.read B f x count)) (back_from f.metadata_size n small h).1
        ∙ ap counted (read_negative B f back count) in
      ap (λ x. (Description.read synth_inode x.1 count (negsuc 0)).0) sought
      ∙ ap (λ x. x.0)
          (read_panic synth_inode d' file count (negsuc 0) e r (ap (λ x. x.directory) k) refl
            failed)

  -- What a Write at the offset of a descriptor puts into a file in memory comes back after a Seek
  -- with SEEK_SET to that offset: Write takes all bytes, Seek returns the offset, and Read gives
  -- the same bytes and leaves the descriptor as Write did. The file is opened by its node and no
  -- directory, it is open for reading and writing, its buffer is smaller than 2 ^ 64, and the end
  -- of the written bytes is below 2 ^ 63.
  pub read-seek-write :
      (d : Description synth_inode) (f : Node B) (bytes : List ℕ)
      → d.file ≡ some (Inode.new_file synth_inode f)
      → can_read d.access_mode ≡ true
      → can_write d.access_mode ≡ true
      → is_directory_mode f.mode ≡ false
      → size f.buffer < u64_mod
      → d.offset + length bytes < 2 ^ 63
      → (d' : Description synth_inode) × (Description.write synth_inode d bytes (pos d.offset)
          ≡ (ok (pos (length bytes)), d'))
        × ((Description.seek synth_inode d' (pos 0) (pos d.offset)).0 ≡ ok (pos d.offset))
        × (Description.read synth_inode
              (Description.seek synth_inode d' (pos 0) (pos d.offset)).1
              (length bytes)
              (pos d.offset)
            ≡ (ok (pos (length bytes)), bytes, d'))
  read-seek-write d f bytes e r w m small fits =
      let n = length bytes in
      let (f', wrote, back, _, _, _, mode) =
        read-write_node B f d.offset bytes (omega arith) small in
      let file' = Inode.new_file synth_inode f' in
      let k = new_file-kind synth_inode f' in
      let m' : is_directory_mode f'.mode ≡ false = ap is_directory_mode mode ∙ m in
      let d' : Description synth_inode = record d { file = some file'; offset = d.offset + n } in
      let put : Inode.write synth_inode (Inode.new_file synth_inode f) bytes (pos d.offset)
          ≡ (ok (pos n), file') =
        write-new_file synth_inode f bytes (pos d.offset) m
        ∙ ap (λ x. ((ended f x).0, Inode.new_file synth_inode (ended f x).1)) wrote in
      let got : Inode.read synth_inode file' n (pos d.offset) ≡ ok (pos n, bytes) =
        read-new_file synth_inode f' n (pos d.offset) m' ∙ ap counted back in
      let sought =
        seek_set_ok synth_inode d' file' d.offset refl (ap (λ x. x.socket) k) (ap (λ x. x.fifo) k)
          (omega arith) in
      (
        d',
        write_ok synth_inode d (Inode.new_file synth_inode f) file' d.offset n bytes e w put fits,
        ap (λ x. x.0) sought,
        ap (λ x. Description.read synth_inode x.1 n (pos d.offset)) sought
            ∙ read_ok synth_inode (record d' { offset = d.offset }) file' n d.offset n bytes refl r
                (ap (λ x. x.directory) k) got fits,
      )
