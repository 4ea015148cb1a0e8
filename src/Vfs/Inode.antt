-- ===== src/Vfs/Inode.antt =====
-- The part of Kernel/VFS/INode.hpp that open files rely on, as an interface, and
-- Kernel/VFS/File.{hpp,cpp} over it. Each open file has its own copy of the node here.
use cryptix_os.Common.{ℕ, ◌≡◌, refl, Bool, false, List, if◌then◌else◌, eisdir, ℤ, Outcome, err}

-- The virtual functions of INode; counts and sizes of a refused call may be negative.
pub record InodeOps : Type 1 where
  pub Inode : Type 0
  pub is_directory : Inode → Bool
  pub stat_size : Inode → ℕ
  pub read : Inode → ℤ → ℕ → Outcome (ℤ × List ℕ)
  pub write : Inode → ℤ → List ℕ → Outcome ℤ × Inode
  pub truncate : Inode → ℕ → Outcome ℤ × Inode

-- The virtual tests of File, which its subclasses for pipes and sockets give other values.
pub record FileKind : Type 0 where
  pub directory : Bool
  pub regular : Bool
  pub fifo : Bool
  pub socket : Bool

abbrev pub plain : FileKind
plain = record { directory = false; regular = false; fifo = false; socket = false }

module _ (I : InodeOps) where
  open I use {Inode, is_directory, stat_size}

  pub record File : Type 0 where
    pub kind : FileKind
    pub inode : Inode

  -- File(inode)
  pub new_file : Inode → File
  new_file inode = record { kind = plain; inode = inode }

  pub new_file-kind : (inode : Inode) → (new_file inode).kind ≡ plain
  unfolding new_file
  new_file-kind inode = refl

  pub size : File → ℕ
  size f = stat_size f.inode

  pub read : File → ℕ → ℤ → Outcome (ℤ × List ℕ)
  read f count offset = if is_directory f.inode then err eisdir else I.read f.inode offset count

  pub write : File → List ℕ → ℤ → Outcome ℤ × File
  write f bytes offset =
      let r = I.write f.inode offset bytes in
      if is_directory f.inode then (err eisdir, f) else (r.0, record f { inode = r.1 })

  pub truncate : File → ℕ → Outcome ℤ × File
  truncate f n = let r = I.truncate f.inode n in (r.0, record f { inode = r.1 })

  pub size-new_file : (inode : Inode) → size (new_file inode) ≡ stat_size inode
  unfolding size new_file
  size-new_file inode = refl

  pub read-new_file :
      (inode : Inode) (count : ℕ) (offset : ℤ)
      → is_directory inode ≡ false
      → read (new_file inode) count offset ≡ I.read inode offset count
  unfolding read new_file
  read-new_file inode count offset h = simp (h)

  pub write-new_file :
      (inode : Inode) (bytes : List ℕ) (offset : ℤ)
      → is_directory inode ≡ false
      → write (new_file inode) bytes offset
        ≡ ((I.write inode offset bytes).0, new_file (I.write inode offset bytes).1)
  unfolding write new_file
  write-new_file inode bytes offset h = simp (h)
