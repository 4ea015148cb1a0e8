-- ===== src/Vfs/Description/Tests.antt =====
-- A descriptor at byte 5, on which the laws are applied.
use mathlib.Core.Path.{subst}
use cryptix_os.Vfs.Inode
use cryptix_os.Vfs.Inode.{InodeOps}
use cryptix_os.Vfs.Description.{
  Description, Whence, seek_set, seek_cur, seek_end, seek_other, seek_whence, seek,
}
use cryptix_os.Vfs.Description.Seek.{Sought, seek-Sought}
use cryptix_os.Common.{◌≢◌, false, some, [], arith, pos, negsuc, int_eq, ok}

-- An inode of 16 bytes that has nothing to read.
abbrev still : InodeOps
still = record {
  Inode = Unit {0};
  is_directory = λ _. false;
  stat_size = λ _. 16;
  read = λ _ offset n. ok (pos 0, []);
  write = λ i offset bytes. (ok (pos 0), i);
  truncate = λ i n. (ok (pos 0), i);
}

abbrev at_five : Description still
at_five = record { file = some (Inode.new_file still tt); access_mode = 1; offset = 5 }

abbrev IsCur : Whence → Type 0
IsCur seek_set = ⊥
IsCur seek_cur = Unit
IsCur seek_end = ⊥
IsCur seek_other = ⊥

cur_not_end : seek_whence (pos 1) ≢ seek_end
unfolding seek_whence int_eq
cur_not_end e = subst IsCur e tt

seek-Sought_example : Sought still at_five (seek still at_five (pos 1) (negsuc 2))
seek-Sought_example = seek-Sought still at_five (pos 1) (negsuc 2) cur_not_end (omega arith)
