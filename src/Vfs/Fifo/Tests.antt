-- ===== src/Vfs/Fifo/Tests.antt =====
-- A pipe with a buffer of four bytes.
use cryptix_os.Vfs.Ring.{queue_ops}
use cryptix_os.Vfs.Fifo.{Fifo, writing}
use cryptix_os.Vfs.Fifo.Order.{opens, reads, writes, Call, run, run_in_order}
use cryptix_os.Common.{◌≡◌, false, List, [], ◌∷◌, ◌++◌, arith}

abbrev pipe : Fifo queue_ops
pipe = record {
  reader_count = 1;
  writer_count = 0;
  signals = 0;
  buffer = record { limit = 4; items = 65 ∷ []; bounded = omega arith };
  non_blocking = false;
}

abbrev calls : List Call
calls = opens writing ∷ writes (66 ∷ 67 ∷ 68 ∷ 69 ∷ []) ∷ reads 2 ∷ writes (70 ∷ []) ∷ reads 9 ∷ []

run_in_order_example :
    (run queue_ops pipe calls).0 ++ (run queue_ops pipe calls).2.buffer.items
    ≡ 65 ∷ (run queue_ops pipe calls).1
run_in_order_example =
    run_in_order queue_ops pipe calls (tt, (omega arith, (tt, (omega arith, (tt, tt)))))
