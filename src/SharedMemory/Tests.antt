-- ===== src/SharedMemory/Tests.antt =====
-- A kernel whose every call succeeds.
use c_low_latency_trading_sy.Prelude.{◌≡◌, refl, true, false, [], ◌∷◌, ◌++◌, some}
use c_low_latency_trading_sy.SharedMemory.{Kernel, unused, create, attach, channel_ready_magic}
use c_low_latency_trading_sy.SharedMemory.Owned.{IsSettled, namings}
use c_low_latency_trading_sy.SharedMemory.Opening.{created_by, create-attach-IsSettled}

abbrev willing : Kernel (Unit {0})
willing = record {
  shm_unlink = λ name w. w;
  shm_create = λ name w. (some 3, w);
  shm_open = λ name w. (some 3, w);
  ftruncate = λ fd size w. (true, w);
  fstat_size = λ fd w. (some 64, w);
  mmap = λ fd w. (some 4096, w);
  munmap = λ region w. w;
  close = λ fd w. w;
  sleep = λ w. w;
  construct = λ region w. w;
  load_ready = λ region w. (channel_ready_magic, w);
}

create-attach-IsSettled_example :
    IsSettled []
      (created_by willing 64 (47 ∷ []) tt ++ namings [])
      true
      (create willing 64 (47 ∷ []) unused (tt, []))
    × IsSettled [] (namings []) false (attach willing 64 (47 ∷ []) 20 unused (tt, []))
create-attach-IsSettled_example =
    create-attach-IsSettled willing 64 (47 ∷ []) 20 unused tt [] refl refl refl refl

created : (create willing 64 (47 ∷ []) unused (tt, [])).0 ≡ true
unfolding create
created = refl
