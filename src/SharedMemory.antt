-- ===== src/SharedMemory.antt =====
-- `SharedMemoryQueue` of ipc/shared_memory_queue.cpp: the segment that holds the channel, as the handler
-- creates it and the engine attaches to it. The system calls are parameters, and a log keeps which of
-- them took, made or gave back something.
pub mod Owned
pub mod Opening
mod Tests
use c_low_latency_trading_sy.Prelude.{
  ℕ, zero, suc, ◌+◌, ◌/◌, Bool, true, false, ◌&&◌, not, List, [], ◌∷◌, Option, none, some, ◌==◌,
  if◌then◌else◌, length,
}

-- A name is the list of its characters.
pub data Call : Type 0 where
  opened closed mapped unmapped : ℕ → Call
  created unlinked : List ℕ → Call

-- `none` is a negative result, or `MAP_FAILED`.
pub record Kernel (W : Type 0) : Type 0 where
  pub shm_unlink : List ℕ → W → W
  pub shm_create : List ℕ → W → Option ℕ × W
  pub shm_open : List ℕ → W → Option ℕ × W
  pub ftruncate : ℕ → ℕ → W → Bool × W
  pub fstat_size : ℕ → W → Option ℕ × W
  pub mmap : ℕ → W → Option ℕ × W
  pub munmap : ℕ → W → W
  pub close : ℕ → W → W
  pub sleep : W → W
  -- `new (region) ShmChannel()` with the stores that follow, and the load of `ready`.
  pub construct : ℕ → W → W
  pub load_ready : ℕ → W → ℕ × W

-- A descriptor of -1, a null region and a null channel are `none`.
pub record SharedMemoryQueue : Type 0 where
  pub name : List ℕ
  pub owner : Bool
  pub fd : Option ℕ
  pub region : Option ℕ
  pub channel : Option ℕ

abbrev pub unused : SharedMemoryQueue
unused = record { name = []; owner = false; fd = none; region = none; channel = none }

abbrev pub channel_ready_magic : ℕ
channel_ready_magic = 0x52454459

abbrev pub interval_ms : ℕ
interval_ms = 10

module _ {W : Type 0} (kernel : Kernel W) (sizeof_channel : ℕ) where
  -- The outside, and the log, newest first.
  abbrev Host : Type 0
  Host = W × List Call

  abbrev pub unlink_segment : List ℕ → Host → Host
  unlink_segment name (w, log) = (kernel.shm_unlink name w, Call.unlinked name ∷ log)

  abbrev note_opened : Option ℕ × W → List Call → Option ℕ × Host
  note_opened (none, w) log = (none, (w, log))
  note_opened (some fd, w) log = (some fd, (w, Call.opened fd ∷ log))

  -- `shm_open` with `O_CREAT` makes the segment that it opens.
  abbrev note_created : List ℕ → Option ℕ × W → List Call → Option ℕ × Host
  note_created name (none, w) log = (none, (w, log))
  note_created name (some fd, w) log = (some fd, (w, Call.opened fd ∷ Call.created name ∷ log))

  abbrev note_mapped : Option ℕ × W → List Call → Option ℕ × Host
  note_mapped (none, w) log = (none, (w, log))
  note_mapped (some region, w) log = (some region, (w, Call.mapped region ∷ log))

  abbrev map_segment : ℕ → Host → Option ℕ × Host
  map_segment fd (w, log) = note_mapped (kernel.mmap fd w) log

  abbrev close_fd : Option ℕ → Host → Host
  close_fd none h = h
  close_fd (some fd) (w, log) = (kernel.close fd w, Call.closed fd ∷ log)

  abbrev unmap : Option ℕ → Host → Host
  unmap none h = h
  unmap (some region) (w, log) = (kernel.munmap region w, Call.unmapped region ∷ log)

  unfoldable pub close : SharedMemoryQueue → Host → SharedMemoryQueue × Host
  close q h =
      let h' = close_fd q.fd (unmap q.region h) in
      (
        record q { region = none; fd = none; channel = none },
        if q.owner && not (length q.name == 0) then unlink_segment q.name h' else h',
      )

  abbrev give_up : SharedMemoryQueue → Host → Bool × (SharedMemoryQueue × Host)
  give_up q h = (false, close q h)

  -- `create` from the call of `mmap` on.
  abbrev create_mapped :
      List ℕ → SharedMemoryQueue → Option ℕ × Host → Bool × (SharedMemoryQueue × Host)
  create_mapped name q (none, h) = give_up (record q { region = none }) h
  create_mapped name q (some region, (w, log)) = (
    true,
    (
      record q { name = name; owner = true; region = some region; channel = some region },
      (kernel.construct region w, log),
    ),
  )

  -- `create` from the call of `ftruncate` on.
  abbrev create_opened :
      List ℕ → SharedMemoryQueue → Option ℕ × Host → Bool × (SharedMemoryQueue × Host)
  create_opened name q (none, h) = (false, (record q { fd = none }, h))
  create_opened name q (some fd, (w, log)) =
      let q' = record q { fd = some fd } in
      let (sized, w') = kernel.ftruncate fd sizeof_channel w in
      if sized then create_mapped name q' (map_segment fd (w', log)) else give_up q' (w', log)

  unfoldable pub create : List ℕ → SharedMemoryQueue → Host → Bool × (SharedMemoryQueue × Host)
  create name q h =
      let (w, log) = unlink_segment name h in
      create_opened name q (note_created name (kernel.shm_create name w) log)

  abbrev has_size : Option ℕ → Bool
  has_size none = false
  has_size (some size) = size == sizeof_channel

  -- One look of `attach` at a segment that may not have its size yet: whether it has, and `fd_`.
  abbrev look : Option ℕ × Host → Option ℕ × Host
  look (none, (w, log)) = (none, (kernel.sleep w, log))
  look (some fd, (w, log)) =
      let (size, w') = kernel.fstat_size fd w in
      if has_size size
      then (some fd, (w', log))
      else (none, (kernel.sleep (kernel.close fd w'), Call.closed fd ∷ log))

  abbrev sized_or : Option ℕ × Host → Option ℕ × Host → Option ℕ × Host
  sized_or (none, h) rest = rest
  sized_or (some fd, h) rest = (some fd, h)

  -- The first loop of `attach`, with the looks that are left: the descriptor, once it has its size.
  pub wait_sized : ℕ → List ℕ → Host → Option ℕ × Host
  wait_sized zero name h = (none, h)
  wait_sized (suc looks) name (w, log) =
      let seen = look (note_opened (kernel.shm_open name w) log) in
      let rest = wait_sized looks name seen.1 in sized_or seen rest

  -- The second loop of `attach`: whether the channel is ready in time.
  pub wait_ready : ℕ → ℕ → Host → Bool × Host
  wait_ready zero region h = (false, h)
  wait_ready (suc looks) region (w, log) =
      let (ready, w') = kernel.load_ready region w in
      let rest = wait_ready looks region (kernel.sleep w', log) in
      if ready == channel_ready_magic then (true, (w', log)) else rest

  -- How often a loop looks within its time.
  abbrev looks_in : ℕ → ℕ
  looks_in timeout_ms = timeout_ms / interval_ms + 1

  abbrev attach_ready : SharedMemoryQueue → ℕ → Bool × Host → Bool × (SharedMemoryQueue × Host)
  attach_ready q region (true, h) = (true, (record q { channel = some region }, h))
  attach_ready q region (false, h) = give_up q h

  abbrev attach_mapped :
      List ℕ → ℕ → SharedMemoryQueue → Option ℕ × Host → Bool × (SharedMemoryQueue × Host)
  attach_mapped name timeout_ms q (none, h) = give_up (record q { region = none }) h
  attach_mapped name timeout_ms q (some region, h) =
      attach_ready (record q { region = some region; name = name; owner = false }) region
        (wait_ready (looks_in timeout_ms) region h)

  abbrev attach_sized :
      List ℕ → ℕ → SharedMemoryQueue → Option ℕ × Host → Bool × (SharedMemoryQueue × Host)
  attach_sized name timeout_ms q (none, h) = give_up (record q { fd = none }) h
  attach_sized name timeout_ms q (some fd, h) =
      attach_mapped name timeout_ms (record q { fd = some fd }) (map_segment fd h)

  unfoldable pub attach : List ℕ → ℕ → SharedMemoryQueue → Host → Bool × (SharedMemoryQueue × Host)
  attach name timeout_ms q h =
      attach_sized name timeout_ms q (wait_sized (looks_in timeout_ms) name h)
