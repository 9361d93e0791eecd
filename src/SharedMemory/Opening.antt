-- ===== src/SharedMemory/Opening.antt =====
-- `SharedMemoryQueue::create` and `attach` of ipc/shared_memory_queue.cpp, call by call.
use c_low_latency_trading_sy.Prelude.{
  ℕ, zero, suc, ◌≡◌, refl, sym, ap, subst, ◌∙◌, Bool, true, false, List, [], ◌∷◌, ◌++◌,
  append_assoc, Option, none, some, ◌==◌, Bool-cases, inl, inr,
}
use c_low_latency_trading_sy.SharedMemory.{
  Call, Kernel, SharedMemoryQueue, note_opened, note_created, note_mapped, create, create_mapped,
  create_opened, attach, attach_ready, attach_mapped, attach_sized, wait_sized, wait_ready,
  sized_or, look, has_size, looks_in, channel_ready_magic,
}
use c_low_latency_trading_sy.SharedMemory.Owned.{
  open_fds, mappings, namings, held, IsOwned, IsSettled, erase_head, give_up-IsSettled,
}

-- The calls about names that `shm_open` with `O_CREAT` makes, by its result.
abbrev pub made : List ℕ → Option ℕ → List Call
made name none = []
made name (some fd) = Call.created name ∷ []

module _ {W : Type 0} (kernel : Kernel W) (sizeof_channel : ℕ) where
  -- From the call of `mmap` on.
  create_mapped-IsSettled :
      (before names : List Call) (name : List ℕ) (q : SharedMemoryQueue) (fd : ℕ) (r : Option ℕ × W)
      (log : List Call)
      → q.fd ≡ some fd
      → q.owner ≡ false
      → IsOwned before names (record q { region = none }) log
      → IsSettled before names true
          (create_mapped kernel sizeof_channel name q (note_mapped kernel sizeof_channel r log))
  unfolding open_fds mappings namings
  create_mapped-IsSettled before names name q fd (none, w) log e theirs o =
      give_up-IsSettled kernel sizeof_channel before names true (record q { region = none }) w log
        theirs o
  create_mapped-IsSettled before names name q fd (some region, w) log e theirs o = record {
    owned = record { fds = o.fds; regions = ap (λ rs. region ∷ rs) o.regions; named = o.named };
    says = (refl, λ x. cc (e, x), λ x. cc x, refl);
  }

  create_opened-IsSettled :
      (before names : List Call) (name : List ℕ) (q : SharedMemoryQueue) (r : Option ℕ × W)
      (log : List Call)
      → q.region ≡ none
      → q.channel ≡ none
      → q.owner ≡ false
      → IsOwned before names (record q { fd = none }) log
      → IsSettled before (made name r.0 ++ names) true (
          create_opened kernel sizeof_channel name q
            (note_created kernel sizeof_channel name r log))
  unfolding open_fds mappings namings
  create_opened-IsSettled before names name q (none, w) log bare unmade theirs o = record {
    owned = record { fds = o.fds; regions = o.regions; named = o.named };
    says = (refl, bare, unmade);
  }
  create_opened-IsSettled before names name q (some fd, w) log bare unmade theirs o =
      let q' : SharedMemoryQueue = record q { fd = some fd } in
      let log' : List Call = Call.opened fd ∷ Call.created name ∷ log in
      let t : Bool × W = kernel.ftruncate fd sizeof_channel w in
      let has : IsOwned before (Call.created name ∷ names) q' log' = record {
        fds = ap (λ fs. fd ∷ fs) o.fds;
        regions = o.regions;
        named = ap (λ ns. Call.created name ∷ ns) o.named;
      } in
      elim (Bool-cases t.0) [
        | inl sized ↦ rw sized (
            create_mapped-IsSettled before (Call.created name ∷ names) name q' fd
              (kernel.mmap fd t.1) log' refl theirs
              (record {
                fds = has.fds;
                regions = o.regions ∙ ap (λ r. held r ++ mappings before) bare;
                named = has.named;
              }))
        | inr unsized ↦ rw unsized (
            give_up-IsSettled kernel sizeof_channel before (Call.created name ∷ names) true q' t.1
              log' theirs has)
      ]

  -- The calls about names that `create` makes, newest first.
  abbrev pub created_by : List ℕ → W → List Call
  created_by name w =
      made name (kernel.shm_create name (kernel.shm_unlink name w)).0 ++ Call.unlinked name ∷ []

  create-IsSettled :
      (name : List ℕ) (q : SharedMemoryQueue) (w : W) (log : List Call)
      → q.fd ≡ none
      → q.region ≡ none
      → q.channel ≡ none
      → q.owner ≡ false
      → IsSettled log
          (created_by name w ++ namings log)
          true
          (create kernel sizeof_channel name q (w, log))
  unfolding create open_fds mappings namings
  create-IsSettled name q w log shut bare unmade theirs =
      let r : Option ℕ × W = kernel.shm_create name (kernel.shm_unlink name w) in
      rw (append_assoc (made name r.0) (Call.unlinked name ∷ []) (namings log)) (
        create_opened-IsSettled log (Call.unlinked name ∷ namings log) name q r
          (Call.unlinked name ∷ log) bare unmade theirs
          (record {
            fds = refl;
            regions = ap (λ r. held r ++ mappings log) (sym bare);
            named = refl;
          }))

  look_lem :
      (r : Option ℕ × W) (log : List Call)
      → let (fd, h) = look kernel sizeof_channel (note_opened kernel sizeof_channel r log) in
        (open_fds h.1 ≡ held fd ++ open_fds log)
        × (mappings h.1 ≡ mappings log)
        × (namings h.1 ≡ namings log)
  unfolding open_fds mappings namings
  look_lem (none, w) log = (refl, refl, refl)
  look_lem (some fd, w) log =
      elim (Bool-cases (has_size kernel sizeof_channel (kernel.fstat_size fd w).0)) [
        | inl sized ↦ rw sized (refl, refl, refl)
        | inr other ↦ rw other (erase_head kernel sizeof_channel fd (open_fds log), refl, refl)
      ]

  sized_or_lem :
      (log : List Call) (seen rest : Option ℕ × (W × List Call))
      → (open_fds seen.1.1 ≡ held seen.0 ++ open_fds log)
        × (mappings seen.1.1 ≡ mappings log)
        × (namings seen.1.1 ≡ namings log)
      → (open_fds rest.1.1 ≡ held rest.0 ++ open_fds seen.1.1)
        × (mappings rest.1.1 ≡ mappings seen.1.1)
        × (namings rest.1.1 ≡ namings seen.1.1)
      → let out = sized_or kernel sizeof_channel seen rest in
        (open_fds out.1.1 ≡ held out.0 ++ open_fds log)
        × (mappings out.1.1 ≡ mappings log)
        × (namings out.1.1 ≡ namings log)
  sized_or_lem log (none, h) rest e f =
      (f.0 ∙ ap (λ fs. held rest.0 ++ fs) e.0, f.1 ∙ e.1, f.2 ∙ e.2)
  sized_or_lem log (some fd, h) rest e f = e

  wait_sized_lem :
      (looks : ℕ) (name : List ℕ) (w : W) (log : List Call)
      → let (fd, h) = wait_sized kernel sizeof_channel looks name (w, log) in
        (open_fds h.1 ≡ held fd ++ open_fds log)
        × (mappings h.1 ≡ mappings log)
        × (namings h.1 ≡ namings log)
  unfolding wait_sized
  wait_sized_lem zero name w log = (refl, refl, refl)
  wait_sized_lem (suc looks) name w log =
      let seen : Option ℕ × (W × List Call) =
        look kernel sizeof_channel
          (note_opened kernel sizeof_channel (kernel.shm_open name w) log) in
      sized_or_lem log seen (wait_sized kernel sizeof_channel looks name seen.1)
        (look_lem (kernel.shm_open name w) log) (wait_sized_lem looks name seen.1.0 seen.1.1)

  wait_ready_lem :
      (looks region : ℕ) (w : W) (log : List Call)
      → (wait_ready kernel sizeof_channel looks region (w, log)).1.1 ≡ log
  unfolding wait_ready
  wait_ready_lem zero region w log = refl
  wait_ready_lem (suc looks) region w log =
      elim (Bool-cases ((kernel.load_ready region w).0 == channel_ready_magic)) [
        | inl ready ↦ rw ready refl
        | inr other ↦
            rw other (wait_ready_lem looks region (kernel.sleep (kernel.load_ready region w).1) log)
      ]

  attach_ready-IsSettled :
      (before names : List Call) (q : SharedMemoryQueue) (fd region : ℕ)
      (r : Bool × (W × List Call))
      → q.owner ≡ false
      → q.fd ≡ some fd
      → q.region ≡ some region
      → IsOwned before names q r.1.1
      → IsSettled before names false (attach_ready kernel sizeof_channel q region r)
  attach_ready-IsSettled before names q fd region (true, h) theirs has there o = record {
    owned = record { fds = o.fds; regions = o.regions; named = o.named };
    says = (theirs, λ x. cc (has, x), λ x. cc (there, x), sym there);
  }
  attach_ready-IsSettled before names q fd region (false, h) theirs has there o =
      give_up-IsSettled kernel sizeof_channel before names false q h.0 h.1 theirs o

  attach_mapped-IsSettled :
      (before names : List Call) (name : List ℕ) (timeout_ms : ℕ) (q : SharedMemoryQueue) (fd : ℕ)
      (r : Option ℕ × W) (log : List Call)
      → q.fd ≡ some fd
      → q.owner ≡ false
      → IsOwned before names (record q { region = none }) log
      → IsSettled before names false (
          attach_mapped kernel sizeof_channel name timeout_ms q
            (note_mapped kernel sizeof_channel r log))
  unfolding open_fds mappings namings
  attach_mapped-IsSettled before names name timeout_ms q fd (none, w) log e theirs o =
      give_up-IsSettled kernel sizeof_channel before names false (record q { region = none }) w log
        theirs o
  attach_mapped-IsSettled before names name timeout_ms q fd (some region, w) log e theirs o =
      let q' : SharedMemoryQueue = record q { region = some region; name = name; owner = false } in
      let log' : List Call = Call.mapped region ∷ log in
      attach_ready-IsSettled before names q' fd region
        (wait_ready kernel sizeof_channel (looks_in kernel sizeof_channel timeout_ms) region
          (w, log'))
        refl e refl
        (subst (IsOwned before names q')
          (sym (wait_ready_lem (looks_in kernel sizeof_channel timeout_ms) region w log'))
          (record { fds = o.fds; regions = ap (λ rs. region ∷ rs) o.regions; named = o.named }))

  attach_sized-IsSettled :
      (before : List Call) (name : List ℕ) (timeout_ms : ℕ) (q : SharedMemoryQueue)
      (r : Option ℕ × (W × List Call))
      → q.region ≡ none
      → q.owner ≡ false
      → (open_fds r.1.1 ≡ held r.0 ++ open_fds before)
        × (mappings r.1.1 ≡ mappings before)
        × (namings r.1.1 ≡ namings before)
      → IsSettled before
          (namings before)
          false
          (attach_sized kernel sizeof_channel name timeout_ms q r)
  attach_sized-IsSettled before name timeout_ms q (none, h) bare theirs e =
      give_up-IsSettled kernel sizeof_channel before (namings before) false (record q { fd = none })
        h.0 h.1 theirs
        (record {
          fds = e.0;
          regions = e.1 ∙ ap (λ x. held x ++ mappings before) (sym bare);
          named = e.2;
        })
  attach_sized-IsSettled before name timeout_ms q (some fd, h) bare theirs e =
      attach_mapped-IsSettled before (namings before) name timeout_ms (record q { fd = some fd }) fd
        (kernel.mmap fd h.0) h.1 refl theirs (record { fds = e.0; regions = e.1; named = e.2 })

  attach-IsSettled :
      (name : List ℕ) (timeout_ms : ℕ) (q : SharedMemoryQueue) (w : W) (log : List Call)
      → q.region ≡ none
      → q.owner ≡ false
      → IsSettled log (namings log) false (attach kernel sizeof_channel name timeout_ms q (w, log))
  unfolding attach
  attach-IsSettled name timeout_ms q w log bare theirs =
      attach_sized-IsSettled log name timeout_ms q
        (wait_sized kernel sizeof_channel (looks_in kernel sizeof_channel timeout_ms) name (w, log))
        bare theirs (wait_sized_lem (looks_in kernel sizeof_channel timeout_ms) name w log)

  -- `create` and `attach` on an object that holds nothing and owns no segment, whichever system call fails
  -- and however long the segment takes to get its size and its channel: each returns true with a
  -- descriptor, a mapping and its channel, `create` alone as the owner, or false, and then all descriptors
  -- and mappings that it took are given back, those of the looks in between included. `create` unlinks the
  -- name once, at its start; a segment that its `shm_open` then makes keeps its name, also when `create`
  -- fails later. `attach` makes and unlinks no segment.
  pub create-attach-IsSettled :
      (name : List ℕ) (timeout_ms : ℕ) (q : SharedMemoryQueue) (w : W) (log : List Call)
      → q.fd ≡ none
      → q.region ≡ none
      → q.channel ≡ none
      → q.owner ≡ false
      → IsSettled log
          (created_by name w ++ namings log)
          true
          (create kernel sizeof_channel name q (w, log))
        × IsSettled log
            (namings log)
            false
            (attach kernel sizeof_channel name timeout_ms q (w, log))
  create-attach-IsSettled name timeout_ms q w log shut bare unmade theirs = (
    create-IsSettled name q w log shut bare unmade theirs,
    attach-IsSettled name timeout_ms q w log bare theirs,
  )
