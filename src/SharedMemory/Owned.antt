-- ===== src/SharedMemory/Owned.antt =====
-- The descriptors, the mappings and the names of a log, and `SharedMemoryQueue::close` of
-- ipc/shared_memory_queue.cpp.
use c_low_latency_trading_sy.Prelude.{
  ℕ, ◌≡◌, ◌≢◌, refl, ap, ◌∙◌, arith, Bool, true, false, List, [], ◌∷◌, ◌++◌, Option, none, some,
  ◌==◌, if◌then◌else◌,
}
use c_low_latency_trading_sy.SharedMemory.{
  Call, Kernel, SharedMemoryQueue, close_fd, unmap, close, give_up,
}

-- The first of the equal ones goes.
abbrev erase : ℕ → List ℕ → List ℕ
erase n [] = []
erase n (x ∷ xs) = if n == x then xs else x ∷ erase n xs

-- The descriptors that are open, and the regions that are mapped, by a log.
unfoldable pub open_fds : List Call → List ℕ
open_fds [] = []
open_fds (Call.opened fd ∷ log) = fd ∷ open_fds log
open_fds (Call.closed fd ∷ log) = erase fd (open_fds log)
open_fds (Call.mapped r ∷ log) = open_fds log
open_fds (Call.unmapped r ∷ log) = open_fds log
open_fds (Call.created name ∷ log) = open_fds log
open_fds (Call.unlinked name ∷ log) = open_fds log

unfoldable pub mappings : List Call → List ℕ
mappings [] = []
mappings (Call.opened fd ∷ log) = mappings log
mappings (Call.closed fd ∷ log) = mappings log
mappings (Call.mapped r ∷ log) = r ∷ mappings log
mappings (Call.unmapped r ∷ log) = erase r (mappings log)
mappings (Call.created name ∷ log) = mappings log
mappings (Call.unlinked name ∷ log) = mappings log

-- The calls that made a segment or took its name away, newest first.
unfoldable pub namings : List Call → List Call
namings [] = []
namings (Call.opened fd ∷ log) = namings log
namings (Call.closed fd ∷ log) = namings log
namings (Call.mapped r ∷ log) = namings log
namings (Call.unmapped r ∷ log) = namings log
namings (Call.created name ∷ log) = Call.created name ∷ namings log
namings (Call.unlinked name ∷ log) = Call.unlinked name ∷ namings log

abbrev pub held : Option ℕ → List ℕ
held none = []
held (some n) = n ∷ []

-- Over those of a log before, the kernel has given what the object holds, and `names` are the calls
-- about names.
pub record IsOwned (before names : List Call) (q : SharedMemoryQueue) (log : List Call)
    : Type 0 where
  pub fds : open_fds log ≡ held q.fd ++ open_fds before
  pub regions : mappings log ≡ held q.region ++ mappings before
  pub named : namings log ≡ names

-- What the flag of a call says of the object.
abbrev pub Says : Bool → Bool → SharedMemoryQueue → Type 0
Says owner true q = (q.owner ≡ owner) × (q.fd ≢ none) × (q.region ≢ none) × (q.channel ≡ q.region)
Says owner false q = (q.fd ≡ none) × (q.region ≡ none) × (q.channel ≡ none)

pub record IsSettled {W : Type 0} (before names : List Call) (owner : Bool)
    (out : Bool × (SharedMemoryQueue × (W × List Call))) : Type 0 where
  pub owned : IsOwned before names out.1.0 out.1.1.1
  pub says : Says owner out.0 out.1.0

module _ {W : Type 0} (kernel : Kernel W) (sizeof_channel : ℕ) where
  pub erase_head : (n : ℕ) (xs : List ℕ) → erase n (n ∷ xs) ≡ xs
  erase_head n xs = ground arith

  unmap_lem :
      (r : Option ℕ) (h : W × List Call) (rest : List ℕ)
      → mappings h.1 ≡ held r ++ rest
      → let out = (unmap kernel sizeof_channel r h).1 in
        (open_fds out ≡ open_fds h.1) × (mappings out ≡ rest) × (namings out ≡ namings h.1)
  unfolding open_fds mappings namings
  unmap_lem none h rest e = (refl, e, refl)
  unmap_lem (some r) h rest e = (refl, ap (erase r) e ∙ erase_head r rest, refl)

  close_fd_lem :
      (fd : Option ℕ) (h : W × List Call) (rest : List ℕ)
      → open_fds h.1 ≡ held fd ++ rest
      → let out = (close_fd kernel sizeof_channel fd h).1 in
        (open_fds out ≡ rest) × (mappings out ≡ mappings h.1) × (namings out ≡ namings h.1)
  unfolding open_fds mappings namings
  close_fd_lem none h rest e = (e, refl, refl)
  close_fd_lem (some fd) h rest e = (ap (erase fd) e ∙ erase_head fd rest, refl, refl)

  -- `close` of an object that owns no segment gives back whatever it holds, and touches no name.
  pub close-IsOwned :
      (before names log : List Call) (q : SharedMemoryQueue) (w : W)
      → q.owner ≡ false
      → IsOwned before names q log
      → IsOwned before names
          (close kernel sizeof_channel q (w, log)).0
          (close kernel sizeof_channel q (w, log)).1.1
  unfolding close
  close-IsOwned before names log q w theirs o =
      let h1 : W × List Call = unmap kernel sizeof_channel q.region (w, log) in
      let h2 : W × List Call = close_fd kernel sizeof_channel q.fd h1 in
      let one = unmap_lem q.region (w, log) (mappings before) o.regions in
      let two = close_fd_lem q.fd h1 (open_fds before) (one.0 ∙ o.fds) in
      rw theirs (record { fds = two.0; regions = two.1 ∙ one.1; named = two.2 ∙ one.2 ∙ o.named })

  pub give_up-IsSettled :
      (before names : List Call) (owner : Bool) (q : SharedMemoryQueue) (w : W) (log : List Call)
      → q.owner ≡ false
      → IsOwned before names q log
      → IsSettled before names owner (give_up kernel sizeof_channel q (w, log))
  unfolding close
  give_up-IsSettled before names owner q w log theirs o = record {
    owned = close-IsOwned before names log q w theirs o;
    says = (refl, refl, refl);
  }
