-- ===== src/Fingerprint/RemovalBatch.antt =====
-- bridges/fingerprint/RemovalBatch.h: removing enrolments one by one on a worker thread. A method is
-- one step; the worker's loop is cut where it gives up `lock_`, so that the steps of the others can
-- come between. `remove_` and `complete_` are known here by whether they are set.
pub mod Bounds
pub mod Cancel
use android_device_ikko_mind.Common.{
  ℕ, ◌+◌, Bool, true, false, not, ◌&&◌, ◌||◌, Option, none, some, List, [], ◌∷◌, ◌++◌, ltb, leb,
  ◌==◌, if◌then◌else◌, length, get_or,
}

-- Where the worker stands: before or in the wait; past the test with `index` and `id` read, before
-- it has `dispatch_`; inside `remove(id)`, with `dispatch_`; before the call of `complete`; gone.
pub data Worker : Type 0 where
  resting : Worker
  dispatching : ℕ → ℕ → Worker
  removing : ℕ → Worker
  completing : List ℕ → Bool → Worker
  gone : Worker

pub record Batch : Type 0 where
  pub active : Bool
  pub waiting : Bool
  pub retired : Bool
  pub stopping : Bool
  pub index : ℕ
  pub pending : List ℕ
  pub removed : List ℕ
  pub armed : Bool  -- complete_ is set
  pub worker : Worker
  pub sent : List ℕ  -- the calls of `remove` in this batch, oldest first
  pub completions : List (List ℕ)  -- the calls of `complete`, newest first

unfoldable pub initial : Batch
initial = record {
  active = false;
  waiting = false;
  retired = false;
  stopping = false;
  index = 0;
  pending = [];
  removed = [];
  armed = false;
  worker = resting;
  sent = [];
  completions = [];
}

unfoldable pub start : List ℕ → Batch → Bool × Batch
start ids b = if b.active || b.retired then (false, b) else (
  true,
  record b {
    active = true;
    pending = ids;
    removed = [];
    index = 0;
    waiting = false;
    armed = true;
    sent = [];
  },
)

-- `pending_[index_]`, a read that is in bounds only where `Bounds` shows it.
abbrev pub current : Batch → ℕ
current b = get_or b.pending b.index 0

unfoldable pub result : ℕ → ℕ → Batch → Batch
result id remaining b =
    if not b.active || not b.waiting
    then b
    else if not (id == 0) && not (current b == 0) && not (id == current b)
    then b
    else let c : Batch = if id == 0 then b else record b { removed = b.removed ++ id ∷ [] } in
      if remaining == 0 then record c { waiting = false; index = c.index + 1 } else c

unfoldable pub fail : Batch → Bool × Batch
fail b =
    if b.active then (true, record b { waiting = false; index = length b.pending }) else (false, b)

-- `cancel` has to take `dispatch_`, so it waits while the worker is inside `remove`.
holds_dispatch : Worker → Bool
holds_dispatch (removing i) = true
holds_dispatch _ = false

-- What `cancel` does once it has `dispatch_`.
unfoldable pub call_off : Batch → Batch
call_off b = record b { active = false; retired = true; armed = false }

unfoldable pub cancel : Batch → Option Batch
unfolding holds_dispatch call_off
cancel b = if holds_dispatch b.worker then none else some (call_off b)

-- The destructor's part under the lock; it then joins the worker.
unfoldable pub destroy : Batch → Batch
destroy b = record b { stopping = true; active = false }

-- From the wait on: `none` while the condition does not hold.
wake : Batch → Option Batch
wake b =
    if b.stopping
    then some (record b { worker = gone })
    else if b.active && not b.waiting
    then if b.index == length b.pending
      then some (record b {
        worker = completing b.removed b.armed;
        armed = false;
        removed = [];
        active = false;
      })
      else some (record b { worker = dispatching b.index (current b) })
    else none

-- With `dispatch_` and `lock_`: the batch may have moved on since the index was read.
dispatch : ℕ → ℕ → Batch → Batch
dispatch i id b =
    if not b.active || b.stopping || not (b.index == i)
    then record b { worker = resting }
    else record b { waiting = true; worker = removing i; sent = b.sent ++ id ∷ [] }

returned : ℕ → Bool → Batch → Batch
returned i accepted b =
    let c = record b { worker = resting } in
    if b.active && b.waiting && b.index == i && not accepted
    then record c { waiting = false; index = b.index + 1 }
    else c

complete : List ℕ → Bool → Batch → Batch
complete ids armed b =
    let c = record b { worker = resting } in
    if armed then record c { completions = ids ∷ b.completions } else c

-- One step of the worker; `accepted` is what `remove` answers, where it stands in that call.
unfoldable pub work : Bool → Worker → Batch → Option Batch
unfolding wake dispatch returned complete
work accepted resting b = wake b
work accepted (dispatching i id) b = some (dispatch i id b)
work accepted (removing i) b = some (returned i accepted b)
work accepted (completing ids armed) b = some (complete ids armed b)
work accepted gone b = none

pub data Event : Type 0 where
  starts : List ℕ → Event
  results : ℕ → ℕ → Event
  failed : Event
  cancels : Event
  destroys : Event
  works : Bool → Event

-- One step of any thread; `none` where that thread has to wait.
unfoldable pub step : Event → Batch → Option Batch
unfolding start result fail cancel destroy work
step (starts ids) b = some (start ids b).1
step (results id remaining) b = some (result id remaining b)
step failed b = some (fail b).1
step cancels b = cancel b
step destroys b = some (destroy b)
step (works accepted) b = work accepted b.worker b

-- An interleaving; a step that has to wait is passed over.
pub run : List Event → Batch → Batch
run [] b = b
run (e ∷ es) b = run es (elim (step e b) [ none ↦ b | some c ↦ c ])
