-- ===== src/AppGen/Link.antt =====
-- app.cc and appTransactor.cc: the application's thread and the simulator's thread over one
-- `AppLink`, interleaved in any order, with a memory that serves the generator's requests in order.
use sst_pim.Prelude.{
  ℕ, ◌-◌, ltb, ◌<◌, ◌++◌, not, Bool, true, false, ◌&&◌, ◌||◌, Option, none, some, List, [], ◌∷◌,
  length, ◌==◌, if◌then◌else◌, Outcome, ok, ◌≡◌, of_bytes,
}
use sst_pim.Pimdef.{SramCmd}
use sst_pim.Memory.{Backing}
use sst_pim.AppGen.Requests.{GeneratorRequest, Operation, RequestQueue}
use sst_pim.AppGen.Sources.{
  AppLink, app_send, app_receive, transactor_generate, handle_load_response,
}
pub mod Drain
pub mod Sequential
pub mod Moves
pub mod Interleaving
pub mod Progress

-- What an application does with its link: `send` of a write, `send` of a read with the `receive`
-- after it, which returns a value or an error code, and `fatal`.
pub data Program : Type 0 where
  finished fatal : Program
  write : ℕ → ℕ → Program → Program
  read : ℕ → (Option ℕ → Program) → Program

-- Where the application's thread stands: before an action, and in `receive` before the `send` of
-- the loop and before its test, with the value of `timeout`.
pub data Thread : Type 0 where
  run : Program → Thread
  poll : ℕ → (Option ℕ → Program) → Thread
  test : ℕ → (Option ℕ → Program) → Thread
  halted : Thread

-- The `timeout` of `receive`.
abbrev pub receive_timeout : ℕ
receive_timeout = 0x100000

unfoldable pub sends : AppLink → SramCmd → ℕ → ℕ → Thread → Option (AppLink × Thread)
sends l c a d t = elim (app_send l c a d) [ none ↦ none | some l' ↦ some (l', t) ]

-- The loop of `receive` goes on.
abbrev pub polls_on : ℕ → AppLink → Bool
polls_on n l = ltb 0 (n - 1) && (length l.load_q == 0)

-- One step of the thread, which is `none` when it waits or has ended: `worker_thread` sends DONE at
-- the end.
unfoldable pub app_move : AppLink → Thread → Option (AppLink × Thread)
unfolding sends
app_move l (Thread.run (Program.write a d p)) = sends l SramCmd.write a d (Thread.run p)
app_move l (Thread.run (Program.read a k)) =
    sends l SramCmd.read a 0 (Thread.poll receive_timeout k)
app_move l (Thread.run Program.finished) = sends l SramCmd.done 0 0 Thread.halted
app_move l (Thread.run Program.fatal) = none
app_move l (Thread.poll n k) = sends l SramCmd.nop n 0 (Thread.test n k)
app_move l (Thread.test n k) =
    if polls_on n l
    then some (l, Thread.poll (n - 1) k)
    else (let (l', rc, v) = app_receive l in some (l', Thread.run (k v)))
app_move l Thread.halted = none

-- The step of the thread ends a `receive` without a value.
unfoldable pub gives_up : AppLink → Thread → Bool
gives_up l (Thread.test n k) =
    if polls_on n l
    then false
    else (let (l', rc, v) = app_receive l in elim v [ none ↦ true | some d ↦ false ])
gives_up l _ = false

-- The window of the processor, `max_reorder_lookups` by default.
abbrev pub max_op_lookup : ℕ
max_op_lookup = 16

-- No request of these is a read.
abbrev pub NoReads : List GeneratorRequest → Type 0
NoReads [] = Unit {0}
NoReads (r ∷ rs) = (is_read_op r.operation ≡ false) × NoReads rs
  where
    is_read_op : Operation → Bool
    is_read_op (Operation.memory_op w a n d) = not w
    is_read_op _ = false

-- When `issuePendingRequests` calls `generate` (mirandaCPU_kg.cc): of the requests in their order the first are
-- with the memory, none of them a read, and the rest is fewer than the window has. When the
-- application has sent DONE no event follows, so the test for the end of the generator is left out.
pub record CanGenerate (q : RequestQueue) : Type 0 where
  pub issued : List GeneratorRequest
  pub waiting : List GeneratorRequest
  pub split : q.elements ≡ issued ++ waiting
  pub no_read_pending : NoReads issued
  pub room : length waiting < max_op_lookup

module _ (b : Backing) where
  open b use {Store, set, get}

  pub record World : Type 0 where
    pub link : AppLink
    pub requests : RequestQueue
    pub store : Store
    pub thread : Thread
    -- a `receive` has ended without a value
    pub timed_out : Bool

  -- The memory serves a request: a write is stored, a read is answered through
  -- `handleLoadResponse`.
  unfoldable pub serve : Operation → AppLink → Store → AppLink × Store
  serve (Operation.memory_op true a n data_vec) l s = (l, set s a data_vec)
  serve (Operation.memory_op false a n data_vec) l s =
      (handle_load_response l (of_bytes (get s a n)), s)
  serve _ l s = (l, s)

  pub data Step (w : World) : World → Type 0 where
    app :
        {l : AppLink} {t : Thread}
        → app_move w.link w.thread ≡ some (l, t)
        → Step w
            (record w { link = l; thread = t; timed_out = w.timed_out || gives_up w.link w.thread })
    generate :
        {l : AppLink} {q : RequestQueue}
        → CanGenerate w.requests
        → transactor_generate w.link w.requests ≡ some (ok (l, q))
        → Step w (record w { link = l; requests = q })
    respond :
        {r : GeneratorRequest} {rs : List GeneratorRequest}
        → w.requests.elements ≡ r ∷ rs
        → Step w (
            let (l, s) = serve r.operation w.link w.store in
            record w { link = l; requests = record w.requests { elements = rs }; store = s })

  -- A new link, an empty queue of requests, and the thread at the start of the application.
  abbrev pub initial : Program → Store → World
  initial p s = record {
    link = record { queue = []; load_q = []; is_done = false; next_request = 0 };
    requests = record { elements = []; max_capacity = 16 };
    store = s;
    thread = Thread.run p;
    timed_out = false;
  }

  pub data Reach (p : Program) (s : Store) : World → Type 0 where
    start : Reach p s (initial p s)
    later : {v w : World} → Reach p s v → Step v w → Reach p s w
