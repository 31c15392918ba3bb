-- ===== src/AppGen/Sources.antt =====
-- The two generators of requests: singlestream_kg.cc, and appTransactor.cc with app.cc and
-- appLink.h, where an application's thread and the generator hand over one event at a time. What a
-- thread does between two hand-overs is one step; a step that waits is `none`.
use sst_pim.Prelude.{
  ℕ, ◌+◌, ◌-◌, ◌%◌, ◌^◌, ◌==◌, Bool, true, false, Option, none, some, List, [], ◌∷◌, ◌++◌, length,
  if◌then◌else◌, Outcome, ok, check, assertion, ◌>>◌,
}
use sst_pim.Pimdef.{SramCmd, u64}
use sst_pim.AppGen.Requests.{
  GeneratorRequest, Operation, RequestQueue, memory_op_request, push_back,
}

-- `SingleStreamGenerator_KG`; `next_request` is the counter of request identifiers.
pub record SingleStream : Type 0 where
  pub issue_count : ℕ
  pub req_length : ℕ
  pub start_addr : ℕ
  pub max_addr : ℕ
  pub next_addr : ℕ
  pub is_write : Bool
  pub next_request : ℕ

-- `build`, on the parameters; the operation is `true` for "Write" and `false` for "Read".
unfoldable pub build : ℕ → ℕ → ℕ → ℕ → Bool → SingleStream
build count len startat max_address op = record {
  issue_count = count;
  req_length = len;
  start_addr = startat;
  max_addr = max_address;
  next_addr = startat;
  is_write = op;
  next_request = 0;
}

abbrev pub generator_request : ℕ → Operation → GeneratorRequest
generator_request i o = record { req_id = i; depends_on = []; operation = o }

-- `generate`
unfoldable pub single_stream_generate : SingleStream → RequestQueue → SingleStream × RequestQueue
single_stream_generate s q =
    let following = u64 (s.next_addr + s.req_length) % s.max_addr in
    (
      record s {
        next_addr = if following == 0 then s.start_addr else following;
        issue_count = (s.issue_count + 2 ^ 64 - 1) % 2 ^ 64;
        next_request = s.next_request + 1;
      },
      push_back q (
          generator_request s.next_request
            (memory_op_request s.is_write s.next_addr s.req_length 0)),
    )

-- `isFinished`
abbrev pub single_stream_finished : SingleStream → Bool
single_stream_finished s = s.issue_count == 0

-- `AppEvent`
pub record AppEvent : Type 0 where
  pub cmd : SramCmd
  pub address : ℕ
  pub event_data : ℕ

-- `AppLink`, with the counter of request identifiers.
pub record AppLink : Type 0 where
  pub queue : List AppEvent
  pub load_q : List ℕ
  pub is_done : Bool
  pub next_request : ℕ

-- `q->push_back( new MemoryOpRequest(…) )`
unfoldable pub ask : AppLink → RequestQueue → Bool → ℕ → ℕ → AppLink × RequestQueue
unfolding push_back memory_op_request
ask l q w a d = (
  record l { next_request = l.next_request + 1 },
  push_back q (generator_request l.next_request (memory_op_request w a 8 d)),
)

-- `AppTransactor::generate`: it waits until there is an event.
unfoldable pub transactor_generate :
    AppLink → RequestQueue → Option (Outcome (AppLink × RequestQueue))
unfolding ask
transactor_generate l q = elim l.queue [
  | [] ↦ none
  | e ∷ es ↦ some (
      check (length es == 0) assertion
      >> (let l' = record l { queue = es } in
          elim e.cmd [
            | SramCmd.done ↦ ok (record l' { is_done = true }, q)
            | SramCmd.read ↦ ok (ask l' q false e.address 0)
            | SramCmd.write ↦ ok (ask l' q true e.address e.event_data)
            | SramCmd.nop ↦ ok (l', q)
          ]))
]

-- `App::send`: it waits until the queue is empty.
unfoldable pub app_send : AppLink → SramCmd → ℕ → ℕ → Option AppLink
app_send l c a d =
    if length l.queue == 0
    then some
        (record l { queue = l.queue ++ (record { cmd = c; address = a; event_data = d } ∷ []) })
    else none

-- `AppTransactor::handleLoadResponse`
unfoldable pub handle_load_response : AppLink → ℕ → AppLink
handle_load_response l d = record l { load_q = l.load_q ++ (d ∷ []) }

-- The end of `App::receive`, after its loop: the code and the data that it returns.
unfoldable pub app_receive : AppLink → AppLink × Outcome ℕ × Option ℕ
app_receive l = elim l.load_q [
  | [] ↦ (l, ok (2 ^ 32 - 1), none)
  | d ∷ ds ↦
      if length ds == 0
      then (record l { load_q = ds }, ok 0, some d)
      else (l, ok (length ds + 1), none)
]
