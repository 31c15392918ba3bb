-- ===== src/FuncState.antt =====
-- sstcomp/PIMBackend/tclpim.h and tclpim.cc, class `TCLPIM::FuncState`: the state machine behind one
-- function register. A host writes INIT, eight parameters and RUN; the simulator writes FINISH.
use sst_pim.Prelude.{
  ℕ, ◌+◌, ◌==◌, ltb, Bool, true, false, Option, none, some, List, [], ◌∷◌, length, set, replicate,
  if◌then◌else◌, Outcome, ok, fault, check, of_option, assertion, out_of_range, ◌>>=◌, ◌>>◌,
}
use sst_pim.Pimdef.{Fstate, fstate_code, func_cmd_init, func_cmd_run, num_func_params, to_func_cmd}
use sst_pim.Fsm.{Fsm, start}
pub mod Protocol
pub mod Histories

pub record FuncState : Type 0 where
  pub fnum : ℕ
  pub exec : Option Fsm
  pub params : List ℕ
  pub fstate : Fstate
  pub counter : ℕ

-- The constructor.
unfoldable pub new_func_state : ℕ → Fsm → FuncState
new_func_state n f = record {
  fnum = n;
  exec = some f;
  params = replicate num_func_params 0;
  fstate = Fstate.invalid;
  counter = 0;
}

-- The cases DONE and INVALID: only INIT is accepted.
unfoldable pub write_closed : FuncState → ℕ → Outcome FuncState
write_closed s d =
    if to_func_cmd d == func_cmd_init
    then ok (record s { fstate = Fstate.initializing; counter = 0 })
    else fault assertion

-- The case INITIALIZING: store a parameter, and be ready after the last.
unfoldable pub write_param : FuncState → ℕ → Outcome FuncState
write_param s d = do
  check (ltb s.counter (length s.params)) out_of_range
  let t = record s { params = set s.params s.counter d; counter = s.counter + 1 }
  ok (if s.counter + 1 == num_func_params then record t { fstate = Fstate.ready } else t)

-- `exec()->start(params)` on the way from READY to RUNNING.
unfoldable pub launch : FuncState → Outcome FuncState
launch s = do
  f ← of_option assertion s.exec
  f' ← start f s.params
  ok (record s { fstate = Fstate.running; counter = 0; exec = some f' })

-- The case READY: RUN starts the function with the stored parameters.
unfoldable pub write_ready : FuncState → ℕ → Outcome FuncState
unfolding launch
write_ready s d = if to_func_cmd d == func_cmd_run then launch s else fault assertion

unfoldable pub write_state : Fstate → FuncState → ℕ → Outcome FuncState
unfolding write_closed write_param write_ready
write_state Fstate.done s d = write_closed s d
write_state Fstate.invalid s d = write_closed s d
write_state Fstate.initializing s d = write_param s d
write_state Fstate.ready s d = write_ready s d
write_state Fstate.running s d = ok (record s { fstate = Fstate.done; counter = 0 })

-- `writeFSM`
unfoldable pub write_fsm : FuncState → ℕ → Outcome FuncState
unfolding write_state
write_fsm s d = write_state s.fstate s d

-- `readFSM`
unfoldable pub read_fsm : FuncState → ℕ
unfolding fstate_code
read_fsm s = fstate_code s.fstate

-- `running`
unfoldable pub is_running : FuncState → Bool
is_running s = running_state s.fstate
  where
    running_state : Fstate → Bool
    running_state Fstate.running = true
    running_state _ = false

-- `setFSM`
unfoldable pub set_fsm : FuncState → Option Fsm → FuncState
set_fsm s f = record s { exec = f }

-- Several writes in order, as a host makes them.
unfoldable pub write_all : FuncState → List ℕ → Outcome FuncState
write_all s [] = ok s
write_all s (d ∷ ds) = write_fsm s d >>= λ t. write_all t ds
