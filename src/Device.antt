-- ===== src/Device.antt =====
-- sstcomp/PIMBackend/tclpim.cc, `TCLPIM::clock`: one clock of the device steps every running
-- function, and a function that has finished is told so. `complete` is what the backend does with
-- a completion function: it runs in the function that captured itself.
use sst_pim.Prelude.{
  ℕ, Bool, true, false, Option, none, some, List, [], ◌∷◌, map, if◌then◌else◌, Outcome, ok, fault,
  of_option, assertion, null_pointer, ◌>>=◌,
}
use sst_pim.Pimdef.{func_cmd_finish, func_num_f1, func_num_u5}
use sst_pim.Fsm.{DmaState, MemCopy, MulVecByScalar, Fsm, mem_copy, mul_vec}
use sst_pim.FuncState.{FuncState, write_fsm, is_running}
use sst_pim.Tclpim.{Tclpim, Completion, copy_read, copy_write, mul_read, mul_write, lookup, update}
use sst_pim.MemCopy
use sst_pim.MulVec
pub mod Clock
pub mod Sharing
pub mod Board
pub mod Frame
pub mod CopyRun
pub mod MulRun
pub mod Calls
pub mod Session
pub mod PatientCopy
pub mod PatientMul

-- `FSM::clock`, the virtual call.
unfoldable pub fsm_clock : Tclpim → Fsm → Outcome (Tclpim × Fsm × Bool)
fsm_clock t (mem_copy m) = MemCopy.clock t m >>= λ (t', m', d). ok (t', mem_copy m', d)
fsm_clock t (mul_vec m) = MulVec.clock t m >>= λ (t', m', d). ok (t', mul_vec m', d)

-- The object of function `n` after a call on it: the other members of its state are as the call
-- left them.
unfoldable pub store_exec : ℕ → Fsm → Tclpim → Outcome Tclpim
store_exec n f t = do
  s ← of_option null_pointer (lookup n t.func_state)
  ok (record t { func_state = update n (record s { exec = some f }) t.func_state })

-- `writeFSM(FUNC_CMD::FINISH)` on function `n`.
unfoldable pub finish : ℕ → Tclpim → Outcome Tclpim
finish n t = do
  s ← of_option null_pointer (lookup n t.func_state)
  s' ← write_fsm s func_cmd_finish
  ok (record t { func_state = update n s' t.func_state })

-- A running function: its clock, and FINISH when it is done.
unfoldable pub step_function : ℕ → FuncState → Tclpim → Outcome (Tclpim × Bool)
unfolding store_exec finish
step_function n s t = do
  f ← of_option assertion s.exec
  r ← fsm_clock t f
  t' ← store_exec n r.1 r.0
  if r.2 then (finish n t' >>= λ t''. ok (t'', true)) else ok (t', false)

-- The loop of the clock over the keys of the map. The first function that is done ends it.
unfoldable pub clock_functions : List ℕ → Tclpim → Outcome (Tclpim × Bool)
clock_functions [] t = ok (t, false)
clock_functions (n ∷ ns) t = of_option null_pointer (lookup n t.func_state) >>= λ s.
    let rest = clock_functions ns in
    if is_running s
    then (step_function n s t >>= λ (t', finished). if finished then ok (t', true) else rest t')
    else rest t

-- `TCLPIM::clock`
unfoldable pub clock : ℕ → Tclpim → Outcome (Tclpim × Bool)
clock c t = clock_functions (map (λ (n, s). n) t.func_state) (record t { cycle = c })

-- `getCycle`
unfoldable pub get_cycle : Tclpim → ℕ
get_cycle t = t.cycle

-- The `MemCopy` object that a completion captured.
unfoldable pub with_copy : (MemCopy → Outcome (Tclpim × MemCopy)) → Option Fsm → Outcome Tclpim
unfolding store_exec
with_copy k (some (mem_copy m)) = k m >>= λ (t, m'). store_exec func_num_f1 (mem_copy m') t
with_copy k _ = fault null_pointer

unfoldable pub with_mul :
    (MulVecByScalar → Outcome (Tclpim × MulVecByScalar)) → Option Fsm → Outcome Tclpim
unfolding store_exec
with_mul k (some (mul_vec m)) = k m >>= λ (t, m'). store_exec func_num_u5 (mul_vec m') t
with_mul k _ = fault null_pointer

unfoldable pub exec_of : ℕ → Tclpim → Option Fsm
exec_of n t = exec_of_state (lookup n t.func_state)
  where
    exec_of_state : Option FuncState → Option Fsm
    exec_of_state none = none
    exec_of_state (some s) = s.exec

-- The call of a completion function with the payload of the response.
unfoldable pub complete : Completion → List ℕ → Tclpim → Outcome Tclpim
unfolding with_copy with_mul exec_of
complete (copy_read next) d t = with_copy (MemCopy.complete_read next d t) (exec_of func_num_f1 t)
complete (copy_write next) d t = with_copy (MemCopy.complete_write next t) (exec_of func_num_f1 t)
complete mul_read d t = with_mul (MulVec.complete_read d t) (exec_of func_num_u5 t)
complete (mul_write next) d t = with_mul (MulVec.complete_write next t) (exec_of func_num_u5 t)
