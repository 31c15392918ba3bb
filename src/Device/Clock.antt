-- ===== src/Device/Clock.antt =====
-- What a clock of the device (tclpim.cc, `TCLPIM::clock`) does to the function registers.
use sst_pim.Prelude.{ℕ, ◌≡◌, ◌⊎◌, refl, arith, Bool, true, false, [], ◌∷◌, some, ok, ◌∙◌, inl, inr}
use sst_pim.Pimdef.{Fstate, func_num_f1, func_num_u5}
use sst_pim.Fsm.{Fsm}
use sst_pim.FuncState.{FuncState, write_fsm, is_running}
use sst_pim.Tclpim.{Tclpim, lookup, update}
use sst_pim.Device.{fsm_clock, step_function, clock_functions, clock}

-- The two functions that the constructor installs.
abbrev pub Installed : Tclpim → FuncState → FuncState → Type 0
Installed t s1 s5 = t.func_state ≡ (func_num_f1, s1) ∷ (func_num_u5, s5) ∷ []

-- The register of a function after its clock: the object is kept, and a function that is done is
-- in the state DONE.
unfoldable pub after_clock : FuncState → Fsm → Bool → FuncState
after_clock s f true = record s { exec = some f; fstate = Fstate.done; counter = 0 }
after_clock s f false = record s { exec = some f }

-- The register of a function that has been clocked, but for the object.
abbrev pub stage : FuncState → Bool → FuncState
stage s true = record s { fstate = Fstate.done; counter = 0 }
stage s false = s

pub after_clock_lem :
    (s : FuncState) (f f' : Fsm) (d : Bool)
    → after_clock (record s { exec = some f }) f' d ≡ record (stage s d) { exec = some f' }
unfolding after_clock
after_clock_lem s f f' true = refl
after_clock_lem s f f' false = refl

pub is_running_of : (s : FuncState) → s.fstate ≡ Fstate.running → is_running s ≡ true
unfolding is_running
is_running_of s r = ground arith

step_first :
    (t t' : Tclpim) (s1 s5 : FuncState) (f f' : Fsm) (d : Bool)
    → Installed t s1 s5
    → s1.fstate ≡ Fstate.running
    → s1.exec ≡ some f
    → fsm_clock t f ≡ ok (t', f', d)
    → t'.func_state ≡ t.func_state
    → step_function func_num_f1 s1 t
      ≡ ok (
        record t' { func_state = (func_num_f1, after_clock s1 f' d) ∷ (func_num_u5, s5) ∷ [] },
        d,
      )
unfolding step_function lookup update write_fsm after_clock
step_first t t' s1 s5 f f' true i r x e k = ground (arith, k ∙ i)
step_first t t' s1 s5 f f' false i r x e k = ground (arith, k ∙ i)

-- The first function runs, its clock keeps the registers, and either it is done with this clock or
-- the second function does not run. Then the clock of the device is that one clock: the register
-- keeps the function after it, becomes DONE if it is done, and the second register is as before.
pub clock_first :
    (c : ℕ) (t t' : Tclpim) (s1 s5 : FuncState) (f f' : Fsm) (d : Bool)
    → Installed t s1 s5
    → s1.fstate ≡ Fstate.running
    → s1.exec ≡ some f
    → (d ≡ true) ⊎ (is_running s5 ≡ false)
    → fsm_clock (record t { cycle = c }) f ≡ ok (t', f', d)
    → t'.func_state ≡ t.func_state
    → clock c t
      ≡ ok (
        record t' { func_state = (func_num_f1, after_clock s1 f' d) ∷ (func_num_u5, s5) ∷ [] },
        d,
      )
unfolding clock clock_functions lookup
clock_first c t t' s1 s5 f f' true i r x n e k =
    ground
      (arith, is_running_of s1 r, step_first (record t { cycle = c }) t' s1 s5 f f' true i r x e k)
clock_first c t t' s1 s5 f f' false i r x (inl n) e k = cc
clock_first c t t' s1 s5 f f' false i r x (inr n) e k =
    ground
      (arith, is_running_of s1 r, step_first (record t { cycle = c }) t' s1 s5 f f' false i r x e k)

step_second :
    (t t' : Tclpim) (s1 s5 : FuncState) (f f' : Fsm) (d : Bool)
    → Installed t s1 s5
    → s5.fstate ≡ Fstate.running
    → s5.exec ≡ some f
    → fsm_clock t f ≡ ok (t', f', d)
    → t'.func_state ≡ t.func_state
    → step_function func_num_u5 s5 t
      ≡ ok (
        record t' { func_state = (func_num_f1, s1) ∷ (func_num_u5, after_clock s5 f' d) ∷ [] },
        d,
      )
unfolding step_function lookup update write_fsm after_clock
step_second t t' s1 s5 f f' true i r x e k = ground (arith, k ∙ i)
step_second t t' s1 s5 f f' false i r x e k = ground (arith, k ∙ i)

-- The second function alone runs.
pub clock_second :
    (c : ℕ) (t t' : Tclpim) (s1 s5 : FuncState) (f f' : Fsm) (d : Bool)
    → Installed t s1 s5
    → s5.fstate ≡ Fstate.running
    → s5.exec ≡ some f
    → is_running s1 ≡ false
    → fsm_clock (record t { cycle = c }) f ≡ ok (t', f', d)
    → t'.func_state ≡ t.func_state
    → clock c t
      ≡ ok (
        record t' { func_state = (func_num_f1, s1) ∷ (func_num_u5, after_clock s5 f' d) ∷ [] },
        d,
      )
unfolding clock clock_functions lookup
clock_second c t t' s1 s5 f f' d i r x n e k =
    ground
      (arith, is_running_of s5 r, step_second (record t { cycle = c }) t' s1 s5 f f' d i r x e k)
