-- ===== src/FuncState/Protocol.antt =====
-- The protocol of a function register (tclpim.cc, `writeFSM`).
use sst_pim.Prelude.{
  ℕ, ◌+◌, ◌<◌, ◌≡◌, ◌⊎◌, refl, arith, List, [], ◌∷◌, length, set, some, none, ◌∙◌, sym, inl, inr,
  outcome_cases, ◌++◌, ap, length-set, fault, out_of_range, ◌≢◌, length-append, ok, ◌>>=◌, Option,
}
use mathlib.Core.List.{append-nil, append_assoc}
use sst_pim.Pimdef.{Fstate, func_cmd_init, func_cmd_run, num_func_params}
use sst_pim.Fsm.{Fsm, mem_copy, mul_vec, start}
use sst_pim.FuncState.{
  FuncState, new_func_state, launch, write_closed, write_param, write_ready, write_state, write_fsm,
  write_all,
}

-- The array has its eight entries, and the counter is inside it while parameters are expected.
pub record IsWellFormed (s : FuncState) : Type 0 where
  pub eight : length s.params ≡ num_func_params
  pub inside : (s.fstate ≢ Fstate.initializing) ⊎ (s.counter < num_func_params)

pub new_func_state-IsWellFormed : (n : ℕ) (f : Fsm) → IsWellFormed (new_func_state n f)
unfolding new_func_state
new_func_state-IsWellFormed n f = ground arith

-- A write that returns keeps the state well formed.
pub write_fsm-IsWellFormed :
    (s t : FuncState) (d : ℕ) → IsWellFormed s → write_fsm s d ≡ ok t → IsWellFormed t
unfolding write_fsm
write_fsm-IsWellFormed s t d w h = ground (arith, length-set s.params s.counter d)

-- The transitions of a register, the stored values left out.
infix 40 ◌⟶◌
pub data ◌⟶◌ : Fstate → Fstate → Type 0 where
  init : {f : Fstate} → (f ≡ Fstate.invalid) ⊎ (f ≡ Fstate.done) → f ⟶ Fstate.initializing
  param : Fstate.initializing ⟶ Fstate.initializing
  last_param : Fstate.initializing ⟶ Fstate.ready
  run : Fstate.ready ⟶ Fstate.running
  finish : Fstate.running ⟶ Fstate.done

-- A write that returns follows an edge of the diagram, whatever value is written.
pub write_fsm-⟶ : (s t : FuncState) (d : ℕ) → write_fsm s d ≡ ok t → s.fstate ⟶ t.fstate
unfolding write_fsm
write_fsm-⟶ s t d h = grind (arith, init, param, last_param, run, finish)

start_no_range : (f : Fsm) (ps : List ℕ) → start f ps ≢ fault out_of_range
unfolding start
start_no_range (mem_copy m) ps = ground arith
start_no_range (mul_vec m) ps = ground arith

launch_no_range : (s : FuncState) (e : Option Fsm) → s.exec ≡ e → launch s ≢ fault out_of_range
unfolding launch
launch_no_range s none q = ground arith
launch_no_range s (some f) q = ground (arith, start_no_range f s.params)

-- A write to a well-formed register never ends in an access out of range.
pub write_fsm_in_bounds :
    (s : FuncState) (d : ℕ) → IsWellFormed s → write_fsm s d ≢ fault out_of_range
unfolding write_state write_fsm write_closed write_param write_ready
write_fsm_in_bounds s d w = ground (arith, launch_no_range s s.exec refl)

set_middle :
    (seen : List ℕ) (old : ℕ) (rest : List ℕ) (d : ℕ)
    → set (seen ++ (old ∷ rest)) (length seen) d ≡ (seen ++ (d ∷ [])) ++ rest
set_middle [] old rest d = refl
set_middle (x ∷ seen) old rest d = ap (λ l. x ∷ l) (set_middle seen old rest d)

inside :
    (s : FuncState) (seen : List ℕ) (o : ℕ) (old : List ℕ)
    → s.params ≡ seen ++ (o ∷ old)
    → s.counter ≡ length seen
    → s.counter < length s.params
inside s seen o old p c = rw (p, c, length-append) (omega arith)

store_at :
    (s : FuncState) (seen : List ℕ) (o : ℕ) (old : List ℕ) (d : ℕ)
    → s.params ≡ seen ++ (o ∷ old)
    → s.counter ≡ length seen
    → set s.params s.counter d ≡ (seen ++ (d ∷ [])) ++ old
store_at s seen o old d p c = rw (p, c) (set_middle seen o old d)

param_next :
    (s : FuncState) (d : ℕ) (ps : List ℕ)
    → s.fstate ≡ Fstate.initializing
    → s.counter < length s.params
    → s.counter + 1 ≢ num_func_params
    → set s.params s.counter d ≡ ps
    → write_fsm s d ≡ ok (record s { params = ps; counter = s.counter + 1 })
unfolding write_fsm
param_next s d ps i l n e = ground arith

param_last :
    (s : FuncState) (d : ℕ) (ps : List ℕ)
    → s.fstate ≡ Fstate.initializing
    → s.counter < length s.params
    → s.counter + 1 ≡ num_func_params
    → set s.params s.counter d ≡ ps
    → write_fsm s d
      ≡ ok (record s { params = ps; counter = num_func_params; fstate = Fstate.ready })
unfolding write_fsm
param_last s d ps i l n e = ground arith

-- The rest of the parameters, written one by one, replaces the rest of the array.
load_params :
    (s : FuncState) (seen old rest : List ℕ)
    → s.fstate ≡ Fstate.initializing
    → s.params ≡ seen ++ old
    → s.counter ≡ length seen
    → length old ≡ length rest
    → 0 < length rest
    → length seen + length rest ≡ num_func_params
    → write_all s rest
      ≡ ok (record s { params = seen ++ rest; counter = num_func_params; fstate = Fstate.ready })
unfolding write_all
load_params s seen old [] i p c l n k = absurd (omega arith)
load_params s seen [] (d ∷ rest) i p c l n k = absurd (omega arith)
load_params s seen (o ∷ []) (d ∷ []) i p c l n k = rw (
    param_last s d (seen ++ (d ∷ [])) i (inside s seen o [] p c) (omega arith)
      (store_at s seen o [] d p c ∙ append-nil (seen ++ (d ∷ []))))
load_params s seen (o ∷ o' ∷ old) (d ∷ []) i p c l n k = absurd (omega arith)
load_params s seen (o ∷ old) (d ∷ e ∷ rest) i p c l n k =
    rw
      (param_next s d ((seen ++ (d ∷ [])) ++ old) i (inside s seen o old p c) (omega arith)
        (store_at s seen o old d p c))
      (rw (← append_assoc seen (d ∷ []) (e ∷ rest)) (
        load_params (record s { params = (seen ++ (d ∷ [])) ++ old; counter = s.counter + 1 })
          (seen ++ (d ∷ [])) old (e ∷ rest) i refl (omega (arith, length-append seen (d ∷ [])))
          (omega arith) (omega arith) (omega (arith, length-append seen (d ∷ [])))))

write_all-append :
    (s : FuncState) (ds es : List ℕ)
    → write_all s (ds ++ es) ≡ (write_all s ds >>= λ t. write_all t es)
unfolding write_all
write_all-append s [] es = refl
write_all-append s (d ∷ ds) es = elim (outcome_cases (write_fsm s d)) [
  | inl (t, e) ↦ rw e (write_all-append t ds es)
  | inr (k, e) ↦ rw e
]

write_init :
    (s : FuncState)
    → (s.fstate ≡ Fstate.invalid) ⊎ (s.fstate ≡ Fstate.done)
    → write_fsm s func_cmd_init ≡ ok (record s { fstate = Fstate.initializing; counter = 0 })
unfolding write_fsm
write_init s c = ground arith

write_run :
    (s : FuncState) (f f' : Fsm)
    → s.fstate ≡ Fstate.ready
    → s.exec ≡ some f
    → start f s.params ≡ ok f'
    → write_fsm s func_cmd_run
      ≡ ok (record s { fstate = Fstate.running; counter = 0; exec = some f' })
unfolding write_fsm
write_run s f f' c x r = ground arith

-- A whole call as a host makes it: a closed register, INIT, eight parameters, RUN. The register
-- then runs, and the function was started with exactly those parameters.
pub write_all_session :
    (s : FuncState) (f f' : Fsm) (ps : List ℕ)
    → (s.fstate ≡ Fstate.invalid) ⊎ (s.fstate ≡ Fstate.done)
    → IsWellFormed s
    → s.exec ≡ some f
    → length ps ≡ num_func_params
    → start f ps ≡ ok f'
    → write_all s (func_cmd_init ∷ ps ++ (func_cmd_run ∷ []))
      ≡ ok (record s { fstate = Fstate.running; counter = 0; params = ps; exec = some f' })
unfolding write_all
write_all_session s f f' ps c w x l r =
    rw (write_init s c, write_all-append)
      (rw
        (load_params (record s { fstate = Fstate.initializing; counter = 0 }) [] s.params ps refl
          refl refl (w.eight ∙ sym l) (omega arith) (omega arith))
        (rw (
          write_run (record s { params = ps; counter = num_func_params; fstate = Fstate.ready }) f
            f' refl x r)))
