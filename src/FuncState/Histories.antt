-- ===== src/FuncState/Histories.antt =====
-- Sequences of writes to a function register (tclpim.cc, `writeFSM`), from any well-formed state.
use sst_pim.Prelude.{
  ℕ, ◌+◌, ◌-◌, ◌≤◌, ◌≡◌, ◌≢◌, ◌⊎◌, refl, sym, subst, arith, inl, inr, List, [], ◌∷◌, ok, fault,
  out_of_range, outcome_cases,
}
use sst_pim.Pimdef.{Fstate, func_cmd_init, func_cmd_run, to_func_cmd}
use sst_pim.FuncState.{
  FuncState, write_closed, write_param, write_ready, launch, write_state, write_fsm, write_all,
}
use sst_pim.FuncState.Protocol.{IsWellFormed, write_fsm-IsWellFormed, write_fsm_in_bounds}

-- No sequence of writes to a well-formed register, whatever its values, ends in an access out of
-- range.
pub write_all_in_bounds :
    (s : FuncState) (ds : List ℕ) → IsWellFormed s → write_all s ds ≢ fault out_of_range
unfolding write_all
write_all_in_bounds s [] w = λ h. ground (arith, h)
write_all_in_bounds s (d ∷ ds) w = elim (outcome_cases (write_fsm s d)) [
  | inl (t, e) ↦ rw e (write_all_in_bounds t ds (write_fsm-IsWellFormed s t d w e))
  | inr (k, e) ↦ let b = write_fsm_in_bounds s d w in rw e (λ q. b (ground (arith, e, q)))
]

-- The language of a register. A call has eleven values: INIT, eight parameters, RUN and one more
-- that finishes it. `Calls k ds` says that `ds` ends the current call, of which `k` values are
-- still to come, and is whole calls from there on.
pub data Calls : ℕ → List ℕ → Type 0 where
  no_more : Calls 0 []
  init : {d : ℕ} {ds : List ℕ} → to_func_cmd d ≡ func_cmd_init → Calls 10 ds → Calls 0 (d ∷ ds)
  param : {k d : ℕ} {ds : List ℕ} → 2 ≤ k → Calls k ds → Calls (k + 1) (d ∷ ds)
  run : {d : ℕ} {ds : List ℕ} → to_func_cmd d ≡ func_cmd_run → Calls 1 ds → Calls 2 (d ∷ ds)
  finish : {d : ℕ} {ds : List ℕ} → Calls 0 ds → Calls 1 (d ∷ ds)

-- The values of the current call that a register has still to see.
abbrev pub left_in : Fstate → ℕ → ℕ
left_in Fstate.invalid n = 0
left_in Fstate.done n = 0
left_in Fstate.initializing n = 10 - n
left_in Fstate.ready n = 2
left_in Fstate.running n = 1

abbrev pub IsClosed : FuncState → Type 0
IsClosed s = (s.fstate ≡ Fstate.invalid) ⊎ (s.fstate ≡ Fstate.done)

-- A parameter is one of the values to come, and RUN and the last value come after it.
param_left :
    (s t : FuncState) (d : ℕ)
    → s.fstate ≡ Fstate.initializing
    → IsWellFormed s
    → write_param s d ≡ ok t
    → (2 ≤ left_in t.fstate t.counter) × (left_in t.fstate t.counter + 1 ≡ 10 - s.counter)
unfolding write_param
param_left s t d e w h = ground (arith, w.inside)

write_state-Calls :
    (f : Fstate) (s t : FuncState) (d : ℕ) (ds : List ℕ)
    → s.fstate ≡ f
    → IsWellFormed s
    → write_state f s d ≡ ok t
    → Calls (left_in t.fstate t.counter) ds
    → Calls (left_in f s.counter) (d ∷ ds)
unfolding write_state write_closed write_param write_ready launch
write_state-Calls Fstate.invalid s t d ds e w h c = grind (arith, init)
write_state-Calls Fstate.done s t d ds e w h c = grind (arith, init)
write_state-Calls Fstate.initializing s t d ds e w h c =
    let (m, q) = param_left s t d e w h in subst (λ n. Calls n (d ∷ ds)) q (param m c)
write_state-Calls Fstate.ready s t d ds e w h c = grind (arith, run)
write_state-Calls Fstate.running s t d ds e w h c = grind (arith, finish)

write_fsm-Calls :
    (s t : FuncState) (d : ℕ) (ds : List ℕ)
    → IsWellFormed s
    → write_fsm s d ≡ ok t
    → Calls (left_in t.fstate t.counter) ds
    → Calls (left_in s.fstate s.counter) (d ∷ ds)
unfolding write_fsm
write_fsm-Calls s t d ds w h c = write_state-Calls s.fstate s t d ds refl w h c

closed_left : (s : FuncState) → IsClosed s → left_in s.fstate s.counter ≡ 0
closed_left s c = ground arith

-- Every sequence of writes that a well-formed register takes, and that leaves it closed, is in the
-- language: the rest of the call under way, and then whole calls of eleven values.
pub write_all-Calls :
    (s t : FuncState) (ds : List ℕ)
    → IsWellFormed s
    → write_all s ds ≡ ok t
    → IsClosed t
    → Calls (left_in s.fstate s.counter) ds
unfolding write_all
write_all-Calls s t [] w h c =
    let q : s ≡ t = ground (arith, h) in
    subst (λ u. Calls (left_in u.fstate u.counter) []) (sym q)
      (subst (λ n. Calls n []) (sym (closed_left t c)) no_more)
write_all-Calls s t (d ∷ ds) w h c = elim (outcome_cases (write_fsm s d)) [
  | inl (u, e) ↦
      write_fsm-Calls s u d ds w e
        (write_all-Calls u t ds (write_fsm-IsWellFormed s u d w e) (ground (arith, h, e)) c)
  | inr (k, e) ↦ absurd (ground (arith, h, e))
]
