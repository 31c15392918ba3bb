-- ===== src/Device/Calls.antt =====
-- The host's side of a call of a function (tclpim.cc, `write` and `writeFSM`): INIT, eight
-- parameters and RUN, as writes to the function's register.
use sst_pim.Prelude.{
  ℕ, ◌%◌, ◌^◌, ◌<◌, ◌≡◌, ◌⊎◌, refl, sym, ap, ◌∙◌, arith, List, [], ◌∷◌, ◌++◌, some, length,
  to_bytes, ok, ◌>>=◌, >>=-eq-ok,
}
use sst_pim.Pimdef.{Fstate, func_cmd_init, func_cmd_run, num_func_params}
use sst_pim.Fsm.{Fsm, start}
use sst_pim.FuncState.{FuncState, write_fsm, write_all}
use sst_pim.FuncState.Protocol.{IsWellFormed, write_all_session}
use sst_pim.Tclpim.{Tclpim, lookup, update, write}
use sst_pim.Tclpim.Registers.{register, write-register}
use sst_pim.Device.Board.{write_words}

-- Values that a register holds.
abbrev pub AreWords : List ℕ → Type 0
AreWords [] = Unit {0}
AreWords (d ∷ ds) = (d < 2 ^ 64) × AreWords ds

AreWords-append : (ds es : List ℕ) → AreWords ds → AreWords es → AreWords (ds ++ es)
AreWords-append [] es h k = k
AreWords-append (d ∷ ds) es (a, h) k = (a, AreWords-append ds es h k)

lookup-update :
    (n : ℕ) (s s' : FuncState) (m : List (ℕ × FuncState))
    → lookup n m ≡ some s
    → lookup n (update n s' m) ≡ some s'
unfolding lookup update
lookup-update n s s' [] h = ground arith
lookup-update n s s' ((k, x) ∷ m) h = ground (arith, lookup-update n s s' m)

update-update :
    (n : ℕ) (s s' : FuncState) (m : List (ℕ × FuncState))
    → update n s' (update n s m) ≡ update n s' m
unfolding update
update-update n s s' [] = refl
update-update n s s' ((k, x) ∷ m) = ground (arith, update-update n s s' m)

update-lookup :
    (n : ℕ) (s : FuncState) (m : List (ℕ × FuncState)) → lookup n m ≡ some s → update n s m ≡ m
unfolding lookup update
update-lookup n s [] h = refl
update-lookup n s ((k, x) ∷ m) h = ground (arith, update-lookup n s m)

small_number : (n : ℕ) → n < 16 → n % 16 ≡ n
small_number n h = omega arith

write-builtin :
    (n d : ℕ) (t : Tclpim) (s s' : FuncState)
    → n < 16
    → d < 2 ^ 64
    → lookup n t.func_state ≡ some s
    → write_fsm s d ≡ ok s'
    → write t (register n) 8 (to_bytes 8 d)
      ≡ ok (record t { func_state = update n s' t.func_state })
write-builtin n d t s s' h w l e =
    write-register t n d s (omega arith) w (ap (λ k. lookup k t.func_state) (small_number n h) ∙ l)
    ∙ rw (e, small_number n h)

-- Writes to the register of a built-in function are writes to the function's state.
write_words-write_all :
    (n : ℕ) (ds : List ℕ) (t : Tclpim) (s s' : FuncState)
    → n < 16
    → lookup n t.func_state ≡ some s
    → AreWords ds
    → write_all s ds ≡ ok s'
    → write_words n t ds ≡ ok (record t { func_state = update n s' t.func_state })
unfolding write_words write_all
write_words-write_all n [] t s s' h l w e =
    let z : s' ≡ s = ground (arith, e) in
    sym (
      ap (λ m. ok (record t { func_state = m }))
        (ap (λ x. update n x t.func_state) z ∙ update-lookup n s t.func_state l))
write_words-write_all n (d ∷ ds) t s s' h l (a, w) e =
    let (s1, f, g) = >>=-eq-ok (write_fsm s d) (λ x. write_all x ds) e in
    let t1 : Tclpim = record t { func_state = update n s1 t.func_state } in
    ap (λ o. o >>= λ t'. write_words n t' ds) (write-builtin n d t s s1 h a l f)
    ∙ write_words-write_all n ds t1 s1 s' h (lookup-update n s s1 t.func_state l) w g
    ∙ ap (λ m. ok (record t { func_state = m })) (update-update n s1 s' t.func_state)

-- The value of a call of a function: INIT, its parameters and RUN.
abbrev pub call : List ℕ → List ℕ
call ps = func_cmd_init ∷ ps ++ (func_cmd_run ∷ [])

call-AreWords : (ps : List ℕ) → AreWords ps → AreWords (call ps)
call-AreWords ps w = (omega arith, AreWords-append ps (func_cmd_run ∷ []) w (omega arith, tt))

-- The state of a function that a call has started.
abbrev pub called : FuncState → List ℕ → Fsm → FuncState
called s ps f = record s { fstate = Fstate.running; counter = 0; params = ps; exec = some f }

-- A closed and well-formed register takes a call: the function is started with the parameters.
pub write_words-call :
    (n : ℕ) (t : Tclpim) (s : FuncState) (f f' : Fsm) (ps : List ℕ)
    → n < 16
    → lookup n t.func_state ≡ some s
    → (s.fstate ≡ Fstate.invalid) ⊎ (s.fstate ≡ Fstate.done)
    → IsWellFormed s
    → s.exec ≡ some f
    → AreWords ps
    → length ps ≡ num_func_params
    → start f ps ≡ ok f'
    → write_words n t (call ps)
      ≡ ok (record t { func_state = update n (called s ps f') t.func_state })
write_words-call n t s f f' ps h k c w x a l e =
    write_words-write_all n (call ps) t s (called s ps f') h k (call-AreWords ps a)
      (write_all_session s f f' ps c w x l e)
