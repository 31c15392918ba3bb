-- ===== src/Device/MulRun.antt =====
-- A run of `MulVecByScalar` on the board: while it is the only running function, every clock of the device
-- is a clock of the function with its memory (MulVec/Machine.antt).
use sst_pim.Prelude.{
  ℕ, zero, suc, ◌+◌, ◌≡◌, refl, ap, ◌∙◌, arith, Bool, true, false, List, [], ◌∷◌, some, Bool-cases,
  outcome_cases, inl, inr, ok, >>=-eq-ok, length,
}
use sst_pim.Pimdef.{Fstate, func_num_f1, func_num_u5}
use sst_pim.Fsm.{MulVecByScalar, mul_vec}
use sst_pim.FuncState.{FuncState, is_running}
use sst_pim.Tclpim.{
  Tclpim, DramRequest, Completion, copy_read, copy_write, mul_read, mul_write, lookup, update,
}
use sst_pim.Memory.{Backing}
use sst_pim.MulVec
use sst_pim.MulVec.Machine
use sst_pim.Device
use sst_pim.Device.{fsm_clock, with_mul, exec_of, store_exec}
use sst_pim.Device.Clock.{stage, after_clock_lem, clock_second}
use sst_pim.Device.Frame.{with_registers, mul_clock_frame}
use sst_pim.Device.Board

-- The registers while `MulVecByScalar` runs as the second function.
abbrev pub mul_registers : FuncState → FuncState → MulVecByScalar → List (ℕ × FuncState)
mul_registers s1 s5 m =
    (func_num_f1, s1) ∷ (func_num_u5, record s5 { exec = some (mul_vec m) }) ∷ []

-- The clock of the device while `MulVecByScalar` alone runs.
pub device_clock :
    (t t' : Tclpim) (m m' : MulVecByScalar) (c c' : ℕ) (d : Bool) (s1 s5 : FuncState)
    → is_running s1 ≡ false
    → s5.fstate ≡ Fstate.running
    → MulVec.clock (with_registers t c' (mul_registers s1 s5 m)) m
      ≡ ok (with_registers t' c' (mul_registers s1 s5 m), m', d)
    → Device.clock c' (with_registers t c (mul_registers s1 s5 m))
      ≡ ok (with_registers t' c' (mul_registers s1 (stage s5 d) m'), d)
unfolding fsm_clock
device_clock t t' m m' c c' d s1 s5 r n h =
    clock_second c' (with_registers t c (mul_registers s1 s5 m))
      (with_registers t' c' (mul_registers s1 s5 m)) s1 (record s5 { exec = some (mul_vec m) })
      (mul_vec m) (mul_vec m') d refl n refl r (rw h) refl
    ∙ ap (λ s. ok (with_registers t' c' ((func_num_f1, s1) ∷ (func_num_u5, s) ∷ []), d))
        (after_clock_lem s5 (mul_vec m) (mul_vec m') d)

module _ (b : Backing) where
  complete_sim :
      (k : Completion) (d : List ℕ) (t t' : Tclpim) (m m' : MulVecByScalar) (c : ℕ)
      (s1 s5 : FuncState)
      → Machine.complete b k d t m ≡ ok (t', m')
      → (Device.complete k d (with_registers t c (mul_registers s1 s5 m))
          ≡ ok (with_registers t' c (mul_registers s1 s5 m')))
        × (t'.func_state ≡ t.func_state)
  unfolding Device.complete lookup update Machine.complete MulVec.complete_read
      MulVec.complete_write
  complete_sim (copy_read next) d t t' m m' c s1 s5 h = cc
  complete_sim (copy_write next) d t t' m m' c s1 s5 h = cc
  complete_sim mul_read d t t' m m' c s1 s5 h = ground arith
  complete_sim (mul_write next) d t t' m m' c s1 s5 h = ground arith

  -- The board behind a function with its memory.
  abbrev pub mul_board : ℕ → FuncState → FuncState → Machine.Machine b → Board.Board b
  mul_board c s1 s5 mc = record {
    device = with_registers mc.device c (mul_registers s1 s5 mc.mul);
    store = mc.store;
  }

  answer_sim :
      (r : DramRequest) (mc mc' : Machine.Machine b) (c : ℕ) (s1 s5 : FuncState)
      → Machine.answer b r mc ≡ ok mc'
      → (Board.answer b r (mul_board c s1 s5 mc) ≡ ok (mul_board c s1 s5 mc'))
        × (mc'.device.func_state ≡ mc.device.func_state)
  unfolding Machine.answer Board.answer
  answer_sim r mc mc' c s1 s5 h = elim (Bool-cases r.is_write) [
    | inl w ↦ elim (outcome_cases (Machine.complete b r.completion r.payload mc.device mc.mul)) [
      | inl ((t, m), e) ↦
          ground (arith, e, complete_sim r.completion r.payload mc.device t mc.mul m c s1 s5 e)
      | inr (k, e) ↦ ground (arith, e)
    ]
    | inr w ↦
        let bytes = b.get mc.store r.address (length r.payload) in
        elim (outcome_cases (Machine.complete b r.completion bytes mc.device mc.mul)) [
          | inl ((t, m), e) ↦
              ground (arith, e, complete_sim r.completion bytes mc.device t mc.mul m c s1 s5 e)
          | inr (k, e) ↦ ground (arith, e)
        ]
  ]

  pub answer_all_sim :
      (rs : List DramRequest) (mc mc' : Machine.Machine b) (c : ℕ) (s1 s5 : FuncState)
      → Machine.answer_all b rs mc ≡ ok mc'
      → (Board.answer_all b rs (mul_board c s1 s5 mc) ≡ ok (mul_board c s1 s5 mc'))
        × (mc'.device.func_state ≡ mc.device.func_state)
  unfolding Machine.answer_all Board.answer_all
  answer_all_sim [] mc mc' c s1 s5 h = ground arith
  answer_all_sim (r ∷ rs) mc mc' c s1 s5 h =
      let (mc1, e, f) = >>=-eq-ok (Machine.answer b r mc) (λ x. Machine.answer_all b rs x) h in
      let (g, k) = answer_sim r mc mc1 c s1 s5 e in
      let (g', k') = answer_all_sim rs mc1 mc' c s1 s5 f in (rw g g', k' ∙ k)

  cycle_parts :
      (mc mc' : Machine.Machine b) (d : Bool)
      → Machine.cycle b mc ≡ ok (mc', d)
      → (t : Tclpim) × (m : MulVecByScalar) × (MulVec.clock mc.device mc.mul ≡ ok (t, m, d))
        × (Machine.answer_all b t.issued
              (record { device = record t { issued = [] }; mul = m; store = mc.store })
            ≡ ok mc')
  unfolding Machine.cycle
  cycle_parts mc mc' d h = elim (outcome_cases (MulVec.clock mc.device mc.mul)) [
    | inl ((t, m, f), e) ↦
        elim (outcome_cases (
          Machine.answer_all b t.issued
            (record { device = record t { issued = [] }; mul = m; store = mc.store }))) [
              | inl (mc2, e2) ↦ (t, m, ground (arith, e, e2), ground (arith, e, e2))
              | inr (k, e2) ↦ absurd (ground (arith, e, e2))
            ]
    | inr (k, e) ↦ absurd (ground (arith, e))
  ]

  cycle_sim :
      (mc mc' : Machine.Machine b) (d : Bool) (c c' : ℕ) (s1 s5 : FuncState)
      → is_running s1 ≡ false
      → s5.fstate ≡ Fstate.running
      → Machine.cycle b mc ≡ ok (mc', d)
      → (Board.cycle b c' (mul_board c s1 s5 mc) ≡ ok (mul_board c' s1 (stage s5 d) mc', d))
  cycle_sim mc mc' d c c' s1 s5 r n h =
      let (t, m, e1, e2) = cycle_parts mc mc' d h in
      let fs : List (ℕ × FuncState) = mul_registers s1 s5 mc.mul in
      let (g, k) = mul_clock_frame mc.device t mc.mul m c' d fs e1 in
      let (a, k') =
        answer_all_sim t.issued
          (record { device = record t { issued = [] }; mul = m; store = mc.store }) mc' c' s1
          (stage s5 d) e2 in
      let l = device_clock mc.device t mc.mul m c c' d s1 s5 r n g in
      (Board.cycle_of b c' (mul_board c s1 s5 mc) (mul_board c' s1 (stage s5 d) mc')
        (with_registers t c' (mul_registers s1 (stage s5 d) m)) d l a)

  -- A drive of the function with its memory to its end is one of the board.
  pub drive_sim :
      (n : ℕ) (mc mc' : Machine.Machine b) (c c0 : ℕ) (s1 s5 : FuncState)
      → is_running s1 ≡ false
      → s5.fstate ≡ Fstate.running
      → Machine.drive b n mc ≡ ok (mc', true)
      → (c' : ℕ) × (Board.drive b c n (mul_board c0 s1 s5 mc)
          ≡ ok (mul_board c' s1 (stage s5 true) mc', true))
  unfolding Machine.drive Machine.drive_on
  drive_sim zero mc mc' c c0 s1 s5 r i h = absurd (cc)
  drive_sim (suc n) mc mc' c c0 s1 s5 r i h =
      let ((mc1, d), g, k) =
        >>=-eq-ok (Machine.cycle b mc) (Machine.drive_on b (Machine.drive b n)) h in
      elim (Bool-cases d) [
        | inl t ↦
            let a = cycle_sim mc mc1 true c0 c s1 s5 r i (g ∙ ap (λ x. ok (mc1, x)) t) in
            let z : mc1 ≡ mc' = ground (arith, k, t) in
            (
              c,
              Board.drive_done b c n (mul_board c0 s1 s5 mc) (mul_board c s1 (stage s5 true) mc')
                  (rw (← z) a),
            )
        | inr t ↦
            let a = cycle_sim mc mc1 false c0 c s1 s5 r i (g ∙ ap (λ x. ok (mc1, x)) t) in
            let z : Machine.drive b n mc1 ≡ ok (mc', true) = ground (arith, k, t) in
            let (c', rest) = drive_sim n mc1 mc' (c + 1) c s1 s5 r i z in
            (
              c',
              Board.drive_next b c n (mul_board c0 s1 s5 mc) (mul_board c s1 s5 mc1)
                  (ok (mul_board c' s1 (stage s5 true) mc', true)) a rest,
            )
      ]
