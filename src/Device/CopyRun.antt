-- ===== src/Device/CopyRun.antt =====
-- A run of `MemCopy` on the board: while it is the only running function, every clock of the device
-- is a clock of the function with its memory (MemCopy/Machine.antt).
use sst_pim.Prelude.{
  ℕ, zero, suc, ◌+◌, ◌≡◌, refl, ap, ◌∙◌, arith, Bool, true, false, List, [], ◌∷◌, some, Bool-cases,
  outcome_cases, inl, inr, ok, >>=-eq-ok, length,
}
use sst_pim.Pimdef.{Fstate, func_num_f1, func_num_u5}
use sst_pim.Fsm.{MemCopy, mem_copy}
use sst_pim.FuncState.{FuncState, is_running}
use sst_pim.Tclpim.{
  Tclpim, DramRequest, Completion, copy_read, copy_write, mul_read, mul_write, lookup, update,
}
use sst_pim.Memory.{Backing}
use sst_pim.MemCopy
use sst_pim.MemCopy.Machine
use sst_pim.Device
use sst_pim.Device.{fsm_clock, with_copy, exec_of, store_exec}
use sst_pim.Device.Clock.{stage, after_clock_lem, clock_first}
use sst_pim.Device.Frame.{with_registers, copy_clock_frame}
use sst_pim.Device.Board

-- The registers while `MemCopy` runs as the first function.
abbrev pub copy_registers : FuncState → FuncState → MemCopy → List (ℕ × FuncState)
copy_registers s1 s5 m =
    (func_num_f1, record s1 { exec = some (mem_copy m) }) ∷ (func_num_u5, s5) ∷ []

-- The clock of the device while `MemCopy` alone runs.
pub device_clock :
    (t t' : Tclpim) (m m' : MemCopy) (c c' : ℕ) (d : Bool) (s1 s5 : FuncState)
    → s1.fstate ≡ Fstate.running
    → is_running s5 ≡ false
    → MemCopy.clock (with_registers t c' (copy_registers s1 s5 m)) m
      ≡ ok (with_registers t' c' (copy_registers s1 s5 m), m', d)
    → Device.clock c' (with_registers t c (copy_registers s1 s5 m))
      ≡ ok (with_registers t' c' (copy_registers (stage s1 d) s5 m'), d)
unfolding fsm_clock
device_clock t t' m m' c c' d s1 s5 r n h =
    clock_first c' (with_registers t c (copy_registers s1 s5 m))
      (with_registers t' c' (copy_registers s1 s5 m)) (record s1 { exec = some (mem_copy m) }) s5
      (mem_copy m) (mem_copy m') d refl r refl (inr n) (rw h) refl
    ∙ ap (λ s. ok (with_registers t' c' ((func_num_f1, s) ∷ (func_num_u5, s5) ∷ []), d))
        (after_clock_lem s1 (mem_copy m) (mem_copy m') d)

module _ (b : Backing) where
  complete_sim :
      (k : Completion) (d : List ℕ) (t t' : Tclpim) (m m' : MemCopy) (c : ℕ) (s1 s5 : FuncState)
      → Machine.complete b k d t m ≡ ok (t', m')
      → (Device.complete k d (with_registers t c (copy_registers s1 s5 m))
          ≡ ok (with_registers t' c (copy_registers s1 s5 m')))
        × (t'.func_state ≡ t.func_state)
  unfolding Device.complete lookup update Machine.complete MemCopy.complete_read
      MemCopy.complete_write
  complete_sim (copy_read next) d t t' m m' c s1 s5 h = ground arith
  complete_sim (copy_write next) d t t' m m' c s1 s5 h = ground arith
  complete_sim mul_read d t t' m m' c s1 s5 h = cc
  complete_sim (mul_write next) d t t' m m' c s1 s5 h = cc

  -- The board behind a function with its memory.
  abbrev pub copy_board : ℕ → FuncState → FuncState → Machine.Machine b → Board.Board b
  copy_board c s1 s5 mc = record {
    device = with_registers mc.device c (copy_registers s1 s5 mc.copy);
    store = mc.store;
  }

  answer_sim :
      (r : DramRequest) (mc mc' : Machine.Machine b) (c : ℕ) (s1 s5 : FuncState)
      → Machine.answer b r mc ≡ ok mc'
      → (Board.answer b r (copy_board c s1 s5 mc) ≡ ok (copy_board c s1 s5 mc'))
        × (mc'.device.func_state ≡ mc.device.func_state)
  unfolding Machine.answer Board.answer
  answer_sim r mc mc' c s1 s5 h = elim (Bool-cases r.is_write) [
    | inl w ↦ elim (outcome_cases (Machine.complete b r.completion r.payload mc.device mc.copy)) [
      | inl ((t, m), e) ↦
          ground (arith, e, complete_sim r.completion r.payload mc.device t mc.copy m c s1 s5 e)
      | inr (k, e) ↦ ground (arith, e)
    ]
    | inr w ↦
        let bytes = b.get mc.store r.address (length r.payload) in
        elim (outcome_cases (Machine.complete b r.completion bytes mc.device mc.copy)) [
          | inl ((t, m), e) ↦
              ground (arith, e, complete_sim r.completion bytes mc.device t mc.copy m c s1 s5 e)
          | inr (k, e) ↦ ground (arith, e)
        ]
  ]

  pub answer_all_sim :
      (rs : List DramRequest) (mc mc' : Machine.Machine b) (c : ℕ) (s1 s5 : FuncState)
      → Machine.answer_all b rs mc ≡ ok mc'
      → (Board.answer_all b rs (copy_board c s1 s5 mc) ≡ ok (copy_board c s1 s5 mc'))
        × (mc'.device.func_state ≡ mc.device.func_state)
  unfolding Machine.answer_all Board.answer_all
  answer_all_sim [] mc mc' c s1 s5 h = ground arith
  answer_all_sim (r ∷ rs) mc mc' c s1 s5 h =
      let (mc1, e, f) = >>=-eq-ok (Machine.answer b r mc) (λ x. Machine.answer_all b rs x) h in
      let (g, k) = answer_sim r mc mc1 c s1 s5 e in
      let (g', k') = answer_all_sim rs mc1 mc' c s1 s5 f in (rw g g', k' ∙ k)

  cycle_parts :
      (mc mc' : Machine.Machine b) (d : Bool)
      → Machine.cycle b mc ≡ ok (mc', d)
      → (t : Tclpim) × (m : MemCopy) × (MemCopy.clock mc.device mc.copy ≡ ok (t, m, d))
        × (Machine.answer_all b t.issued
              (record { device = record t { issued = [] }; copy = m; store = mc.store })
            ≡ ok mc')
  unfolding Machine.cycle
  cycle_parts mc mc' d h = elim (outcome_cases (MemCopy.clock mc.device mc.copy)) [
    | inl ((t, m, f), e) ↦
        elim (outcome_cases (
          Machine.answer_all b t.issued
            (record { device = record t { issued = [] }; copy = m; store = mc.store }))) [
              | inl (mc2, e2) ↦ (t, m, ground (arith, e, e2), ground (arith, e, e2))
              | inr (k, e2) ↦ absurd (ground (arith, e, e2))
            ]
    | inr (k, e) ↦ absurd (ground (arith, e))
  ]

  cycle_sim :
      (mc mc' : Machine.Machine b) (d : Bool) (c c' : ℕ) (s1 s5 : FuncState)
      → mc.device.func_state ≡ []
      → s1.fstate ≡ Fstate.running
      → is_running s5 ≡ false
      → Machine.cycle b mc ≡ ok (mc', d)
      → (Board.cycle b c' (copy_board c s1 s5 mc) ≡ ok (copy_board c' (stage s1 d) s5 mc', d))
        × (mc'.device.func_state ≡ [])
  cycle_sim mc mc' d c c' s1 s5 e r n h =
      let (t, m, e1, e2) = cycle_parts mc mc' d h in
      let fs : List (ℕ × FuncState) = copy_registers s1 s5 mc.copy in
      let (g, k) = copy_clock_frame mc.device t mc.copy m c' d fs e e1 in
      let (a, k') =
        answer_all_sim t.issued
          (record { device = record t { issued = [] }; copy = m; store = mc.store }) mc' c'
          (stage s1 d) s5 e2 in
      let l = device_clock mc.device t mc.copy m c c' d s1 s5 r n g in
      (
        Board.cycle_of b c' (copy_board c s1 s5 mc) (copy_board c' (stage s1 d) s5 mc')
            (with_registers t c' (copy_registers (stage s1 d) s5 m)) d l a,
        k' ∙ k,
      )

  -- A drive of the function with its memory to its end is one of the board.
  pub drive_sim :
      (n : ℕ) (mc mc' : Machine.Machine b) (c c0 : ℕ) (s1 s5 : FuncState)
      → mc.device.func_state ≡ []
      → s1.fstate ≡ Fstate.running
      → is_running s5 ≡ false
      → Machine.drive b n mc ≡ ok (mc', true)
      → (c' : ℕ) × (Board.drive b c n (copy_board c0 s1 s5 mc)
          ≡ ok (copy_board c' (stage s1 true) s5 mc', true))
        × (mc'.device.func_state ≡ [])
  unfolding Machine.drive Machine.drive_on
  drive_sim zero mc mc' c c0 s1 s5 e r i h = absurd (cc)
  drive_sim (suc n) mc mc' c c0 s1 s5 e r i h =
      let ((mc1, d), g, k) =
        >>=-eq-ok (Machine.cycle b mc) (Machine.drive_on b (Machine.drive b n)) h in
      elim (Bool-cases d) [
        | inl t ↦
            let (a, l) = cycle_sim mc mc1 true c0 c s1 s5 e r i (g ∙ ap (λ x. ok (mc1, x)) t) in
            let z : mc1 ≡ mc' = ground (arith, k, t) in
            (
              c,
              Board.drive_done b c n (copy_board c0 s1 s5 mc) (copy_board c (stage s1 true) s5 mc')
                  (rw (← z) a),
              rw (← z) l,
            )
        | inr t ↦
            let (a, l) = cycle_sim mc mc1 false c0 c s1 s5 e r i (g ∙ ap (λ x. ok (mc1, x)) t) in
            let z : Machine.drive b n mc1 ≡ ok (mc', true) = ground (arith, k, t) in
            let (c', rest, y) = drive_sim n mc1 mc' (c + 1) c s1 s5 l r i z in
            (
              c',
              Board.drive_next b c n (copy_board c0 s1 s5 mc) (copy_board c s1 s5 mc1)
                  (ok (copy_board c' (stage s1 true) s5 mc', true)) a rest,
              y,
            )
      ]
