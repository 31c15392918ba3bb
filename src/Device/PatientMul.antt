-- ===== src/Device/PatientMul.antt =====
-- A host's call of `MulVecByScalar` (tclpim.cc and userpim_functions.cc) on a board whose memory
-- answers any number of clocks later.
use sst_pim.Prelude.{
  ℕ, ◌+◌, ◌*◌, ◌^◌, ◌<◌, ◌≤◌, ◌≡◌, ◌≢◌, ◌⊎◌, refl, ap, ◌∙◌, arith, Bool, true, false, List, [],
  some, length, get_or, ok, inl, inr, replicate, outcome_cases,
}
use sst_pim.Pimdef.{Fstate, fstate_code, func_num_u5, num_func_params}
use sst_pim.Schedule.{Move, rounds, play, Simulates, play_sim}
use sst_pim.Fsm.{MulVecByScalar, mul_vec, start, start_mul_vec}
use sst_pim.FuncState.{FuncState, is_running, read_fsm}
use sst_pim.Tclpim.{Tclpim, lookup, update}
use sst_pim.Tclpim.Registers.{read-register}
use sst_pim.Memory.{Backing}
use sst_pim.MemCopy.Transfer.{cycles}
use sst_pim.MulVec.{clock}
use sst_pim.MulVec.Machine
use sst_pim.MulVec.Chunks.{Scaled}
use sst_pim.MulVec.Settling.{mul_patient}
use sst_pim.Device.Clock.{stage}
use sst_pim.Device.Frame.{mul_clock_frame}
use sst_pim.Device.Board
use sst_pim.Device.Board.{write_words}
use sst_pim.Device.Calls.{AreWords, call, called, write_words-call}
use sst_pim.Device.MulRun.{mul_board, mul_registers, device_clock, answer_all_sim}
use sst_pim.Device.Session.{TakesMul, ReadsDone}

module _ (b : Backing) (s1 s5 : FuncState) (r : is_running s1 ≡ false)
    (n : s5.fstate ≡ Fstate.running) where
  -- The board behind the function, while it runs and after it.
  abbrev pub During : Machine.Machine b → Board.Board b → Type 0
  During mc bd = (c : ℕ) × (bd ≡ mul_board b c s1 s5 mc) × (mc.device.func_state ≡ [])

  abbrev pub After : Machine.Machine b → Board.Board b → Type 0
  After mc bd = (c : ℕ) × (bd ≡ mul_board b c s1 (stage s5 true) mc) × (mc.device.func_state ≡ [])

  -- A clock of the function is one of the board.
  tick_sim :
      (mc mc' : Machine.Machine b) (bd : Board.Board b) (d : Bool)
      → During mc bd
      → Machine.tick b mc ≡ ok (mc', d)
      → (c : ℕ) × (Board.tick b bd ≡ ok (mul_board b c s1 (stage s5 d) mc', d))
        × (mc'.device.func_state ≡ [])
  unfolding Machine.tick Board.tick
  tick_sim mc mc' bd d (c, z, e) h = elim (outcome_cases (clock mc.device mc.mul)) [
    | inl ((t, m, f), e1) ↦
        let e2 : clock mc.device mc.mul ≡ ok (t, m, d) = ground (arith, e1, h) in
        let z' : mc' ≡ record { device = t; mul = m; store = mc.store } = ground (arith, e1, h) in
        let (g, k) =
          mul_clock_frame mc.device t mc.mul m (c + 1) d (mul_registers s1 s5 mc.mul) e2 in
        let l = device_clock mc.device t mc.mul m c (c + 1) d s1 s5 r n g in
        (c + 1, rw (z, z') (rw l refl), rw z' (k ∙ e))
    | inr (k, e1) ↦ absurd (ground (arith, e1, h))
  ]

  reply_sim :
      (mc mc' : Machine.Machine b) (bd : Board.Board b)
      → During mc bd
      → Machine.reply b mc ≡ ok mc'
      → (bd' : Board.Board b) × (Board.reply b bd ≡ ok bd') × During mc' bd'
  unfolding Machine.reply Board.reply
  reply_sim mc mc' bd (c, z, e) h =
      let (g, k) =
        answer_all_sim b mc.device.issued (record mc { device = record mc.device { issued = [] } })
          mc' c s1 s5 h in
      (mul_board b c s1 s5 mc', rw z g, (c, refl, k ∙ e))

  board-Simulates :
      Simulates (Machine.tick b) (Machine.reply b) (Board.tick b) (Board.reply b) During After
  board-Simulates = record {
    on_tick = λ mc mc' bd w h.
        let (c, g, k) = tick_sim mc mc' bd false w h in (mul_board b c s1 s5 mc', g, (c, refl, k));
    on_end = λ mc mc' bd w h.
        let (c, g, k) = tick_sim mc mc' bd true w h in
        (mul_board b c s1 (stage s5 true) mc', g, (c, refl, k));
    on_reply = reply_sim;
  }

module _ (b : Backing) where
  -- A call of `MulVecByScalar` with these parameters, and the moves of a schedule.
  abbrev pub Scales : List Move → Tclpim → b.Store → FuncState → FuncState → List ℕ → Type 0
  Scales ms t st s1 s5 ps =
      (t1 : Tclpim) × (bd : Board.Board b) × (s5' : FuncState) × (m' : MulVecByScalar)
      × (write_words func_num_u5 t (call ps) ≡ ok t1)
      × (play (Board.tick b) (Board.reply b) ms (record { device = t1; store = st })
          ≡ ok (bd, true))
      × Scaled (b.byte st) (b.byte bd.store) (get_or ps 2 0) (get_or ps 1 0) (get_or ps 0 0)
          (get_or ps 3 0)
      × ReadsDone func_num_u5 bd.device
      × TakesMul bd.device s1 s5' m'

  -- A device that takes a call of `MulVecByScalar` is called with eight 64-bit parameters that
  -- `start` accepts, for a positive number of bytes: the ranges end below the end of the address
  -- space, and no word is overwritten before it is read. Then all writes of the call succeed. After
  -- it come clocks of the device and answers of the memory in any order, an answer any number of
  -- clocks after its request, until an answer has followed a clock two times for every 512 bytes
  -- and once more: the device reports the end of the function by then, and stops at it. Each word
  -- of the destination is then the product, modulo 2^64, of the scalar and the word of the source
  -- before the call, every other byte of the memory is as it was, the register reads DONE, and the
  -- device takes the next call.
  pub patient_mul_session :
      (ms : List Move) (k : ℕ) (t : Tclpim) (st : b.Store) (s1 s5 : FuncState)
      (m0 m : MulVecByScalar) (ps : List ℕ)
      → cycles k ≤ rounds false ms
      → TakesMul t s1 s5 m0
      → AreWords ps
      → length ps ≡ num_func_params
      → start_mul_vec m0 ps ≡ ok m
      → get_or ps 3 0 ≢ 0
      → get_or ps 3 0 ≤ 512 * k
      → get_or ps 1 0 + get_or ps 3 0 < 2 ^ 64
      → get_or ps 0 0 + get_or ps 3 0 < 2 ^ 64
      → (get_or ps 0 0 ≤ get_or ps 1 0) ⊎ (get_or ps 1 0 + get_or ps 3 0 ≤ get_or ps 0 0)
      → Scales ms t st s1 s5 ps
  unfolding lookup update start fstate_code read_fsm
  patient_mul_session ms k t st s1 s5 m0 m ps g r w l e z f p q o =
      let sr : FuncState = called s5 ps (mul_vec m) in
      let fs : List (ℕ × FuncState) = mul_registers s1 sr m in
      let (mc', run, fin) =
        mul_patient b ms k (record t { func_state = [] }) st m0 m ps g e z f r.none_issued p q o in
      let (bd', played, (c', same, h)) =
        play_sim (Machine.tick b) (Machine.reply b) (Board.tick b) (Board.reply b)
          (board-Simulates b s1 sr r.alone refl) ms
          (record { device = record t { func_state = [] }; mul = m; store = st }) mc'
          (mul_board b t.cycle s1 sr
            (record { device = record t { func_state = [] }; mul = m; store = st }))
          (t.cycle, refl, refl) run in
      let ended : FuncState = record sr { fstate = Fstate.done; exec = some (mul_vec mc'.mul) } in
      let bd : Board.Board b = mul_board b c' s1 ended mc' in
      (
        record t { func_state = fs },
        bd,
        ended,
        mc'.mul,
        write_words-call func_num_u5 t s5 (mul_vec m0) (mul_vec m) ps (omega arith) (rw r.installed)
              r.closed r.well_formed r.object w l (rw e)
            ∙ ap (λ x. ok (record t { func_state = update func_num_u5 sr x })) r.installed,
        played ∙ ap (λ x. ok (x, true)) same,
        fin.goal,
        read-register bd.device func_num_u5 ended (replicate 8 0) (omega arith) refl refl,
        record {
          installed = refl;
          closed = inr refl;
          well_formed = record { eight = l; inside = inl (ground arith) };
          object = refl;
          alone = r.alone;
          none_issued = fin.quiet;
        },
      )
