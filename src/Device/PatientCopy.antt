-- ===== src/Device/PatientCopy.antt =====
-- A host's call of `MemCopy` (tclpim.cc and tclpim_functions.cc) on a board whose memory answers any
-- number of clocks later.
use sst_pim.Prelude.{
  ℕ, ◌+◌, ◌*◌, ◌≤◌, ◌≡◌, ◌≢◌, ◌⊎◌, refl, ap, ◌∙◌, arith, Bool, true, false, List, [], some, length,
  ok, inl, inr, replicate, outcome_cases,
}
use sst_pim.Pimdef.{Fstate, fstate_code, func_num_f1, num_func_params}
use sst_pim.Schedule.{Move, rounds, play, Simulates, play_sim}
use sst_pim.Fsm.{MemCopy, mem_copy, start, start_mem_copy, is_sram_address}
use sst_pim.FuncState.{FuncState, is_running, read_fsm}
use sst_pim.Tclpim.{Tclpim, lookup, update}
use sst_pim.Tclpim.Registers.{read-register}
use sst_pim.Memory.{Backing}
use sst_pim.MemCopy.{clock}
use sst_pim.MemCopy.Chunks.{Placed}
use sst_pim.MemCopy.Machine
use sst_pim.MemCopy.Transfer.{Copied, cycles}
use sst_pim.MemCopy.Run.{dst_of, src_of, bytes_of}
use sst_pim.MemCopy.Settling.{copy_patient}
use sst_pim.Device.Clock.{stage}
use sst_pim.Device.Frame.{copy_clock_frame}
use sst_pim.Device.Board
use sst_pim.Device.Board.{write_words}
use sst_pim.Device.Calls.{AreWords, call, called, write_words-call}
use sst_pim.Device.CopyRun.{copy_board, copy_registers, device_clock, answer_all_sim}
use sst_pim.Device.Session.{TakesCopy, ReadsDone}

module _ (b : Backing) (s1 s5 : FuncState) (r : s1.fstate ≡ Fstate.running)
    (n : is_running s5 ≡ false) where
  -- The board behind the function, while it runs and after it.
  abbrev pub During : Machine.Machine b → Board.Board b → Type 0
  During mc bd = (c : ℕ) × (bd ≡ copy_board b c s1 s5 mc) × (mc.device.func_state ≡ [])

  abbrev pub After : Machine.Machine b → Board.Board b → Type 0
  After mc bd = (c : ℕ) × (bd ≡ copy_board b c (stage s1 true) s5 mc) × (mc.device.func_state ≡ [])

  -- A clock of the function is one of the board.
  tick_sim :
      (mc mc' : Machine.Machine b) (bd : Board.Board b) (d : Bool)
      → During mc bd
      → Machine.tick b mc ≡ ok (mc', d)
      → (c : ℕ) × (Board.tick b bd ≡ ok (copy_board b c (stage s1 d) s5 mc', d))
        × (mc'.device.func_state ≡ [])
  unfolding Machine.tick Board.tick
  tick_sim mc mc' bd d (c, z, e) h = elim (outcome_cases (clock mc.device mc.copy)) [
    | inl ((t, m, f), e1) ↦
        let e2 : clock mc.device mc.copy ≡ ok (t, m, d) = ground (arith, e1, h) in
        let z' : mc' ≡ record { device = t; copy = m; store = mc.store } = ground (arith, e1, h) in
        let (g, k) =
          copy_clock_frame mc.device t mc.copy m (c + 1) d (copy_registers s1 s5 mc.copy) e e2 in
        let l = device_clock mc.device t mc.copy m c (c + 1) d s1 s5 r n g in
        (c + 1, rw (z, z') (rw l refl), rw z' k)
    | inr (k, e1) ↦ absurd (ground (arith, e1, h))
  ]

  reply_sim :
      (mc mc' : Machine.Machine b) (bd : Board.Board b)
      → During mc bd
      → Machine.reply b mc ≡ ok mc'
      → (bd' : Board.Board b) × (Board.reply b bd ≡ ok bd') × During mc' bd'
  unfolding Machine.reply Board.reply
  reply_sim mc mc' bd (c, z, e) h =
      let (g, k) =
        answer_all_sim b mc.device.issued (record mc { device = record mc.device { issued = [] } })
          mc' c s1 s5 h in
      (copy_board b c s1 s5 mc', rw z g, (c, refl, k ∙ e))

  board-Simulates :
      Simulates (Machine.tick b) (Machine.reply b) (Board.tick b) (Board.reply b) During After
  board-Simulates = record {
    on_tick = λ mc mc' bd w h.
        let (c, g, k) = tick_sim mc mc' bd false w h in (copy_board b c s1 s5 mc', g, (c, refl, k));
    on_end = λ mc mc' bd w h.
        let (c, g, k) = tick_sim mc mc' bd true w h in
        (copy_board b c (stage s1 true) s5 mc', g, (c, refl, k));
    on_reply = reply_sim;
  }

module _ (b : Backing) where
  -- A call of `MemCopy` with these parameters, and the moves of a schedule.
  abbrev pub Copies : List Move → Tclpim → b.Store → FuncState → FuncState → List ℕ → Type 0
  Copies ms t st s1 s5 ps =
      (t1 : Tclpim) × (bd : Board.Board b) × (s1' : FuncState) × (m' : MemCopy) × (write_words
          func_num_f1 t (call ps)
        ≡ ok t1)
      × (play (Board.tick b) (Board.reply b) ms (record { device = t1; store = st })
          ≡ ok (bd, true))
      × Copied (Board.view b (record { device = t; store = st })) (Board.view b bd) (src_of ps)
          (dst_of ps) (bytes_of ps)
      × ReadsDone func_num_f1 bd.device
      × TakesCopy bd.device s1' s5 m'

  -- A device that takes a call of `MemCopy` is called with eight 64-bit parameters that `start`
  -- accepts, for a positive number of bytes: both ranges lie in the scratchpad's first window or in
  -- memory clear of the device, and no byte is overwritten before it is read. Then all writes of
  -- the call succeed. After it come clocks of the device and answers of the memory in any order, an
  -- answer any number of clocks after its request, until an answer has followed a clock two times
  -- for every 512 bytes and once more: the device reports the end of the function by then, and
  -- stops at it. Every byte of the destination is then that of the source before the call and every
  -- other byte is as it was, the register reads DONE, and the device takes the next call.
  pub patient_copy_session :
      (ms : List Move) (k : ℕ) (t : Tclpim) (st : b.Store) (s1 s5 : FuncState) (m0 m : MemCopy)
      (ps : List ℕ)
      → cycles k ≤ rounds false ms
      → TakesCopy t s1 s5 m0
      → AreWords ps
      → length ps ≡ num_func_params
      → start_mem_copy m0 ps ≡ ok m
      → bytes_of ps ≢ 0
      → bytes_of ps ≤ 512 * k
      → Placed (is_sram_address (src_of ps)) (src_of ps) (bytes_of ps)
      → Placed (is_sram_address (dst_of ps)) (dst_of ps) (bytes_of ps)
      → (dst_of ps ≤ src_of ps) ⊎ (src_of ps + bytes_of ps ≤ dst_of ps)
      → Copies ms t st s1 s5 ps
  unfolding Board.view Machine.view lookup update start fstate_code read_fsm
  patient_copy_session ms k t st s1 s5 m0 m ps g r w l e z f p q o =
      let sr : FuncState = called s1 ps (mem_copy m) in
      let fs : List (ℕ × FuncState) = copy_registers sr s5 m in
      let (mc', run, fin) =
        copy_patient b ms k (record t { func_state = [] }) st m0 m ps g e z f r.none_issued r.whole
          p q o in
      let (bd', played, (c', same, h)) =
        play_sim (Machine.tick b) (Machine.reply b) (Board.tick b) (Board.reply b)
          (board-Simulates b sr s5 refl r.alone) ms
          (record { device = record t { func_state = [] }; copy = m; store = st }) mc'
          (copy_board b t.cycle sr s5
            (record { device = record t { func_state = [] }; copy = m; store = st }))
          (t.cycle, refl, refl) run in
      let ended : FuncState = record sr { fstate = Fstate.done; exec = some (mem_copy mc'.copy) } in
      let bd : Board.Board b = copy_board b c' ended s5 mc' in
      (
        record t { func_state = fs },
        bd,
        ended,
        mc'.copy,
        write_words-call func_num_f1 t s1 (mem_copy m0) (mem_copy m) ps (omega arith)
              (rw r.installed) r.closed r.well_formed r.object w l (rw e)
            ∙ ap (λ x. ok (record t { func_state = update func_num_f1 sr x })) r.installed,
        played ∙ ap (λ x. ok (x, true)) same,
        fin.goal,
        read-register bd.device func_num_f1 ended (replicate 8 0) (omega arith) refl refl,
        record {
          installed = refl;
          closed = inr refl;
          well_formed = record { eight = l; inside = inl (ground arith) };
          object = refl;
          alone = r.alone;
          none_issued = fin.quiet.none_issued;
          whole = fin.quiet.whole;
        },
      )
