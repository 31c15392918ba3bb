-- ===== src/Device/Session.antt =====
-- A whole call as a host makes it (tclpim.cc, with tclpim_functions.cc and userpim_functions.cc):
-- INIT, eight parameters and RUN to a function's register, clocks of the device with its memory,
-- and a read of the register.
use sst_pim.Prelude.{
  ℕ, ◌+◌, ◌*◌, ◌^◌, ◌≤◌, ◌<◌, ◌≡◌, ◌≢◌, ◌⊎◌, refl, ap, ◌∙◌, arith, true, false, List, [], some,
  length, get_or, replicate, to_bytes, ok, inl, inr,
}
use sst_pim.Pimdef.{Fstate, fstate_code, func_num_f1, func_num_u5, num_func_params, sram_size}
use sst_pim.Fsm.{
  MemCopy, MulVecByScalar, mem_copy, mul_vec, start, start_mem_copy, start_mul_vec, is_sram_address,
}
use sst_pim.FuncState.{FuncState, is_running, read_fsm}
use sst_pim.FuncState.Protocol.{IsWellFormed}
use sst_pim.Tclpim.{Tclpim, lookup, update, read}
use sst_pim.Tclpim.Registers.{register, read-register}
use sst_pim.Memory.{Backing}
use sst_pim.MemCopy.Chunks.{Placed}
use sst_pim.MemCopy.Machine
use sst_pim.MemCopy.Transfer.{Copied, cycles}
use sst_pim.MemCopy.Run.{mem_copy_run, dst_of, src_of, bytes_of}
use sst_pim.MulVec.Chunks.{Scaled}
use sst_pim.MulVec.Run.{mul_vec_run}
use sst_pim.Device.Clock.{Installed}
use sst_pim.Device.Board
use sst_pim.Device.Calls.{AreWords, call, called, write_words-call}
use sst_pim.Device.Board.{write_words}
use sst_pim.Device.CopyRun
use sst_pim.Device.MulRun

-- A device that takes a call of `MemCopy`: both functions are installed, the register of the first
-- is closed and well formed, the second does not run, and nothing is under way.
pub record TakesCopy (t : Tclpim) (s1 s5 : FuncState) (m : MemCopy) : Type 0 where
  pub installed : Installed t s1 s5
  pub closed : (s1.fstate ≡ Fstate.invalid) ⊎ (s1.fstate ≡ Fstate.done)
  pub well_formed : IsWellFormed s1
  pub object : s1.exec ≡ some (mem_copy m)
  pub alone : is_running s5 ≡ false
  pub none_issued : t.issued ≡ []
  pub whole : length t.sram ≡ sram_size

pub record TakesMul (t : Tclpim) (s1 s5 : FuncState) (m : MulVecByScalar) : Type 0 where
  pub installed : Installed t s1 s5
  pub closed : (s5.fstate ≡ Fstate.invalid) ⊎ (s5.fstate ≡ Fstate.done)
  pub well_formed : IsWellFormed s5
  pub object : s5.exec ≡ some (mul_vec m)
  pub alone : is_running s1 ≡ false
  pub none_issued : t.issued ≡ []

-- What a host's read of the register of function `n` returns.
abbrev pub ReadsDone : ℕ → Tclpim → Type 0
ReadsDone n t = read t (register n) 8 (replicate 8 0) ≡ ok (to_bytes 8 (fstate_code Fstate.done))

module _ (b : Backing) where
  -- A call of `MemCopy` with these parameters, and `n` cycles from cycle `c` on.
  abbrev pub Copies : ℕ → ℕ → Tclpim → b.Store → FuncState → FuncState → List ℕ → Type 0
  Copies c n t st s1 s5 ps =
      (t1 : Tclpim) × (bd : Board.Board b) × (s1' : FuncState) × (m' : MemCopy) × (write_words
          func_num_f1 t (call ps)
        ≡ ok t1)
      × (Board.drive b c n (record { device = t1; store = st }) ≡ ok (bd, true))
      × Copied (Board.view b (record { device = t; store = st })) (Board.view b bd) (src_of ps)
          (dst_of ps) (bytes_of ps)
      × ReadsDone func_num_f1 bd.device
      × TakesCopy bd.device s1' s5 m'

  -- A device that takes a call of `MemCopy` is called with eight 64-bit parameters that `start`
  -- accepts, for a positive number of bytes: both ranges lie in the scratchpad's first window or in
  -- memory clear of the device, and no byte is overwritten before it is read. Then all writes of
  -- the call succeed, and within two clocks for every 512 bytes and one more, each followed by the
  -- answers of the memory, the device reports the end of the function. Every byte of the
  -- destination is then that of the source before the call and every other byte is as it was, the
  -- register reads DONE, and the device takes the next call.
  pub copy_session :
      (k c : ℕ) (t : Tclpim) (st : b.Store) (s1 s5 : FuncState) (m0 m : MemCopy) (ps : List ℕ)
      → TakesCopy t s1 s5 m0
      → AreWords ps
      → length ps ≡ num_func_params
      → start_mem_copy m0 ps ≡ ok m
      → bytes_of ps ≢ 0
      → bytes_of ps ≤ 512 * k
      → Placed (is_sram_address (src_of ps)) (src_of ps) (bytes_of ps)
      → Placed (is_sram_address (dst_of ps)) (dst_of ps) (bytes_of ps)
      → (dst_of ps ≤ src_of ps) ⊎ (src_of ps + bytes_of ps ≤ dst_of ps)
      → Copies c (cycles k) t st s1 s5 ps
  unfolding Board.view Machine.view lookup update start fstate_code read_fsm
  copy_session k c t st s1 s5 m0 m ps r w l e z f p q o =
      let sr : FuncState = called s1 ps (mem_copy m) in
      let fs : List (ℕ × FuncState) = CopyRun.copy_registers sr s5 m in
      let (mc', run, idle, quiet, v) =
        mem_copy_run b k (record t { func_state = [] }) st m0 m ps e z f r.none_issued r.whole p q
          o in
      let (c', driven, h) =
        CopyRun.drive_sim b (cycles k)
          (record { device = record t { func_state = [] }; copy = m; store = st }) mc' c t.cycle sr
          s5 refl refl r.alone run in
      let ended : FuncState = record sr { fstate = Fstate.done; exec = some (mem_copy mc'.copy) } in
      let bd : Board.Board b = CopyRun.copy_board b c' ended s5 mc' in
      (
        record t { func_state = fs },
        bd,
        ended,
        mc'.copy,
        write_words-call func_num_f1 t s1 (mem_copy m0) (mem_copy m) ps (omega arith)
              (rw r.installed) r.closed r.well_formed r.object w l (rw e)
            ∙ ap (λ x. ok (record t { func_state = update func_num_f1 sr x })) r.installed,
        driven,
        v,
        read-register bd.device func_num_f1 ended (replicate 8 0) (omega arith) refl refl,
        record {
          installed = refl;
          closed = inr refl;
          well_formed = record { eight = l; inside = inl (ground arith) };
          object = refl;
          alone = r.alone;
          none_issued = quiet.none_issued;
          whole = quiet.whole;
        },
      )

  -- A call of `MulVecByScalar`, likewise.
  abbrev pub Scales : ℕ → ℕ → Tclpim → b.Store → FuncState → FuncState → List ℕ → Type 0
  Scales c n t st s1 s5 ps =
      (t1 : Tclpim) × (bd : Board.Board b) × (s5' : FuncState) × (m' : MulVecByScalar)
      × (write_words func_num_u5 t (call ps) ≡ ok t1)
      × (Board.drive b c n (record { device = t1; store = st }) ≡ ok (bd, true))
      × Scaled (b.byte st) (b.byte bd.store) (get_or ps 2 0) (get_or ps 1 0) (get_or ps 0 0)
          (get_or ps 3 0)
      × ReadsDone func_num_u5 bd.device
      × TakesMul bd.device s1 s5' m'

  -- A device that takes a call of `MulVecByScalar` is called with eight 64-bit parameters that
  -- `start` accepts, for a positive number of bytes: the ranges end below the end of the address
  -- space, and no word is overwritten before it is read. Then all writes of the call succeed, and
  -- within two clocks for every 512 bytes and one more, each followed by the answers of the memory,
  -- the device reports the end of the function. Each word of the destination is then the product,
  -- modulo 2^64, of the scalar and the word of the source before the call, every other byte of the
  -- memory is as it was, the register reads DONE, and the device takes the next call.
  pub mul_session :
      (k c : ℕ) (t : Tclpim) (st : b.Store) (s1 s5 : FuncState) (m0 m : MulVecByScalar)
      (ps : List ℕ)
      → TakesMul t s1 s5 m0
      → AreWords ps
      → length ps ≡ num_func_params
      → start_mul_vec m0 ps ≡ ok m
      → get_or ps 3 0 ≢ 0
      → get_or ps 3 0 ≤ 512 * k
      → get_or ps 1 0 + get_or ps 3 0 < 2 ^ 64
      → get_or ps 0 0 + get_or ps 3 0 < 2 ^ 64
      → (get_or ps 0 0 ≤ get_or ps 1 0) ⊎ (get_or ps 1 0 + get_or ps 3 0 ≤ get_or ps 0 0)
      → Scales c (cycles k) t st s1 s5 ps
  unfolding lookup update start fstate_code read_fsm
  mul_session k c t st s1 s5 m0 m ps r w l e z f p q o =
      let sr : FuncState = called s5 ps (mul_vec m) in
      let fs : List (ℕ × FuncState) = MulRun.mul_registers s1 sr m in
      let (mc', run, idle, quiet, v) =
        mul_vec_run b k (record t { func_state = [] }) st m0 m ps e z f r.none_issued p q o in
      let (c', driven) =
        MulRun.drive_sim b (cycles k)
          (record { device = record t { func_state = [] }; mul = m; store = st }) mc' c t.cycle s1
          sr r.alone refl run in
      let ended : FuncState = record sr { fstate = Fstate.done; exec = some (mul_vec mc'.mul) } in
      let bd : Board.Board b = MulRun.mul_board b c' s1 ended mc' in
      (
        record t { func_state = fs },
        bd,
        ended,
        mc'.mul,
        write_words-call func_num_u5 t s5 (mul_vec m0) (mul_vec m) ps (omega arith) (rw r.installed)
              r.closed r.well_formed r.object w l (rw e)
            ∙ ap (λ x. ok (record t { func_state = update func_num_u5 sr x })) r.installed,
        driven,
        v,
        read-register bd.device func_num_u5 ended (replicate 8 0) (omega arith) refl refl,
        record {
          installed = refl;
          closed = inr refl;
          well_formed = record { eight = l; inside = inl (ground arith) };
          object = refl;
          alone = r.alone;
          none_issued = quiet;
        },
      )
