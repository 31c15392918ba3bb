-- ===== src/Examples/Registers.antt =====
-- Host accesses to the function registers and the scratchpad, and the addresses behind them.
use sst_pim.Prelude.{
  ℕ, ◌+◌, ◌-◌, ◌%◌, ◌≡◌, ◌≢◌, refl, arith, inl, inr, List, [], ◌∷◌, ◌++◌, ok, fault, out_of_range,
  some, replicate, get_or, leb, ltb, ◌&&◌, if◌then◌else◌,
}
use sst_pim.Pimdef.{Fstate, sram_base, sram_size, func_cmd_init, func_cmd_run}
use sst_pim.Fsm.{mem_copy, started_mem_copy, start, start_mem_copy, is_func_address}
use sst_pim.Decoder.{decode, PimAccessType}
use sst_pim.Decoder.Ranges.{access_type_of, decode-access_type_of, InMap, in_sram, decode-InMap}
use sst_pim.FuncState.{FuncState, write_fsm, write_all}
use sst_pim.FuncState.Protocol.{
  IsWellFormed, write_fsm-IsWellFormed, ◌⟶◌, write_fsm-⟶, write_all_session,
}
use sst_pim.FuncState.Histories.{Calls, write_all_in_bounds, write_all-Calls}
use sst_pim.Tclpim.{Tclpim, read, write}
use sst_pim.Tclpim.Scratchpad.{Fits, read-write_sram}
use sst_pim.Examples.Data.{device, eight, copy_register, mul_register, device_with, waiting_copy}

decode-access_type_of_example : (decode 0x0f000040).access_type ≡ access_type_of 0x0f000040
decode-access_type_of_example = decode-access_type_of 0x0f000040

collecting : FuncState
collecting = record (copy_register Fstate.initializing) { counter = 7 }

collecting-IsWellFormed : IsWellFormed collecting
unfolding collecting
collecting-IsWellFormed = record { eight = refl; inside = inr (omega arith) }

filled : FuncState
unfolding collecting
filled = record collecting {
  params = 0 ∷ 0 ∷ 0 ∷ 0 ∷ 0 ∷ 0 ∷ 0 ∷ 42 ∷ [];
  counter = 8;
  fstate = Fstate.ready;
}

last_written : write_fsm collecting 42 ≡ ok filled
unfolding write_fsm collecting filled
last_written = refl

write_fsm-IsWellFormed_example : IsWellFormed filled
write_fsm-IsWellFormed_example =
    write_fsm-IsWellFormed collecting filled 42 collecting-IsWellFormed last_written

write_fsm-⟶_example : collecting.fstate ⟶ filled.fstate
write_fsm-⟶_example = write_fsm-⟶ collecting filled 42 last_written

abbrev session_params : List ℕ
session_params = 0x10000 ∷ sram_base ∷ 16 ∷ 0 ∷ 0 ∷ 0 ∷ 0 ∷ 0 ∷ []

session_started :
    start (mem_copy waiting_copy) session_params ≡ ok (mem_copy (started_mem_copy session_params))
unfolding start start_mem_copy is_func_address decode
session_started = refl

write_all_session_example :
    write_all (copy_register Fstate.done) (func_cmd_init ∷ session_params ++ (func_cmd_run ∷ []))
    ≡ ok (record (copy_register Fstate.done) {
      fstate = Fstate.running;
      counter = 0;
      params = session_params;
      exec = some (mem_copy (started_mem_copy session_params));
    })
write_all_session_example =
    write_all_session (copy_register Fstate.done) (mem_copy waiting_copy)
      (mem_copy (started_mem_copy session_params)) session_params (inr refl)
      (record { eight = refl; inside = inl (λ h. ground arith) }) refl refl session_started

-- A register in the middle of a call, that takes its last parameter, RUN and a last value.
abbrev last_values : List ℕ
last_values = 0 ∷ func_cmd_run ∷ 7 ∷ []

abbrev almost_filled : FuncState
almost_filled = record (copy_register Fstate.initializing) { params = session_params; counter = 7 }

almost_filled-IsWellFormed : IsWellFormed almost_filled
almost_filled-IsWellFormed = record { eight = refl; inside = inr (omega arith) }

abbrev finished : FuncState
finished = record (copy_register Fstate.done) {
  params = session_params;
  exec = some (mem_copy (started_mem_copy session_params));
}

last_values_taken : write_all almost_filled last_values ≡ ok finished
unfolding write_all write_fsm start start_mem_copy is_func_address decode
last_values_taken = refl

write_all_in_bounds_example : write_all almost_filled last_values ≢ fault out_of_range
write_all_in_bounds_example =
    write_all_in_bounds almost_filled last_values almost_filled-IsWellFormed

write_all-Calls_example : Calls 3 last_values
write_all-Calls_example =
    write_all-Calls almost_filled finished last_values almost_filled-IsWellFormed last_values_taken
      (inr refl)

scratchpad-InMap : InMap 0x0f0003ff PimAccessType.sram
scratchpad-InMap = in_sram (omega arith, omega arith)

decode-InMap_example : (decode 0x0f0003ff).access_type ≡ PimAccessType.sram
decode-InMap_example = decode-InMap 0x0f0003ff PimAccessType.sram scratchpad-InMap

abbrev registers : Tclpim
registers = device_with (copy_register Fstate.done) (mul_register Fstate.running)

read-write_sram_example :
    (t' : Tclpim) × (write device 0x0f000010 8 eight ≡ ok t')
    × (read t' 0x0f000010 8 (replicate 8 0) ≡ ok eight)
    × ((j : ℕ)
        → get_or t'.sram j 0 ≡ (
            if leb (0x0f000010 % sram_size) j && ltb j (0x0f000010 % sram_size + 8)
            then get_or eight (j - 0x0f000010 % sram_size) 0
            else get_or device.sram j 0))
    × (t' ≡ record device { sram = t'.sram })
    × Fits t' 0x0f000010 8
read-write_sram_example =
    read-write_sram device 0x0f000010 eight (replicate 8 0)
      (record { from = omega arith; below = omega arith; room = omega arith; whole = refl }) refl
