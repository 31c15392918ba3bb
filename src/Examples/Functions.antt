-- ===== src/Examples/Functions.antt =====
-- Runs of the two functions, and clocks of the device.
use sst_pim.Prelude.{
  ℕ, ◌≡◌, refl, arith, inl, List, [], ◌∷◌, ok, fault, assertion, false, replicate,
}
use sst_pim.Pimdef.{Fstate, sram_base}
use sst_pim.Fsm.{DmaState, new_mem_copy, start_mem_copy, is_sram_address}
use sst_pim.Decoder.{decode}
use sst_pim.Tclpim.{Tclpim, copy_read}
use sst_pim.Memory.{byte_array}
use sst_pim.MemCopy.Machine.{drive}
use sst_pim.MemCopy.Chunks.{Placed}
use sst_pim.MemCopy.Zero.{mem_copy_zero_hangs}
use sst_pim.Device.{clock, complete}
use sst_pim.Device.Sharing.{shared_buffer_fault}
use sst_pim.Examples.Data.{
  device, zeros, copy_register, mul_register, device_with, waiting_copy, waiting_mul,
}

abbrev pub copy_params : List ℕ
copy_params = 0x10000 ∷ sram_base ∷ 16 ∷ 0 ∷ 0 ∷ 0 ∷ 0 ∷ 0 ∷ []

pub copy_source : Placed (is_sram_address sram_base) sram_base 16
unfolding is_sram_address decode
copy_source = (omega arith, omega arith)

pub copy_target : Placed (is_sram_address 0x10000) 0x10000 16
unfolding is_sram_address decode
copy_target = (inl (omega arith), omega arith)

abbrev pub mul_params : List ℕ
mul_params = 0x20000 ∷ 0x10000 ∷ 3 ∷ 16 ∷ 0 ∷ 0 ∷ 0 ∷ 0 ∷ []

abbrev no_params : List ℕ
no_params = replicate 8 0

zero_started : start_mem_copy new_mem_copy no_params ≡ ok new_mem_copy
unfolding start_mem_copy
zero_started = refl

new_idle : new_mem_copy.dma_state ≡ DmaState.idle
unfolding new_mem_copy
new_idle = refl

mem_copy_zero_hangs_example :
    (d' : Tclpim) × (drive byte_array 9
        (record { device = device; copy = new_mem_copy; store = zeros })
      ≡ ok (record { device = d'; copy = new_mem_copy; store = zeros }, false))
mem_copy_zero_hangs_example =
    mem_copy_zero_hangs byte_array 9 device zeros new_mem_copy new_mem_copy no_params new_idle
      zero_started refl refl

abbrev both_run : Tclpim
both_run = device_with (copy_register Fstate.running) (mul_register Fstate.running)

shared_buffer_fault_example :
    (t' : Tclpim) × (clock 12 both_run ≡ ok (t', false))
    × (complete (copy_read DmaState.write) (replicate 32 0) t' ≡ fault assertion)
shared_buffer_fault_example =
    shared_buffer_fault 12 both_run (copy_register Fstate.running) (mul_register Fstate.running)
      waiting_copy waiting_mul DmaState.write (replicate 32 0) refl refl refl refl refl refl
      (inl refl) (omega arith)
