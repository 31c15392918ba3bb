-- ===== src/Examples/Calls.antt =====
-- Calls of the two functions by a host.
use sst_pim.Prelude.{◌≡◌, ◌≤◌, List, [], ◌∷◌, false, refl, arith, inl, inr, ok}
use sst_pim.Pimdef.{Fstate}
use sst_pim.Tclpim.{Tclpim}
use sst_pim.Fsm.{started_mem_copy, started_mul_vec, start_mem_copy, start_mul_vec, is_func_address}
use sst_pim.Decoder.{decode}
use sst_pim.FuncState.{is_running}
use sst_pim.Memory.{byte_array}
use sst_pim.MemCopy.Transfer.{cycles}
use sst_pim.Schedule.{Move, rounds}
use sst_pim.Device.Session.{TakesCopy, TakesMul}
use sst_pim.Device.PatientCopy.{Copies, patient_copy_session}
use sst_pim.Device.PatientMul.{Scales, patient_mul_session}
use sst_pim.Device.Calls.{AreWords}
use sst_pim.Examples.Functions.{copy_params, mul_params, copy_source, copy_target}
use sst_pim.Examples.Data.{
  zeros, copy_register, mul_register, device_with, waiting_copy, waiting_mul,
}

abbrev host_device : Tclpim
host_device = device_with (copy_register Fstate.done) (mul_register Fstate.invalid)

takes_copy :
    TakesCopy host_device (copy_register Fstate.done) (mul_register Fstate.invalid) waiting_copy
unfolding is_running
takes_copy = record {
  installed = refl;
  closed = inr refl;
  well_formed = record { eight = refl; inside = inl (ground arith) };
  object = refl;
  alone = refl;
  none_issued = refl;
  whole = refl;
}

takes_mul :
    TakesMul host_device (copy_register Fstate.done) (mul_register Fstate.invalid) waiting_mul
unfolding is_running
takes_mul = record {
  installed = refl;
  closed = inl refl;
  well_formed = record { eight = refl; inside = inl (ground arith) };
  object = refl;
  alone = refl;
  none_issued = refl;
}

copy_words : AreWords copy_params
copy_words = ground arith

mul_words : AreWords mul_params
mul_words = ground arith

copy_accepted : start_mem_copy waiting_copy copy_params ≡ ok (started_mem_copy copy_params)
unfolding start_mem_copy is_func_address decode
copy_accepted = refl

mul_accepted : start_mul_vec waiting_mul mul_params ≡ ok (started_mul_vec mul_params)
unfolding start_mul_vec
mul_accepted = refl

-- The memory takes its time: three answers, each some clocks after its request, and one too many.
abbrev slow : List Move
slow =
    Move.tick ∷ Move.tick ∷ Move.reply ∷ Move.tick ∷ Move.reply ∷ Move.reply ∷ Move.tick ∷ Move.tick
    ∷ Move.reply ∷ []

slow-rounds : cycles 1 ≤ rounds false slow
unfolding rounds
slow-rounds = omega arith

patient_copy_session_example :
    Copies byte_array slow host_device zeros
      (copy_register Fstate.done)
      (mul_register Fstate.invalid)
      copy_params
patient_copy_session_example =
    patient_copy_session byte_array slow 1 host_device zeros (copy_register Fstate.done)
      (mul_register Fstate.invalid) waiting_copy (started_mem_copy copy_params) copy_params
      slow-rounds takes_copy copy_words refl copy_accepted (omega arith) (omega arith) copy_source
      copy_target (inl (omega arith))

patient_mul_session_example :
    Scales byte_array slow host_device zeros
      (copy_register Fstate.done)
      (mul_register Fstate.invalid)
      mul_params
patient_mul_session_example =
    patient_mul_session byte_array slow 1 host_device zeros (copy_register Fstate.done)
      (mul_register Fstate.invalid) waiting_mul (started_mul_vec mul_params) mul_params slow-rounds
      takes_mul mul_words refl mul_accepted (omega arith) (omega arith) (omega arith) (omega arith)
      (inr (omega arith))
