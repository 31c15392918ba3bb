-- ===== src/Examples/Memory.antt =====
-- The controller: events that arrive, responses, translations and requests of the device.
use sst_pim.Prelude.{
  replicate, overwrite_at, ◌≡◌, refl, arith, true, false, [], ◌∷◌, ◌++◌, some, ok, inl, inr, ◌>>=◌,
}
use sst_pim.Event.{Command, MemEvent, no_flags}
use sst_pim.Pimdef.{Fstate, func_num_f1}
use sst_pim.Fsm.{DmaState, mem_copy}
use sst_pim.MemCopy.{complete_write}
use sst_pim.Tclpim.{lookup, update, Tclpim, write, read, DramRequest, copy_read, copy_write}
use sst_pim.Device
use sst_pim.Backend.{PimBackend, issue_dram_request}
use sst_pim.Controller.{
  Controller, find_event, erase_event, translate_to_local, translate_to_global,
}
use sst_pim.Controller.Bytes.{write_bytes, read_bytes, bytes_are_block}
use sst_pim.Controller.Translate.{to_global-to_local}
use sst_pim.Controller.Receive.{handle_event, handle_pim_event, to_local}
use sst_pim.Controller.Receive.Routing.{IsServed, marked, is_access, handle_event-access}
use sst_pim.Controller.Respond.{handle_mem_response, set_global}
use sst_pim.Controller.Respond.Data.{write_then_read}
use sst_pim.Controller.Respond.Registers.{IsOpen, mmio_write_response, mmio_read_response}
use sst_pim.Decoder.{decode}
use sst_pim.Controller.Answers.{Answered, answer-Answered}
use sst_pim.Device.Board
use sst_pim.Controller.Dram.{IsReady, device_read, device_write}
use sst_pim.Memory.{byte_array}
use sst_pim.Examples.Data.{
  zeros, device, backend, register_in, mul_register, device_with, waiting_copy, event, eight,
  platform, region, interleaved_region, controller,
}

to_global-to_local_example :
    translate_to_global interleaved_region 0x10 (translate_to_local interleaved_region 0x10 0x1120)
    ≡ 0x1120
to_global-to_local_example = to_global-to_local interleaved_region 0x10 0x1120 (record {
  from = omega arith;
  fits = omega arith;
  chunk = inr (omega arith);
  step = inr (omega arith);
})

abbrev mmio_store : MemEvent
mmio_store = event 3 Command.write 0x0e000008 eight

mmio_store-IsServed : IsServed platform controller mmio_store
unfolding is_access find_event
mmio_store-IsServed = record {
  access = refl;
  fresh = refl;
  uncached = inr (inr refl);
  own = inl refl;
}

handle_event-access_example :
    (c' : Controller platform) × (handle_event platform controller mmio_store ≡ ok c')
    × (c'.to_convertor
        ≡ controller.to_convertor ++ (to_local platform controller (marked mmio_store) ∷ []))
    × (find_event 3 c'.outstanding_events ≡ some (to_local platform controller (marked mmio_store)))
    × (c'.clock_on ≡ true)
    × (c'.backend ≡ controller.backend)
    × (c'.store ≡ controller.store)
    × (c'.sent ≡ controller.sent)
handle_event-access_example = handle_event-access platform controller mmio_store mmio_store-IsServed

abbrev host_write : MemEvent
host_write = event 3 Command.write 0x2000 eight

abbrev host_read : MemEvent
host_read = event 4 Command.get_s 0x2000 (0 ∷ 0 ∷ 0 ∷ 0 ∷ 0 ∷ 0 ∷ 0 ∷ 0 ∷ [])

abbrev two_outstanding : Controller platform
two_outstanding = record controller { outstanding_events = (3, host_write) ∷ (4, host_read) ∷ [] }

write_found : find_event 3 two_outstanding.outstanding_events ≡ some host_write
unfolding find_event
write_found = refl

read_found : find_event 4 (erase_event 3 two_outstanding.outstanding_events) ≡ some host_read
unfolding find_event erase_event
read_found = refl

write_then_read_example :
    (c1 : Controller platform) × (handle_mem_response platform two_outstanding 3 no_flags ≡ ok c1)
    × ((c2 : Controller platform) × (handle_mem_response platform c1 4 no_flags ≡ ok c2)
        × (c2.sent
            ≡ (two_outstanding.sent
                ++ (set_global platform two_outstanding host_write
                      (record host_write { cmd = Command.write_resp; flags = no_flags })
                    ∷ []))
              ++ (set_global platform two_outstanding host_read (record host_read {
                cmd = Command.get_s_resp;
                flags = no_flags;
                payload = eight;
                size = 8;
              })
                  ∷ []))
        × (c2.outstanding_events
            ≡ erase_event 4 (erase_event 3 two_outstanding.outstanding_events)))
write_then_read_example =
    write_then_read platform two_outstanding host_write host_read 3 4 no_flags no_flags
      (record {
        backed = refl;
        sized = refl;
        is_write = refl;
        is_read = refl;
        ordinary = (refl, refl);
        host = (refl, refl);
        answered = (refl, refl);
        uncached = refl;
        same = (refl, refl);
      })
      write_found read_found

abbrev read_request : DramRequest
read_request = record {
  address = 0x2000;
  payload = eight;
  is_write = false;
  completion = copy_read DmaState.write;
}

abbrev write_request : DramRequest
write_request = record {
  address = 0x2000;
  payload = eight;
  is_write = true;
  completion = copy_write DmaState.done;
}

read-IsReady : IsReady platform controller device read_request
unfolding find_event
read-IsReady = record {
  backed = refl;
  own = refl;
  unused = refl;
  one_node = refl;
  tested = refl;
  device = refl;
  below = tt;
}

write-IsReady : IsReady platform controller device write_request
unfolding find_event
write-IsReady = record {
  backed = refl;
  own = refl;
  unused = refl;
  one_node = refl;
  tested = refl;
  device = refl;
  below = tt;
}

device_read_example :
    (b : PimBackend) × (issue_dram_request controller.backend read_request ≡ ok b)
    × ((e : MemEvent) × (b.injected ≡ controller.backend.injected ++ (e ∷ []))
        × ((c1 : Controller platform) × (handle_pim_event platform
                (record controller { backend = b })
                e
              ≡ ok c1)
            × (handle_mem_response platform c1 e.id no_flags ≡ (
                Device.complete
                  (copy_read DmaState.write)
                  (byte_array.get controller.store (translate_to_local region 0 0x2000) 8)
                  device
                >>= λ t'. ok (record c1 {
                  outstanding_events = [];
                  store = controller.store;
                  backend = record b { pimsim = some t'; pending_pim_events = [] };
                })))))
device_read_example = device_read platform controller device read_request no_flags read-IsReady refl

device_write_example :
    (b : PimBackend) × (issue_dram_request controller.backend write_request ≡ ok b)
    × ((e : MemEvent) × (b.injected ≡ controller.backend.injected ++ (e ∷ []))
        × ((c1 : Controller platform) × (handle_pim_event platform
                (record controller { backend = b })
                e
              ≡ ok c1)
            × (handle_mem_response platform c1 e.id no_flags ≡ (
                Device.complete (copy_write DmaState.done) eight device >>= λ t'. ok (record c1 {
                  outstanding_events = [];
                  store =
                      byte_array.set controller.store (translate_to_local region 0 0x2000) eight;
                  backend = record b { pimsim = some t'; pending_pim_events = [] };
                })))))
device_write_example =
    device_write platform controller device write_request no_flags write-IsReady refl

-- A memory from address 0 on, with a device whose copy waits for its write.
abbrev copying : DmaState → Tclpim
copying d =
    device_with
      (register_in func_num_f1 Fstate.running (mem_copy (record waiting_copy { dma_state = d })))
      (mul_register Fstate.invalid)

abbrev flat : Controller platform
flat = record controller {
  backend = record backend { pimsim = some (copying DmaState.waiting) };
  region = record region { start = 0 };
}

flat-IsReady : IsReady platform flat (copying DmaState.waiting) write_request
unfolding find_event
flat-IsReady = record {
  backed = refl;
  own = refl;
  unused = refl;
  one_node = refl;
  tested = refl;
  device = refl;
  below = tt;
}

flat_local : translate_to_local flat.region 0 0x2000 ≡ 0x2000
unfolding translate_to_local
flat_local = refl

abbrev written_board : Board.Board byte_array
written_board = record { device = copying DmaState.done; store = byte_array.set zeros 0x2000 eight }

board_answers :
    Board.answer byte_array write_request
      (record { device = copying DmaState.waiting; store = zeros })
    ≡ ok written_board
unfolding Board.answer Device.complete lookup complete_write update
board_answers = refl

answer-Answered_example :
    (c2 : Controller platform) × Answered platform flat write_request no_flags c2
    × (c2.backend.pimsim ≡ some (copying DmaState.done))
    × (c2.store ≡ byte_array.set zeros 0x2000 eight)
    × (c2.outstanding_events ≡ [])
    × (c2.backend.pending_pim_events ≡ [])
answer-Answered_example =
    answer-Answered platform flat (copying DmaState.waiting) write_request no_flags written_board
      flat-IsReady flat_local board_answers

bytes_are_block_example :
    (byte_array.byte (write_bytes platform controller 0x2000 (1 ∷ 2 ∷ 3 ∷ [])).store 0x2001
      ≡ byte_array.byte (byte_array.set zeros 0x2000 (1 ∷ 2 ∷ 3 ∷ [])) 0x2001)
    × (read_bytes platform controller 0x2000 4 ≡ byte_array.get zeros 0x2000 4)
bytes_are_block_example =
    bytes_are_block platform controller 0x2000 4 0x2001 (1 ∷ 2 ∷ 3 ∷ []) refl (omega arith)
      (omega arith)

-- A host's write and read of the scratchpad, with their local addresses.
abbrev scratch_write : MemEvent
scratch_write = record (event 3 Command.write 0x0efff010 eight) {
  flags = record no_flags { noncacheable = true; mmio = true };
}

abbrev scratch_read : MemEvent
scratch_read = record (event 4 Command.get_s 0x0efff010 eight) {
  flags = record no_flags { noncacheable = true; mmio = true };
}

abbrev two_accesses : Controller platform
two_accesses = record controller {
  outstanding_events = (3, scratch_write) ∷ (4, scratch_read) ∷ [];
}

write-IsOpen : IsOpen platform two_accesses 3 scratch_write
unfolding find_event
write-IsOpen = record {
  found = refl;
  global = refl;
  mmio = refl;
  from_host = refl;
  answered = refl;
}

read-IsOpen : IsOpen platform two_accesses 4 scratch_read
unfolding find_event
read-IsOpen = record { found = refl; global = refl; mmio = refl; from_host = refl; answered = refl }

abbrev written_device : Tclpim
written_device = record device { sram = overwrite_at 16 eight (replicate 1024 0) }

device_written : write device (translate_to_global region 0 0x0efff010) 8 eight ≡ ok written_device
unfolding write decode translate_to_global
device_written = refl

device_reads :
    read device (translate_to_global region 0 0x0efff010) 8 (replicate 8 0) ≡ ok (replicate 8 0)
unfolding read decode translate_to_global
device_reads = refl

mmio_write_response_example :
    (c' : Controller platform) × (resp : MemEvent) × (handle_mem_response platform two_accesses 3
        no_flags
      ≡ ok c')
    × (c'.backend.pimsim ≡ some written_device)
    × (c'.store ≡ zeros)
    × (c'.outstanding_events ≡ erase_event 3 two_accesses.outstanding_events)
    × (c'.sent ≡ [] ++ (resp ∷ []))
    × (resp.cmd ≡ Command.write_resp)
    × (resp.addr ≡ translate_to_global region 0 (translate_to_global region 0 0x0efff010))
mmio_write_response_example =
    mmio_write_response platform two_accesses 3 scratch_write no_flags device written_device
      write-IsOpen refl refl refl refl device_written

mmio_read_response_example :
    (resp : MemEvent) × (handle_mem_response platform two_accesses 4 no_flags
      ≡ ok (record two_accesses {
        backend = record two_accesses.backend { buffer = replicate 8 0 };
        outstanding_events = erase_event 4 two_accesses.outstanding_events;
        sent = [] ++ (resp ∷ []);
      }))
    × (resp.cmd ≡ Command.get_s_resp)
    × (resp.payload ≡ replicate 8 0)
    × (resp.addr ≡ translate_to_global region 0 0x0efff010)
mmio_read_response_example =
    mmio_read_response platform two_accesses 4 scratch_read no_flags device (replicate 8 0)
      read-IsOpen refl refl refl device_reads
