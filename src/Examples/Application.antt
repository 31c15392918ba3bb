-- ===== src/Examples/Application.antt =====
-- The test application over a memory that has the identity of the PIM.
use sst_pim.Prelude.{ℕ, ◌+◌, ◌≡◌, refl, [], ◌∷◌, false, ◌==◌, if◌then◌else◌}
use sst_pim.Pimdef.{SramCmd, sram_base}
use sst_pim.Memory.{byte_array}
use sst_pim.AppGen.Sources.{app_send}
use sst_pim.AppGen.Link.{
  Thread, World, app, Reach, start, later, sends, app_move, gives_up, receive_timeout,
}
use sst_pim.AppGen.Link.Drain.{flight, stored}
use sst_pim.AppGen.Link.Sequential.{word, Follows, answers}
use sst_pim.AppGen.Link.Interleaving.{interleaving_refines}
use sst_pim.AppGen.Link.Progress.{CanEnd, Runs, application-CanEnd}
use sst_pim.AppGen.AppTest.{the_app, after_id, pim_id}
use sst_pim.AppGen.AppTest.Passes.{Passed, Written, the_app_passes}

-- The last byte of the identity is 3.
abbrev id_store : ℕ → ℕ
id_store a = if a == sram_base + 7 then 3 else 0

id_stored : word byte_array id_store sram_base ≡ pim_id
id_stored = refl

-- The world after the first `send`.
abbrev asked : World byte_array
asked = record {
  link = record {
    queue = record { cmd = SramCmd.read; address = sram_base; event_data = 0 } ∷ [];
    load_q = [];
    is_done = false;
    next_request = 0;
  };
  requests = record { elements = []; max_capacity = 16 };
  store = id_store;
  thread = Thread.poll receive_timeout after_id;
  timed_out = false;
}

asked_reached : Reach byte_array the_app id_store asked
unfolding the_app app_move sends app_send gives_up
asked_reached = later start (app refl)

interleaving_refines_example :
    Follows byte_array the_app id_store
      (Thread.poll receive_timeout after_id)
      (stored byte_array (flight asked.requests asked.link) id_store)
      (answers byte_array asked)
interleaving_refines_example = interleaving_refines byte_array asked asked_reached refl

application-CanEnd_example : CanEnd byte_array asked
application-CanEnd_example = application-CanEnd byte_array asked asked_reached refl

the_app_passes_example :
    Passed byte_array
      (Thread.poll receive_timeout after_id)
      (stored byte_array (flight asked.requests asked.link) id_store)
    × ((v : World byte_array) × Runs byte_array asked v
        × (v.thread ≡ Thread.halted)
        × Written byte_array 16 (stored byte_array (flight v.requests v.link) v.store))
the_app_passes_example = the_app_passes byte_array id_store asked id_stored asked_reached refl
