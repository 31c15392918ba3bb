-- ===== src/Event.antt =====
-- The memory events that the backend and the controller pass to each other. The class is
-- memHierarchy's (sstcomp/PIMBackend/memHierarchy holds copies of its headers); the record has the
-- members that the modelled code reads or writes.
use sst_pim.Prelude.{ℕ, Bool, true, false, List, length}

-- The commands that the code names; `other` is any other command.
pub data Command : Type 0 where
  null_cmd get_s get_x get_sx write put_m put_s put_e flush_line flush_line_inv : Command
  get_s_resp get_x_resp write_resp flush_line_resp custom_req other : Command

-- The flag word: the flags of `MemEventBase` that the code reads, the three of `PIMMemEvent`
-- (memoryControllerKG.h), and the bits that it never reads.
pub record Flags : Type 0 where
  pub noncacheable : Bool
  pub noresponse : Bool
  pub pim : Bool
  pub mmio : Bool
  pub remote : Bool
  pub rest : ℕ

abbrev pub no_flags : Flags
no_flags = record {
  noncacheable = false;
  noresponse = false;
  pim = false;
  mmio = false;
  remote = false;
  rest = 0;
}

pub record MemEvent : Type 0 where
  pub id : ℕ
  pub cmd : Command
  pub addr : ℕ
  pub base_addr : ℕ
  pub addr_global : Bool
  pub size : ℕ
  pub payload : List ℕ
  pub flags : Flags

-- `new MemEvent(src, addr, base, cmd, data)`: a global address, and the size of the data.
abbrev pub mem_event : ℕ → Command → ℕ → ℕ → List ℕ → Flags → MemEvent
mem_event i c a base data_vec f = record {
  id = i;
  cmd = c;
  addr = a;
  base_addr = base;
  addr_global = true;
  size = length data_vec;
  payload = data_vec;
  flags = f;
}

-- `setPayload`
abbrev pub set_payload : MemEvent → List ℕ → MemEvent
set_payload e d = record e { payload = d; size = length d }
