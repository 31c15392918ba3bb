-- ===== src/Controller.antt =====
-- sstcomp/PIMBackend/memoryControllerKG.h and memoryControllerKG.cc: the state of the memory
-- controller and the translation of addresses. The children hold the handlers: Receive.antt for
-- events that arrive, Respond.antt for responses of the memory, Bytes.antt for the accesses of custom
-- commands and Setup.antt for what runs before.
use sst_pim.Prelude.{
  ℕ, ◌+◌, ◌-◌, ◌*◌, ◌/◌, ◌%◌, ◌^◌, ◌==◌, ◌≡◌, Bool, List, [], ◌∷◌, Option, none, some,
  if◌then◌else◌,
}
use sst_pim.Pimdef.{u64}
use sst_pim.Event.{Command, MemEvent}
use sst_pim.Memory.{Backing}
use sst_pim.Backend.{PimBackend}
pub mod Translate
pub mod Receive
pub mod Respond
pub mod Dram
pub mod Answers
pub mod Setup
pub mod Start
pub mod Bytes

-- `MemRegion`: the range of addresses, and its interleaving.
pub record MemRegion : Type 0 where
  pub start : ℕ
  pub last : ℕ  -- `end`
  pub interleave_size : ℕ
  pub interleave_step : ℕ

-- What memHierarchy provides: the backing store, the test of a region, and the table that gives
-- the command of a response, with the entries that the code relies on.
pub record Platform : Type 1 where
  pub backing : Backing
  pub contains : MemRegion → ℕ → Bool
  pub response_command : Command → Command
  pub get_s_response : response_command Command.get_s ≡ Command.get_s_resp
  pub write_response : response_command Command.write ≡ Command.write_resp

-- A difference of `uint64_t` wraps.
abbrev pub sub64 : ℕ → ℕ → ℕ
sub64 a b = (a + 2 ^ 64 - b) % 2 ^ 64

-- `translateToLocal`; `offset` is `privateMemOffset_`.
unfoldable pub translate_to_local : MemRegion → ℕ → ℕ → ℕ
translate_to_local r offset a =
    let shift = sub64 a r.start in
    if r.interleave_size == 0
    then u64 (shift + offset)
    else u64 ((shift / r.interleave_step) * r.interleave_size + shift % r.interleave_step + offset)

-- `translateToGlobal`
unfoldable pub translate_to_global : MemRegion → ℕ → ℕ → ℕ
translate_to_global r offset a =
    let shift = sub64 a offset in
    if r.interleave_size == 0
    then u64 (shift + r.start)
    else let rest = shift % r.interleave_size in
      u64 (((shift - rest) / r.interleave_size) * r.interleave_step + rest + r.start)

-- `outstandingEvents_`, a `std::map`: an entry that is there stays.
unfoldable pub insert_event : ℕ → MemEvent → List (ℕ × MemEvent) → List (ℕ × MemEvent)
insert_event i e [] = (i, e) ∷ []
insert_event i e ((j, f) ∷ m) = if i == j then (j, f) ∷ m else (j, f) ∷ insert_event i e m

unfoldable pub find_event : ℕ → List (ℕ × MemEvent) → Option MemEvent
find_event i [] = none
find_event i ((j, f) ∷ m) = if i == j then some f else find_event i m

unfoldable pub erase_event : ℕ → List (ℕ × MemEvent) → List (ℕ × MemEvent)
erase_event i [] = []
erase_event i ((j, f) ∷ m) = if i == j then m else (j, f) ∷ erase_event i m

-- The members of the controller that its handlers use. `to_convertor` are the calls of
-- `memBackendConvertor_->handleMemEvent`, `sent` what went out by `link_->send`, both in order.
-- `has_backing` is `backing_ != nullptr`, `has_custom_handler` `customCommandHandler_ != nullptr`.
module _ (pf : Platform) where
  pub record Controller : Type 0 where
    pub backend : PimBackend
    pub region : MemRegion
    pub mem_size : ℕ
    pub private_mem_offset : ℕ
    pub has_backing : Bool
    pub has_custom_handler : Bool
    pub store : pf.backing.Store
    pub clock_on : Bool
    pub outstanding_events : List (ℕ × MemEvent)
    pub to_convertor : List MemEvent
    pub sent : List MemEvent
