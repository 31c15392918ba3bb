-- ===== src/Pimdef.antt =====
-- sstcomp/include/pimdef.h: the memory map and the enumerations of the PIM, and the
-- 64-bit arithmetic of its addresses.
use sst_pim.Prelude.{ℕ, ◌%◌, ◌^◌}

abbrev pub func_size : ℕ
func_size = 0x10

abbrev pub func_base : ℕ
func_base = 0x0e000000

abbrev pub usrfunc_base : ℕ
usrfunc_base = 0x0e000100

abbrev pub sram_size : ℕ
sram_size = 0x400

abbrev pub sram_base : ℕ
sram_base = 0x0f000000

abbrev pub dram_size : ℕ
dram_size = 0x00100000

abbrev pub dram_base : ℕ
dram_base = 0x0f800000

abbrev pub pim_type_test : ℕ
pim_type_test = 1

abbrev pub pim_type_reserve : ℕ
pim_type_reserve = 2

abbrev pub pim_type_tcl : ℕ
pim_type_tcl = 3

-- `SRAM_CMD`, which the application threads use for their requests.
pub data SramCmd : Type 0 where
  nop read write done : SramCmd

-- `FUNC_CMD` by value: INIT, RUN, FINISH.
abbrev pub func_cmd_init : ℕ
func_cmd_init = 0

abbrev pub func_cmd_run : ℕ
func_cmd_run = 1

abbrev pub func_cmd_finish : ℕ
func_cmd_finish = 2

-- `FUNC_NUM` by value: F0 to F7 are 0 to 7, U0 to U7 are 8 to 15.
abbrev pub func_num_f1 : ℕ
func_num_f1 = 1

abbrev pub func_num_u5 : ℕ
func_num_u5 = 13

abbrev pub num_func_params : ℕ
num_func_params = 8

-- `FSTATE`
pub data Fstate : Type 0 where
  invalid initializing ready running done : Fstate

-- The value of the enumerator, which a read of a function register returns.
unfoldable pub fstate_code : Fstate → ℕ
fstate_code Fstate.invalid = 0
fstate_code Fstate.initializing = 1
fstate_code Fstate.ready = 2
fstate_code Fstate.running = 3
fstate_code Fstate.done = 4

-- A sum of `uint64_t` wraps.
abbrev pub u64 : ℕ → ℕ
u64 n = n % 2 ^ 64

-- `static_cast<FUNC_CMD>` of a `uint64_t` keeps the low 32 bits, the width of the enumeration.
abbrev pub to_func_cmd : ℕ → ℕ
to_func_cmd d = d % 2 ^ 32
