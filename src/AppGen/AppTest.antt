-- ===== src/AppGen/AppTest.antt =====
-- appTest.cc, the test application: it reads the identity of the PIM, writes 16 words and reads
-- them back. An error code of `receive` leaves the buffer as it was.
use sst_pim.Prelude.{ℕ, zero, suc, ◌+◌, ◌*◌, ◌^◌, ◌%◌, ◌==◌, Option, none, some, if◌then◌else◌}
use sst_pim.Pimdef.{sram_base, pim_type_tcl, u64}
use sst_pim.AppGen.Link.{Program}
pub mod Passes

abbrev pub first_addr : ℕ
first_addr = 0x20000

-- `(addr << 16) + 0xaced`
abbrev pub test_data : ℕ → ℕ
test_data a = u64 (a * 2 ^ 16 + 0xaced)

-- `readBuf` after a `receive`.
abbrev pub read_buf : Option ℕ → ℕ → ℕ
read_buf none old = old
read_buf (some d) old = d

-- The second loop, with the rounds that are left.
unfoldable pub check_loop : ℕ → ℕ → ℕ → Program
check_loop zero a old = Program.finished
check_loop (suc n) a old = Program.read a λ v.
    let d = read_buf v old in
    let rest = check_loop n (a + 8) d in if d == test_data a then rest else Program.fatal

-- The first loop.
unfoldable pub write_loop : ℕ → ℕ → Program → Program
write_loop zero a rest = rest
write_loop (suc n) a rest = Program.write a (test_data a) (write_loop n (a + 8) rest)

-- `(uint64_t)PIM_TYPE_TCL << 56`
abbrev pub pim_id : ℕ
pim_id = pim_type_tcl * 2 ^ 56

unfoldable pub after_id : Option ℕ → Program
unfolding check_loop write_loop
after_id none = Program.fatal
after_id (some d) =
    if d == pim_id then write_loop 16 first_addr (check_loop 16 first_addr d) else Program.fatal

-- `theApp`
unfoldable pub the_app : Program
unfolding after_id
the_app = Program.read sram_base after_id
