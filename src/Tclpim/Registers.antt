-- ===== src/Tclpim/Registers.antt =====
-- The function registers as the host sees them (tclpim.cc, `read` and `write`).
use sst_pim.Prelude.{
  ℕ, ◌+◌, ◌*◌, ◌%◌, ◌^◌, ◌<◌, ◌≡◌, arith, List, length, ok, fault, null_pointer, to_bytes,
  of_bytes-to_bytes, length-to_bytes, refl, none, some, ◌>>=◌, overwrite_all, sym, ◌∙◌, ap,
}
use sst_pim.Pimdef.{func_base, usrfunc_base}
use sst_pim.Decoder.{PimAccessType, decode}
use sst_pim.FuncState.{FuncState, write_fsm, read_fsm}
use sst_pim.Tclpim.{
  Tclpim, lookup, update, decode_func_num, read_func, write_func, read_by_type, write_by_type, read,
  write,
}

-- The register of function `n`, 8 bytes each from the base on.
abbrev pub register : ℕ → ℕ
register n = func_base + 8 * n

decode-register : (n : ℕ) → n < 0x200000 → (decode (register n)).access_type ≡ PimAccessType.func
unfolding decode
decode-register n h = ground arith

decode_func_num-register : (n : ℕ) → decode_func_num (register n) 8 ≡ ok (n % 16)
unfolding decode_func_num
decode_func_num-register n = ground arith

-- The host's write of a 64-bit value to the register of an assigned function is one step of that
-- function's state machine on that value; a fault of the step is a fault of the write. Function
-- numbers count modulo 16 over the whole range of the registers.
pub write-register :
    (t : Tclpim) (n d : ℕ) (s : FuncState)
    → n < 0x200000
    → d < 2 ^ 64
    → lookup (n % 16) t.func_state ≡ some s
    → write t (register n) 8 (to_bytes 8 d)
      ≡ (write_fsm s d >>= λ s'. ok (record t { func_state = update (n % 16) s' t.func_state }))
unfolding write write_by_type write_func
write-register t n d s h k l =
    rw (decode-register n h, decode_func_num-register n) (rw (l, of_bytes-to_bytes 8 d k))

-- The host's read of the register returns the code of the state, in 64 bits.
pub read-register :
    (t : Tclpim) (n : ℕ) (s : FuncState) (buffer : List ℕ)
    → n < 0x200000
    → length buffer ≡ 8
    → lookup (n % 16) t.func_state ≡ some s
    → read t (register n) 8 buffer ≡ ok (to_bytes 8 (read_fsm s))
unfolding read read_by_type read_func
read-register t n s buffer h k l =
    rw (decode-register n h, decode_func_num-register n)
      (rw (l, k)
        (ap ok (
          overwrite_all (to_bytes 8 (read_fsm s)) buffer (length-to_bytes 8 (read_fsm s) ∙ sym k))))

-- Without a function behind it, a register is no error value but a null pointer, on every 8-byte
-- access of the host.
pub register_unassigned :
    (t : Tclpim) (n d : ℕ) (buffer : List ℕ)
    → n < 0x200000
    → lookup (n % 16) t.func_state ≡ none
    → (write t (register n) 8 (to_bytes 8 d) ≡ fault null_pointer)
      × (read t (register n) 8 buffer ≡ fault null_pointer)
unfolding write write_by_type write_func read read_by_type read_func
register_unassigned t n d buffer h l = (
  rw (decode-register n h, decode_func_num-register n) (rw l),
  rw (decode-register n h, decode_func_num-register n) (rw l),
)

user_register : (k : ℕ) → usrfunc_base + 8 * k ≡ register (k + 32)
user_register k = omega arith

same_number : (k : ℕ) → (k + 32) % 16 ≡ k % 16
same_number k = omega arith

-- The range that the memory map gives to user functions is that of the built-in functions again:
-- both name the same registers.
pub user_registers_alias :
    (t : Tclpim) (k : ℕ) (payload : List ℕ)
    → k < 16
    → (read t (usrfunc_base + 8 * k) 8 payload ≡ read t (register k) 8 payload)
      × (write t (usrfunc_base + 8 * k) 8 payload ≡ write t (register k) 8 payload)
unfolding write write_by_type write_func read read_by_type read_func
user_registers_alias t k payload h =
    rw
      (
        user_register k,
        decode-register (k + 32) (omega arith),
        decode_func_num-register (k + 32),
        decode-register k (omega arith),
        decode_func_num-register k,
        same_number k,
      )
      (refl, refl)
