-- ===== src/Tclpim/Scratchpad.antt =====
-- The scratchpad as the host and the functions see it (tclpim.cc, `read` and `write`).
use sst_pim.Prelude.{
  ℕ, ◌+◌, ◌%◌, ◌≤◌, ◌<◌, ◌≡◌, arith, List, length, take, drop, get_or, ok, overwrite, overwrite_at,
  take-drop-overwrite_at, length-overwrite_at, take-all, refl, sym, ◌∙◌, get_or-overwrite_at, leb,
  ltb, ◌&&◌, ◌-◌, if◌then◌else◌, overwrite_all, ap,
}
use sst_pim.Pimdef.{sram_size, sram_base, dram_base}
use sst_pim.Decoder.{PimAccessType, decode}
use sst_pim.Decoder.Ranges.{decode_sram}
use sst_pim.Tclpim.{
  Tclpim, sram_offset, read_sram, write_sram, read_by_type, write_by_type, read, write,
}

pub sram_offset_lem : (a : ℕ) → sram_offset a ≡ a % sram_size
unfolding sram_offset
sram_offset_lem a = omega arith

-- An address in the scratchpad's range, where `n` bytes fit before the next multiple of its size.
pub record Fits (t : Tclpim) (a n : ℕ) : Type 0 where
  pub from : sram_base ≤ a
  pub below : a < dram_base
  pub room : a % sram_size + n ≤ sram_size
  pub whole : length t.sram ≡ sram_size

decode-Fits : {t : Tclpim} {a n : ℕ} → Fits t a n → (decode a).access_type ≡ PimAccessType.sram
decode-Fits {a = a} f = decode_sram a f.from f.below

pub write_sram_lem :
    (t : Tclpim) (a n : ℕ) (payload : List ℕ)
    → Fits t a n
    → n ≡ length payload
    → write t a n payload ≡ ok (record t { sram = overwrite_at (a % sram_size) payload t.sram })
unfolding write write_by_type write_sram
write_sram_lem t a n payload f e =
    rw (decode-Fits f, sram_offset_lem a, take-all payload n e) (ground arith)

pub read_sram_lem :
    (t : Tclpim) (a n : ℕ) (buffer : List ℕ)
    → Fits t a n
    → n ≤ length buffer
    → read t a n buffer ≡ ok (overwrite (take n (drop (a % sram_size) t.sram)) buffer)
unfolding read read_by_type read_sram
read_sram_lem t a n buffer f e = rw (decode-Fits f, sram_offset_lem a) (ground arith)

-- A write of some bytes to the scratchpad succeeds where they fit, a read of the same range then
-- returns those bytes, every byte outside the range is as before, and so is the rest of the device.
pub read-write_sram :
    (t : Tclpim) (a : ℕ) (payload buffer : List ℕ)
    → Fits t a (length payload)
    → length buffer ≡ length payload
    → (t' : Tclpim) × (write t a (length payload) payload ≡ ok t')
      × (read t' a (length payload) buffer ≡ ok payload)
      × ((j : ℕ)
          → get_or t'.sram j 0 ≡ (
              if leb (a % sram_size) j && ltb j (a % sram_size + length payload)
              then get_or payload (j - a % sram_size) 0
              else get_or t.sram j 0))
      × (t' ≡ record t { sram = t'.sram })
      × Fits t' a (length payload)
read-write_sram t a payload buffer f l =
    (t', write_sram_lem t a _ payload f refl, back, other, refl, fits)
  where
    t' : Tclpim
    t' = record t { sram = overwrite_at (a % sram_size) payload t.sram }

    fits : Fits t' a (length payload)
    fits = record {
      from = f.from;
      below = f.below;
      room = f.room;
      whole = length-overwrite_at (a % sram_size) payload t.sram ∙ f.whole;
    }

    back : read t' a (length payload) buffer ≡ ok payload
    back = rw (read_sram_lem t' a (length payload) buffer fits (omega arith)) (
        ap ok (
          rw (take-drop-overwrite_at (a % sram_size) payload t.sram (omega arith))
            (overwrite_all payload buffer (sym l))))

    other :
        (j : ℕ)
        → get_or t'.sram j 0 ≡ (
            if leb (a % sram_size) j && ltb j (a % sram_size + length payload)
            then get_or payload (j - a % sram_size) 0
            else get_or t.sram j 0)
    other j = get_or-overwrite_at (a % sram_size) payload t.sram j 0 (omega arith)
