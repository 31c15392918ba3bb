-- ===== src/Controller/Start/Interleaved.antt =====
-- adjustRegionToMemSize (memoryControllerKG.cc) on a region with interleaving.
use sst_pim.Prelude.{
  ℕ, ◌+◌, ◌-◌, ◌*◌, ◌/◌, ◌%◌, ◌^◌, ◌==◌, false, ◌≡◌, ◌≤◌, ◌<◌, refl, ◌∙◌, arith, Bool-cases, inl,
  inr, ltb, ltb→lt, ltb→le,
}
use sst_pim.Pimdef.{u64}
use sst_pim.Controller.{MemRegion, translate_to_local}
use sst_pim.Controller.Translate.{Owns}
use sst_pim.Controller.Setup.{region_size, adjust_region}

-- The bytes of the whole steps of a region with interleaving, which the code compares with the size
-- of the memory. A part of a step at the end is not counted.
abbrev pub chunk_bytes : MemRegion → ℕ
chunk_bytes r = region_size r / r.interleave_step * r.interleave_size

-- The region starts and ends in the address space, and its chunks are no larger than its step.
pub record IsInterleaved (r : MemRegion) : Type 0 where
  pub size : 0 < r.interleave_size
  pub step : r.interleave_size ≤ r.interleave_step
  pub from : r.start ≤ r.last
  pub space : r.last < 2 ^ 64 - 1

region_size_lem : (r : MemRegion) → IsInterleaved r → region_size r ≡ r.last + 1 - r.start
unfolding region_size
region_size_lem r w = ground arith

le_mul : (q s t : ℕ) → s ≤ t → q * s ≤ q * t
le_mul q s t h = grind arith

le_mul' : (k q t : ℕ) → k ≤ q → k * t ≤ q * t
le_mul' k q t h = grind arith

div_mul_le : (n t : ℕ) → n / t * t ≤ n
div_mul_le n t = grind arith

mul_div_self : (k t : ℕ) → 0 < t → k * t / t ≡ k
mul_div_self k t h = grind arith

div_positive : (n t : ℕ) → 0 < t → t ≤ n → 1 ≤ n / t
div_positive n t h l = grind arith

small : (a : ℕ) → a < 2 ^ 64 → u64 a ≡ a
small a h = omega arith

cancel_mul : (k q s : ℕ) → k * s < q * s → k < q
cancel_mul k q s h = elim (Bool-cases (ltb k q)) [
  | inl t ↦ ltb→lt k q t
  | inr t ↦ absurd (let le = le_mul' q k s (ltb→le k q t) in omega (arith, h, le))
]

-- This number does not wrap.
chunk_bytes_le : (r : MemRegion) → IsInterleaved r → chunk_bytes r ≤ r.last + 1 - r.start
chunk_bytes_le r w =
    let n : ℕ = r.last + 1 - r.start in
    rw (region_size_lem r w) (
      let a = le_mul (n / r.interleave_step) r.interleave_size r.interleave_step w.step in
      let b = div_mul_le n r.interleave_step in omega (arith, a, b))

-- A region whose whole steps fit into the memory stays as it is.
adjust-fitting :
    (r : MemRegion) (mem_size : ℕ)
    → IsInterleaved r
    → chunk_bytes r ≤ mem_size
    → adjust_region r mem_size ≡ r
unfolding adjust_region
adjust-fitting r mem_size w h =
    let a = chunk_bytes_le r w in
    let b : u64 (chunk_bytes r) ≡ chunk_bytes r =
      small (chunk_bytes r) (omega (arith, a, w.space)) in
    ground (arith, a, b)

-- The cut region.
abbrev cut : MemRegion → ℕ → MemRegion
cut r mem_size = record r { last = r.start + mem_size / r.interleave_size * r.interleave_step - 1 }

-- What cutting gives to a region that is too large for the memory.
record IsCut (r : MemRegion) (mem_size : ℕ) : Type 0 where
  nonempty : 1 ≤ mem_size / r.interleave_size * r.interleave_step
  shorter : r.start + mem_size / r.interleave_size * r.interleave_step ≤ r.last + 1

too_large-IsCut :
    (r : MemRegion) (mem_size : ℕ)
    → IsInterleaved r
    → r.interleave_size ≤ mem_size
    → mem_size < chunk_bytes r
    → IsCut r mem_size
too_large-IsCut r mem_size w m h =
    let s : ℕ = r.interleave_size in
    let t : ℕ = r.interleave_step in
    let k : ℕ = mem_size / s in
    let q : ℕ = region_size r / t in
    let below : k < q = cancel_mul k q s (let a = div_mul_le mem_size s in omega (arith, a, h)) in
    let one = div_positive mem_size s w.size m in
    let a = le_mul' k q t (omega (arith, below)) in
    let b = div_mul_le (region_size r) t in
    let c = le_mul' 1 k t one in
    let e = region_size_lem r w in
    record { nonempty = omega (arith, c, w.size, w.step); shorter = omega (arith, a, b, e, w.from) }

adjust-cut :
    (r : MemRegion) (mem_size : ℕ)
    → IsInterleaved r
    → IsCut r mem_size
    → mem_size < chunk_bytes r
    → adjust_region r mem_size ≡ cut r mem_size
unfolding adjust_region
adjust-cut r mem_size w i h =
    let a = chunk_bytes_le r w in
    let b : u64 (chunk_bytes r) ≡ chunk_bytes r =
      small (chunk_bytes r) (omega (arith, a, w.space)) in
    ground (arith, a, b, i.nonempty, i.shorter)

cut-IsInterleaved :
    (r : MemRegion) (mem_size : ℕ)
    → IsInterleaved r
    → IsCut r mem_size
    → IsInterleaved (cut r mem_size)
cut-IsInterleaved r mem_size w i =
    let n = i.nonempty in
    let l = i.shorter in
    record {
      size = w.size;
      step = w.step;
      from = omega (arith, n, l);
      space = omega (arith, n, l, w.space);
    }

chunk_bytes-cut :
    (r : MemRegion) (mem_size : ℕ)
    → IsInterleaved r
    → IsCut r mem_size
    → chunk_bytes (cut r mem_size) ≤ mem_size
chunk_bytes-cut r mem_size w i =
    let s : ℕ = r.interleave_size in
    let t : ℕ = r.interleave_step in
    let k : ℕ = mem_size / s in
    let n = i.nonempty in
    let e : region_size (cut r mem_size) ≡ k * t =
      region_size_lem (cut r mem_size) (cut-IsInterleaved r mem_size w i) ∙ omega (arith, n) in
    rw (e, mul_div_self k t (omega (arith, w.size, w.step))) (div_mul_le mem_size s)

-- A region with interleaving in the address space, with chunks no larger than its step, and a
-- memory that holds at least one chunk: the adjusted region has the same start and ends no later,
-- its whole steps have no more bytes than the memory, it is again such a region, and adjusting it
-- again, as every phase of `init` does, changes nothing.
pub adjust_region-IsInterleaved :
    (r : MemRegion) (mem_size : ℕ)
    → IsInterleaved r
    → r.interleave_size ≤ mem_size
    → let d : MemRegion = adjust_region r mem_size in
      IsInterleaved d
      × (d.start ≡ r.start)
      × (d.last ≤ r.last)
      × (chunk_bytes d ≤ mem_size)
      × (adjust_region d mem_size ≡ d)
adjust_region-IsInterleaved r mem_size w m = elim (Bool-cases (ltb mem_size (chunk_bytes r))) [
  | inl t ↦
      let h = ltb→lt mem_size (chunk_bytes r) t in
      let i = too_large-IsCut r mem_size w m h in
      let v = cut-IsInterleaved r mem_size w i in
      let c = chunk_bytes-cut r mem_size w i in
      let l = i.shorter in
      rw (adjust-cut r mem_size w i h)
        (v, refl, omega (arith, l), c, adjust-fitting (cut r mem_size) mem_size v c)
  | inr t ↦
      let h = ltb→le mem_size (chunk_bytes r) t in
      rw (adjust-fitting r mem_size w h) (w, refl, omega arith, h, adjust-fitting r mem_size w h)
]

-- The region ends at the end of a step.
abbrev pub IsWhole : MemRegion → Type 0
IsWhole r = region_size r % r.interleave_step ≡ 0

mul_mod_self : (k t : ℕ) → 0 < t → k * t % t ≡ 0
mul_mod_self k t h = grind arith

div_mod : (n t : ℕ) → n / t * t + n % t ≡ n
div_mod n t = grind arith

suc_mul : (q s : ℕ) → (q + 1) * s ≡ q * s + s
suc_mul q s = grind arith

u64_le : (a : ℕ) → u64 a ≤ a
u64_le a = omega arith

shift_lem : (a s : ℕ) → s ≤ a → a < 2 ^ 64 → (a + 2 ^ 64 - s) % 2 ^ 64 ≡ a - s
shift_lem a s h f = grind arith

adjusted-IsWhole :
    (r : MemRegion) (mem_size : ℕ)
    → IsInterleaved r
    → r.interleave_size ≤ mem_size
    → IsWhole r
    → IsWhole (adjust_region r mem_size)
adjusted-IsWhole r mem_size w m e = elim (Bool-cases (ltb mem_size (chunk_bytes r))) [
  | inl t ↦
      let h = ltb→lt mem_size (chunk_bytes r) t in
      let i = too_large-IsCut r mem_size w m h in
      let n = i.nonempty in
      let v = cut-IsInterleaved r mem_size w i in
      let q : region_size (cut r mem_size) ≡ mem_size / r.interleave_size * r.interleave_step =
        region_size_lem (cut r mem_size) v ∙ omega (arith, n) in
      rw (adjust-cut r mem_size w i h, q)
        (mul_mod_self (mem_size / r.interleave_size) r.interleave_step
          (omega (arith, w.size, w.step)))
  | inr t ↦ rw (adjust-fitting r mem_size w (ltb→le mem_size (chunk_bytes r) t)) e
]

-- A local address lies in the chunks of its region.
local_below :
    (r : MemRegion) (a : ℕ)
    → IsInterleaved r
    → IsWhole r
    → Owns r 0 a
    → a ≤ r.last
    → translate_to_local r 0 a < chunk_bytes r
unfolding translate_to_local
local_below r a w e o l =
    let s : ℕ = r.interleave_size in
    let t : ℕ = r.interleave_step in
    let d : ℕ = a - r.start in
    let n : ℕ = region_size r in
    let z : (s == 0) ≡ false = ground (arith, w.size) in
    let inside : d % t < s = ground (arith, o.chunk, w.size) in
    let size = region_size_lem r w in
    let parts = div_mod n t in
    let part = div_mul_le d t in
    let before : d / t < n / t =
      cancel_mul (d / t) (n / t) t (omega (arith, size, parts, part, e, l, o.from, w.from)) in
    let chunks = le_mul' (d / t + 1) (n / t) s (omega (arith, before)) in
    let wrap = u64_le (d / t * s + d % t + 0) in
    let next = suc_mul (d / t) s in
    rw (z, shift_lem a r.start o.from (omega (arith, o.fits)))
      (omega (arith, inside, chunks, wrap, next))

-- A region with interleaving in the address space that ends at the end of a step, with chunks no
-- larger than its step, and a memory that holds at least one chunk: every address that the adjusted
-- region owns has its local address inside the memory, where the memory has no offset.
pub adjust_region_fits :
    (r : MemRegion) (mem_size a : ℕ)
    → IsInterleaved r
    → IsWhole r
    → r.interleave_size ≤ mem_size
    → Owns (adjust_region r mem_size) 0 a
    → a ≤ (adjust_region r mem_size).last
    → translate_to_local (adjust_region r mem_size) 0 a < mem_size
adjust_region_fits r mem_size a w e m o l =
    let d : MemRegion = adjust_region r mem_size in
    let (v, x, y, c, z) = adjust_region-IsInterleaved r mem_size w m in
    let b = local_below d a v (adjusted-IsWhole r mem_size w m e) o l in omega (arith, b, c)
