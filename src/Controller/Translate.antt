-- ===== src/Controller/Translate.antt =====
-- The two translations of addresses in memoryControllerKG.cc.
use sst_pim.Prelude.{
  ℕ, ◌+◌, ◌-◌, ◌*◌, ◌/◌, ◌%◌, ◌^◌, ◌≡◌, ◌≤◌, ◌<◌, ◌⊎◌, ◌∙◌, ap, arith, ◌==◌, Bool-cases, inl, inr,
  true, false,
}
use sst_pim.Controller.{MemRegion, translate_to_local, translate_to_global}

-- A region without interleaving, or one whose chunks are no larger than its step, and an address
-- in one of its chunks.
pub record Owns (r : MemRegion) (offset a : ℕ) : Type 0 where
  pub from : r.start ≤ a
  pub fits : a + offset < 2 ^ 64
  pub chunk : (r.interleave_size ≡ 0) ⊎ ((a - r.start) % r.interleave_step < r.interleave_size)
  pub step : (r.interleave_size ≡ 0) ⊎ (r.interleave_size ≤ r.interleave_step)

shift_lem : (a s : ℕ) → s ≤ a → a < 2 ^ 64 → (a + 2 ^ 64 - s) % 2 ^ 64 ≡ a - s
shift_lem a s h f = grind arith

small : (a m : ℕ) → a < m → a % m ≡ a
small a m h = grind arith

unshift_lem : (a o : ℕ) → a + o < 2 ^ 64 → ((a + o) % 2 ^ 64 + 2 ^ 64 - o) % 2 ^ 64 ≡ a
unshift_lem a o f =
    ap (λ x. (x + 2 ^ 64 - o) % 2 ^ 64) (small (a + o) (2 ^ 64) f)
    ∙ shift_lem (a + o) o (omega arith) f
    ∙ omega arith

lower : (a o : ℕ) → a + o < 2 ^ 64 → a < 2 ^ 64
lower a o h = omega arith

lower' : (a s o : ℕ) → s ≤ a → a + o < 2 ^ 64 → a - s + o < 2 ^ 64
lower' a s o h k = omega arith

div_step : (q s o : ℕ) → o < s → (q * s + o) % s ≡ o
div_step q s o h = grind arith

div_step' : (q s o : ℕ) → o < s → (q * s + o - o) / s ≡ q
div_step' q s o h = grind arith

div_split : (d t : ℕ) → (d / t) * t + d % t ≡ d
div_split d t = grind arith

le_mul : (q s t : ℕ) → s ≤ t → q * s ≤ q * t
le_mul q s t h = grind arith

contiguous :
    (r : MemRegion) (offset a : ℕ)
    → Owns r offset a
    → (r.interleave_size == 0) ≡ true
    → translate_to_global r offset (translate_to_local r offset a) ≡ a
unfolding translate_to_global translate_to_local
contiguous r offset a w z =
    rw (z, shift_lem a r.start w.from fit, unshift_lem (a - r.start) offset fit')
      (small (a - r.start + r.start) (2 ^ 64) (omega arith) ∙ omega arith)
  where
    fit : a < 2 ^ 64
    fit = lower a offset w.fits

    fit' : a - r.start + offset < 2 ^ 64
    fit' = lower' a r.start offset w.from w.fits

interleaved :
    (r : MemRegion) (offset a : ℕ)
    → Owns r offset a
    → (r.interleave_size == 0) ≡ false
    → translate_to_global r offset (translate_to_local r offset a) ≡ a
unfolding translate_to_global translate_to_local
interleaved r offset a w z =
    rw
      (
        z,
        shift_lem a r.start w.from (lower a offset w.fits),
        unshift_lem (q * r.interleave_size + o) offset fit,
        div_step q r.interleave_size o inside,
        div_step' q r.interleave_size o inside,
      )
      (small (q * r.interleave_step + o + r.start) (2 ^ 64) (omega (arith, split))
        ∙ omega (arith, split))
  where
    d : ℕ
    d = a - r.start

    q : ℕ
    q = d / r.interleave_step

    o : ℕ
    o = d % r.interleave_step

    split : q * r.interleave_step + o ≡ d
    split = div_split d r.interleave_step

    inside : o < r.interleave_size
    inside = ground arith

    le : q * r.interleave_size ≤ q * r.interleave_step
    le = le_mul q r.interleave_size r.interleave_step (ground arith)

    fit : q * r.interleave_size + o + offset < 2 ^ 64
    fit = omega (arith, split, le)

-- An address that the region owns is the global address of its local address.
pub to_global-to_local :
    (r : MemRegion) (offset a : ℕ)
    → Owns r offset a
    → translate_to_global r offset (translate_to_local r offset a) ≡ a
to_global-to_local r offset a w = elim (Bool-cases (r.interleave_size == 0)) [
  | inl z ↦ contiguous r offset a w z
  | inr z ↦ interleaved r offset a w z
]
