-- ===== src/AppGen/Pages.antt =====
-- mirandaMemMgr_kg.h: the map of pages.
use sst_pim.Prelude.{
  ℕ, zero, suc, ◌+◌, ◌-◌, ◌*◌, ◌/◌, ◌%◌, ◌^◌, ◌≡◌, ◌<◌, ◌==◌, leb, ◌∙◌, ap, arith, List, [], ◌∷◌,
  some, get_elem?, get_or, set, length, length-set, if◌then◌else◌, Outcome, ok, fault, fatal,
  out_of_range, of_option, ◌>>=◌,
}
use sst_pim.Pimdef.{u64}
pub mod Shuffle

pub record MemoryManager : Type 0 where
  pub page_size : ℕ
  pub page_count : ℕ
  pub max_memory_address : ℕ
  pub page_map : List ℕ

-- The first loop of the constructor, from page `i` on: `n` pages in their linear order.
unfoldable pub linear_pages : ℕ → ℕ → ℕ → List ℕ
linear_pages page_size i zero = []
linear_pages page_size i (suc n) = u64 (i * page_size) ∷ linear_pages page_size (i + 1) n

-- One round of the shuffle, on two values of the random number generator.
unfoldable pub swap_pages : ℕ → ℕ × ℕ → List ℕ → List ℕ
swap_pages page_count (x, y) pages =
    let a = x % page_count in
    let b = y % page_count in
    if a == b then pages else set (set pages a (get_or pages b 0)) b (get_or pages a 0)

unfoldable pub shuffle : ℕ → List (ℕ × ℕ) → List ℕ → List ℕ
unfolding swap_pages
shuffle page_count [] pages = pages
shuffle page_count (r ∷ rs) pages = shuffle page_count rs (swap_pages page_count r pages)

-- The constructor; `rounds` are the pairs of values that the generator gives for the policy
-- RANDOMIZED, and none for LINEAR.
unfoldable pub memory_manager : ℕ → ℕ → List (ℕ × ℕ) → MemoryManager
unfolding shuffle linear_pages
memory_manager page_size page_count rounds = record {
  page_size = page_size;
  page_count = page_count;
  max_memory_address = u64 (page_size * page_count);
  page_map = shuffle page_count rounds (linear_pages page_size 0 page_count);
}

-- `mapAddress`
unfoldable pub map_address : MemoryManager → ℕ → Outcome ℕ
map_address m a =
    if leb m.max_memory_address a
    then fault fatal
    else let offset = a % m.page_size in
      of_option out_of_range (get_elem? m.page_map ((a - offset) / m.page_size)) >>= λ start.
      ok (u64 (start + offset))

pub div_split : (a s : ℕ) → (a / s) * s + a % s ≡ a
div_split a s = grind arith

pub mul_div : (q s : ℕ) → 0 < s → (q * s) / s ≡ q
mul_div q s h = grind arith

pub div_lt : (a s n : ℕ) → 0 < s → a < s * n → a / s < n
div_lt a s n h k = grind (arith, div_split a s)

pub page_of : (a s : ℕ) → 0 < s → (a - a % s) / s ≡ a / s
page_of a s h = ap (λ x. x / s) (omega (arith, div_split a s)) ∙ mul_div (a / s) s h

pub small : (a m : ℕ) → a < m → a % m ≡ a
small a m h = grind arith
