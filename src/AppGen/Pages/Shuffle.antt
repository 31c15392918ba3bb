-- ===== src/AppGen/Pages/Shuffle.antt =====
-- The page map after any number of random swaps (mirandaMemMgr_kg.h, the policy RANDOMIZED).
use sst_pim.Prelude.{
  ℕ, zero, suc, ◌+◌, ◌*◌, ◌/◌, ◌%◌, ◌^◌, ◌≡◌, ◌≢◌, ◌<◌, ◌==◌, refl, sym, ◌∙◌, ap, arith, List, [],
  ◌∷◌, ◌⊎◌, inl, inr, Bool-cases, ap₂, beq→eq, eq→beq, some, get_elem?, get_or, set, length,
  length-set, if◌then◌else◌, ok,
}
use sst_pim.Pimdef.{u64}
use sst_pim.AppGen.Pages.{
  MemoryManager, memory_manager, map_address, linear_pages, swap_pages, shuffle, div_split, div_lt,
  page_of, mul_div, small,
}

-- Each of the `n` entries is the start of a page, and no two are the same.
pub record ArePages (s n : ℕ) (pages : List ℕ) : Type 0 where
  pub whole : length pages ≡ n
  pub starts : (i : ℕ) → i < n → (q : ℕ) × (q < n) × (get_or pages i 0 ≡ q * s)
  pub apart : (i j : ℕ) → i < n → j < n → get_or pages i 0 ≡ get_or pages j 0 → i ≡ j

get_or-set :
    (xs : List ℕ) (i j v : ℕ)
    → i < length xs
    → get_or (set xs i v) j 0 ≡ (if i == j then v else get_or xs j 0)
get_or-set [] i j v h = absurd (omega arith)
get_or-set (x ∷ xs) zero zero v h = ground arith
get_or-set (x ∷ xs) zero (suc j) v h = ground arith
get_or-set (x ∷ xs) (suc i) zero v h = ground arith
get_or-set (x ∷ xs) (suc i) (suc j) v h = ground (arith, get_or-set xs i j v)

-- A swap of two entries, and where each entry comes from.
came_from : ℕ → ℕ → ℕ → ℕ
came_from a b i = if b == i then a else if a == i then b else i

swapped :
    (pages : List ℕ) (a b i : ℕ)
    → a < length pages
    → b < length pages
    → get_or (set (set pages a (get_or pages b 0)) b (get_or pages a 0)) i 0
      ≡ get_or pages (came_from a b i) 0
unfolding came_from
swapped pages a b i h k =
    let l = length-set pages a (get_or pages b 0) in
    ground (
      arith,
      get_or-set (set pages a (get_or pages b 0)) b i (get_or pages a 0) (omega (arith, l)),
      get_or-set pages a i (get_or pages b 0) h,
    )

came_from_lt : (a b i n : ℕ) → a < n → b < n → i < n → came_from a b i < n
unfolding came_from
came_from_lt a b i n h k l = ground arith

came_from_inj : (a b i j : ℕ) → came_from a b i ≡ came_from a b j → i ≡ j
unfolding came_from
came_from_inj a b i j h = ground arith

mod_lt : (a m : ℕ) → 0 < m → a % m < m
mod_lt a m h = grind arith

set_set-ArePages :
    (s n a b : ℕ) (pages : List ℕ)
    → a < n
    → b < n
    → ArePages s n pages
    → ArePages s n (set (set pages a (get_or pages b 0)) b (get_or pages a 0))
set_set-ArePages s n a b pages h k p = record {
  whole =
      length-set (set pages a (get_or pages b 0)) b (get_or pages a 0)
      ∙ length-set pages a (get_or pages b 0)
      ∙ p.whole;
  starts = λ i l.
      let (q, m, e) = p.starts (came_from a b i) (came_from_lt a b i n h k l) in
      (q, m, moved i ∙ e);
  apart = λ i j l m e. came_from_inj a b i j (
      p.apart (came_from a b i) (came_from a b j) (came_from_lt a b i n h k l)
        (came_from_lt a b j n h k m) (sym (moved i) ∙ e ∙ moved j));
}
  where
    moved :
        (i : ℕ)
        → get_or (set (set pages a (get_or pages b 0)) b (get_or pages a 0)) i 0
          ≡ get_or pages (came_from a b i) 0
    moved i = swapped pages a b i (omega (arith, p.whole)) (omega (arith, p.whole))

swap_pages-ArePages :
    (s n : ℕ) (r : ℕ × ℕ) (pages : List ℕ)
    → 0 < n
    → ArePages s n pages
    → ArePages s n (swap_pages n r pages)
unfolding swap_pages
swap_pages-ArePages s n (x, y) pages z p = elim (Bool-cases (x % n == y % n)) [
  | inl e ↦ rw e p
  | inr e ↦ rw e (set_set-ArePages s n (x % n) (y % n) pages (mod_lt x n z) (mod_lt y n z) p)
]

shuffle-ArePages :
    (s n : ℕ) (rs : List (ℕ × ℕ)) (pages : List ℕ)
    → 0 < n
    → ArePages s n pages
    → ArePages s n (shuffle n rs pages)
unfolding shuffle
shuffle-ArePages s n [] pages z p = p
shuffle-ArePages s n (r ∷ rs) pages z p =
    shuffle-ArePages s n rs (swap_pages n r pages) z (swap_pages-ArePages s n r pages z p)

length-linear : (s i n : ℕ) → length (linear_pages s i n) ≡ n
unfolding linear_pages
length-linear s i zero = refl
length-linear s i (suc n) = ap suc (length-linear s (i + 1) n)

get_or-linear : (s i n k : ℕ) → k < n → get_or (linear_pages s i n) k 0 ≡ u64 ((i + k) * s)
unfolding linear_pages
get_or-linear s i zero k h = absurd (omega arith)
get_or-linear s i (suc n) zero h = ap (λ x. u64 (x * s)) (omega arith)
get_or-linear s i (suc n) (suc k) h =
    get_or-linear s (i + 1) n k (omega arith) ∙ ap (λ x. u64 (x * s)) (omega arith)

mul_lt : (q n s r : ℕ) → q < n → r < s → q * s + r < s * n
mul_lt q n s r h k = grind arith

mul_cancel : (q r s : ℕ) → 0 < s → q * s ≡ r * s → q ≡ r
mul_cancel q r s z h = sym (mul_div q s z) ∙ ap (λ x. x / s) h ∙ mul_div r s z

linear-ArePages : (s n : ℕ) → 0 < s → s * n < 2 ^ 64 → ArePages s n (linear_pages s 0 n)
linear-ArePages s n z h = record {
  whole = length-linear s 0 n;
  starts = λ i l. (i, l, start_of i l);
  apart = λ i j l m e. mul_cancel i j s z (sym (start_of i l) ∙ e ∙ start_of j m);
}
  where
    start_of : (i : ℕ) → i < n → get_or (linear_pages s 0 n) i 0 ≡ i * s
    start_of i l =
        get_or-linear s 0 n i l
        ∙ ap u64 (ap (λ x. x * s) (omega arith))
        ∙ small (i * s) (2 ^ 64) (omega (arith, mul_lt i n s 0 l z))

get_elem-get_or : (xs : List ℕ) (i : ℕ) → i < length xs → get_elem? xs i ≡ some (get_or xs i 0)
get_elem-get_or [] i h = absurd (omega arith)
get_elem-get_or (x ∷ xs) zero h = refl
get_elem-get_or (x ∷ xs) (suc i) h = get_elem-get_or xs i (omega arith)

-- The page and the place in it that an address is mapped to.
mapped_to :
    (s n a : ℕ) (m : MemoryManager)
    → 0 < s
    → s * n < 2 ^ 64
    → m.page_size ≡ s
    → m.max_memory_address ≡ s * n
    → ArePages s n m.page_map
    → a < s * n
    → (q : ℕ) × (q < n)
      × (get_or m.page_map (a / s) 0 ≡ q * s)
      × (map_address m a ≡ ok (q * s + a % s))
unfolding map_address
mapped_to s n a m z h e f p l =
    let k = div_lt a s n z l in
    let (q, b, g) = p.starts (a / s) k in
    let r = mul_lt q n s (a % s) b (mod_lt a s z) in
    (
      q,
      b,
      g,
      rw (f, e, page_of a s z, get_elem-get_or m.page_map (a / s) (omega (arith, p.whole)), g)
          (ground (arith, l, small (q * s + a % s) (2 ^ 64) (omega (arith, r)))),
    )

mod_of : (q s r : ℕ) → r < s → (q * s + r) % s ≡ r
mod_of q s r h = grind arith

div_of : (q s r : ℕ) → r < s → (q * s + r) / s ≡ q
div_of q s r h = grind arith

-- With any number of random swaps, every address below the size of the memory is mapped below that
-- size, to the same place in its page; and two different addresses are never mapped to one.
pub shuffled_map :
    (page_size page_count : ℕ) (rounds : List (ℕ × ℕ)) (a b : ℕ)
    → 0 < page_size
    → page_size * page_count < 2 ^ 64
    → a < page_size * page_count
    → b < page_size * page_count
    → (p : ℕ) × (q : ℕ) × (map_address (memory_manager page_size page_count rounds) a ≡ ok p)
      × (map_address (memory_manager page_size page_count rounds) b ≡ ok q)
      × (p < page_size * page_count)
      × (p % page_size ≡ a % page_size)
      × ((a ≡ b) ⊎ (p ≢ q))
unfolding memory_manager
shuffled_map s n rounds a b z h k l =
    let m : MemoryManager = memory_manager s n rounds in
    let some_page : 0 < n = pos n k in
    let pages =
      shuffle-ArePages s n rounds (linear_pages s 0 n) some_page (linear-ArePages s n z h) in
    let (qa, ba, ga, ea) = mapped_to s n a m z h refl (small (s * n) (2 ^ 64) h) pages k in
    let (qb, bb, gb, eb) = mapped_to s n b m z h refl (small (s * n) (2 ^ 64) h) pages l in
    let ra = mod_lt a s z in
    let rb = mod_lt b s z in
    (
      qa * s + a % s,
      qb * s + b % s,
      ea,
      eb,
      mul_lt qa n s (a % s) ba ra,
      mod_of qa s (a % s) ra,
      elim (Bool-cases (qa * s + a % s == qb * s + b % s)) [
        | inl e ↦
            let t = beq→eq (qa * s + a % s) (qb * s + b % s) e in
            let qs : qa ≡ qb =
              sym (div_of qa s (a % s) ra) ∙ ap (λ x. x / s) t ∙ div_of qb s (b % s) rb in
            let same : a / s ≡ b / s =
              pages.apart (a / s) (b / s) (div_lt a s n z k) (div_lt b s n z l)
                (ga ∙ ap (λ x. x * s) qs ∙ sym gb) in
            let place : a % s ≡ b % s =
              sym (mod_of qa s (a % s) ra) ∙ ap (λ x. x % s) t ∙ mod_of qb s (b % s) rb in
            inl (sym (div_split a s) ∙ ap₂ (λ x y. x * s + y) same place ∙ div_split b s)
        | inr e ↦ inr (λ t. ground (arith, e, eq→beq (qa * s + a % s) (qb * s + b % s) t))
      ],
    )
  where
    pos : (n : ℕ) → a < s * n → 0 < n
    pos zero h = absurd (grind arith)
    pos (suc n) h = omega arith
