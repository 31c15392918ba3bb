-- ===== src/Memory.antt =====
-- The memory behind the controller. The backing store is a class of memHierarchy, so it is a
-- parameter: `Backing::get` and `Backing::set` of sst-elements, with what they promise byte by byte.
use sst_pim.Prelude.{
  ℕ, zero, suc, ◌+◌, ◌-◌, ◌≡◌, ◌<◌, leb, ltb, ◌&&◌, refl, List, [], ◌∷◌, length, get_or,
  if◌then◌else◌, arith, ap, ◌∙◌, sym, get_or_ext,
}

-- `byte` is `get(addr)`, `set` is `set(addr, size, data)` and `get` is `get(addr, size, data)`.
pub record Backing : Type 1 where
  pub Store : Type 0
  pub byte : Store → ℕ → ℕ
  pub set : Store → ℕ → List ℕ → Store
  pub get : Store → ℕ → ℕ → List ℕ
  pub length-get : (s : Store) (a n : ℕ) → length (get s a n) ≡ n
  pub get_or-get : (s : Store) (a n i : ℕ) → i < n → get_or (get s a n) i 0 ≡ byte s (a + i)
  pub byte-set :
      (s : Store) (a : ℕ) (bs : List ℕ) (x : ℕ)
      → byte (set s a bs) x
        ≡ (if leb a x && ltb x (a + length bs) then get_or bs (x - a) 0 else byte s x)

-- The bytes of a view of memory from an address on.
abbrev pub fetch : (ℕ → ℕ) → ℕ → ℕ → List ℕ
fetch v a zero = []
fetch v a (suc n) = v a ∷ fetch v (a + 1) n

pub length-fetch : (v : ℕ → ℕ) (a n : ℕ) → length (fetch v a n) ≡ n
length-fetch v a zero = refl
length-fetch v a (suc n) = ap suc (length-fetch v (a + 1) n)

pub get_or-fetch : (v : ℕ → ℕ) (a n i : ℕ) → i < n → get_or (fetch v a n) i 0 ≡ v (a + i)
get_or-fetch v a zero i h = absurd (omega arith)
get_or-fetch v a (suc n) zero h = ap v (omega arith)
get_or-fetch v a (suc n) (suc i) h = get_or-fetch v (a + 1) n i (omega arith) ∙ ap v (omega arith)

-- A store that is a function from addresses to bytes: it shows that the promises can be kept.
abbrev pub byte_array : Backing
byte_array = record {
  Store = ℕ → ℕ;
  byte = λ s. s;
  set = λ s a bs x. if leb a x && ltb x (a + length bs) then get_or bs (x - a) 0 else s x;
  get = λ s a n. fetch s a n;
  length-get = λ s a n. length-fetch s a n;
  get_or-get = λ s a n i h. get_or-fetch s a n i h;
  byte-set = λ s a bs x. refl;
}

-- A list that agrees with a view byte by byte is what is fetched from it.
pub fetch_ext :
    (v : ℕ → ℕ) (a n : ℕ) (xs : List ℕ)
    → length xs ≡ n
    → ((i : ℕ) → i < n → get_or xs i 0 ≡ v (a + i))
    → xs ≡ fetch v a n
fetch_ext v a n xs l h =
    get_or_ext 0 xs (fetch v a n) (l ∙ sym (length-fetch v a n))
      λ i lt. h i (omega arith) ∙ sym (get_or-fetch v a n i (omega arith))
