-- ===== src/Prelude/Bytes.antt =====
-- Bytes in the order of the host (little-endian), as the source reads and writes words through a
-- `uint8_t*`, and the part of an array that a loop of byte copies overwrites.
use Prim.Native.Nat.{ℕ, zero, suc, ◌+◌, ◌*◌, ◌/◌, ◌%◌, ◌^◌, ◌≤◌, ◌<◌, ◌-◌}
use mathlib.Core.Path.{◌≡◌, refl, ap, ◌∙◌}
use mathlib.Core.List.{List, [], ◌∷◌}
use native.Mathlib.Nat.{pow-suc}
use native.Mathlib.Omega.{arith}
use mathlib.Core.Bool.{◌&&◌}
use sst_pim.Prelude.Tests.{leb, ltb, if◌then◌else◌}
use sst_pim.Prelude.Lists.{length, get_or, take, drop, resize}

-- The `n` bytes of a word, lowest first.
abbrev pub to_bytes : ℕ → ℕ → List ℕ
to_bytes zero d = []
to_bytes (suc n) d = (d % 256) ∷ to_bytes n (d / 256)

-- The word of some bytes, lowest first.
abbrev pub of_bytes : List ℕ → ℕ
of_bytes [] = 0
of_bytes (b ∷ bs) = b + 256 * of_bytes bs

pub length-to_bytes : (n d : ℕ) → length (to_bytes n d) ≡ n
length-to_bytes zero d = refl
length-to_bytes (suc n) d = ap suc (length-to_bytes n (d / 256))

pub of_bytes-to_bytes : (n d : ℕ) → d < 256 ^ n → of_bytes (to_bytes n d) ≡ d
of_bytes-to_bytes zero d h = omega arith
of_bytes-to_bytes (suc n) d h =
    omega (arith, of_bytes-to_bytes n (d / 256) (omega (arith, pow-suc 256 n)))

-- `for (i = 0; i < |src|; i++) dst[i] = src[i]`
abbrev pub overwrite : List ℕ → List ℕ → List ℕ
overwrite [] dst = dst
overwrite (s ∷ src) [] = []
overwrite (s ∷ src) (d ∷ dst) = s ∷ overwrite src dst

pub length-overwrite : (src dst : List ℕ) → length (overwrite src dst) ≡ length dst
length-overwrite [] dst = refl
length-overwrite (s ∷ src) [] = refl
length-overwrite (s ∷ src) (d ∷ dst) = ap suc (length-overwrite src dst)

pub take-overwrite :
    (src dst : List ℕ) → length src ≤ length dst → take (length src) (overwrite src dst) ≡ src
take-overwrite [] dst h = refl
take-overwrite (s ∷ src) [] h = absurd (omega arith)
take-overwrite (s ∷ src) (d ∷ dst) h = ap (λ l. s ∷ l) (take-overwrite src dst (omega arith))

-- Writing over a whole array leaves the source.
pub overwrite_all : (src dst : List ℕ) → length src ≡ length dst → overwrite src dst ≡ src
overwrite_all [] [] h = refl
overwrite_all [] (d ∷ dst) h = absurd (omega arith)
overwrite_all (s ∷ src) [] h = absurd (omega arith)
overwrite_all (s ∷ src) (d ∷ dst) h = ap (λ l. s ∷ l) (overwrite_all src dst (omega arith))

-- `for (i = 0; i < |src|; i++) dst[k + i] = src[i]`
abbrev pub overwrite_at : ℕ → List ℕ → List ℕ → List ℕ
overwrite_at zero src dst = overwrite src dst
overwrite_at (suc k) src [] = []
overwrite_at (suc k) src (d ∷ dst) = d ∷ overwrite_at k src dst

pub length-overwrite_at : (k : ℕ) (src dst : List ℕ) → length (overwrite_at k src dst) ≡ length dst
length-overwrite_at zero src dst = length-overwrite src dst
length-overwrite_at (suc k) src [] = refl
length-overwrite_at (suc k) src (d ∷ dst) = ap suc (length-overwrite_at k src dst)

-- What was written is read back.
pub take-drop-overwrite_at :
    (k : ℕ) (src dst : List ℕ)
    → k + length src ≤ length dst
    → take (length src) (drop k (overwrite_at k src dst)) ≡ src
take-drop-overwrite_at zero src dst h = take-overwrite src dst (omega arith)
take-drop-overwrite_at (suc k) src [] h = absurd (omega arith)
take-drop-overwrite_at (suc k) src (d ∷ dst) h = take-drop-overwrite_at k src dst (omega arith)

-- Every other place keeps its value.
pub get_or-overwrite_before :
    (k : ℕ) (src dst : List ℕ) (j d : ℕ)
    → j < k
    → get_or (overwrite_at k src dst) j d ≡ get_or dst j d
get_or-overwrite_before zero src dst j d h = absurd (omega arith)
get_or-overwrite_before (suc k) src [] j d h = refl
get_or-overwrite_before (suc k) src (x ∷ dst) zero d h = refl
get_or-overwrite_before (suc k) src (x ∷ dst) (suc j) d h =
    get_or-overwrite_before k src dst j d (omega arith)

get_or-overwrite_past :
    (src dst : List ℕ) (j d : ℕ) → length src ≤ j → get_or (overwrite src dst) j d ≡ get_or dst j d
get_or-overwrite_past [] dst j d h = refl
get_or-overwrite_past (s ∷ src) [] j d h = refl
get_or-overwrite_past (s ∷ src) (x ∷ dst) zero d h = absurd (omega arith)
get_or-overwrite_past (s ∷ src) (x ∷ dst) (suc j) d h =
    get_or-overwrite_past src dst j d (omega arith)

pub get_or-overwrite_after :
    (k : ℕ) (src dst : List ℕ) (j d : ℕ)
    → k + length src ≤ j
    → get_or (overwrite_at k src dst) j d ≡ get_or dst j d
get_or-overwrite_after zero src dst j d h = get_or-overwrite_past src dst j d (omega arith)
get_or-overwrite_after (suc k) src [] j d h = refl
get_or-overwrite_after (suc k) src (x ∷ dst) zero d h = absurd (omega arith)
get_or-overwrite_after (suc k) src (x ∷ dst) (suc j) d h =
    get_or-overwrite_after k src dst j d (omega arith)

pub take-all : (xs : List ℕ) (n : ℕ) → n ≡ length xs → take n xs ≡ xs
take-all [] zero h = refl
take-all [] (suc n) h = refl
take-all (x ∷ xs) zero h = absurd (omega arith)
take-all (x ∷ xs) (suc n) h = ap (λ l. x ∷ l) (take-all xs n (omega arith))

get_or-overwrite_in :
    (src dst : List ℕ) (j d : ℕ)
    → j < length src
    → length src ≤ length dst
    → get_or (overwrite src dst) j d ≡ get_or src j d
get_or-overwrite_in [] dst j d h k = absurd (omega arith)
get_or-overwrite_in (s ∷ src) [] j d h k = absurd (omega arith)
get_or-overwrite_in (s ∷ src) (x ∷ dst) zero d h k = refl
get_or-overwrite_in (s ∷ src) (x ∷ dst) (suc j) d h k =
    get_or-overwrite_in src dst j d (omega arith) (omega arith)

-- Inside the range that was written stands the source.
pub get_or-overwrite_inside :
    (k : ℕ) (src dst : List ℕ) (j d : ℕ)
    → k ≤ j
    → j < k + length src
    → k + length src ≤ length dst
    → get_or (overwrite_at k src dst) j d ≡ get_or src (j - k) d
get_or-overwrite_inside zero src dst j d h l m =
    get_or-overwrite_in src dst j d (omega arith) (omega arith)
    ∙ ap (λ i. get_or src i d) (omega arith)
get_or-overwrite_inside (suc k) src [] j d h l m = absurd (omega arith)
get_or-overwrite_inside (suc k) src (x ∷ dst) zero d h l m = absurd (omega arith)
get_or-overwrite_inside (suc k) src (x ∷ dst) (suc j) d h l m =
    get_or-overwrite_inside k src dst j d (omega arith) (omega arith) (omega arith)
    ∙ ap (λ i. get_or src i d) (omega arith)

pub get_or-take : (n : ℕ) (xs : List ℕ) (i d : ℕ) → i < n → get_or (take n xs) i d ≡ get_or xs i d
get_or-take zero xs i d h = absurd (omega arith)
get_or-take (suc n) [] i d h = refl
get_or-take (suc n) (x ∷ xs) zero d h = refl
get_or-take (suc n) (x ∷ xs) (suc i) d h = get_or-take n xs i d (omega arith)

pub get_or-drop : (k : ℕ) (xs : List ℕ) (i d : ℕ) → get_or (drop k xs) i d ≡ get_or xs (k + i) d
get_or-drop zero xs i d = ap (λ j. get_or xs j d) (omega arith)
get_or-drop (suc k) [] i d = refl
get_or-drop (suc k) (x ∷ xs) i d =
    get_or-drop k xs i d ∙ ap (λ j. get_or (x ∷ xs) j d) (suc_add k i)
  where
    suc_add : (k i : ℕ) → suc (k + i) ≡ suc k + i
    suc_add k i = omega arith

-- `resize` to the size that a vector has changes nothing.
pub resize_same : (xs : List ℕ) (n d : ℕ) → length xs ≡ n → resize xs n d ≡ xs
resize_same [] zero d h = refl
resize_same [] (suc n) d h = absurd (omega arith)
resize_same (x ∷ xs) zero d h = absurd (omega arith)
resize_same (x ∷ xs) (suc n) d h = ap (λ l. x ∷ l) (resize_same xs n d (omega arith))

-- A read after a write of several bytes, at every place.
pub get_or-overwrite_at :
    (k : ℕ) (src dst : List ℕ) (j d : ℕ)
    → k + length src ≤ length dst
    → get_or (overwrite_at k src dst) j d
      ≡ (if leb k j && ltb j (k + length src) then get_or src (j - k) d else get_or dst j d)
get_or-overwrite_at k src dst j d h = ground (
  arith,
  get_or-overwrite_before k src dst j d,
  get_or-overwrite_after k src dst j d,
  get_or-overwrite_inside k src dst j d,
)
