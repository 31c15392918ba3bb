-- ===== src/MulVec/Scale.antt =====
-- What the read's completion of `MulVecByScalar` (userpim_functions.cc) makes of the data.
use sst_pim.Prelude.{
  ℕ, zero, suc, ◌+◌, ◌*◌, ◌/◌, ◌%◌, ◌-◌, ◌≤◌, ◌<◌, ◌≡◌, refl, sym, ◌∙◌, ap, ap₂, arith, ltb, List,
  [], ◌∷◌, ◌++◌, length, take, drop, get_or, to_bytes, of_bytes, length-append, length-drop,
  length-take, get_or-take, get_or-drop, Bool-cases, inl, inr,
}
use sst_pim.Pimdef.{u64}
use sst_pim.MulVec.{scaled_word, scale_words}
use sst_pim.Memory.{fetch, fetch_ext, length-fetch, get_or-fetch}

pub length-scaled_word : (scalar : ℕ) (d : List ℕ) → length (scaled_word scalar d) ≡ 8
unfolding scaled_word
length-scaled_word scalar d = refl

pub length-scale_words : (scalar n : ℕ) (d : List ℕ) → length (scale_words scalar n d) ≡ n * 8
unfolding scale_words
length-scale_words scalar zero d = refl
length-scale_words scalar (suc n) d = omega (
  arith,
  length-append (scaled_word scalar d) (scale_words scalar n (drop 8 d)),
  length-scaled_word scalar d,
  length-scale_words scalar n (drop 8 d),
)

get_or-append_left :
    (xs ys : List ℕ) (i : ℕ) → i < length xs → get_or (xs ++ ys) i 0 ≡ get_or xs i 0
get_or-append_left [] ys i h = absurd (omega arith)
get_or-append_left (x ∷ xs) ys zero h = refl
get_or-append_left (x ∷ xs) ys (suc i) h = get_or-append_left xs ys i (omega arith)

get_or-append_right :
    (xs ys : List ℕ) (i : ℕ) → length xs ≤ i → get_or (xs ++ ys) i 0 ≡ get_or ys (i - length xs) 0
get_or-append_right [] ys i h = ap (λ j. get_or ys j 0) (omega arith)
get_or-append_right (x ∷ xs) ys zero h = absurd (omega arith)
get_or-append_right (x ∷ xs) ys (suc i) h =
    get_or-append_right xs ys i (omega arith) ∙ ap (λ j. get_or ys j 0) (omega arith)

drop_nil : (n : ℕ) → [] ≡ drop {A = ℕ} n []
drop_nil zero = refl
drop_nil (suc n) = refl

low_word : (y : ℕ) → y < 8 → 0 ≡ y / 8 * 8
low_word y h = omega arith

low_byte : (y : ℕ) → y < 8 → y ≡ y % 8
low_byte y h = omega arith

next_word : (y : ℕ) → 8 ≤ y → 8 + (y - 8) / 8 * 8 ≡ y / 8 * 8
next_word y h = omega arith

next_byte : (y : ℕ) → 8 ≤ y → (y - 8) % 8 ≡ y % 8
next_byte y h = omega arith

suc_plus : (l k : ℕ) → suc (l + k) ≡ suc l + k
suc_plus l k = omega arith

drop-drop : (k l : ℕ) (xs : List ℕ) → drop k (drop l xs) ≡ drop (l + k) xs
drop-drop k zero xs = ap (λ j. drop j xs) (omega arith)
drop-drop k (suc l) [] = sym (drop_nil k) ∙ drop_nil (suc l + k)
drop-drop k (suc l) (x ∷ xs) = drop-drop k l xs ∙ ap (λ j. drop j (x ∷ xs)) (suc_plus l k)

-- Byte `y` of the result: byte `y % 8` of the product of the scalar and the word that holds it.
pub get_or-scale_words :
    (scalar n : ℕ) (d : List ℕ) (y : ℕ)
    → y < n * 8
    → get_or (scale_words scalar n d) y 0
      ≡ get_or (scaled_word scalar (drop (y / 8 * 8) d)) (y % 8) 0
unfolding scale_words
get_or-scale_words scalar zero d y h = absurd (omega arith)
get_or-scale_words scalar (suc n) d y h = elim (Bool-cases (ltb y 8)) [
  | inl low ↦
      let l : y < 8 = ground arith in
      get_or-append_left (scaled_word scalar d) (scale_words scalar n (drop 8 d)) y
        (omega (arith, length-scaled_word scalar d))
      ∙ ap₂ (λ k i. get_or (scaled_word scalar (drop k d)) i 0) (low_word y l) (low_byte y l)
  | inr high ↦
      let l : 8 ≤ y = ground arith in
      get_or-append_right (scaled_word scalar d) (scale_words scalar n (drop 8 d)) y
        (omega (arith, length-scaled_word scalar d))
      ∙ ap (λ i. get_or (scale_words scalar n (drop 8 d)) (y - i) 0) (length-scaled_word scalar d)
      ∙ get_or-scale_words scalar n (drop 8 d) (y - 8) (omega arith)
      ∙ ap (λ e. get_or (scaled_word scalar e) ((y - 8) % 8) 0) (drop-drop ((y - 8) / 8 * 8) 8 d)
      ∙ ap₂ (λ k i. get_or (scaled_word scalar (drop k d)) i 0) (next_word y l) (next_byte y l)
]

-- Of a view: byte `y` of the scaled words from `src` on.
unfoldable pub scaled : (ℕ → ℕ) → ℕ → ℕ → ℕ → ℕ
scaled v scalar src y =
    get_or (to_bytes 8 (u64 (scalar * of_bytes (fetch v (src + y / 8 * 8) 8)))) (y % 8) 0

take-drop-fetch :
    (v : ℕ → ℕ) (a n k : ℕ) → k + 8 ≤ n → take 8 (drop k (fetch v a n)) ≡ fetch v (a + k) 8
take-drop-fetch v a n k h =
    fetch_ext v (a + k) 8 (take 8 (drop k (fetch v a n)))
      (length-take 8 (drop k (fetch v a n))
        (omega (arith, length-drop k (fetch v a n), length-fetch v a n)))
      λ i lt.
        get_or-take 8 (drop k (fetch v a n)) i 0 lt
        ∙ get_or-drop k (fetch v a n) i 0
        ∙ get_or-fetch v a n (k + i) (omega arith)
        ∙ ap v (omega arith)

-- The completion on the bytes of a view makes the scaled bytes of that view.
pub scale_words-fetch :
    (v : ℕ → ℕ) (scalar src n y : ℕ)
    → y < n * 8
    → get_or (scale_words scalar n (fetch v src (n * 8))) y 0 ≡ scaled v scalar src y
unfolding scaled scaled_word
scale_words-fetch v scalar src n y h =
    get_or-scale_words scalar n (fetch v src (n * 8)) y h
    ∙ ap (λ e. get_or (to_bytes 8 (u64 (scalar * of_bytes e))) (y % 8) 0)
        (take-drop-fetch v src (n * 8) (y / 8 * 8) (omega arith))

-- Scaled bytes depend on the eight bytes of their word only.
pub scaled_local :
    (v v1 : ℕ → ℕ) (scalar src src1 y y1 : ℕ)
    → src + y / 8 * 8 ≡ src1 + y1 / 8 * 8
    → y % 8 ≡ y1 % 8
    → ((i : ℕ) → i < 8 → v1 (src1 + y1 / 8 * 8 + i) ≡ v (src1 + y1 / 8 * 8 + i))
    → scaled v1 scalar src1 y1 ≡ scaled v scalar src y
unfolding scaled
scaled_local v v1 scalar src src1 y y1 e f h =
    ap (λ bs. get_or (to_bytes 8 (u64 (scalar * of_bytes bs))) (y1 % 8) 0)
      (fetch_ext v (src1 + y1 / 8 * 8) 8 (fetch v1 (src1 + y1 / 8 * 8) 8)
        (length-fetch v1 (src1 + y1 / 8 * 8) 8)
        λ i lt. get_or-fetch v1 (src1 + y1 / 8 * 8) 8 i lt ∙ h i lt)
    ∙ ap₂ (λ a i. get_or (to_bytes 8 (u64 (scalar * of_bytes (fetch v a 8)))) i 0) (sym e) (sym f)
