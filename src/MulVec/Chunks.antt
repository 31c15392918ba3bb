-- ===== src/MulVec/Chunks.antt =====
-- One chunk of `MulVecByScalar` (userpim_functions.cc), and how chunks compose.
use sst_pim.Prelude.{
  ℕ, ◌+◌, ◌-◌, ◌*◌, ◌/◌, ◌%◌, ◌^◌, ◌≤◌, ◌<◌, ◌≡◌, ◌⊎◌, refl, ◌∙◌, ap, arith, leb, ltb, ◌&&◌, true,
  false, List, [], ◌∷◌, ◌++◌, length, get_or, resize, resize_same, length-resize, if◌then◌else◌, ok,
  inl, inr,
}
use sst_pim.Fsm.{DmaState, MulVecByScalar}
use sst_pim.Tclpim.{Tclpim, DramRequest, mul_read, mul_write}
use sst_pim.MemCopy.{chunk_words, next_state, issue}
use sst_pim.Memory.{Backing, fetch, fetch_ext}
use sst_pim.MulVec.{clock, clock_state, complete_read, complete_write, scale_words}
use sst_pim.MulVec.Scale.{scaled, scaled_local, scale_words-fetch, length-scale_words}
use sst_pim.MulVec.Machine.{Machine, complete, answer, answer_all, cycle}

-- The bytes of one view after a range was scaled into another, in the view before.
abbrev pub Scaled : (ℕ → ℕ) → (ℕ → ℕ) → ℕ → ℕ → ℕ → ℕ → Type 0
Scaled v v' scalar src dst n =
    (x : ℕ) → v' x ≡ (if leb dst x && ltb x (dst + n) then scaled v scalar src (x - dst) else v x)

outside :
    (dst m a p q : ℕ)
    → (a < dst) ⊎ (dst + m ≤ a)
    → (if leb dst a && ltb a (dst + m) then p else q) ≡ q
outside dst m a p q h = ground arith

-- Past a part that was written, the words still to be read are untouched.
moved :
    (v v1 : ℕ → ℕ) (scalar src dst m n x : ℕ)
    → m ≤ n
    → m % 8 ≡ 0
    → n % 8 ≡ 0
    → (dst ≤ src) ⊎ (src + n ≤ dst)
    → Scaled v v1 scalar src dst m
    → dst + m ≤ x
    → x < dst + n
    → scaled v1 scalar (src + m) (x - (dst + m)) ≡ scaled v scalar src (x - dst)
moved v v1 scalar src dst m n x h d8 e8 o c l u =
    scaled_local v v1 scalar src (src + m) (x - dst) (x - (dst + m)) (omega arith) (omega arith)
      λ i lt. untouched i lt (c (src + m + (x - (dst + m)) / 8 * 8 + i))
  where
    untouched :
        (i : ℕ)
        → i < 8
        → v1 (src + m + (x - (dst + m)) / 8 * 8 + i) ≡ (
            if leb dst (src + m + (x - (dst + m)) / 8 * 8 + i)
              && ltb (src + m + (x - (dst + m)) / 8 * 8 + i) (dst + m)
            then scaled v scalar src (src + m + (x - (dst + m)) / 8 * 8 + i - dst)
            else v (src + m + (x - (dst + m)) / 8 * 8 + i))
        → v1 (src + m + (x - (dst + m)) / 8 * 8 + i) ≡ v (src + m + (x - (dst + m)) / 8 * 8 + i)
    untouched i lt e =
        e
        ∙ outside dst m (src + m + (x - (dst + m)) / 8 * 8 + i)
            (scaled v scalar src (src + m + (x - (dst + m)) / 8 * 8 + i - dst))
            (v (src + m + (x - (dst + m)) / 8 * 8 + i)) (clear i lt o)
      where
        clear :
            (i : ℕ)
            → i < 8
            → (dst ≤ src) ⊎ (src + n ≤ dst)
            → (src + m + (x - (dst + m)) / 8 * 8 + i < dst)
              ⊎ (dst + m ≤ src + m + (x - (dst + m)) / 8 * 8 + i)
        clear i lt (inl below) = inr (omega arith)
        clear i lt (inr above) = inl (omega arith)

pub Scaled-trans :
    (v v1 v2 : ℕ → ℕ) (scalar src dst m n : ℕ)
    → m ≤ n
    → m % 8 ≡ 0
    → n % 8 ≡ 0
    → (dst ≤ src) ⊎ (src + n ≤ dst)
    → Scaled v v1 scalar src dst m
    → Scaled v1 v2 scalar (src + m) (dst + m) (n - m)
    → Scaled v v2 scalar src dst n
Scaled-trans v v1 v2 scalar src dst m n h d8 e8 o c d x =
    ground (arith, c x, d x, moved v v1 scalar src dst m n x h d8 e8 o c)

-- What the function keeps after a chunk.
abbrev pub next_chunk : MulVecByScalar → MulVecByScalar
next_chunk m =
    let left = m.word_counter - chunk_words m.word_counter in
    record m {
      dma_state = next_state left;
      word_counter = left;
      src = m.src + chunk_words m.word_counter * 8;
      dst = m.dst + chunk_words m.word_counter * 8;
    }

pub clock_of_read :
    (t : Tclpim) (m : MulVecByScalar)
    → m.dma_state ≡ DmaState.read
    → m.src + chunk_words m.word_counter * 8 < 2 ^ 64
    → clock t m
      ≡ ok (
        issue
            (record t { buffer = resize t.buffer (chunk_words m.word_counter * 8) 0 })
            m.src
            false
            mul_read,
        record m { dma_state = DmaState.waiting; src = m.src + chunk_words m.word_counter * 8 },
        false,
      )
unfolding clock clock_state
clock_of_read t m st z = ground arith

pub clock_of_write :
    (t : Tclpim) (m : MulVecByScalar)
    → m.dma_state ≡ DmaState.write
    → length t.buffer ≡ chunk_words m.word_counter * 8
    → m.dst + chunk_words m.word_counter * 8 < 2 ^ 64
    → clock t m
      ≡ ok (
        issue t m.dst true (mul_write (next_state (m.word_counter - chunk_words m.word_counter))),
        record m {
          dma_state = DmaState.waiting;
          word_counter = m.word_counter - chunk_words m.word_counter;
          dst = m.dst + chunk_words m.word_counter * 8;
        },
        false,
      )
unfolding clock clock_state
clock_of_write t m st l z =
    ground (arith, resize_same t.buffer (chunk_words m.word_counter * 8) 0 l)

module _ (b : Backing) where
  open b use {Store, byte, set, get, length-get, get_or-get, byte-set}

  answer_read :
      (old : List DramRequest) (a n : ℕ) (t : Tclpim) (m : MulVecByScalar) (s : Store)
      → old ≡ []
      → length t.buffer ≡ n * 8
      → answer_all b
          (old
            ++ (record { address = a; payload = t.buffer; is_write = false; completion = mul_read }
                ∷ []))
          (record { device = t; mul = m; store = s })
        ≡ ok (record {
          device = record t { buffer = scale_words m.scalar n (get s a (n * 8)) };
          mul = record m { dma_state = DmaState.write };
          store = s;
        })
  unfolding answer_all answer complete complete_read
  answer_read old a n t m s o l = rw (o, l) (rw (length-get s a (n * 8)) (ground arith))

  answer_write :
      (old : List DramRequest) (a : ℕ) (next : DmaState) (t : Tclpim) (m : MulVecByScalar)
      (s : Store)
      → old ≡ []
      → answer_all b
          (old
            ++ (record {
              address = a;
              payload = t.buffer;
              is_write = true;
              completion = mul_write next;
            }
                ∷ []))
          (record { device = t; mul = m; store = s })
        ≡ ok (record { device = t; mul = record m { dma_state = next }; store = set s a t.buffer })
  unfolding answer_all answer complete complete_write
  answer_write old a next t m s o = rw o

  -- One chunk: a read that is answered, and a write that is answered.
  chunk_read :
      (d : Tclpim) (m : MulVecByScalar) (s : Store)
      → d.issued ≡ []
      → m.dma_state ≡ DmaState.read
      → m.src + chunk_words m.word_counter * 8 < 2 ^ 64
      → cycle b (record { device = d; mul = m; store = s })
        ≡ ok (
          record {
            device = record d {
              buffer =
                  scale_words m.scalar
                    (chunk_words m.word_counter)
                    (get s m.src (chunk_words m.word_counter * 8));
            };
            mul = record m {
              dma_state = DmaState.write;
              src = m.src + chunk_words m.word_counter * 8;
            };
            store = s;
          },
          false,
        )
  unfolding cycle issue
  chunk_read d m s i st z =
      let n : ℕ = chunk_words m.word_counter in
      rw (clock_of_read d m st z) (
        rw
          (answer_read d.issued m.src n
            (record d { buffer = resize d.buffer (n * 8) 0; issued = [] })
            (record m { dma_state = DmaState.waiting; src = m.src + n * 8 }) s i
            (length-resize d.buffer (n * 8) 0))
          (ground arith))

  chunk_write :
      (d : Tclpim) (m : MulVecByScalar) (s : Store)
      → d.issued ≡ []
      → m.dma_state ≡ DmaState.write
      → length d.buffer ≡ chunk_words m.word_counter * 8
      → m.dst + chunk_words m.word_counter * 8 < 2 ^ 64
      → cycle b (record { device = d; mul = m; store = s })
        ≡ ok (
          record {
            device = d;
            mul = record m {
              dma_state = next_state (m.word_counter - chunk_words m.word_counter);
              word_counter = m.word_counter - chunk_words m.word_counter;
              dst = m.dst + chunk_words m.word_counter * 8;
            };
            store = set s m.dst d.buffer;
          },
          false,
        )
  unfolding cycle issue
  chunk_write d m s i st l z =
      let left : ℕ = m.word_counter - chunk_words m.word_counter in
      rw (clock_of_write d m st l z) (
        rw
          (answer_write d.issued m.dst (next_state left) (record d { issued = [] })
            (record m {
              dma_state = DmaState.waiting;
              word_counter = left;
              dst = m.dst + chunk_words m.word_counter * 8;
            })
            s i)
          (ground arith))

  -- The bytes after the write of a chunk that was read and scaled.
  pub chunk-Scaled :
      (m : MulVecByScalar) (s : Store)
      → let n = chunk_words m.word_counter in
        Scaled
          (byte s)
          (byte (set s m.dst (scale_words m.scalar n (get s m.src (n * 8)))))
          m.scalar
          m.src
          m.dst
          (n * 8)
  chunk-Scaled m s x =
      let n : ℕ = chunk_words m.word_counter in
      let bs : List ℕ = scale_words m.scalar n (get s m.src (n * 8)) in
      let l : length bs ≡ n * 8 = length-scale_words m.scalar n (get s m.src (n * 8)) in
      let g : get s m.src (n * 8) ≡ fetch (byte s) m.src (n * 8) =
        fetch_ext (byte s) m.src (n * 8) (get s m.src (n * 8)) (length-get s m.src (n * 8))
          λ j lt. get_or-get s m.src (n * 8) j lt in
      ground (
        arith,
        l,
        byte-set s m.dst bs x,
        ap (λ e. get_or (scale_words m.scalar n e) (x - m.dst) 0) g,
        scale_words-fetch (byte s) m.scalar m.src n (x - m.dst),
      )

  -- A chunk as a whole, in terms of the bytes of the memory.
  pub chunk_lem :
      (d : Tclpim) (m : MulVecByScalar) (s : Store)
      → d.issued ≡ []
      → m.dma_state ≡ DmaState.read
      → m.src + chunk_words m.word_counter * 8 < 2 ^ 64
      → m.dst + chunk_words m.word_counter * 8 < 2 ^ 64
      → (d' : Tclpim) × (s' : Store) × (mid : Machine b) × (cycle b
            (record { device = d; mul = m; store = s })
          ≡ ok (mid, false))
        × (cycle b mid ≡ ok (record { device = d'; mul = next_chunk m; store = s' }, false))
        × (d'.issued ≡ [])
        × Scaled (byte s) (byte s') m.scalar m.src m.dst (chunk_words m.word_counter * 8)
  chunk_lem d m s i st z y =
      let n : ℕ = chunk_words m.word_counter in
      let bs : List ℕ = scale_words m.scalar n (get s m.src (n * 8)) in
      let d' : Tclpim = record d { buffer = bs } in
      let m' : MulVecByScalar = record m { dma_state = DmaState.write; src = m.src + n * 8 } in
      let l : length bs ≡ n * 8 = length-scale_words m.scalar n (get s m.src (n * 8)) in
      (
        d',
        set s m.dst bs,
        record { device = d'; mul = m'; store = s },
        chunk_read d m s i st z,
        chunk_write d' m' s i refl l y,
        i,
        chunk-Scaled m s,
      )
