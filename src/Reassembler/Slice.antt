-- ===== src/Reassembler/Slice.antt =====
-- Excerpts of a stream: the bytes of `src` from an index on.
use computer_network_labs.Reassembler.{Segment}
use computer_network_labs.Base.{
  min-suc-suc, length, take, drop, length-append, length-take, ℕ, zero, suc, ◌+◌, ◌-◌, ◌≤◌, min,
  ◌≡◌, refl, sym, ap, ap₂, ◌∙◌, List, [], ◌∷◌, ◌++◌, arith,
}

abbrev pub slice : (ℕ → ℕ) → ℕ → ℕ → List ℕ
slice src a zero = []
slice src a (suc n) = src a ∷ slice src (a + 1) n

module _ (src : ℕ → ℕ) where
  pub length-slice : (a n : ℕ) → length (slice src a n) ≡ n
  length-slice a zero = refl
  length-slice a (suc n) = ap suc (length-slice (a + 1) n)

  pub slice-append : (a n m : ℕ) → slice src a n ++ slice src (a + n) m ≡ slice src a (n + m)
  slice-append a zero m = ap₂ (slice src) (omega arith) (omega arith)
  slice-append a (suc n) m =
      ap (λ l. src a ∷ l)
        (ap (λ k. slice src (a + 1) n ++ slice src k m) (omega arith) ∙ slice-append (a + 1) n m)
      ∙ ap (slice src a) {x = suc (n + m)} (omega arith)

  pub take-slice : (k a n : ℕ) → k ≤ n → take k (slice src a n) ≡ slice src a k
  take-slice zero a n h = refl
  take-slice (suc k) a zero h = absurd (omega arith)
  take-slice (suc k) a (suc n) h = ap (λ l. src a ∷ l) (take-slice k (a + 1) n (omega arith))

  pub take-slice-min : (k a n : ℕ) → take k (slice src a n) ≡ slice src a (min n k)
  take-slice-min zero a n = let e : 0 ≡ min n 0 = omega arith in ap (slice src a) e
  take-slice-min (suc k) a zero = let e : 0 ≡ min 0 (suc k) = omega arith in ap (slice src a) e
  take-slice-min (suc k) a (suc n) =
      ap (λ l. src a ∷ l) (take-slice-min k (a + 1) n)
      ∙ ap (slice src a) {x = suc (min n k)} (sym (min-suc-suc n k))

  pub drop-slice : (k a n : ℕ) → k ≤ n → drop k (slice src a n) ≡ slice src (a + k) (n - k)
  drop-slice zero a n h = ap₂ (slice src) {x = a} {u = n} (omega arith) (omega arith)
  drop-slice (suc k) a zero h = absurd (omega arith)
  drop-slice (suc k) a (suc n) h =
      drop-slice k (a + 1) n (omega arith) ∙ ap₂ (slice src) (omega arith) (omega arith)

  pub drop-slice-min : (m a n : ℕ) → drop m (slice src a n) ≡ slice src (a + min n m) (n - min n m)
  drop-slice-min zero a n = ap₂ (slice src) {x = a} {u = n} (omega arith) (omega arith)
  drop-slice-min (suc m) a zero =
      let e : 0 ≡ 0 - min 0 (suc m) = omega arith in ap (slice src (a + min 0 (suc m))) e
  drop-slice-min (suc m) a (suc n) =
      drop-slice-min m (a + 1) n ∙ ap₂ (slice src) (omega arith) (omega arith)

  -- The bytes are those of the stream from the index on.
  abbrev pub Excerpt : ℕ → List ℕ → Type 0
  Excerpt index bytes = bytes ≡ slice src index (length bytes)

  pub Excerpt-take :
      (k a : ℕ) (bs : List ℕ) → k ≤ length bs → Excerpt a bs → take k bs ≡ slice src a k
  Excerpt-take k a bs h e = ap (take k) e ∙ take-slice k a (length bs) h

  pub Excerpt-drop :
      (k a : ℕ) (bs : List ℕ)
      → k ≤ length bs
      → Excerpt a bs
      → drop k bs ≡ slice src (a + k) (length bs - k)
  Excerpt-drop k a bs h e = ap (drop k) e ∙ drop-slice k a (length bs) h

  -- The part of an excerpt before `b`, joined to an excerpt at `b`.
  pub Excerpt-join :
      (a b : ℕ) (xs ys : List ℕ)
      → a ≤ b
      → b ≤ a + length xs
      → Excerpt a xs
      → Excerpt b ys
      → Excerpt a (take (b - a) xs ++ ys) × (length (take (b - a) xs ++ ys) ≡ b - a + length ys)
  Excerpt-join a b xs ys h k e f = (
    rw (size, Excerpt-take (b - a) a xs (omega arith) e)
        (ap (λ l. slice src a (b - a) ++ l)
            (f ∙ ap (λ i. slice src i (length ys)) {y = a + (b - a)} (omega arith))
          ∙ slice-append a (b - a) (length ys)),
    size,
  )
    where
      size : length (take (b - a) xs ++ ys) ≡ b - a + length ys
      size = omega (arith, length-append (take (b - a) xs) ys, length-take (b - a) xs)

module _ (src : ℕ → ℕ) (limit : ℕ) where
  -- The bytes lie below `limit` in the stream and are its bytes.
  pub record Fits (index : ℕ) (bytes : List ℕ) : Type 0 where
    pub within : index + length bytes ≤ limit
    pub excerpt : Excerpt src index bytes

  abbrev pub AllFit : List Segment → Type 0
  AllFit [] = Unit {0}
  AllFit ((k, v) ∷ segs) = Fits k v × AllFit segs
