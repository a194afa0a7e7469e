-- ===== src/ByteStream/Window.antt =====
-- The cells of a ring from a running index on, and what the loops of byte_stream.cc do to them.
use native.Mathlib.Nat.{mod-add-mod, mod-eq_of_lt, mod-eq-sub-mod, mod-lt, add-mod_right}
use native.Mathlib.Decide.{dec_lt}
use computer_network_labs.Base.{
  min-suc-suc, ℕ, zero, suc, ◌+◌, ◌-◌, ◌%◌, ◌^◌, ◌≤◌, ◌<◌, min, ◌≡◌, ◌≢◌, refl, sym, ap, ap₂, ◌∙◌,
  arith, List, [], ◌∷◌, ◌++◌, length, take, drop, append_assoc, append-nil, sign_extend, add32,
}
use computer_network_labs.ByteStream.{set_cell, write_loop, copy_loop}

abbrev pub window : ℕ → (ℕ → ℕ) → ℕ → ℕ → List ℕ
window cap cells i zero = []
window cap cells i (suc n) = cells (i % cap) ∷ window cap cells (i + 1) n

pub length-window : (cap : ℕ) (cells : ℕ → ℕ) (i n : ℕ) → length (window cap cells i n) ≡ n
length-window cap cells i zero = refl
length-window cap cells i (suc n) = ap suc (length-window cap cells (i + 1) n)

-- Going once round changes nothing.
pub window-add_cap :
    (cap : ℕ) (cells : ℕ → ℕ) (i n : ℕ) → window cap cells (i + cap) n ≡ window cap cells i n
window-add_cap cap cells i zero = refl
window-add_cap cap cells i (suc n) =
    ap₂ ◌∷◌ (ap cells (add-mod_right i cap))
      (ap (λ k. window cap cells k n) (omega arith) ∙ window-add_cap cap cells (i + 1) n)

pub take-window :
    (cap : ℕ) (cells : ℕ → ℕ) (i n m : ℕ)
    → take m (window cap cells i n) ≡ window cap cells i (min n m)
take-window cap cells i zero zero = refl
take-window cap cells i zero (suc m) =
    let e : 0 ≡ min 0 (suc m) = omega arith in ap (window cap cells i) e
take-window cap cells i (suc n) zero =
    let e : 0 ≡ min (suc n) 0 = omega arith in ap (window cap cells i) e
take-window cap cells i (suc n) (suc m) =
    rw (take-window cap cells (i + 1) n m)
      (ap (window cap cells i) {x = suc (min n m)} (sym (min-suc-suc n m)))

pub drop-window :
    (cap : ℕ) (cells : ℕ → ℕ) (i n m : ℕ)
    → drop m (window cap cells i n) ≡ window cap cells (i + min n m) (n - min n m)
drop-window cap cells i zero zero = refl
drop-window cap cells i zero (suc m) =
    let e : 0 ≡ 0 - min 0 (suc m) = omega arith in ap (window cap cells (i + min 0 (suc m))) e
drop-window cap cells i (suc n) zero =
    let e : i ≡ i + min (suc n) 0 = omega arith in
    let e' : suc n ≡ suc n - min (suc n) 0 = omega arith in ap₂ (window cap cells) e e'
drop-window cap cells i (suc n) (suc m) =
    drop-window cap cells (i + 1) n m ∙ ap₂ (window cap cells) (omega arith) (omega arith)

-- The copying loop reads a window, if its index stays an `int`.
pub copy_loop-eq :
    (cap : ℕ) (cells : ℕ → ℕ) (i n : ℕ)
    → i + n < 2 ^ 31
    → copy_loop cap cells i n ≡ window cap cells i n
unfolding copy_loop
copy_loop-eq cap cells i zero h = refl
copy_loop-eq cap cells i (suc n) h = ap₂ ◌∷◌ (ap (λ k. cells (k % cap)) (ground arith)) (
    ap (λ k. copy_loop cap cells k n) (omega arith)
    ∙ copy_loop-eq cap cells (i + 1) n (omega arith))

-- Fewer than `cap` steps from an index do not come back to its cell.
add-mod-ne : (cap i k : ℕ) → suc k < cap → (i + suc k) % cap ≢ i % cap
add-mod-ne cap i k h = elim (dec_lt (i % cap + suc k) cap) [
  | yes p ↦ omega (arith, mod-add-mod i cap (suc k), mod-eq_of_lt p)
  | no p ↦ omega (
    arith,
    mod-add-mod i cap (suc k),
    mod-lt i {m = cap} (omega arith),
    mod-eq-sub-mod {n = i % cap + suc k} {m = cap} (omega arith),
    mod-eq_of_lt {n = i % cap + suc k - cap} {m = cap}
        (omega (arith, mod-lt i {m = cap} (omega arith))),
  )
]

set_cell_self : (cells : ℕ → ℕ) (i v : ℕ) → set_cell cells i v i ≡ v
unfolding set_cell
set_cell_self cells i v = ground arith

set_cell_ne : (cells : ℕ → ℕ) (i v j : ℕ) → i ≢ j → set_cell cells i v j ≡ cells j
unfolding set_cell
set_cell_ne cells i v j h = ground arith

-- Writing just past a window extends it by that byte.
window-set_cell :
    (cap : ℕ) (cells : ℕ → ℕ) (x i n : ℕ)
    → n < cap
    → window cap (set_cell cells ((i + n) % cap) x) i (suc n) ≡ window cap cells i n ++ (x ∷ [])
window-set_cell cap cells x i zero h =
    ap (λ k. set_cell cells (k % cap) x (i % cap) ∷ []) (omega arith)
    ∙ ap (λ y. y ∷ []) (set_cell_self cells (i % cap) x)
window-set_cell cap cells x i (suc n) h = ap₂ ◌∷◌ (set_cell_ne cells _ x _ (add-mod-ne cap i n h)) (
    ap (λ k. window cap (set_cell cells (k % cap) x) (i + 1) (suc n)) (omega arith)
    ∙ window-set_cell cap cells x (i + 1) n (omega arith))

-- The writing loop appends to a window, if there is room and its index stays an `int`.
pub window-write_loop :
    (cap : ℕ) (cells : ℕ → ℕ) (i n : ℕ) (xs : List ℕ)
    → n + length xs ≤ cap
    → i + n + length xs < 2 ^ 31
    → window cap (write_loop cap cells (i + n) xs) i (n + length xs) ≡ window cap cells i n ++ xs
unfolding write_loop
window-write_loop cap cells i n [] h k =
    ap (window cap cells i) (omega arith) ∙ sym (append-nil (window cap cells i n))
window-write_loop cap cells i n (x ∷ xs) h k =
    rw (index, next)
      (ap (window cap (write_loop cap stored (i + suc n) xs) i) (omega arith)
        ∙ window-write_loop cap stored i (suc n) xs (omega arith) (omega arith)
        ∙ ap (λ l. l ++ xs) (window-set_cell cap cells x i n (omega arith))
        ∙ append_assoc (window cap cells i n) (x ∷ []) xs)
  where
    index : sign_extend (i + n) ≡ i + n
    index = ground arith

    next : add32 (i + n) 1 ≡ i + suc n
    next = omega arith

    stored : ℕ → ℕ
    stored = set_cell cells ((i + n) % cap) x
