-- ===== src/Checksum/Laws.antt =====
-- util.cc: the sum of a block, the folding loop and the value of a checksum.
use computer_network_labs.Checksum.{add_byte, add, fold_loop, fold_fuel, value, InternetChecksum}
use computer_network_labs.Base.{
  ltb, if◌then◌else◌, length, AllBytes, ℕ, zero, suc, ◌+◌, ◌-◌, ◌*◌, ◌/◌, ◌%◌, ◌^◌, ◌≤◌, ◌<◌, ◌≡◌,
  refl, ap, ◌∙◌, ◌↔◌, ◌⊎◌, Bool, not, List, [], ◌∷◌, ◌++◌, arith,
}

-- The 16-bit words of a block of bytes, added up without bound; `p` says that a low byte comes first.
abbrev pub word_sum : Bool → List ℕ → ℕ
word_sum p [] = 0
word_sum p (b ∷ bs) = (if p then b else b * 256) + word_sum (not p) bs

abbrev pub parity_after : Bool → List ℕ → Bool
parity_after p [] = p
parity_after p (b ∷ bs) = parity_after (not p) bs

pub word_sum-le : (p : Bool) (bs : List ℕ) → AllBytes bs → word_sum p bs ≤ 0xff00 * length bs
word_sum-le p [] a = omega arith
word_sum-le p (b ∷ bs) a = ground (arith, word_sum-le (not p) bs a.1)

add_byte_lem :
    (c : InternetChecksum) (b : ℕ)
    → b < 256
    → c.sum + (if c.parity then b else b * 256) < 2 ^ 32
    → add_byte c b
      ≡ record { sum = c.sum + (if c.parity then b else b * 256); parity = not c.parity }
unfolding add_byte
add_byte_lem c b h k = ground arith

-- While the sum stays below 32 bits, `add` adds the block's words to it.
pub add_lem :
    (c : InternetChecksum) (bs : List ℕ)
    → AllBytes bs
    → c.sum + word_sum c.parity bs < 2 ^ 32
    → add c bs ≡ record { sum = c.sum + word_sum c.parity bs; parity = parity_after c.parity bs }
unfolding add
add_lem c [] a h = ground arith
add_lem c (b ∷ bs) a h = rw (add_byte_lem c b a.0 (omega arith)) (
    add_lem (record { sum = c.sum + (if c.parity then b else b * 256); parity = not c.parity }) bs
      a.1 (omega arith)
    ∙ ap (λ k. record { sum = k; parity = parity_after (not c.parity) bs }) (omega arith))

pub add-append : (c : InternetChecksum) (xs ys : List ℕ) → add c (xs ++ ys) ≡ add (add c xs) ys
unfolding add
add-append c [] ys = refl
add-append c (x ∷ xs) ys = add-append (add_byte c x) xs ys

pub word_sum-append :
    (p : Bool) (xs ys : List ℕ)
    → word_sum p (xs ++ ys) ≡ word_sum p xs + word_sum (parity_after p xs) ys
word_sum-append p [] ys = omega arith
word_sum-append p (x ∷ xs) ys = omega (arith, word_sum-append (not p) xs ys)

pub fold_once : ℕ → ℕ
fold_once s = s / 2 ^ 16 + s % 2 ^ 16

fold_once_lem : (s : ℕ) → (fold_once s % 0xffff ≡ s % 0xffff) × ((fold_once s ≡ 0) ↔ (s ≡ 0))
unfolding fold_once
fold_once_lem s = (omega arith, ((λ e. omega arith), (λ e. omega arith)))

fold_once-le : (s : ℕ) → s < 2 ^ 32 → (fold_once s ≤ 0x1fffe) × (fold_once (fold_once s) ≤ 0xffff)
unfolding fold_once
fold_once-le s h = omega arith

-- What the loop returns.
pub folded : ℕ → ℕ
folded s =
    if ltb 0xffff s
    then (if ltb 0xffff (fold_once s) then fold_once (fold_once s) else fold_once s)
    else s

-- Two rounds are enough: more fuel changes nothing.
fold_loop-eq-folded : (k s : ℕ) → s < 2 ^ 32 → fold_loop (suc (suc k)) s ≡ folded s
unfolding fold_loop folded fold_once
fold_loop-eq-folded zero s h = ground (arith, fold_once-le s)
fold_loop-eq-folded (suc k) s h = ground (arith, fold_once-le s)

folded_lem :
    (s : ℕ)
    → s < 2 ^ 32
    → (folded s ≤ 0xffff) × (folded s % 0xffff ≡ s % 0xffff) × ((folded s ≡ 0) ↔ (s ≡ 0))
unfolding folded
folded_lem s h = ground (arith, fold_once-le s, fold_once_lem s, fold_once_lem (fold_once s))

folded_cases : (s : ℕ) → s < 2 ^ 32 → ((s ≡ 0) × (folded s ≡ 0)) ⊎ ((0 < s) × (0 < folded s))
unfolding folded fold_once
folded_cases s h = grind arith

-- On a 32-bit sum the folding loop ends within its fuel: more fuel gives the same result, which has
-- 16 bits. It is the sum modulo 0xffff, and 0 only for 0.
pub fold_loop_total :
    (k s : ℕ)
    → s < 2 ^ 32
    → let r = fold_loop (fold_fuel + k) s in
      (r ≡ fold_loop fold_fuel s) × (r ≤ 0xffff) × (r % 0xffff ≡ s % 0xffff) × ((r ≡ 0) ↔ (s ≡ 0))
fold_loop_total k s h =
    let e : fold_fuel + k ≡ suc (suc k) = omega arith in
    rw (e, fold_loop-eq-folded k s h, fold_loop-eq-folded zero s h)
      (let (le, congruent, zero_iff) = folded_lem s h in (refl, le, congruent, zero_iff))

pub value-eq-folded : (c : InternetChecksum) → c.sum < 2 ^ 32 → value c ≡ 0xffff - folded c.sum
unfolding value
value-eq-folded c h = omega (arith, folded_lem c.sum h, fold_loop-eq-folded zero c.sum h)

-- While the 32-bit sum has room for it, adding the value of a checksum to its own sum makes the
-- value 0; the value has 16 bits.
pub value-add_value :
    (s : ℕ) (p q : Bool)
    → s + 0xffff < 2 ^ 32
    → let v = value (record { sum = s; parity = p }) in
      (v ≤ 0xffff) × (value (record { sum = s + v; parity = q }) ≡ 0)
value-add_value s p q h =
    rw
      (
        value-eq-folded (record { sum = s; parity = p }) (omega arith),
        value-eq-folded (record { sum = s + (0xffff - folded s); parity = q }) (omega arith),
      )
      (
        omega arith,
        omega (
          arith,
          folded_lem s (omega arith),
          folded_cases s (omega arith),
          folded_lem (s + (0xffff - folded s)) (omega arith),
          folded_cases (s + (0xffff - folded s)) (omega arith),
        ),
      )
