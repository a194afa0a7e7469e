-- ===== src/Buffer/Views.antt =====
-- buffer.cc against plain strings: what the pieces show, one after the other.
use computer_network_labs.Base.{
  ltb, ◌==◌, ltb→lt, ltb→le, le→ltb, ==→eq, Bool-cases, if_ind, length, drop, length-append,
  length-drop, drop_all, drop-drop, drop-nil, ℕ, zero, suc, ◌+◌, ◌-◌, ◌≤◌, ◌<◌, ◌≡◌, refl, sym, ap,
  ap₂, ◌∙◌, subst, inl, inr, Option, none, some, List, [], ◌∷◌, ◌++◌, append-nil, append_assoc,
  arith,
}
use computer_network_labs.Buffer.{
  visible, str, size, release, remove_prefix, BufferList, BufferViewList, append, concat_loop,
  concatenate, size_loop, list_size, put_front, list_remove_prefix, views, view_remove_prefix,
  Buffer,
}

-- The offset lies within the storage.
pub data WithinStorage : Option (List ℕ) → ℕ → Type 0 where
  released : (offset : ℕ) → WithinStorage none offset
  stored : (bytes : List ℕ) (offset : ℕ) → offset ≤ length bytes → WithinStorage (some bytes) offset

abbrev pub IsValid : Buffer → Type 0
IsValid b = WithinStorage b.storage b.starting_offset

abbrev pub AllValid : BufferList → Type 0
AllValid [] = Unit {0}
AllValid (b ∷ buffers) = IsValid b × AllValid buffers

visible-release :
    (storage : Option (List ℕ)) (offset n : ℕ)
    → WithinStorage storage offset
    → n ≤ length (visible storage offset)
    → (visible (release (offset + n) storage) (offset + n) ≡ drop n (visible storage offset))
      × WithinStorage (release (offset + n) storage) (offset + n)
unfolding visible release
visible-release none offset n w h = (sym (drop-nil ℕ n), released (offset + n))
visible-release (some bytes) offset n (stored l offset' k) h =
    if_ind
      (λ (kept : Option (List ℕ)).
        (visible kept (offset + n) ≡ drop n (drop offset bytes)) × WithinStorage kept (offset + n))
      (offset + n == length bytes)
      (λ e. (
        sym (drop-drop n offset bytes ∙ drop_all (offset + n) bytes (omega (arith, ==→eq _ _ e))),
        released (offset + n),
      ))
      (λ _. (
        sym (drop-drop n offset bytes),
        stored bytes (offset + n) (omega (arith, length-drop offset bytes)),
      ))

-- Discarding bytes that a Buffer shows leaves the others; discarding more throws.
remove_prefix-str :
    (n : ℕ) (b : Buffer)
    → IsValid b
    → n ≤ size b
    → (q : Buffer) × (remove_prefix n b ≡ some q) × (str q ≡ drop n (str b)) × IsValid q
unfolding remove_prefix str size
remove_prefix-str n b v h =
    let (shown, valid) = visible-release b.storage b.starting_offset n v h in
    (
      record b {
        starting_offset = b.starting_offset + n;
        storage = release (b.starting_offset + n) b.storage;
      },
      rw (le→ltb (length (visible b.storage b.starting_offset)) n h) refl,
      shown,
      valid,
    )

-- The bytes of the whole list.
abbrev pub shown : BufferList → List ℕ
shown [] = []
shown (b ∷ buffers) = str b ++ shown buffers

concat_loop-shown :
    (ret : List ℕ) (buffers : BufferList) → concat_loop ret buffers ≡ ret ++ shown buffers
unfolding concat_loop
concat_loop-shown ret [] = sym (append-nil ret)
concat_loop-shown ret (b ∷ buffers) =
    concat_loop-shown (ret ++ str b) buffers ∙ append_assoc ret (str b) (shown buffers)

concatenate-shown : (buffers : BufferList) → concatenate buffers ≡ shown buffers
unfolding concatenate
concatenate-shown buffers = concat_loop-shown [] buffers

size_loop-shown :
    (ret : ℕ) (buffers : BufferList) → size_loop ret buffers ≡ ret + length (shown buffers)
unfolding size_loop size
size_loop-shown ret [] = omega arith
size_loop-shown ret (b ∷ buffers) =
    omega (arith, size_loop-shown (ret + size b) buffers, length-append (str b) (shown buffers))

list_size-shown : (buffers : BufferList) → list_size buffers ≡ length (shown buffers)
unfolding list_size
list_size-shown buffers = omega (arith, size_loop-shown 0 buffers)

shown-append-one :
    (buffers : BufferList) (b : Buffer) → shown (buffers ++ (b ∷ [])) ≡ shown buffers ++ str b
shown-append-one [] b = append-nil (str b)
shown-append-one (c ∷ buffers) b =
    ap (λ l. str c ++ l) (shown-append-one buffers b)
    ∙ sym (append_assoc (str c) (shown buffers) (str b))

append-shown :
    (buffers other : BufferList) → shown (append buffers other) ≡ shown buffers ++ shown other
unfolding append
append-shown buffers [] = sym (append-nil (shown buffers))
append-shown buffers (b ∷ other) =
    append-shown (buffers ++ (b ∷ [])) other
    ∙ ap (λ l. l ++ shown other) (shown-append-one buffers b)
    ∙ append_assoc (shown buffers) (str b) (shown other)

-- Dropping from two parts, at or behind the first, and inside of it.
drop-append_right :
    (n : ℕ) (xs ys : List ℕ) → length xs ≤ n → drop n (xs ++ ys) ≡ drop (n - length xs) ys
drop-append_right n [] ys h = ap (λ k. drop k ys) {x = n} (omega arith)
drop-append_right zero (x ∷ xs) ys h = absurd (omega arith)
drop-append_right (suc n) (x ∷ xs) ys h =
    drop-append_right n xs ys (omega arith) ∙ ap (λ k. drop k ys) {x = n - length xs} (omega arith)

drop-append_left : (n : ℕ) (xs ys : List ℕ) → n ≤ length xs → drop n (xs ++ ys) ≡ drop n xs ++ ys
drop-append_left zero xs ys h = refl
drop-append_left (suc n) [] ys h = absurd (omega arith)
drop-append_left (suc n) (x ∷ xs) ys h = drop-append_left n xs ys (omega arith)

-- What discarding does to a list of Buffers.
abbrev Discards : ℕ → BufferList → Option BufferList → Type 0
Discards n buffers none = length (shown buffers) < n
Discards n buffers (some rest) =
    (n ≤ length (shown buffers)) × (shown rest ≡ drop n (shown buffers)) × AllValid rest

-- A Buffer that goes whole.
Discards-skip :
    (n : ℕ) (b : Buffer) (buffers : BufferList) (o : Option BufferList)
    → size b ≤ n
    → Discards (n - size b) buffers o
    → Discards n (b ∷ buffers) o
unfolding size
Discards-skip n b buffers none h d = omega (arith, length-append (str b) (shown buffers))
Discards-skip n b buffers (some rest) h (d, e, v) = (
  omega (arith, length-append (str b) (shown buffers)),
  e ∙ sym (drop-append_right n (str b) (shown buffers) h),
  v,
)

-- A Buffer that loses its front.
Discards-front :
    (n : ℕ) (b : Buffer) (buffers : BufferList)
    → n < size b
    → IsValid b
    → AllValid buffers
    → Discards n (b ∷ buffers) (put_front (remove_prefix n b) buffers)
unfolding size put_front
Discards-front n b buffers h w v =
    let (q, e, kept, valid) = remove_prefix-str n b w (omega arith) in
    subst (λ o. Discards n (b ∷ buffers) (put_front o buffers)) (sym e)
      (
        omega (arith, length-append (str b) (shown buffers)),
        ap (λ l. l ++ shown buffers) kept
            ∙ sym (drop-append_left n (str b) (shown buffers) (omega arith)),
        (valid, v),
      )

list_remove_prefix-Discards :
    (n : ℕ) (buffers : BufferList)
    → AllValid buffers
    → Discards n buffers (list_remove_prefix n buffers)
unfolding list_remove_prefix
list_remove_prefix-Discards zero buffers v = (omega arith, refl, v)
list_remove_prefix-Discards (suc n) [] v = omega arith
list_remove_prefix-Discards (suc n) (b ∷ buffers) (w, v) =
    if_ind (Discards (suc n) (b ∷ buffers)) (ltb (suc n) (size b))
      (λ e. Discards-front (suc n) b buffers (ltb→lt _ _ e) w v)
      (λ e.
        Discards-skip (suc n) b buffers (list_remove_prefix (suc n - size b) buffers) (ltb→le _ _ e)
          (list_remove_prefix-Discards (suc n - size b) buffers v))

abbrev pub views_of : Option BufferList → Option BufferViewList
views_of none = none
views_of (some buffers) = some (views buffers)

remove_prefix-views :
    (n : ℕ) (b : Buffer) (buffers : BufferList)
    → IsValid b
    → n < size b
    → some (drop n (str b) ∷ views buffers) ≡ views_of (put_front (remove_prefix n b) buffers)
unfolding put_front views
remove_prefix-views n b buffers w h =
    let (q, e, kept, _valid) = remove_prefix-str n b w (omega arith) in
    ap (λ l. some (l ∷ views buffers)) (sym kept) ∙ ap (λ o. views_of (put_front o buffers)) (sym e)

-- A list of views loses bytes as the list of Buffers does.
view_remove_prefix-views :
    (n : ℕ) (buffers : BufferList)
    → AllValid buffers
    → view_remove_prefix n (views buffers) ≡ views_of (list_remove_prefix n buffers)
unfolding view_remove_prefix list_remove_prefix views
view_remove_prefix-views zero buffers v = refl
view_remove_prefix-views (suc n) [] v = refl
view_remove_prefix-views (suc n) (b ∷ buffers) (w, v) =
    elim (Bool-cases (ltb (suc n) (length (str b)))) [
      | inl e ↦ rw (size, e) (remove_prefix-views (suc n) b buffers w (ltb→lt _ _ e))
      | inr e ↦ rw (size, e) (view_remove_prefix-views (suc n - length (str b)) buffers v)
    ]

pub append-concatenate :
    (buffers other : BufferList)
    → (concatenate (append buffers other) ≡ concatenate buffers ++ concatenate other)
      × (list_size buffers ≡ length (concatenate buffers))
append-concatenate buffers other = (
  concatenate-shown (append buffers other)
      ∙ append-shown buffers other
      ∙ sym (ap₂ ◌++◌ (concatenate-shown buffers) (concatenate-shown other)),
  list_size-shown buffers ∙ ap length (sym (concatenate-shown buffers)),
)

-- The bytes that a list that has lost `n` of them shows, or too many to lose.
abbrev pub Loses : ℕ → BufferList → Option BufferList → Type 0
Loses n buffers none = list_size buffers < n
Loses n buffers (some rest) =
    (n ≤ list_size buffers) × (concatenate rest ≡ drop n (concatenate buffers)) × AllValid rest

Discards-Loses :
    (n : ℕ) (buffers : BufferList) (o : Option BufferList)
    → Discards n buffers o
    → Loses n buffers o
Discards-Loses n buffers none d = omega (arith, list_size-shown buffers)
Discards-Loses n buffers (some rest) (d, e, v) = (
  omega (arith, list_size-shown buffers),
  concatenate-shown rest ∙ e ∙ ap (drop n) (sym (concatenate-shown buffers)),
  v,
)

-- Let the offset of each Buffer of a list lie within its storage. Discarding n bytes throws when
-- the list has fewer, and otherwise leaves Buffers with such offsets whose concatenation is the old
-- one without its first n bytes; a list of views over the Buffers throws just when the list does,
-- and otherwise becomes the views over what is left.
pub list_remove_prefix-Loses :
    (n : ℕ) (buffers : BufferList)
    → AllValid buffers
    → Loses n buffers (list_remove_prefix n buffers)
      × (view_remove_prefix n (views buffers) ≡ views_of (list_remove_prefix n buffers))
list_remove_prefix-Loses n buffers v = (
  Discards-Loses n buffers _ (list_remove_prefix-Discards n buffers v),
  view_remove_prefix-views n buffers v,
)
