-- ===== src/Reassembler/MergeSound.antt =====
-- merge_segments of stream_reassembler.cc and the excerpts of the stream that the cache holds.
use computer_network_labs.Reassembler.{
  Segment, erase, erase_all, assign, join_right, join_left, merge_step, merge_loop, start_merge,
  merge_segments, Merge,
}
use computer_network_labs.Reassembler.Slice.{Excerpt-join, AllFit, Fits}
use computer_network_labs.Base.{
  length, take, sub64, ℕ, ◌+◌, ◌-◌, ◌^◌, ◌≤◌, ◌<◌, ◌≡◌, List, [], ◌∷◌, ◌++◌, arith,
}

module _ (src : ℕ → ℕ) (limit : ℕ) (small : limit < 2 ^ 31) where
  -- The data being merged.
  pub record MergeFits (m : Merge) : Type 0 where
    pub fits : Fits src limit m.data_lft m.data_cpy
    pub right : m.data_rgt ≡ m.data_lft + length m.data_cpy

  join-Fits :
      (a b : ℕ) (xs ys : List ℕ)
      → a ≤ b
      → b ≤ a + length xs
      → Fits src limit a xs
      → Fits src limit b ys
      → Fits src limit a (take (sub64 b a) xs ++ ys)
        × (length (take (sub64 b a) xs ++ ys) ≡ b - a + length ys)
  join-Fits a b xs ys h k e f =
      let gap : sub64 b a ≡ b - a = omega arith in
      rw gap (
        let (joined, size) = Excerpt-join src a b xs ys h k e.excerpt f.excerpt in
        (record { within = omega arith; excerpt = joined }, size))

  join_right-MergeFits :
      (m : Merge) (k : ℕ) (v : List ℕ)
      → Fits src limit k v
      → MergeFits m
      → MergeFits (join_right m (k, v))
  unfolding join_right
  join_right-MergeFits m k v f i = ground (arith, join-Fits k m.data_lft v m.data_cpy)

  join_left-MergeFits :
      (m : Merge) (k : ℕ) (v : List ℕ)
      → m.data_lft ≤ k
      → k ≤ m.data_rgt
      → Fits src limit k v
      → MergeFits m
      → MergeFits (join_left m (k, v))
  unfolding join_left
  join_left-MergeFits m k v h h' f i = ground (arith, join-Fits m.data_lft k m.data_cpy v)

  merge_step-MergeFits :
      (m : Merge) (k : ℕ) (v : List ℕ)
      → Fits src limit k v
      → MergeFits m
      → MergeFits (merge_step m (k, v))
  unfolding merge_step
  merge_step-MergeFits m k v f i = ground (
    arith,
    join_left-MergeFits m k v,
    join_right-MergeFits m k v f i,
    join_right-MergeFits (join_left m (k, v)) k v,
  )

  merge_loop-MergeFits :
      (m : Merge) (segs : List Segment)
      → AllFit src limit segs
      → MergeFits m
      → MergeFits (merge_loop m segs)
  unfolding merge_loop
  merge_loop-MergeFits m [] a i = i
  merge_loop-MergeFits m ((k, v) ∷ segs) a i =
      merge_loop-MergeFits (merge_step m (k, v)) segs a.1 (merge_step-MergeFits m k v a.0 i)

  pub erase-AllFit :
      (key : ℕ) (segs : List Segment) → AllFit src limit segs → AllFit src limit (erase key segs)
  unfolding erase
  erase-AllFit key [] a = tt
  erase-AllFit key ((k, v) ∷ segs) a = ground (arith, erase-AllFit key segs a.1)

  pub erase_all-AllFit :
      (keys : List ℕ) (segs : List Segment)
      → AllFit src limit segs
      → AllFit src limit (erase_all keys segs)
  unfolding erase_all
  erase_all-AllFit [] segs a = a
  erase_all-AllFit (key ∷ keys) segs a =
      erase_all-AllFit keys (erase key segs) (erase-AllFit key segs a)

  assign-AllFit :
      (key : ℕ) (bytes : List ℕ) (segs : List Segment)
      → Fits src limit key bytes
      → AllFit src limit segs
      → AllFit src limit (assign key bytes segs)
  unfolding assign
  assign-AllFit key bytes [] f a = (f, tt)
  assign-AllFit key bytes ((k, v) ∷ segs) f a = ground (arith, assign-AllFit key bytes segs f a.1)

  start_merge-MergeFits :
      (index : ℕ) (bytes : List ℕ)
      → Fits src limit index bytes
      → MergeFits (start_merge index bytes)
  unfolding start_merge
  start_merge-MergeFits index bytes f = ground arith

  -- Below a limit of 2 ^ 31, merging an excerpt of `src` into a cache of excerpts, whatever
  -- overlaps, leaves a cache of excerpts of `src` at their places.
  pub merge_segments-AllFit :
      (index : ℕ) (bytes : List ℕ) (segs : List Segment)
      → Fits src limit index bytes
      → AllFit src limit segs
      → AllFit src limit (merge_segments index bytes segs)
  unfolding merge_segments
  merge_segments-AllFit index bytes segs f a =
      let m = merge_loop (start_merge index bytes) segs in
      ground (
        arith,
        merge_loop-MergeFits (start_merge index bytes) segs a (start_merge-MergeFits index bytes f),
        erase_all-AllFit m.remove_list segs a,
        assign-AllFit m.data_lft m.data_cpy (erase_all m.remove_list segs),
      )
