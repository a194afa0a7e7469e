-- ===== src/TcpSegment/Excerpt.antt =====
-- Segments that carry an excerpt of one byte stream, under the sequence numbers of
-- libsponge/tcp_sender.cc: 0 is the SYN, byte `i` is number i + 1, the FIN comes after the last byte.
use computer_network_labs.WrappingInts.{WrappingInt32, wrap}
use computer_network_labs.TcpSegment.{TcpSegment}
use computer_network_labs.Reassembler.Slice.{Fits}
use computer_network_labs.Base.{
  length, ℕ, ◌+◌, ◌-◌, ◌≤◌, ◌≡◌, sym, ap, ◌∙◌, subst, true, false, List, [], ◌∷◌, ◌++◌,
}

-- The bytes of the stream are `src 0` up to `src (total - 1)`.
module _ (src : ℕ → ℕ) (total : ℕ) (isn : WrappingInt32) where
  pub data Carries (seg : TcpSegment) : Type 0 where
    reset : seg.header.rst ≡ true → Carries seg
    start : seg.header.seqno ≡ isn → seg.payload ≡ [] → seg.header.fin ≡ false → Carries seg
    part :
        (m : ℕ)
        → seg.header.seqno ≡ wrap m isn
        → seg.header.syn ≡ false
        → 1 ≤ m
        → Fits src (total + 1) (m - 1) seg.payload
        → (seg.header.fin ≡ true → m - 1 + length seg.payload ≡ total)
        → Carries seg

  abbrev pub AllCarry : List TcpSegment → Type 0
  AllCarry [] = Unit {0}
  AllCarry (seg ∷ segs) = Carries seg × AllCarry segs

  pub AllCarry-append : (xs ys : List TcpSegment) → AllCarry xs → AllCarry ys → AllCarry (xs ++ ys)
  AllCarry-append [] ys a b = b
  AllCarry-append (x ∷ xs) ys a b = (a.0, AllCarry-append xs ys a.1 b)

  -- The entries of the cache.
  abbrev pub AllCached : List (ℕ × TcpSegment) → Type 0
  AllCached [] = Unit {0}
  AllCached ((k, seg) ∷ cache) = Carries seg × AllCached cache

  -- What depends on a segment only by its number, flags and payload.
  pub Carries-same :
      (seg seg' : TcpSegment)
      → seg'.header.rst ≡ seg.header.rst
      → seg'.header.syn ≡ seg.header.syn
      → seg'.header.fin ≡ seg.header.fin
      → seg'.header.seqno ≡ seg.header.seqno
      → seg'.payload ≡ seg.payload
      → Carries seg
      → Carries seg'
  Carries-same seg seg' r s f n p (reset e) = reset (r ∙ e)
  Carries-same seg seg' r s f n p (start e q g) = start (n ∙ e) (p ∙ q) (f ∙ g)
  Carries-same seg seg' r s f n p (part m e q l fit last) =
      part m (n ∙ e) (s ∙ q) l (subst (Fits src (total + 1) (m - 1)) (sym p) fit)
        (λ h. ap (λ l. m - 1 + length l) p ∙ last (sym f ∙ h))
