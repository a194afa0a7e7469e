-- ===== src/TcpSender/Fill.antt =====
-- fill_window of tcp_sender.cc: the loop that cuts the stream into segments.
use computer_network_labs.ByteStream.{ByteStream}
use computer_network_labs.ByteStream.Invariant.{IsValid, read-IsValid}
use computer_network_labs.ByteStream.Refine.{contents, read_lem}
use computer_network_labs.TcpConfig.{max_payload_size}
use computer_network_labs.TcpSegment.{TcpSegment, length_in_sequence_space}
use computer_network_labs.TcpSender.{transmit, data_segment, read_payload, data_loop, TcpSender}
use computer_network_labs.Base.{
  length, take, length-append, length-take, take-append-drop, ℕ, zero, suc, ◌+◌, ◌^◌, ◌≤◌, ◌<◌, min,
  ◌≡◌, refl, sym, ap, ap₂, ◌∙◌, ◌⊎◌, inl, inr, List, [], ◌∷◌, ◌++◌, append-nil, append_assoc, arith,
}

-- The bytes that a list of segments carries, and the sequence numbers that it takes.
abbrev pub payloads : List TcpSegment → List ℕ
payloads [] = []
payloads (seg ∷ segs) = seg.payload ++ payloads segs

abbrev pub sequence_length : List TcpSegment → ℕ
sequence_length [] = 0
sequence_length (seg ∷ segs) = length_in_sequence_space seg + sequence_length segs

abbrev pub AllSmall : List TcpSegment → Type 0
AllSmall [] = Unit {0}
AllSmall (seg ∷ segs) = (length seg.payload ≤ max_payload_size) × AllSmall segs

pub data_segment_lem :
    (bytes : List ℕ) (w : ℕ) (s : TcpSender)
    → length bytes ≤ w
    → w < 2 ^ 64
    → let (seg, left) = data_segment bytes w s in
      (seg.payload ≡ bytes) × (length_in_sequence_space seg + left ≡ w)
unfolding data_segment length_in_sequence_space
data_segment_lem bytes w s h k = ground arith

-- Reading a payload moves bytes from the front of the stream into it.
pub read_payload_lem :
    (w : ℕ) (s : TcpSender)
    → IsValid s.stream
    → let (bytes, s') = read_payload w s in
      (s' ≡ record s { stream = s'.stream })
      × IsValid s'.stream
      × (bytes ++ contents s'.stream ≡ contents s.stream)
      × (bytes ≡ take (min max_payload_size w) (contents s.stream))
unfolding read_payload
read_payload_lem w s v = (
  refl,
  read-IsValid (min max_payload_size w) v,
  rw ((read_lem v (min max_payload_size w)).0, (read_lem v (min max_payload_size w)).1)
      (take-append-drop (min max_payload_size w) (contents s.stream)),
  (read_lem v (min max_payload_size w)).0,
)

-- What the loop has done when it stops, started at `s` with `bytes` read and the window `w` left.
pub record Sent (bytes : List ℕ) (w : ℕ) (s s' : TcpSender) : Type 0 where
  pub segs : List TcpSegment
  pub queued : s'.segments_out ≡ s.segments_out ++ segs
  pub carried : payloads segs ++ contents s'.stream ≡ bytes ++ contents s.stream
  pub numbered : s'.next_seqno_absolute ≡ s.next_seqno_absolute + sequence_length segs
  pub counted : s'.bytes_in_flight ≡ s.bytes_in_flight + sequence_length segs
  pub in_window : sequence_length segs ≤ w
  pub filled : (sequence_length segs ≡ w) ⊎ (contents s'.stream ≡ [])
  pub small : AllSmall segs
  pub valid : IsValid s'.stream
  pub kept :
      (s'.isn ≡ s.isn)
      × (s'.peer_windows_size ≡ s.peer_windows_size)
      × (s'.windows_size ≡ s.windows_size)

-- An empty read from a stream means that the window or the stream is used up.
empty_read : (w : ℕ) (l : List ℕ) → [] ≡ take (min max_payload_size w) l → (0 ≡ w) ⊎ (l ≡ [])
empty_read w [] e = inr refl
empty_read w (x ∷ l) e =
    inl (omega (arith, ap length e, length-take (min max_payload_size w) (x ∷ l)))

Sent-done :
    (w : ℕ) (s : TcpSender) → IsValid s.stream → (0 ≡ w) ⊎ (contents s.stream ≡ []) → Sent [] w s s
Sent-done w s v e = record {
  segs = [];
  queued = sym (append-nil s.segments_out);
  carried = refl;
  numbered = omega arith;
  counted = omega arith;
  in_window = omega arith;
  filled = e;
  small = tt;
  valid = v;
  kept = (refl, refl, refl);
}

-- A round: the segment `seg` is sent, `next` is read behind it, and the rest is done from `t`.
Sent-step :
    (bytes next : List ℕ) (w left : ℕ) (seg : TcpSegment) (s q : TcpSender) (stream : ByteStream)
    → length bytes ≤ max_payload_size
    → seg.payload ≡ bytes
    → length_in_sequence_space seg + left ≡ w
    → next ++ contents stream ≡ contents s.stream
    → s.next_seqno_absolute + w < 2 ^ 64
    → s.bytes_in_flight + w < 2 ^ 64
    → Sent next left (record (transmit seg s) { stream = stream }) q
    → Sent bytes w s q
unfolding transmit
Sent-step bytes next w left seg s q stream h e k r a b t = record {
  segs = seg ∷ t.segs;
  queued = t.queued ∙ append_assoc s.segments_out (seg ∷ []) t.segs;
  carried =
      append_assoc seg.payload (payloads t.segs) (contents q.stream) ∙ ap₂ ◌++◌ e (t.carried ∙ r);
  numbered = omega (arith, t.numbered);
  counted = omega (arith, t.counted);
  in_window = omega (arith, t.in_window);
  filled = more t.filled;
  small = (omega (arith, ap length e), t.small);
  valid = t.valid;
  kept = t.kept;
}
  where
    more :
        (sequence_length t.segs ≡ left) ⊎ (contents q.stream ≡ [])
        → (sequence_length (seg ∷ t.segs) ≡ w) ⊎ (contents q.stream ≡ [])
    more (inl x) = inl (omega arith)
    more (inr x) = inr x

-- A read that is not empty leaves less in the stream.
fuel_left :
    (fuel : ℕ) (next c d : List ℕ)
    → next ++ c ≡ d
    → length d < suc fuel
    → (length next ≡ 0) ⊎ (length c < fuel)
fuel_left fuel [] c d e h = inl refl
fuel_left fuel (x ∷ next) c d e h = inr (omega (arith, ap length e, length-append (x ∷ next) c))

pub nothing_left :
    (w : ℕ) (next c d : List ℕ)
    → next ++ c ≡ d
    → next ≡ take (min max_payload_size w) d
    → next ≡ []
    → (0 ≡ w) ⊎ (c ≡ [])
nothing_left w next c d r t e = after (empty_read w d (sym e ∙ t))
  where
    after : (0 ≡ w) ⊎ (d ≡ []) → (0 ≡ w) ⊎ (c ≡ [])
    after (inl z) = inl z
    after (inr z) = inr (ap (λ n. n ++ c) (sym e) ∙ r ∙ z)

enough :
    (fuel n : ℕ) (bytes : List ℕ) (x : ℕ) → (length (x ∷ bytes) ≡ 0) ⊎ (n < suc fuel) → n < suc fuel
enough fuel n bytes x f = omega arith

-- With fuel for what the stream holds, the loop sends segments as `Sent` says.
pub data_loop-Sent :
    (fuel : ℕ) (bytes : List ℕ) (w : ℕ) (s : TcpSender)
    → (length bytes ≡ 0) ⊎ (length (contents s.stream) < fuel)
    → IsValid s.stream
    → length bytes ≤ min max_payload_size w
    → (bytes ≡ [] → (0 ≡ w) ⊎ (contents s.stream ≡ []))
    → w < 2 ^ 64
    → s.next_seqno_absolute + w < 2 ^ 64
    → s.bytes_in_flight + w < 2 ^ 64
    → Sent bytes w s (data_loop fuel bytes w s)
unfolding data_loop read_payload transmit
data_loop-Sent zero [] w s f v h e a b c = Sent-done w s v (e refl)
data_loop-Sent zero (x ∷ bytes) w s f v h e a b c = absurd (omega arith)
data_loop-Sent (suc fuel) [] w s f v h e a b c = Sent-done w s v (e refl)
data_loop-Sent (suc fuel) (x ∷ bytes) w s f v h e a b c =
    let (payload, size) = data_segment_lem (x ∷ bytes) w s (omega arith) a in
    let (_whole, valid, split, prefix) = read_payload_lem left (transmit seg s) v in
    Sent-step (x ∷ bytes) next w left seg s (data_loop fuel next left s') s'.stream (omega arith)
      payload size split b c
      (data_loop-Sent fuel next left s'
        (fuel_left fuel next (contents s'.stream) (contents s.stream) split
          (enough fuel (length (contents s.stream)) bytes x f))
        valid
        (omega
          (arith, ap length prefix, length-take (min max_payload_size left) (contents s.stream)))
        (nothing_left left next (contents s'.stream) (contents s.stream) split prefix)
        (omega (arith, size)) (omega (arith, size)) (omega (arith, size)))
  where
    seg : TcpSegment
    seg = (data_segment (x ∷ bytes) w s).0

    left : ℕ
    left = (data_segment (x ∷ bytes) w s).1

    next : List ℕ
    next = (read_payload left (transmit seg s)).0

    s' : TcpSender
    s' = (read_payload left (transmit seg s)).1
