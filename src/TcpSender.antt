-- ===== src/TcpSender.antt =====
-- libsponge/tcp_sender.hh and tcp_sender.cc.
--
-- A `std::queue` is the list of its elements, the front first; `segments_cache_`, a `std::map`, is the
-- list of its entries in the order of their keys. Counters keep the width of their types.
pub mod Fill
pub mod Window
pub mod Timer
pub mod Acks
pub mod Feeds
pub mod Honest
pub mod Clock
pub mod Keeps
use computer_network_labs.ByteStream
use computer_network_labs.ByteStream.{ByteStream}
use computer_network_labs.WrappingInts.{WrappingInt32, wrap, unwrap, offset}
use computer_network_labs.TcpConfig.{max_payload_size, max_retx_attempts}
use computer_network_labs.TcpHeader.{TcpHeader, default_header}
use computer_network_labs.TcpSegment.{TcpSegment, length_in_sequence_space}
use computer_network_labs.Base.{
  ltb, leb, ◌==◌, if◌then◌else◌, add64, sub64, add16, sub16, is_negative, ℕ, zero, suc, ◌+◌, ◌-◌,
  ◌*◌, ◌%◌, ◌^◌, min, max, Bool, true, false, not, ◌&&◌, Option, none, some, List, [], ◌∷◌, ◌++◌,
}

pub record TcpSender : Type 0 where
  pub isn : WrappingInt32
  pub segments_out : List TcpSegment
  pub initial_retransmission_timeout : ℕ
  pub stream : ByteStream
  pub next_seqno_absolute : ℕ
  pub segments_cache : List (ℕ × TcpSegment)
  pub default_initial_retransmission_timeout : ℕ
  pub windows_size : ℕ
  pub peer_windows_size : ℕ
  pub bytes_in_flight : ℕ
  pub time : ℕ
  pub retx_times : ℕ

-- The memory is that of the stream, and `random` what `random_device` returns.
unfoldable pub init : (ℕ → ℕ) → ℕ → ℕ → Option WrappingInt32 → WrappingInt32 → TcpSender
unfolding ByteStream.init
init memory capacity retx_timeout fixed_isn random = record {
  isn = elim fixed_isn [ some isn ↦ isn | none ↦ random ];
  segments_out = [];
  initial_retransmission_timeout = retx_timeout;
  stream = ByteStream.init memory capacity;
  next_seqno_absolute = 0;
  segments_cache = [];
  default_initial_retransmission_timeout = retx_timeout;
  windows_size = 1;
  peer_windows_size = 1;
  bytes_in_flight = 0;
  time = 0;
  retx_times = 0;
}

unfoldable pub next_seqno : TcpSender → WrappingInt32
next_seqno s = wrap s.next_seqno_absolute s.isn

unfoldable pub consecutive_retransmissions : TcpSender → ℕ
consecutive_retransmissions s = s.retx_times

-- `map[key] = seg`
unfoldable pub cache_segment : ℕ → TcpSegment → List (ℕ × TcpSegment) → List (ℕ × TcpSegment)
cache_segment key seg [] = (key, seg) ∷ []
cache_segment key seg ((k, x) ∷ cache) =
    if ltb key k
    then (key, seg) ∷ (k, x) ∷ cache
    else if k == key
    then (k, seg) ∷ cache
    else (k, x) ∷ cache_segment key seg cache

-- The four statements that send a segment: it is queued, counted twice, and cached under the number
-- that acknowledges it.
unfoldable pub transmit : TcpSegment → TcpSender → TcpSender
transmit seg s =
    let next = add64 s.next_seqno_absolute (length_in_sequence_space seg) in
    record s {
      segments_out = s.segments_out ++ (seg ∷ []);
      next_seqno_absolute = next;
      bytes_in_flight = add64 s.bytes_in_flight (length_in_sequence_space seg);
      segments_cache = cache_segment next seg s.segments_cache;
    }

abbrev pub syn_segment : WrappingInt32 → TcpSegment
syn_segment isn = record {
  header = record default_header { syn = true; seqno = isn };
  payload = [];
}

-- `windows_size ? windows_size : 1`
unfoldable pub window_or_one : ℕ → ℕ
window_or_one w = if w == 0 then 1 else w

-- The stream has ended and the FIN is not yet sent.
unfoldable pub fin_due : TcpSender → Bool
fin_due s =
    ByteStream.eof s.stream
    && ltb s.next_seqno_absolute (add64 (ByteStream.bytes_written s.stream) 2)

-- The segment of one round of the loop, and the window that it leaves.
unfoldable pub data_segment : List ℕ → ℕ → TcpSender → TcpSegment × ℕ
data_segment bytes wdws_remsz s =
    let seg : TcpSegment = record {
      header = record default_header { seqno = next_seqno s };
      payload = bytes;
    } in
    let left = sub64 wdws_remsz (length_in_sequence_space seg) in
    if fin_due s && leb 1 left
    then (record seg { header = record (seg.header) { fin = true } }, sub64 left 1)
    else (seg, left)

-- `_stream.read(min(seg_maxsz_, wdws_remsz_))`
unfoldable pub read_payload : ℕ → TcpSender → List ℕ × TcpSender
read_payload wdws_remsz s =
    let (bytes, stream) = ByteStream.read s.stream (min max_payload_size wdws_remsz) in
    (bytes, record s { stream = stream })

-- `while (!read_stream_.empty())`, on fuel.
unfoldable pub data_loop : ℕ → List ℕ → ℕ → TcpSender → TcpSender
data_loop zero bytes wdws_remsz s = s
data_loop (suc fuel) [] wdws_remsz s = s
data_loop (suc fuel) (b ∷ bytes) wdws_remsz s =
    let (seg, left) = data_segment (b ∷ bytes) wdws_remsz s in
    let (next, s') = read_payload left (transmit seg s) in data_loop fuel next left s'

-- Each round but the first takes at least a byte from the buffer.
abbrev pub data_fuel : TcpSender → ℕ
data_fuel s = suc (ByteStream.buffer_size s.stream)

unfoldable pub send_syn : TcpSender → TcpSender
send_syn s = if s.next_seqno_absolute == 0 then transmit (syn_segment s.isn) s else s

-- `!stream_in().eof() && next_seqno_absolute() > bytes_in_flight()`
unfoldable pub may_send_data : TcpSender → Bool
may_send_data s = not (ByteStream.eof s.stream) && ltb s.bytes_in_flight s.next_seqno_absolute

unfoldable pub send_data : TcpSender → TcpSender
send_data s =
    let wdws_remsz = sub64 (window_or_one s.peer_windows_size) s.bytes_in_flight in
    let (bytes, s') = read_payload wdws_remsz s in data_loop (data_fuel s) bytes wdws_remsz s'

abbrev pub fin_segment : TcpSender → TcpSegment
fin_segment s = record {
  header = record default_header { seqno = next_seqno s; fin = true };
  payload = [];
}

unfoldable pub send_fin : TcpSender → TcpSender
send_fin s =
    if fin_due s
    then (if leb (window_or_one s.peer_windows_size) s.bytes_in_flight
        then s
        else record (transmit (fin_segment s) s) {
          windows_size = sub16 s.windows_size (length_in_sequence_space (fin_segment s));
        })
    else s

-- What follows the SYN: the first early return leaves the FIN for a later call.
unfoldable pub fill_rest : TcpSender → TcpSender
fill_rest s =
    if may_send_data s
    then (if ltb (window_or_one s.peer_windows_size) s.bytes_in_flight
        then s
        else send_fin (send_data s))
    else send_fin s

unfoldable pub fill_window : TcpSender → TcpSender
fill_window s = fill_rest (send_syn s)

-- The keys that the acknowledgment covers.
unfoldable pub acked_keys : WrappingInt32 → WrappingInt32 → List (ℕ × TcpSegment) → List ℕ
acked_keys ackno isn [] = []
acked_keys ackno isn ((k, x) ∷ cache) =
    if leb k (unwrap ackno isn k)
    then k ∷ acked_keys ackno isn cache
    else acked_keys ackno isn cache

unfoldable pub erase : ℕ → List (ℕ × TcpSegment) → List (ℕ × TcpSegment)
erase key [] = []
erase key ((k, x) ∷ cache) = if k == key then cache else (k, x) ∷ erase key cache

unfoldable pub erase_all : List ℕ → List (ℕ × TcpSegment) → List (ℕ × TcpSegment)
unfolding erase
erase_all [] cache = cache
erase_all (key ∷ keys) cache = erase_all keys (erase key cache)

unfoldable pub is_empty {ℓ} : {A : Type ℓ} → List A → Bool
is_empty [] = true
is_empty (x ∷ xs) = false

-- The cache without what is acknowledged, and the window that the peer announces.
unfoldable pub note_ack : List ℕ → ℕ → TcpSender → TcpSender
note_ack acked window_size s = record s {
  segments_cache = erase_all acked s.segments_cache;
  windows_size =
      if ltb s.peer_windows_size window_size
      then add16 s.windows_size (window_size - s.peer_windows_size)
      else s.windows_size;
  peer_windows_size = window_size;
}

-- The reset of the timer and the counts when something new is acknowledged.
unfoldable pub restart : ℕ → ℕ → TcpSender → TcpSender
restart n_bytes window_size s = record s {
  windows_size = max window_size 1;
  bytes_in_flight = n_bytes;
  time = 0;
  retx_times = 0;
  initial_retransmission_timeout = s.default_initial_retransmission_timeout;
}

unfoldable pub ack_received : WrappingInt32 → ℕ → TcpSender → TcpSender
ack_received ackno window_size s =
    let n_bytes = offset (next_seqno s) ackno in
    if is_negative n_bytes
    then s
    else let acked = acked_keys ackno s.isn s.segments_cache in
      let s' = note_ack acked window_size s in
      if is_empty acked then s' else fill_window (restart n_bytes window_size s')

-- `_segments_out.push(segments_cache_.begin()->second)` and the back-off.
unfoldable pub retransmit : TcpSegment → TcpSender → TcpSender
retransmit seg s =
    let s' = record s { segments_out = s.segments_out ++ (seg ∷ []); time = 0 } in
    if s.peer_windows_size == 0 then s' else record s' {
      initial_retransmission_timeout = s.initial_retransmission_timeout * 2 % 2 ^ 32;
      retx_times = (s.retx_times + 1) % 2 ^ 8;
    }

unfoldable pub tick_cached : ℕ → List (ℕ × TcpSegment) → TcpSender → TcpSender
tick_cached ms [] s = s
tick_cached ms ((k, seg) ∷ cache) s =
    let s' = record s { time = add64 s.time ms } in
    if leb s'.initial_retransmission_timeout s'.time && leb s'.retx_times max_retx_attempts
    then retransmit seg s'
    else s'

unfoldable pub tick : ℕ → TcpSender → TcpSender
tick ms s = tick_cached ms s.segments_cache s

unfoldable pub send_empty_segment : TcpSender → TcpSender
send_empty_segment s =
    let seg : TcpSegment = record {
      header = record default_header { seqno = next_seqno s };
      payload = [];
    } in
    record s { segments_out = s.segments_out ++ (seg ∷ []) }
