-- ===== src/NetParser.antt =====
-- libsponge/util/parser.hh and parser.cc: integers read from a buffer, and appended to a string, in
-- network byte order. A Buffer is the list of the bytes that it shows.
--
-- A read is a state-passing step: it returns its value and the parser that is left.
pub mod RoundTrip
use Prim.Native.String.{String}
use computer_network_labs.Base.{
  ltb, if◌then◌else◌, length, get_elem?, take, drop, replicate, take_all, AllBytes, ℕ, zero, suc,
  ◌+◌, ◌-◌, ◌*◌, ◌/◌, ◌%◌, ◌^◌, ◌≤◌, ◌≡◌, ap, Bool, true, false, not, Option, List, [], ◌∷◌, ◌++◌,
  arith,
}

pub data ParseResult : Type 0 where
  no_error bad_checksum packet_too_short wrong_ip_version : ParseResult
  header_too_short truncated_packet unsupported : ParseResult

-- The value of the enumerator, as `static_cast<size_t>` gives it.
unfoldable pub ordinal : ParseResult → ℕ
ordinal no_error = 0
ordinal bad_checksum = 1
ordinal packet_too_short = 2
ordinal wrong_ip_version = 3
ordinal header_too_short = 4
ordinal truncated_packet = 5
ordinal unsupported = 6

abbrev pub names : List String
names =
    "NoError" ∷ "BadChecksum" ∷ "PacketTooShort" ∷ "WrongIPVersion" ∷ "HeaderTooShort"
    ∷ "TruncatedPacket" ∷ []

-- `none` is a read past the end of the array of names.
unfoldable pub as_string : ParseResult → Option String
unfolding ordinal
as_string r = get_elem? names (ordinal r)

unfoldable pub is_no_error : ParseResult → Bool
is_no_error no_error = true
is_no_error _ = false

pub record NetParser : Type 0 where
  pub buffer : List ℕ
  pub failure : ParseResult

-- The constructor.
abbrev pub ready : List ℕ → NetParser
ready bytes = record { buffer = bytes; failure = no_error }

abbrev pub Parser : Type 0 → Type 0
Parser A = NetParser → A × NetParser

infixl 5 ◌>>=◌
abbrev pub ◌>>=◌ : {A B : Type 0} → Parser A → (A → Parser B) → Parser B
◌>>=◌ m f p = let (a, p') = m p in f a p'

unfoldable pub error : NetParser → Bool
unfolding is_no_error
error p = not (is_no_error p.failure)

unfoldable pub check_size : ℕ → NetParser → NetParser
check_size size p =
    if ltb (length p.buffer) size then record p { failure = packet_too_short } else p

-- `ret <<= 8; ret += byte` in a type with `modulus` values, for `n` bytes. The clause for the empty
-- list is never met: the size has been checked.
unfoldable pub parse_loop : ℕ → ℕ → ℕ → List ℕ → ℕ
parse_loop modulus zero ret bytes = ret
parse_loop modulus (suc n) ret [] = ret
parse_loop modulus (suc n) ret (b ∷ bytes) =
    parse_loop modulus n ((ret * 256 % modulus + b) % modulus) bytes

-- `_parse_int<T>` with `sizeof(T)` for its first argument.
unfoldable pub parse_int : ℕ → Parser ℕ
unfolding check_size error parse_loop
parse_int len p =
    let p' = check_size len p in
    if error p'
    then (0, p')
    else (parse_loop (256 ^ len) len 0 p'.buffer, record p' { buffer = drop len p'.buffer })

unfoldable pub u8 : Parser ℕ
unfolding parse_int
u8 = parse_int 1

unfoldable pub u16 : Parser ℕ
unfolding parse_int
u16 = parse_int 2

unfoldable pub u32 : Parser ℕ
unfolding parse_int
u32 = parse_int 4

unfoldable pub remove_prefix : ℕ → NetParser → NetParser
unfolding check_size error
remove_prefix n p =
    let p' = check_size n p in if error p' then p' else record p' { buffer = drop n p'.buffer }

-- The bytes that the loop of `_unparse_int` pushes, the highest first.
unfoldable pub int_bytes : ℕ → ℕ → List ℕ
int_bytes zero val = []
int_bytes (suc n) val = (val / 256 ^ n % 256) ∷ int_bytes n val

unfoldable pub unparse_int : ℕ → List ℕ → ℕ → List ℕ
unfolding int_bytes
unparse_int len s val = s ++ int_bytes len val

-- `std::string::resize`, as the serializers use it.
abbrev pub resize : ℕ → List ℕ → List ℕ
resize n s = take n s ++ replicate (n - length s) 0

pub resize_lem : (n : ℕ) (s : List ℕ) → length s ≤ n → resize n s ≡ s ++ replicate (n - length s) 0
resize_lem n s h = ap (λ l. l ++ replicate (n - length s) 0) (take_all n s h)

pub AllBytes-int_bytes : (n val : ℕ) → AllBytes (int_bytes n val)
unfolding int_bytes
AllBytes-int_bytes zero val = tt
AllBytes-int_bytes (suc n) val = (omega arith, AllBytes-int_bytes n val)
