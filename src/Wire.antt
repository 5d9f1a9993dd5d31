-- ===== src/Wire.antt =====
-- internal/protocol/swsp.go: the frame format of a data-channel message.
pub mod RoundTrip
use bitbang_cli.Prelude.{
  ℕ, ◌+◌, ◌-◌, ◌*◌, ◌/◌, ◌%◌, ◌^◌, Bool, not, List, [], ◌∷◌, ◌++◌, bit_and, Result, ok, err, length,
  slice, ltb, leb, ◌==◌, if◌then◌else◌,
}

abbrev pub Bytes : Type 0
Bytes = List ℕ

abbrev pub flag_syn : ℕ
flag_syn = 0x0001

abbrev pub flag_fin : ℕ
flag_fin = 0x0004

abbrev pub flag_dat : ℕ
flag_dat = 0x0000

abbrev pub flag_more : ℕ
flag_more = 0x0002

abbrev pub max_chunk_size : ℕ
max_chunk_size = 32768

abbrev pub header_size : ℕ
header_size = 8

abbrev pub swsp_version : ℕ
swsp_version = 4

abbrev pub initial_stream_window : ℕ
initial_stream_window = 1048576

abbrev pub stream_window_update_threshold : ℕ
stream_window_update_threshold = initial_stream_window / 2

abbrev pub max_queued_stream_frames : ℕ
max_queued_stream_frames = 256

pub record Frame : Type 0 where
  pub stream_id : ℕ
  pub flags : ℕ
  pub payload : Bytes

pub data Error : Type 0 where
  frame_too_short : ℕ → Error
  length_mismatch : ℕ → ℕ → Error
  payload_too_large : ℕ → Error

-- binary.LittleEndian.Uint16 and Uint32, of as many bytes as the slice holds.
unfoldable pub little_endian : Bytes → ℕ
little_endian [] = 0
little_endian (b ∷ bs) = b + 256 * little_endian bs

-- binary.LittleEndian.PutUint16 and PutUint32.
unfoldable pub put_uint16 : ℕ → Bytes
put_uint16 v = v % 256 ∷ v / 256 % 256 ∷ []

unfoldable pub put_uint32 : ℕ → Bytes
put_uint32 v = v % 256 ∷ v / 256 % 256 ∷ v / 65536 % 256 ∷ v / 16777216 % 256 ∷ []

unfoldable pub parse_frame : Bytes → Result Error Frame
parse_frame input =
    let len = length input in
    let stream_id = little_endian (slice 0 4 input) in
    let flags = little_endian (slice 4 6 input) in
    let size = little_endian (slice 6 8 input) in
    if ltb len header_size
    then err (frame_too_short len)
    else if not (len == header_size + size)
    then err (length_mismatch size (len - header_size))
    else ok (record {
      stream_id = stream_id;
      flags = flags;
      payload = slice header_size (header_size + size) input;
    })

unfoldable pub validate_frame_payload : Bytes → Result Error (Unit {0})
validate_frame_payload payload =
    if ltb max_chunk_size (length payload) then err (payload_too_large (length payload)) else ok tt

-- `uint16(len(payload))` keeps the low sixteen bits.
unfoldable pub build_frame : ℕ → ℕ → Bytes → Bytes
build_frame stream_id flags payload =
    put_uint32 stream_id ++ (put_uint16 flags ++ (put_uint16 (length payload % 2 ^ 16) ++ payload))

unfoldable pub is_syn : Frame → Bool
is_syn f = not (bit_and f.flags flag_syn == 0)

unfoldable pub is_fin : Frame → Bool
is_fin f = not (bit_and f.flags flag_fin == 0)

unfoldable pub is_more : Frame → Bool
is_more f = not (bit_and f.flags flag_more == 0)

unfoldable pub flow_bytes : Frame → ℕ
flow_bytes f = if is_syn f then 0 else length f.payload

-- The peer's version is an `int`; the model's `ℕ` leaves out the negative ones, which go the way of 0.
unfoldable pub negotiate_swsp_version : ℕ → ℕ
negotiate_swsp_version peer_version =
    if leb peer_version 0
    then 2
    else if ltb swsp_version peer_version
    then swsp_version
    else peer_version
