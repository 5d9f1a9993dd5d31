-- ===== src/Wire/RoundTrip.antt =====
-- `parse_frame` and `build_frame` are inverse on the frames that the header can hold.
use bitbang_cli.Prelude.{
  ℕ, ◌+◌, ◌^◌, ◌≤◌, ◌<◌, ◌≡◌, refl, [], ◌∷◌, ◌++◌, ok, length, All, take_all, arith, ap, slice,
  length-append,
}
use bitbang_cli.Wire.{
  Bytes, Frame, little_endian, put_uint16, put_uint32, parse_frame, build_frame,
  validate_frame_payload,
}

-- What the Go types and the header's sixteen-bit length leave room for.
abbrev pub Fits : Frame → Type 0
Fits f = (f.stream_id < 2 ^ 32) × (f.flags < 2 ^ 16) × (length f.payload < 2 ^ 16)

abbrev pub IsByte : ℕ → Type 0
IsByte b = b < 256

-- Parsing the bytes built from a frame gives the frame back, when its fields fit the header.
pub parse_frame-build_frame :
    (f : Frame) → Fits f → parse_frame (build_frame f.stream_id f.flags f.payload) ≡ ok f
unfolding parse_frame build_frame little_endian put_uint16 put_uint32
parse_frame-build_frame f h = ground (arith, take_all (length f.payload) f.payload)

-- Whatever bytes a frame is parsed from are the bytes built from that frame, and its fields fit the
-- header.
pub build_frame-parse_frame :
    (input : Bytes) (f : Frame)
    → All IsByte input
    → parse_frame input ≡ ok f
    → (build_frame f.stream_id f.flags f.payload ≡ input) × Fits f
unfolding parse_frame build_frame little_endian put_uint16 put_uint32
build_frame-parse_frame (a ∷ b ∷ c ∷ d ∷ e ∷ g ∷ i ∷ j ∷ rest) f bytes h =
    ground (arith, take_all (length rest) rest)
build_frame-parse_frame _ f bytes h = ground arith

-- A frame that passes the payload check fits the header's sixteen-bit length.
pub validate_frame_payload-Fits :
    (f : Frame)
    → f.stream_id < 2 ^ 32
    → f.flags < 2 ^ 16
    → validate_frame_payload f.payload ≡ ok tt
    → Fits f
unfolding validate_frame_payload
validate_frame_payload-Fits f hi hf h = ground arith

-- A parsed message is its header and its payload, so the length of every accepted message is fixed by
-- its first eight bytes.
length-parse_frame :
    (input : Bytes) (f : Frame)
    → parse_frame input ≡ ok f
    → length input ≡ 8 + little_endian (slice 6 8 input)
unfolding parse_frame
length-parse_frame input f h = ground arith

slice-append : (input more : Bytes) → 8 ≤ length input → slice 6 8 (input ++ more) ≡ slice 6 8 input
slice-append (a ∷ b ∷ c ∷ d ∷ e ∷ g ∷ i ∷ j ∷ rest) more h = refl
slice-append _ more h = absurd (omega arith)

-- When a message is a frame, no message that has it as a proper prefix is one.
pub parse_frame_exact :
    (input more : Bytes) (f g : Frame)
    → parse_frame input ≡ ok f
    → parse_frame (input ++ more) ≡ ok g
    → more ≡ []
parse_frame_exact input [] f g hf hg = refl
parse_frame_exact input (x ∷ more) f g hf hg = absurd (
    omega (
      arith,
      length-parse_frame input f hf,
      length-parse_frame (input ++ (x ∷ more)) g hg,
      length-append input (x ∷ more),
      ap little_endian
          (slice-append input (x ∷ more) (omega (arith, length-parse_frame input f hf))),
    ))
