-- ===== src/Witnesses/Frames.antt =====
-- internal/protocol/swsp.go at one frame.
use bitbang_cli.Wire.{
  parse_frame, Bytes, Frame, validate_frame_payload, build_frame, little_endian, flag_dat,
}
use bitbang_cli.Wire.RoundTrip.{IsByte, Fits, build_frame-parse_frame, parse_frame-build_frame}
use bitbang_cli.Prelude.{◌∷◌, [], All, ◌≡◌, arith, ok, refl}

abbrev hello : Frame
hello = record { stream_id = 258; flags = flag_dat; payload = 104 ∷ (105 ∷ []) }

abbrev hello_bytes : Bytes
hello_bytes = 2 ∷ (1 ∷ (0 ∷ (0 ∷ (0 ∷ (0 ∷ (2 ∷ (0 ∷ (104 ∷ (105 ∷ [])))))))))

hello-Fits : Fits hello
hello-Fits = ground arith

hello-parses : parse_frame hello_bytes ≡ ok hello
unfolding parse_frame little_endian
hello-parses = refl

hello-IsByte : All IsByte hello_bytes
hello-IsByte = ground arith

parse_frame-build_frame_example :
    parse_frame (build_frame 258 flag_dat (104 ∷ (105 ∷ []))) ≡ ok hello
parse_frame-build_frame_example = parse_frame-build_frame hello hello-Fits

build_frame-parse_frame_example :
    (build_frame 258 flag_dat (104 ∷ (105 ∷ [])) ≡ hello_bytes) × Fits hello
build_frame-parse_frame_example =
    build_frame-parse_frame hello_bytes hello hello-IsByte hello-parses

hello-valid : validate_frame_payload hello.payload ≡ ok tt
unfolding validate_frame_payload
hello-valid = refl
