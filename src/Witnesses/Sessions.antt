-- ===== src/Witnesses/Sessions.antt =====
-- internal/session: a session with a PIN that is shown a wrong one, and a SYN that comes too early.
use bitbang_cli.Session.{new_session}
use bitbang_cli.Session.Dispatch.{Input, arrives, run}
use bitbang_cli.Session.Guesses.{Bounded, run-Bounded}
use bitbang_cli.Pin.{required, PinAuth, verify}
use bitbang_cli.Session.Gate.{run_without_pin}
use bitbang_cli.Session.Admission.{presents_pin, Locked, attempt_of, frame_attempt}
use bitbang_cli.Prelude.{List, ◌∷◌, Option, some, ◌≡◌, true, [], refl, codes, none, All, false}
use bitbang_cli.Session.Control.{Decoder, Outside}
use bitbang_cli.Wire.{Bytes, parse_frame, little_endian, is_syn}

abbrev auth_message : Bytes
auth_message = 0 ∷ (0 ∷ (0 ∷ (0 ∷ (1 ∷ (0 ∷ (1 ∷ (0 ∷ (7 ∷ []))))))))

abbrev early_syn : Bytes
early_syn = 3 ∷ (0 ∷ (0 ∷ (0 ∷ (1 ∷ (0 ∷ (0 ∷ (0 ∷ [])))))))

abbrev decoder : Decoder
decoder = record {
  envelope = λ b. some (codes "auth");
  update = λ b. none;
  reset = λ b. none;
  target = λ b. none;
  message = λ b. some (record { path = codes "/"; pin = codes "0000"; version = 4 });
  stream_kind = λ b. codes "http";
}

abbrev outside : Outside
outside = record { sha256 = λ t. t; accepts = λ h path. true }

abbrev locked : Option PinAuth
locked = some (record { pin_hash = codes "1234"; set = true })

abbrev inputs : List Input
inputs = arrives auth_message ∷ (arrives early_syn ∷ (arrives auth_message ∷ []))

no_pin : All (λ i. presents_pin decoder outside locked i ≡ false) inputs
unfolding presents_pin attempt_of frame_attempt parse_frame little_endian is_syn verify
no_pin = (refl, (refl, (refl, tt)))

locked-required : required locked ≡ true
unfolding required
locked-required = refl

run_without_pin_example : Locked locked (run decoder outside inputs (new_session locked [] [] true))
run_without_pin_example =
    run_without_pin decoder outside locked [] [] true inputs locked-required no_pin

run-Bounded_example : Bounded (run decoder outside inputs (new_session locked [] [] true))
run-Bounded_example = run-Bounded decoder outside locked [] [] true inputs
