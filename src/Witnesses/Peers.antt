-- ===== src/Witnesses/Peers.antt =====
-- internal/peer at small inputs: ciphertext and plaintext are the same, and a hash is its argument.
use bitbang_cli.Peer.Proof.{IsProof, answer_run-IsProof}
use bitbang_cli.Prelude.{
  Text, true, if◌then◌else◌, codes, All, List, ◌≡◌, some, is_empty, ◌∷◌, refl, none, [],
}
use bitbang_cli.Wire.{build_frame, flag_syn}
use bitbang_cli.Peer.Answer as Answer

abbrev outside : Answer.Outside
outside = record {
  decode_base64 = λ t. if is_empty t then none else some t;
  decrypt = λ b. some b;
  parse_request = λ b. some (record { fingerprint = codes "ab"; nonce = codes "n"; code = b });
  identity_code = codes "code";
  authorize = none;
  nonce_hash_payload = λ n. some n;
}

abbrev answer_sdp : Text
answer_sdp = codes "a=fingerprint:sha-256 AB\r\n"

abbrev answer_events : List Answer.Event
answer_events = Answer.answered answer_sdp (codes "code") true ∷ (Answer.opened true ∷ [])

answer_test :
    (Answer.answer_run outside answer_events Answer.new_connection).1
    ≡ build_frame 0 flag_syn (codes "n") ∷ []
unfolding Answer.answer_run Answer.new_connection Answer.build_verify_nonce_hash_frame
answer_test = refl

answer_run-IsProof_example :
    All
      (IsProof outside answer_events)
      (Answer.answer_run outside answer_events Answer.new_connection).1
answer_run-IsProof_example = answer_run-IsProof outside answer_events
