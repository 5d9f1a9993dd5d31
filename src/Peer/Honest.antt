-- ===== src/Peer/Honest.antt =====
-- A pairing between the two programs, where nothing is lost.
use bitbang_cli.Sdp.Normal.{fingerprints_equal_iff}
use bitbang_cli.Pairing.Sas.{compute_sas_agrees}
use bitbang_cli.Allowlist.{trim, is_space}
use bitbang_cli.Pairing.Connector.{
  connect_pair, next_heard, await_challenge, take_challenge, reveal, await_verdict,
  take_credentials, Dialing, heard_frame, sends, shows, paired,
}
use bitbang_cli.Pairing.Prompt.{prompt_for_sas, prompt_from, Prompt, prompt_ok}
use bitbang_cli.Sdp.{extract_fingerprint, to_upper}
use bitbang_cli.Pairing.Messages.{
  ReadsBack, is_ascii, build_pair_commit, build_pair_reveal, parse-build_pair_commit,
  parse-build_pair_reveal, build_pair_challenge, build_pair_credentials, parse-build_pair_challenge,
  parse-build_pair_credentials,
}
use bitbang_cli.Prelude.{
  All, Text, ◌≢◌, [], length, is_empty, ◌≡◌, false, ◌∷◌, refl, some, true, ok, ap, text_eq, codes,
  text_eq_refl, arith, text_eq_iff, map, ◌∙◌, sym,
}
use bitbang_cli.Wire.{Bytes}
use bitbang_cli.Wire.RoundTrip.{IsByte}
use bitbang_cli.Peer.Pair.{Setting, granted_code, challenge, asked, credentials, approved, closes}
use bitbang_cli.Pairing.Commit.{verify_commitment, nonce_len, commitment, compute_sas, Codec}
use bitbang_cli.Peer.Pair.{
  handle_pair_request_on_open, check_commit, send_challenge, check_reveal, confirm,
  deliver_credentials, recv_typed, recv, Setting,
}

is_empty-false : (s : Text) → s ≢ [] → is_empty s ≡ false
is_empty-false [] h = absurd (h refl)
is_empty-false (x ∷ s) h = refl

-- The listener's half, against the frames that the connector builds.
listener_completes :
    (set : Setting) (rc rd : Bytes) (code : Text)
    → ReadsBack set.codec
    → All IsByte rc
    → All IsByte (set.codec.sha256 rc)
    → length rc ≡ nonce_len
    → commitment set.codec rc ≢ []
    → extract_fingerprint set.local_description ≢ []
    → extract_fingerprint set.remote_description ≢ []
    → set.new_nonce ≡ some rd
    → set.takes_challenge ≡ true
    → set.takes_credentials ≡ true
    → (prompt_for_sas
        (compute_sas set.codec rc rd
          (extract_fingerprint set.local_description)
          (extract_fingerprint set.remote_description))
        set.prompt)
      ≡ (ok tt, 1)
    → granted_code set ≡ some code
    → handle_pair_request_on_open set (
        some (build_pair_commit set.codec (commitment set.codec rc))
        ∷ (some (build_pair_reveal set.codec rc) ∷ []))
      ≡ challenge rd
        ∷ (asked 1 ∷ (credentials set.uid set.public_key code ∷ (approved ∷ (closes ∷ []))))
unfolding handle_pair_request_on_open check_commit send_challenge check_reveal confirm
    deliver_credentials recv_typed recv verify_commitment
listener_completes set rc rd code reads whole hashed size filled here there fresh takes gives typed
      granted =
    let commit =
      parse-build_pair_commit set.codec (commitment set.codec rc) reads
        (unfold commitment in reads.ascii (set.codec.sha256 rc) hashed) filled in
    let reveal = parse-build_pair_reveal set.codec rc reads whole size in
    let present = is_empty-false (extract_fingerprint set.local_description) here in
    let present' = is_empty-false (extract_fingerprint set.remote_description) there in
    let commit_kind = ap (λ t. text_eq t (codes "pair_commit")) commit.0 in
    let reveal_kind = ap (λ t. text_eq t (codes "pair_reveal")) reveal.0 in
    let opens = text_eq_refl (commitment set.codec rc) in
    ground (
      arith, present, present', commit_kind, commit.1, fresh, takes, reveal_kind, reveal.1, opens,
      typed, granted, gives,
    )

-- The connector's half, against the frames of the listener.
connector_completes :
    (set : Dialing) (rc rd : Bytes) (uid public_key code : Text)
    → ReadsBack set.codec
    → All IsByte rd
    → is_ascii uid ≡ true
    → is_ascii public_key ≡ true
    → is_ascii code ≡ true
    → length rd ≡ nonce_len
    → uid ≢ []
    → extract_fingerprint set.local_description ≢ []
    → extract_fingerprint set.remote_description ≢ []
    → set.new_nonce ≡ some rc
    → set.takes_commit ≡ true
    → set.takes_reveal ≡ true
    → connect_pair set (
        heard_frame (build_pair_challenge set.codec rd)
        ∷ (heard_frame (build_pair_credentials set.codec uid public_key code) ∷ []))
      ≡ sends (build_pair_commit set.codec (commitment set.codec rc))
        ∷ (sends (build_pair_reveal set.codec rc)
            ∷ (shows (
                  compute_sas set.codec rc rd
                    (extract_fingerprint set.local_description)
                    (extract_fingerprint set.remote_description))
                ∷ (paired uid code ∷ [])))
unfolding connect_pair next_heard await_challenge take_challenge reveal await_verdict
    take_credentials
connector_completes set rc rd uid public_key code reads whole a b c size filled here there fresh
      takes gives =
    let challenged = parse-build_pair_challenge set.codec rd reads whole size in
    let given = parse-build_pair_credentials set.codec uid public_key code reads a b c filled in
    let present = is_empty-false (extract_fingerprint set.local_description) here in
    let present' = is_empty-false (extract_fingerprint set.remote_description) there in
    let challenge_kind = ap (λ t. text_eq t (codes "pair_challenge")) challenged.0 in
    let given_kind = ap (λ t. text_eq t (codes "pair_credentials")) given.0 in
    ground (
      arith, present, present', challenge_kind, challenged.1, fresh, takes, given_kind, given.1,
      gives,
    )

granted_code_codec :
    (x : Codec) (set : Setting) → granted_code (record set { codec = x }) ≡ granted_code set
unfolding granted_code
granted_code_codec x set = refl

first_attempt :
    (sas : Text) (prompt : Prompt)
    → (prompt 1).1 ≡ prompt_ok
    → trim is_space (prompt 1).0 ≡ sas
    → prompt_for_sas sas prompt ≡ (ok tt, 1)
unfolding prompt_for_sas prompt_from
first_attempt sas prompt answered typed =
    let same = (text_eq_iff (trim is_space (prompt 1).0) sas).1 typed in
    ground (arith, answered, same)

-- The two programs pair: where the channel takes every frame, each end sees its own fingerprint and the
-- other's, the nonces have their length, the hook grants a code, and the operator types at once what the
-- connector shows, the listener hands over its id and the code and approves, and the connector has them.
-- The nonces and the hash are bytes, and the id, the key and the code are ASCII. JSON is assumed to read
-- the fields of the pairing's own messages back as they were written in ASCII, and base64 to write ASCII
-- and read its bytes back; a commitment is no empty text.
pub pairing_completes :
    (x : Codec) (listener : Setting) (connector : Dialing) (rc rd : Bytes) (code : Text)
    → ReadsBack x
    → All IsByte rc
    → All IsByte rd
    → All IsByte (x.sha256 rc)
    → is_ascii listener.uid ≡ true
    → is_ascii listener.public_key ≡ true
    → is_ascii code ≡ true
    → length rc ≡ nonce_len
    → length rd ≡ nonce_len
    → commitment x rc ≢ []
    → listener.uid ≢ []
    → extract_fingerprint listener.local_description ≢ []
    → extract_fingerprint listener.remote_description ≢ []
    → extract_fingerprint connector.local_description
      ≡ extract_fingerprint listener.remote_description
    → extract_fingerprint connector.remote_description
      ≡ extract_fingerprint listener.local_description
    → connector.new_nonce ≡ some rc
    → listener.new_nonce ≡ some rd
    → connector.takes_commit ≡ true
    → connector.takes_reveal ≡ true
    → listener.takes_challenge ≡ true
    → listener.takes_credentials ≡ true
    → (listener.prompt 1).1 ≡ prompt_ok
    → trim is_space (listener.prompt 1).0
      ≡ compute_sas x rc rd
          (extract_fingerprint connector.local_description)
          (extract_fingerprint connector.remote_description)
    → granted_code listener ≡ some code
    → (handle_pair_request_on_open
          (record listener { codec = x })
          (some (build_pair_commit x (commitment x rc)) ∷ (some (build_pair_reveal x rc) ∷ []))
        ≡ challenge rd
          ∷ (asked 1
              ∷ (credentials listener.uid listener.public_key code ∷ (approved ∷ (closes ∷ [])))))
      × (connect_pair
            (record connector { codec = x })
            (heard_frame (build_pair_challenge x rd)
              ∷ (heard_frame (build_pair_credentials x listener.uid listener.public_key code) ∷ []))
          ≡ sends (build_pair_commit x (commitment x rc))
            ∷ (sends (build_pair_reveal x rc)
                ∷ (shows (
                      compute_sas x rc rd
                        (extract_fingerprint connector.local_description)
                        (extract_fingerprint connector.remote_description))
                    ∷ (paired listener.uid code ∷ []))))
pairing_completes x listener connector rc rd code reads rc_whole rd_whole hashed uid_ascii key_ascii
      code_ascii rc_size rd_size filled named here there crossed crossed' fresh_c fresh_d
      takes_commit takes_reveal takes_challenge takes_credentials answered typed granted =
    let their_local = extract_fingerprint connector.local_description in
    let their_remote = extract_fingerprint connector.remote_description in
    let local_fp = extract_fingerprint listener.local_description in
    let remote_fp = extract_fingerprint listener.remote_description in
    let same : compute_sas x rc rd their_local their_remote
        ≡ compute_sas x rc rd local_fp remote_fp =
      compute_sas_agrees x rc rd their_local their_remote local_fp remote_fp
        ((fingerprints_equal_iff their_local remote_fp).1 (ap (map to_upper) crossed))
        ((fingerprints_equal_iff their_remote local_fp).1 (ap (map to_upper) crossed')) in
    (
      listener_completes (record listener { codec = x }) rc rd code reads rc_whole hashed rc_size
          filled here there fresh_d takes_challenge takes_credentials
          (first_attempt (compute_sas x rc rd local_fp remote_fp) listener.prompt answered
            (typed ∙ same))
          (granted_code_codec x listener ∙ granted),
      connector_completes (record connector { codec = x }) rc rd listener.uid listener.public_key
          code reads rd_whole uid_ascii key_ascii code_ascii rd_size named
          (λ e. there (sym crossed ∙ e)) (λ e. here (sym crossed' ∙ e)) fresh_c takes_commit
          takes_reveal,
    )
