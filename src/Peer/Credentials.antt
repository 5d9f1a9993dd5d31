-- ===== src/Peer/Credentials.antt =====
-- Who gets the credentials of a pairing, and how it ends.
use bitbang_cli.Pairing.Messages.{parse_pair_commit, parse_pair_reveal}
use bitbang_cli.Pairing.Commit.{verify_commitment, compute_sas}
use bitbang_cli.Sdp.{extract_fingerprint}
use bitbang_cli.Wire.{Bytes}
use bitbang_cli.Pairing.Prompt.{prompt_for_sas, Rejection, user_declined, timeout, sas_mismatch}
use bitbang_cli.Prelude.{
  Text, ◌≡◌, some, ok, All, on_result, on_option, on_if, List, Option, ◌≢◌, codes, [], true, refl,
  is_empty, ◌||◌, false, ◌∷◌,
}
use bitbang_cli.Peer.Pair.{
  confirm, deliver_credentials, reject, Setting, Action, granted_code, credentials, challenge,
  asked, rejected, approved, closes, check_reveal, recv_typed, handle_pair_request_on_open,
  check_commit, send_challenge,
}

-- A predicate of the credentials that a list of actions hands over.
abbrev pub OnCredentials : (Text → Text → Text → Type 0) → Action → Type 0
OnCredentials Q (credentials uid public_key code) = Q uid public_key code
OnCredentials Q (challenge rd) = Unit
OnCredentials Q (asked n) = Unit
OnCredentials Q approved = Unit
OnCredentials Q (rejected reason) = Unit
OnCredentials Q closes = Unit

reject-All :
    (reason : Rejection) (Q : Text → Text → Text → Type 0) → All (OnCredentials Q) (reject reason)
unfolding reject
reject-All reason Q = (tt, (tt, tt))

deliver-All :
    (set : Setting) (Q : Text → Text → Text → Type 0)
    → ((code : Text) → granted_code set ≡ some code → Q set.uid set.public_key code)
    → All (OnCredentials Q) (deliver_credentials set)
unfolding deliver_credentials reject
deliver-All set Q h =
    let P = All (OnCredentials Q) in
    on_option P (granted_code set) _ _ (λ declined. reject-All user_declined Q)
      (λ code granted.
        on_if P set.takes_credentials _ _ (λ taken. (h code granted, (tt, (tt, tt))))
          (λ lost. (tt, (tt, tt))))

confirm-All :
    (set : Setting) (sas : Text) (Q : Text → Text → Text → Type 0)
    → ((code : Text)
        → (prompt_for_sas sas set.prompt).0 ≡ ok tt
        → granted_code set ≡ some code
        → Q set.uid set.public_key code)
    → All (OnCredentials Q) (confirm set sas)
unfolding confirm reject
confirm-All set sas Q h = (
  tt,
  on_result (All (OnCredentials Q)) (prompt_for_sas sas set.prompt).0 _ _
      (λ done answered. deliver-All set Q (λ code granted. h code answered granted))
      (λ reason failed. reject-All reason Q),
)

-- The reveal opens the commitment, the operator typed the code computed from it within three attempts,
-- and a code was granted.
abbrev pub Confirmed :
    Setting → Text → Text → Text → Bytes → List (Option Bytes) → Text → Text → Text → Type 0
Confirmed set local_fp remote_fp commit rd inbox uid public_key code =
    (frame : Bytes) × (rc : Bytes) × ((recv_typed set (codes "pair_reveal") inbox).0 ≡ some frame)
    × (parse_pair_reveal set.codec frame ≡ some rc)
    × (verify_commitment set.codec commit rc ≡ true)
    × ((prompt_for_sas (compute_sas set.codec rc rd local_fp remote_fp) set.prompt).0 ≡ ok tt)
    × (granted_code set ≡ some code)
    × (uid ≡ set.uid)
    × (public_key ≡ set.public_key)

check_reveal-All :
    (set : Setting) (local_fp remote_fp commit : Text) (rd : Bytes) (inbox : List (Option Bytes))
    → All
        (OnCredentials (Confirmed set local_fp remote_fp commit rd inbox))
        (check_reveal set local_fp remote_fp commit rd inbox)
unfolding check_reveal
check_reveal-All set local_fp remote_fp commit rd inbox =
    let Q = Confirmed set local_fp remote_fp commit rd inbox in
    let P = All (OnCredentials Q) in
    on_option P (recv_typed set (codes "pair_reveal") inbox).0 _ _ (λ late. reject-All timeout Q)
      (λ frame arrived.
        on_option P (parse_pair_reveal set.codec frame) _ _ (λ bad. reject-All sas_mismatch Q)
          (λ rc parsed.
            on_if P (verify_commitment set.codec commit rc) _ _
              (λ opens.
                confirm-All set (compute_sas set.codec rc rd local_fp remote_fp) Q
                  (λ code answered granted.
                    (frame, rc, arrived, parsed, opens, answered, granted, refl, refl)))
              (λ differs. reject-All sas_mismatch Q)))

-- What credentials that are handed over rest on: both descriptions have a fingerprint, the commitment
-- came before the listener's nonce was sent, and the rest is as above.
abbrev pub Earned : Setting → List (Option Bytes) → Text → Text → Text → Type 0
Earned set inbox uid public_key code =
    (frame : Bytes) × (commit : Text) × (rd : Bytes) × (extract_fingerprint set.local_description
      ≢ [])
    × (extract_fingerprint set.remote_description ≢ [])
    × ((recv_typed set (codes "pair_commit") inbox).0 ≡ some frame)
    × (parse_pair_commit set.codec frame ≡ some commit)
    × (set.new_nonce ≡ some rd)
    × Confirmed set (extract_fingerprint set.local_description)
        (extract_fingerprint set.remote_description) commit rd
        (recv_typed set (codes "pair_commit") inbox).1 uid public_key code

OnCredentials-map :
    (P Q : Text → Text → Text → Type 0) (acts : List Action)
    → ((uid public_key code : Text) → P uid public_key code → Q uid public_key code)
    → All (OnCredentials P) acts
    → All (OnCredentials Q) acts
OnCredentials-map P Q [] f h = tt
OnCredentials-map P Q (credentials uid public_key code ∷ acts) f h =
    (f uid public_key code h.0, OnCredentials-map P Q acts f h.1)
OnCredentials-map P Q (challenge rd ∷ acts) f h = (tt, OnCredentials-map P Q acts f h.1)
OnCredentials-map P Q (asked n ∷ acts) f h = (tt, OnCredentials-map P Q acts f h.1)
OnCredentials-map P Q (approved ∷ acts) f h = (tt, OnCredentials-map P Q acts f h.1)
OnCredentials-map P Q (rejected reason ∷ acts) f h = (tt, OnCredentials-map P Q acts f h.1)
OnCredentials-map P Q (closes ∷ acts) f h = (tt, OnCredentials-map P Q acts f h.1)

check_commit-All :
    (set : Setting) (local_fp remote_fp : Text) (inbox : List (Option Bytes))
    (Q : Text → Text → Text → Type 0)
    → ((frame : Bytes) (commit : Text) (rd : Bytes)
        → (recv_typed set (codes "pair_commit") inbox).0 ≡ some frame
        → parse_pair_commit set.codec frame ≡ some commit
        → set.new_nonce ≡ some rd
        → (uid public_key code : Text)
        → Confirmed set local_fp remote_fp commit rd
            (recv_typed set (codes "pair_commit") inbox).1
            uid
            public_key
            code
        → Q uid public_key code)
    → All (OnCredentials Q) (check_commit set local_fp remote_fp inbox)
unfolding check_commit send_challenge
check_commit-All set local_fp remote_fp inbox Q h =
    let P = All (OnCredentials Q) in
    let next = recv_typed set (codes "pair_commit") inbox in
    on_option P next.0 _ _ (λ late. reject-All timeout Q)
      (λ frame arrived.
        on_option P (parse_pair_commit set.codec frame) _ _ (λ bad. reject-All user_declined Q)
          (λ commit parsed.
            on_option P set.new_nonce _ _ (λ lost. reject-All user_declined Q)
              (λ rd fresh.
                on_if P set.takes_challenge _ _
                  (λ taken. (
                    tt,
                    OnCredentials-map (Confirmed set local_fp remote_fp commit rd next.1) Q
                        (check_reveal set local_fp remote_fp commit rd next.1)
                        (h frame commit rd arrived parsed fresh)
                        (check_reveal-All set local_fp remote_fp commit rd next.1),
                  ))
                  (λ refused. (tt, tt)))))

both_present : (s t : Text) → (is_empty s || is_empty t) ≡ false → (s ≢ []) × (t ≢ [])
both_present [] t h = absurd cc
both_present (x ∷ s) [] h = absurd cc
both_present (x ∷ s) (y ∷ t) h = (λ e. cc, λ e. cc)

-- Whatever frames arrive, a pairing hands over credentials only where both descriptions have a
-- fingerprint, the frame that revealed the connector's nonce opens the commitment that came first, the
-- operator typed the code computed from both nonces and both fingerprints within three attempts, and the
-- hook granted the code; the code handed over is the granted one.
pub handle_pair_request-Earned :
    (set : Setting) (inbox : List (Option Bytes))
    → All (OnCredentials (Earned set inbox)) (handle_pair_request_on_open set inbox)
unfolding handle_pair_request_on_open
handle_pair_request-Earned set inbox =
    let Q = Earned set inbox in
    let local_fp = extract_fingerprint set.local_description in
    let remote_fp = extract_fingerprint set.remote_description in
    on_if (All (OnCredentials Q)) (is_empty local_fp || is_empty remote_fp) _ _
      (λ missing. reject-All user_declined Q)
      (λ present.
        check_commit-All set local_fp remote_fp inbox Q
          (λ frame commit rd arrived parsed fresh uid public_key code confirmed. (
            frame,
            commit,
            rd,
            (both_present local_fp remote_fp present).0,
            (both_present local_fp remote_fp present).1,
            arrived,
            parsed,
            fresh,
            confirmed,
          )))
