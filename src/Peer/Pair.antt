-- ===== src/Peer/Pair.antt =====
-- internal/peer/connection.go: the pairing that runs when the data channel of a pairing connection opens.
use bitbang_cli.Pairing.Messages.{pair_message_type, parse_pair_reveal, parse_pair_commit}
use bitbang_cli.Prelude.{
  List, Option, none, Text, ◌∷◌, ℕ, if◌then◌else◌, some, Bool, err, [], is_empty, codes, ok,
  text_eq, ◌||◌,
}
use bitbang_cli.Wire.{Bytes}
use bitbang_cli.Sdp.{extract_fingerprint}
use bitbang_cli.Pairing.Prompt.{
  prompt_for_sas, Rejection, user_declined, timeout, Prompt, sas_mismatch,
}
use bitbang_cli.Pairing.Commit.{Codec, verify_commitment, compute_sas}

-- What comes from outside: the two descriptions, a fresh nonce (`none` is its error), whether the channel
-- takes the challenge and the credentials, the operator, the hook that grants a code (its answer of none
-- declines), and the identity.
pub record Setting : Type 0 where
  pub codec : Codec
  pub local_description : Text
  pub remote_description : Text
  pub new_nonce : Option Bytes
  pub takes_challenge : Bool
  pub takes_credentials : Bool
  pub prompt : Prompt
  pub grant_credential : Option (Option Text)
  pub uid : Text
  pub public_key : Text
  pub identity_code : Text

-- What the connection does, in order. `credentials` stands for the frame with the three fields, and
-- `asked` for the question of the operator with the number of prompts.
pub data Action : Type 0 where
  challenge : Bytes → Action
  asked : ℕ → Action
  credentials : Text → Text → Text → Action
  approved : Action
  rejected : Rejection → Action
  closes : Action

-- `recvDC`: the next frame, or a timeout.
unfoldable pub recv : List (Option Bytes) → Option Bytes × List (Option Bytes)
recv [] = (none, [])
recv (frame ∷ inbox) = (frame, inbox)

-- A frame of the type given; a timeout and a frame of another type go the same way.
unfoldable pub recv_typed :
    Setting → Text → List (Option Bytes) → Option Bytes × List (Option Bytes)
unfolding recv pair_message_type
recv_typed set kind inbox =
    let next = recv inbox in
    elim next.0 [
      | none ↦ (none, next.1)
      | some frame ↦
          if text_eq (pair_message_type set.codec frame) kind
          then (some frame, next.1)
          else (none, next.1)
    ]

unfoldable pub reject : Rejection → List Action
reject reason = rejected reason ∷ (closes ∷ [])

-- The code that is handed over.
unfoldable pub granted_code : Setting → Option Text
granted_code set = elim set.grant_credential [
  | none ↦ some set.identity_code
  | some answer ↦ answer
]

-- The steps from the code that is computed on.
unfoldable pub deliver_credentials : Setting → List Action
unfolding granted_code reject
deliver_credentials set = elim (granted_code set) [
  | none ↦ reject user_declined
  | some code ↦
      let rest = approved ∷ (closes ∷ []) in
      if set.takes_credentials then credentials set.uid set.public_key code ∷ rest else rest
]

unfoldable pub confirm : Setting → Text → List Action
unfolding prompt_for_sas deliver_credentials reject
confirm set sas =
    let answer = prompt_for_sas sas set.prompt in
    asked answer.1
    ∷ elim answer.0 [ err reason ↦ reject reason | ok done ↦ deliver_credentials set ]

-- The steps from the reveal on.
unfoldable pub check_reveal :
    Setting → Text → Text → Text → Bytes → List (Option Bytes) → List Action
unfolding recv_typed parse_pair_reveal verify_commitment compute_sas confirm reject
check_reveal set local_fp remote_fp commit rd inbox =
    elim (recv_typed set (codes "pair_reveal") inbox).0 [
      | none ↦ reject timeout
      | some frame ↦ elim (parse_pair_reveal set.codec frame) [
        | none ↦ reject sas_mismatch
        | some rc ↦
            if verify_commitment set.codec commit rc
            then confirm set (compute_sas set.codec rc rd local_fp remote_fp)
            else reject sas_mismatch
      ]
    ]

unfoldable pub send_challenge : Setting → Text → Text → Text → List (Option Bytes) → List Action
unfolding check_reveal reject
send_challenge set local_fp remote_fp commit inbox = elim set.new_nonce [
  | none ↦ reject user_declined
  | some rd ↦
      if set.takes_challenge
      then challenge rd ∷ check_reveal set local_fp remote_fp commit rd inbox
      else closes ∷ []
]

unfoldable pub check_commit : Setting → Text → Text → List (Option Bytes) → List Action
unfolding recv_typed parse_pair_commit send_challenge reject
check_commit set local_fp remote_fp inbox =
    let next = recv_typed set (codes "pair_commit") inbox in
    elim next.0 [
      | none ↦ reject timeout
      | some frame ↦ elim (parse_pair_commit set.codec frame) [
        | none ↦ reject user_declined
        | some commit ↦ send_challenge set local_fp remote_fp commit next.1
      ]
    ]

unfoldable pub handle_pair_request_on_open : Setting → List (Option Bytes) → List Action
unfolding extract_fingerprint check_commit reject
handle_pair_request_on_open set inbox =
    let local_fp = extract_fingerprint set.local_description in
    let remote_fp = extract_fingerprint set.remote_description in
    if is_empty local_fp || is_empty remote_fp
    then reject user_declined
    else check_commit set local_fp remote_fp inbox
