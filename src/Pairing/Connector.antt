-- ===== src/Pairing/Connector.antt =====
-- cmd/bitbang/connect_pair.go: the connecting side of a pairing, from the open data channel to its end.
use bitbang_cli.Sdp.{extract_fingerprint}
use bitbang_cli.Wire.{Bytes}
use bitbang_cli.Prelude.{
  List, Text, none, ◌∷◌, if◌then◌else◌, [], Option, Bool, some, not, is_empty, text_eq, ◌||◌, codes,
}
use bitbang_cli.Pairing.Commit.{Codec, commitment, compute_sas}
use bitbang_cli.Pairing.Messages.{
  build_pair_reveal, parse_pair_challenge, pair_message_type, build_pair_commit,
  parse_pair_credentials,
}

-- What comes from outside: the descriptions, a fresh nonce (`none` is its error), and whether the channel
-- takes the two frames.
pub record Dialing : Type 0 where
  pub codec : Codec
  pub local_description : Text
  pub remote_description : Text
  pub new_nonce : Option Bytes
  pub takes_commit : Bool
  pub takes_reveal : Bool

-- What a wait answers: a frame, the listener's rejection over signaling, or an error or the deadline.
pub data Heard : Type 0 where
  heard_frame : Bytes → Heard
  turned_down : Text → Heard
  lost : Heard

-- What the connector does, in order; `quits` is `fail`, which ends the program.
pub data Move : Type 0 where
  sends : Bytes → Move
  shows : Text → Move
  paired : Text → Text → Move
  reports : Text → Move
  quits : Move

unfoldable pub next_heard : List Heard → Heard × List Heard
next_heard [] = (lost, [])
next_heard (h ∷ hs) = (h, hs)

unfoldable pub take_credentials : Dialing → Bytes → List Move
unfolding pair_message_type parse_pair_credentials
take_credentials set input =
    if not (text_eq (pair_message_type set.codec input) (codes "pair_credentials"))
    then quits ∷ []
    else elim (parse_pair_credentials set.codec input) [
      | none ↦ quits ∷ []
      | some m ↦ paired m.0 m.2 ∷ []
    ]

unfoldable pub await_verdict : Dialing → Heard → List Move
unfolding take_credentials
await_verdict set (heard_frame input) = take_credentials set input
await_verdict set (turned_down reason) = reports reason ∷ []
await_verdict set lost = quits ∷ []

-- From the reveal on; `heard` is what the last wait answers.
unfoldable pub reveal : Dialing → Bytes → Bytes → Heard → List Move
unfolding build_pair_reveal extract_fingerprint compute_sas await_verdict
reveal set rc rd heard =
    let local_fp = extract_fingerprint set.local_description in
    let remote_fp = extract_fingerprint set.remote_description in
    let rest =
      if is_empty local_fp || is_empty remote_fp
      then quits ∷ []
      else shows (compute_sas set.codec rc rd local_fp remote_fp) ∷ await_verdict set heard in
    if set.takes_reveal then sends (build_pair_reveal set.codec rc) ∷ rest else quits ∷ []

unfoldable pub take_challenge : Dialing → Bytes → Bytes → Heard → List Move
unfolding parse_pair_challenge pair_message_type reveal
take_challenge set rc input heard = elim (parse_pair_challenge set.codec input) [
  | none ↦ quits ∷ []
  | some rd ↦
      if text_eq (pair_message_type set.codec input) (codes "pair_challenge")
      then reveal set rc rd heard
      else quits ∷ []
]

unfoldable pub await_challenge : Dialing → Bytes → Heard → Heard → List Move
unfolding take_challenge
await_challenge set rc (heard_frame input) heard = take_challenge set rc input heard
await_challenge set rc (turned_down reason) heard = reports reason ∷ []
await_challenge set rc lost heard = quits ∷ []

unfoldable pub connect_pair : Dialing → List Heard → List Move
unfolding build_pair_commit commitment await_challenge next_heard
connect_pair set hs = elim set.new_nonce [
  | none ↦ quits ∷ []
  | some rc ↦
      let first = next_heard hs in
      let second = next_heard first.1 in
      if set.takes_commit
      then sends (build_pair_commit set.codec (commitment set.codec rc))
        ∷ await_challenge set rc first.0 second.0
      else quits ∷ []
]
