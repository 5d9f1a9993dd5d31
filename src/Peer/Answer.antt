-- ===== src/Peer/Answer.antt =====
-- internal/peer/connection.go and verify.go: the listener's half of the bidirectional check, from the
-- answer to the proof on stream 0.
use bitbang_cli.Wire.{build_frame, Bytes, flag_syn}
use bitbang_cli.Sdp.{extract_fingerprint, fingerprints_equal}
use bitbang_cli.Prelude.{
  List, none, true, Option, Text, Bool, some, false, Result, if◌then◌else◌, err, is_empty, [],
  text_eq, not, ◌∷◌, ok, ◌++◌,
}

-- The decrypted payload of an answer.
pub record Request : Type 0 where
  pub fingerprint : Text
  pub nonce : Text
  pub code : Text

-- What comes from outside: base64, the identity's decryption and its code, the decoder of the payload,
-- the access of a presented code when an `Authorize` is installed, and the payload with the nonce's hash
-- (`none` where its encoding fails).
pub record Outside : Type 0 where
  pub decode_base64 : Text → Option Bytes
  pub decrypt : Bytes → Option Bytes
  pub parse_request : Bytes → Option Request
  pub identity_code : Text
  pub authorize : Option (Text → Option Text)
  pub nonce_hash_payload : Bytes → Option Bytes

pub record Connection : Type 0 where
  pub nonce : Option Bytes
  pub verify_failed : Bool
  pub access : Text
  pub closed : Bool

unfoldable pub new_connection : Connection
new_connection = record { nonce = none; verify_failed = false; access = []; closed = false }

pub data Refusal : Type 0 where
  bad_description missing_request bad_ciphertext bad_decryption bad_request bad_code bad_nonce
        no_fingerprint fingerprint_mismatch :
      Refusal

unfoldable pub mark_verify_failed : Connection → Connection
mark_verify_failed c = record c { verify_failed = true }

-- The check of the code: the access it grants, where an `Authorize` decides.
unfoldable pub admitted : Outside → Text → Option (Option Text)
admitted w code = elim w.authorize [
  | none ↦ if text_eq code w.identity_code then some none else none
  | some decide ↦ elim (decide code) [ none ↦ none | some access ↦ some (some access) ]
]

unfoldable pub set_access : Option Text → Connection → Connection
set_access none c = c
set_access (some access) c = record c { access = access }

-- `HandleAnswer` from the check of the code on.
unfoldable pub check_nonce : Outside → Text → Request → Connection → Connection × Option Refusal
unfolding mark_verify_failed extract_fingerprint fingerprints_equal
check_nonce w sdp req c = elim (w.decode_base64 req.nonce) [
  | none ↦ (mark_verify_failed c, some bad_nonce)
  | some nonce_bytes ↦
      let actual = extract_fingerprint sdp in
      if is_empty actual
      then (mark_verify_failed c, some no_fingerprint)
      else if not (fingerprints_equal actual req.fingerprint)
      then (mark_verify_failed c, some fingerprint_mismatch)
      else (record c { nonce = some nonce_bytes }, none)
]

unfoldable pub check_code : Outside → Text → Request → Connection → Connection × Option Refusal
unfolding admitted set_access check_nonce mark_verify_failed
check_code w sdp req c = elim (admitted w req.code) [
  | none ↦ (mark_verify_failed c, some bad_code)
  | some access ↦ check_nonce w sdp req (set_access access c)
]

-- The payload, or the error of the step at which it is lost.
unfoldable pub open_request : Outside → Text → Result Refusal Request
open_request w encrypted_request = elim (w.decode_base64 encrypted_request) [
  | none ↦ err bad_ciphertext
  | some ciphertext ↦ elim (w.decrypt ciphertext) [
    | none ↦ err bad_decryption
    | some plaintext ↦ elim (w.parse_request plaintext) [
      | none ↦ err bad_request
      | some req ↦ ok req
    ]
  ]
]

-- `applied` is whether SetRemoteDescription takes the answer.
unfoldable pub handle_answer :
    Outside → Text → Text → Bool → Connection → Connection × Option Refusal
unfolding open_request check_code mark_verify_failed
handle_answer w sdp encrypted_request applied c =
    if not applied
    then (c, some bad_description)
    else if is_empty encrypted_request
    then (mark_verify_failed c, some missing_request)
    else elim (open_request w encrypted_request) [
      | err e ↦ (mark_verify_failed c, some e)
      | ok req ↦ check_code w sdp req c
    ]

unfoldable pub build_verify_nonce_hash_frame : Outside → Bytes → Option Bytes
unfolding build_frame
build_verify_nonce_hash_frame w nonce = elim (w.nonce_hash_payload nonce) [
  | none ↦ none
  | some payload ↦ some (build_frame 0 flag_syn payload)
]

unfoldable pub close : Connection → Connection
close c = record c { closed = true }

-- The data channel opens; `sends` is whether it takes the frame.
unfoldable pub handle_request_on_open : Outside → Bool → Connection → Connection × List Bytes
unfolding close build_verify_nonce_hash_frame
handle_request_on_open w sends c = if c.verify_failed then (close c, []) else elim c.nonce [
  | none ↦ (close c, [])
  | some nonce ↦ elim (build_verify_nonce_hash_frame w nonce) [
    | none ↦ (close c, [])
    | some frame ↦ if sends then (c, frame ∷ []) else (close c, [])
  ]
]

-- What reaches the connection, in any order and any number.
pub data Event : Type 0 where
  answered : Text → Text → Bool → Event
  opened : Bool → Event

unfoldable pub answer_step : Outside → Event → Connection → Connection × List Bytes
unfolding handle_answer handle_request_on_open
answer_step w (answered sdp encrypted_request applied) c =
    ((handle_answer w sdp encrypted_request applied c).0, [])
answer_step w (opened sends) c = handle_request_on_open w sends c

unfoldable pub answer_run : Outside → List Event → Connection → Connection × List Bytes
unfolding answer_step
answer_run w [] c = (c, [])
answer_run w (e ∷ es) c =
    let one = answer_step w e c in let rest = answer_run w es one.0 in (rest.0, one.1 ++ rest.1)
