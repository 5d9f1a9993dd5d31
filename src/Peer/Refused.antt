-- ===== src/Peer/Refused.antt =====
-- What follows a refused answer.
use bitbang_cli.Prelude.{
  none, List, Text, ◌≡◌, true, some, [], ◌∷◌, Option-cases, arith, Result-cases, refl, inl, inr,
  false,
}
use bitbang_cli.Peer.Answer.{
  check_code, check_nonce, answer_run, answer_step, Outside, handle_answer, mark_verify_failed,
  handle_request_on_open, close, set_access, Event, Request, Connection, Refusal, admitted,
  answered, open_request, opened,
}

-- The check has failed, and stays failed.
check_nonce-failed :
    (w : Outside) (sdp : Text) (req : Request) (c : Connection)
    → c.verify_failed ≡ true
    → (check_nonce w sdp req c).0.verify_failed ≡ true
unfolding check_nonce mark_verify_failed
check_nonce-failed w sdp req c h = ground arith

check_code-failed :
    (w : Outside) (sdp : Text) (req : Request) (c : Connection)
    → c.verify_failed ≡ true
    → (check_code w sdp req c).0.verify_failed ≡ true
unfolding check_code mark_verify_failed set_access
check_code-failed w sdp req c h = elim (Option-cases (admitted w req.code)) [
  | inl bad ↦ ground (arith, bad)
  | inr (none, good) ↦ ground (arith, good, check_nonce-failed w sdp req c h)
  | inr (some access, good) ↦
      ground (arith, good, check_nonce-failed w sdp req (record c { access = access }) h)
]

answer_step-failed :
    (w : Outside) (e : Event) (c : Connection)
    → c.verify_failed ≡ true
    → ((answer_step w e c).0.verify_failed ≡ true) × ((answer_step w e c).1 ≡ [])
unfolding answer_step handle_answer handle_request_on_open mark_verify_failed close
answer_step-failed w (answered sdp encrypted_request false) c h = (h, refl)
answer_step-failed w (answered sdp [] true) c h = (refl, refl)
answer_step-failed w (answered sdp (x ∷ xs) true) c h =
    elim (Result-cases (open_request w (x ∷ xs))) [
      | inr (e, bad) ↦ (ground (arith, bad), refl)
      | inl (req, good) ↦ (ground (arith, good, check_code-failed w sdp req c h), refl)
    ]
answer_step-failed w (opened sends) c h = (ground (arith, h), ground (arith, h))

answer_run-failed :
    (w : Outside) (es : List Event) (c : Connection)
    → c.verify_failed ≡ true
    → (answer_run w es c).1 ≡ []
unfolding answer_run
answer_run-failed w [] c h = refl
answer_run-failed w (e ∷ es) c h =
    let step = answer_step-failed w e c h in
    ground (arith, step.1, answer_run-failed w es (answer_step w e c).0 step.0)

check_nonce-refused :
    (w : Outside) (sdp : Text) (req : Request) (c : Connection) (e : Refusal)
    → (check_nonce w sdp req c).1 ≡ some e
    → (check_nonce w sdp req c).0.verify_failed ≡ true
unfolding check_nonce mark_verify_failed
check_nonce-refused w sdp req c e h = ground arith

check_code-refused :
    (w : Outside) (sdp : Text) (req : Request) (c : Connection) (e : Refusal)
    → (check_code w sdp req c).1 ≡ some e
    → (check_code w sdp req c).0.verify_failed ≡ true
unfolding check_code mark_verify_failed
check_code-refused w sdp req c e h = elim (Option-cases (admitted w req.code)) [
  | inl bad ↦ ground (arith, bad)
  | inr (access, good) ↦
      ground (arith, good, h, check_nonce-refused w sdp req (set_access access c) e)
]

handle_answer-refused :
    (w : Outside) (sdp encrypted_request : Text) (c : Connection) (e : Refusal)
    → (handle_answer w sdp encrypted_request true c).1 ≡ some e
    → (handle_answer w sdp encrypted_request true c).0.verify_failed ≡ true
unfolding handle_answer mark_verify_failed
handle_answer-refused w sdp [] c e h = refl
handle_answer-refused w sdp (x ∷ xs) c e h = elim (Result-cases (open_request w (x ∷ xs))) [
  | inr (e', bad) ↦ ground (arith, bad)
  | inl (req, good) ↦ ground (arith, good, h, check_code-refused w sdp req c e)
]

-- Once the listener has refused an answer that WebRTC took, the connection never sends a proof,
-- whatever arrives after it.
pub refused_sends_nothing :
    (w : Outside) (sdp encrypted_request : Text) (c : Connection) (e : Refusal) (es : List Event)
    → (handle_answer w sdp encrypted_request true c).1 ≡ some e
    → (answer_run w es (handle_answer w sdp encrypted_request true c).0).1 ≡ []
refused_sends_nothing w sdp encrypted_request c e es h =
    answer_run-failed w es (handle_answer w sdp encrypted_request true c).0
      (handle_answer-refused w sdp encrypted_request c e h)
