-- ===== src/Peer/Proof.antt =====
-- Who gets the proof that the listener holds its key.
use bitbang_cli.Sdp.{extract_fingerprint, fingerprints_equal}
use bitbang_cli.Wire.{Bytes}
use bitbang_cli.Prelude.{
  Option, Text, List, ◌∷◌, ◌≡◌, ◌⊎◌, true, some, [], none, refl, ok, ◌≢◌, Option-cases, inl, arith,
  inr, List-cases, Bool-cases, Bool, All, Result-cases, false, on_if, on_option, All-append, sym,
  ◌∙◌,
}
use bitbang_cli.Peer.Answer.{
  Outside, set_access, check_nonce, mark_verify_failed, Event, Connection, Request, answered,
  open_request, admitted, opened, handle_answer, build_verify_nonce_hash_frame,
  handle_request_on_open, check_code, close, answer_step, answer_run, new_connection,
}

-- The answer was taken by WebRTC, its request decrypts to a code that is admitted and to the fingerprint
-- of the description itself, and the nonce is the one of the request.
abbrev pub Proves : Outside → Bytes → Event → Type 0
Proves w nonce (answered sdp encrypted_request applied) =
    (req : Request) × (access : Option Text) × (applied ≡ true)
    × (open_request w encrypted_request ≡ ok req)
    × (admitted w req.code ≡ some access)
    × (extract_fingerprint sdp ≢ [])
    × (fingerprints_equal (extract_fingerprint sdp) req.fingerprint ≡ true)
    × (w.decode_base64 req.nonce ≡ some nonce)
Proves w nonce (opened sends) = ⊥

-- One of the events does.
abbrev pub AnyProves : Outside → Bytes → List Event → Type 0
AnyProves w nonce [] = ⊥
AnyProves w nonce (e ∷ es) = Proves w nonce e ⊎ AnyProves w nonce es

-- A nonce that is set was set before, or the event proves it.
check_nonce-nonce :
    (w : Outside) (sdp : Text) (req : Request) (c : Connection) (nonce : Bytes)
    → (check_nonce w sdp req c).0.nonce ≡ some nonce
    → (c.nonce ≡ some nonce)
      ⊎ ((extract_fingerprint sdp ≢ [])
          × (fingerprints_equal (extract_fingerprint sdp) req.fingerprint ≡ true)
          × (w.decode_base64 req.nonce ≡ some nonce))
unfolding check_nonce mark_verify_failed
check_nonce-nonce w sdp req c nonce h = elim (Option-cases (w.decode_base64 req.nonce)) [
  | inl bad ↦ inl (ground (arith, bad, h))
  | inr (bytes, good) ↦ elim (List-cases (extract_fingerprint sdp)) [
    | inl absent ↦ inl (ground (arith, good, absent, h))
    | inr (x, xs, found) ↦
        elim (Bool-cases (fingerprints_equal (extract_fingerprint sdp) req.fingerprint)) [
          | inl same ↦ inr (λ e. cc, same, ground (arith, good, found, same, h))
          | inr other ↦ inl (ground (arith, good, found, other, h))
        ]
  ]
]

set_access-nonce : (a : Option Text) (c : Connection) → (set_access a c).nonce ≡ c.nonce
unfolding set_access
set_access-nonce none c = refl
set_access-nonce (some a) c = refl

check_code-nonce :
    (w : Outside) (sdp : Text) (req : Request) (c : Connection) (nonce : Bytes)
    → (check_code w sdp req c).0.nonce ≡ some nonce
    → (c.nonce ≡ some nonce)
      ⊎ ((access : Option Text) × (admitted w req.code ≡ some access)
          × (extract_fingerprint sdp ≢ [])
          × (fingerprints_equal (extract_fingerprint sdp) req.fingerprint ≡ true)
          × (w.decode_base64 req.nonce ≡ some nonce))
unfolding check_code mark_verify_failed
check_code-nonce w sdp req c nonce h = elim (Option-cases (admitted w req.code)) [
  | inl bad ↦ inl (ground (arith, bad, h))
  | inr (access, good) ↦
      elim (check_nonce-nonce w sdp req (set_access access c) nonce (ground (arith, good, h))) [
        | inl old ↦ inl (ground (arith, old, set_access-nonce access c))
        | inr new ↦ inr (access, good, new.0, new.1, new.2)
      ]
]

handle_answer-nonce :
    (w : Outside) (sdp encrypted_request : Text) (applied : Bool) (c : Connection) (nonce : Bytes)
    → (handle_answer w sdp encrypted_request applied c).0.nonce ≡ some nonce
    → (c.nonce ≡ some nonce) ⊎ Proves w nonce (answered sdp encrypted_request applied)
unfolding handle_answer mark_verify_failed
handle_answer-nonce w sdp encrypted_request false c nonce h = inl h
handle_answer-nonce w sdp [] true c nonce h = inl h
handle_answer-nonce w sdp (x ∷ xs) true c nonce h = elim (Result-cases (open_request w (x ∷ xs))) [
  | inr (e, bad) ↦ inl (ground (arith, bad, h))
  | inl (req, good) ↦ elim (check_code-nonce w sdp req c nonce (ground (arith, good, h))) [
    | inl old ↦ inl old
    | inr checked ↦ inr (req, checked.0, refl, good, checked.1, checked.2, checked.3, checked.4)
  ]
]

-- What is sent when the channel opens is the proof of the nonce that is set, and nothing where the
-- check has failed.
on_open-All :
    (w : Outside) (sends : Bool) (c : Connection) (P : Bytes → Type 0)
    → ((nonce frame : Bytes)
        → c.nonce ≡ some nonce
        → build_verify_nonce_hash_frame w nonce ≡ some frame
        → P frame)
    → All P (handle_request_on_open w sends c).1
unfolding handle_request_on_open
on_open-All w sends c P h =
    let Sent : Connection × List Bytes → Type 0 = λ r. All P r.1 in
    on_if Sent c.verify_failed _ _ (λ failed. tt)
      (λ sound.
        on_option Sent c.nonce _ _ (λ unset. tt)
          (λ nonce set.
            on_option Sent (build_verify_nonce_hash_frame w nonce) _ _ (λ unbuilt. tt)
              (λ frame built.
                on_if Sent sends _ _ (λ taken. (h nonce frame set built, tt)) (λ lost. tt))))

on_open-nonce :
    (w : Outside) (sends : Bool) (c : Connection)
    → (handle_request_on_open w sends c).0.nonce ≡ c.nonce
unfolding handle_request_on_open close
on_open-nonce w sends c = ground arith

answer_step-nonce :
    (w : Outside) (e : Event) (c : Connection) (nonce : Bytes)
    → (answer_step w e c).0.nonce ≡ some nonce
    → (c.nonce ≡ some nonce) ⊎ Proves w nonce e
unfolding answer_step
answer_step-nonce w (answered sdp encrypted_request applied) c nonce h =
    handle_answer-nonce w sdp encrypted_request applied c nonce h
answer_step-nonce w (opened sends) c nonce h = inl (sym (on_open-nonce w sends c) ∙ h)

answer_step-All :
    (w : Outside) (e : Event) (c : Connection) (P : Bytes → Type 0)
    → ((nonce frame : Bytes)
        → c.nonce ≡ some nonce
        → build_verify_nonce_hash_frame w nonce ≡ some frame
        → P frame)
    → All P (answer_step w e c).1
unfolding answer_step
answer_step-All w (answered sdp encrypted_request applied) c P h = tt
answer_step-All w (opened sends) c P h = on_open-All w sends c P h

answer_run-All :
    (w : Outside) (es : List Event) (c : Connection) (P : Bytes → Type 0)
    → ((nonce frame : Bytes)
        → (c.nonce ≡ some nonce) ⊎ AnyProves w nonce es
        → build_verify_nonce_hash_frame w nonce ≡ some frame
        → P frame)
    → All P (answer_run w es c).1
unfolding answer_run
answer_run-All w [] c P h = tt
answer_run-All w (e ∷ es) c P h =
    let one = answer_step w e c in
    let later : (nonce : Bytes)
        → (one.0.nonce ≡ some nonce) ⊎ AnyProves w nonce es
        → (c.nonce ≡ some nonce) ⊎ AnyProves w nonce (e ∷ es) =
      λ nonce from. elim from [
        | inl set ↦ elim (answer_step-nonce w e c nonce set) [
          | inl old ↦ inl old
          | inr new ↦ inr (inl new)
        ]
        | inr proved ↦ inr (inr proved)
      ] in
    All-append P one.1 (answer_run w es one.0).1
      (answer_step-All w e c P (λ nonce frame set built. h nonce frame (inl set) built))
      (answer_run-All w es one.0 P
        (λ nonce frame from built. h nonce frame (later nonce from) built))

-- A frame is the proof of a nonce that some event of the list proves.
abbrev pub IsProof : Outside → List Event → Bytes → Type 0
IsProof w es frame =
    (nonce : Bytes) × (build_verify_nonce_hash_frame w nonce ≡ some frame) × AnyProves w nonce es

-- Whatever answers reach a new connection and whenever its data channel opens, every frame it sends is
-- the proof of a nonce that came in an answer that WebRTC took, that decrypts with the listener's key,
-- that presents a code that is admitted, and that names the fingerprint of its own description.
pub answer_run-IsProof :
    (w : Outside) (es : List Event) → All (IsProof w es) (answer_run w es new_connection).1
unfolding new_connection
answer_run-IsProof w es =
    answer_run-All w es new_connection (IsProof w es) (λ nonce frame from built. elim from [
      | inl set ↦ absurd (cc)
      | inr proved ↦ (nonce, built, proved)
    ])
