-- ===== src/Client/Verified.antt =====
-- What the connecting side gives away, and to whom.
use bitbang_cli.Wire.{Bytes, Frame, parse_frame, is_syn}
use bitbang_cli.Prelude.{
  List, ◌≡◌, ◌⊎◌, ◌∷◌, [], ok, Result-cases, ℕ, Text, ◌≢◌, inr, true, arith, some, inl,
  Option-cases, codes, refl, text_eq_iff,
}
use bitbang_cli.Client.Handshake.{
  handshake, Setting, check_verify, stop, Received, message, Control, established, ended,
}

-- The first message is a frame on stream 0 that carries the hash of the client's own nonce.
abbrev pub StartsVerified : Setting → List Received → Type 0
StartsVerified set [] = ⊥
StartsVerified set (ended ∷ rs) = ⊥
StartsVerified set (message input ∷ rs) =
    (frame : Frame) × (m : Text × Text) × (parse_frame input ≡ ok frame)
    × (frame.stream_id ≡ 0)
    × (is_syn frame ≡ true)
    × (set.verify frame.payload ≡ some m)
    × (m.0 ≡ codes "verify_nonce_hash")
    × (m.1 ≡ set.nonce_hash)

check_verify-ok :
    (set : Setting) (input : Bytes) (rs : List Received)
    → check_verify set input ≡ ok tt
    → StartsVerified set (message input ∷ rs)
unfolding check_verify
check_verify-ok set input rs h = elim (Result-cases (parse_frame input)) [
  | inr (e, bad) ↦ absurd (ground (arith, bad, h))
  | inl (frame, good) ↦ elim (Option-cases (set.verify frame.payload)) [
    | inl absent ↦ absurd (ground (arith, good, absent, h))
    | inr (m, found) ↦ (
      frame,
      m,
      good,
      ground (arith, good, found, h),
      ground (arith, good, found, h),
      found,
      ground (arith, good, found, h, text_eq_iff m.0 (codes "verify_nonce_hash")),
      ground (arith, good, found, h, text_eq_iff m.1 set.nonce_hash),
    )
  ]
]

-- A bidirectional check: unless the first message that arrives is a frame on stream 0 that carries the
-- hash of the client's own nonce, the client sends nothing, neither its path nor a PIN, and the handshake
-- does not succeed.
pub handshake-Verified :
    (set : Setting) (rs : List Received)
    → StartsVerified set rs
      ⊎ (((handshake set rs).sent ≡ [])
          × ((server negotiated : ℕ) (ctl : Control)
              → (handshake set rs).outcome ≢ established server negotiated ctl))
unfolding handshake stop
handshake-Verified set [] = inr (refl, λ a b c e. cc)
handshake-Verified set (ended ∷ rs) = inr (refl, λ a b c e. cc)
handshake-Verified set (message input ∷ rs) = elim (Result-cases (check_verify set input)) [
  | inl (done, good) ↦ inl (check_verify-ok set input rs good)
  | inr (e, bad) ↦ inr (ground (arith, bad), λ a b c h. ground (arith, bad, h))
]
