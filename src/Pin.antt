-- ===== src/Pin.antt =====
-- internal/auth/pin.go: the PIN of a listener. SHA-256 is a parameter, a function from texts to bytes.
use bitbang_cli.Prelude.{
  Option, Text, ℕ, ◌≢◌, Bool, if◌then◌else◌, false, text_eq, [], some, none, ◌≡◌, ◌==◌, true, ◌↔◌,
  arith, text_eq_iff, not,
}
use bitbang_cli.Wire.{Bytes}

-- crypto/subtle.ConstantTimeCompare, which answers 1 exactly on equal byte strings.
abbrev pub constant_time_compare : Bytes → Bytes → ℕ
constant_time_compare x y = if text_eq x y then 1 else 0

-- `*PINAuth`, nil when no PIN is set, is `Option PinAuth`.
pub record PinAuth : Type 0 where
  pub pin_hash : Bytes
  pub set : Bool

unfoldable pub required : Option PinAuth → Bool
required none = false
required (some a) = a.set

module _ (sha256 : Text → Bytes) where
  unfoldable pub new : Text → Option PinAuth
  new pin = if text_eq pin [] then none else some (record { pin_hash = sha256 pin; set = true })

  unfoldable pub verify : Option PinAuth → Text → Bool
  verify none attempt = false
  verify (some a) attempt = constant_time_compare a.pin_hash (sha256 attempt) == 1

-- A PIN is required exactly when it is not empty, and an attempt is verified exactly when the PIN is not
-- empty and the two have the same hash.
pub verify-new :
    (sha256 : Text → Bytes) (pin attempt : Text)
    → (required (new sha256 pin) ≡ not (text_eq pin []))
      × ((verify sha256 (new sha256 pin) attempt ≡ true)
          ↔ ((pin ≢ []) × (sha256 pin ≡ sha256 attempt)))
unfolding new verify required
verify-new sha256 pin attempt =
    ground (arith, text_eq_iff pin [], text_eq_iff (sha256 pin) (sha256 attempt))
