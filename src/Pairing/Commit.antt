-- ===== src/Pairing/Commit.antt =====
-- internal/pairing/commit.go: the commitment, the code of a pairing (SAS) and the messages.
use bitbang_cli.Sdp.{to_upper}
use Prim.Native.String.{String, [], ◌∷◌}
use bitbang_cli.Wire.{Bytes}
use bitbang_cli.Prelude.{
  sort_texts, ℕ, String, Text, ◌∷◌, ◌++◌, Option, [], Bool, suc, ◌*◌, take, text_eq, ◌+◌, ◌%◌, ◌/◌,
  ◌^◌, zero, map, List,
}
use Prim.Native.Nat.{ℕ, suc}

-- What comes from outside: SHA-256, base64, the JSON decoder by the name of a field (`none` is an input
-- that is no object or a field that is no text, and an absent field is empty), and the JSON encoder of
-- named texts.
pub record Codec : Type 0 where
  pub sha256 : Bytes → Bytes
  pub encode_base64 : Bytes → Text
  pub decode_base64 : Text → Option Bytes
  pub text_field : String → Bytes → Option Text
  pub marshal : List (String × Text) → Bytes

abbrev pub nonce_len : ℕ
nonce_len = 32

unfoldable pub commitment : Codec → Bytes → Text
commitment x nonce = x.encode_base64 (x.sha256 nonce)

unfoldable pub verify_commitment : Codec → Text → Bytes → Bool
unfolding commitment
verify_commitment x commit nonce = text_eq commit (commitment x nonce)

-- binary.BigEndian.Uint32 of the first four bytes.
unfoldable pub big_endian : ℕ → Bytes → ℕ
big_endian acc [] = acc
big_endian acc (b ∷ bs) = big_endian (acc * 256 + b) bs

-- The last n decimal digits, first the highest.
unfoldable pub padded_digits : ℕ → ℕ → Text
padded_digits zero v = []
padded_digits (suc n) v = (b'0' + v / 10 ^ n % 10) ∷ padded_digits n v

-- The first two texts of the list, with the separator between them.
unfoldable pub join_first : List Text → Text
join_first [] = []
join_first (first ∷ []) = first
join_first (first ∷ (second ∷ rest)) = first ++ (b'|' ∷ second)

unfoldable pub joined_fingerprints : Text → Text → Text
unfolding join_first sort_texts
joined_fingerprints local_fp remote_fp =
    join_first (sort_texts (map to_upper local_fp ∷ (map to_upper remote_fp ∷ [])))

-- Texts are ASCII here, so the bytes of a text are its code points.
unfoldable pub compute_sas : Codec → Bytes → Bytes → Text → Text → Text
unfolding joined_fingerprints big_endian padded_digits
compute_sas x rc rd local_fp remote_fp =
    let sum = x.sha256 (rc ++ (rd ++ joined_fingerprints local_fp remote_fp)) in
    padded_digits 6 (big_endian 0 (take 4 sum) % 1000000)
