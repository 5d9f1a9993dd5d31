-- ===== src/Pairing/Sas.antt =====
-- The code that both ends of a pairing compute.
use bitbang_cli.Sdp.Normal.{fingerprints_equal_iff}
use bitbang_cli.Sdp.{to_upper, fingerprints_equal}
use bitbang_cli.Wire.{Bytes}
use bitbang_cli.Pairing.Commit.{compute_sas, padded_digits, joined_fingerprints, Codec, join_first}
use bitbang_cli.Prelude.{
  text_le, sort_texts, sort_in, Text, ◌≡◌, ◌∷◌, [], true, false, Bool-cases, arith, refl, inl, inr,
  ℕ, map, length, suc, zero, ◌∙◌, ap,
}

pub text_le_total : (s t : Text) → text_le s t ≡ false → text_le t s ≡ true
unfolding text_le
text_le_total [] t h = absurd cc
text_le_total (x ∷ s) [] h = refl
text_le_total (x ∷ s) (y ∷ t) h = ground (arith, text_le_total s t)

pub text_le_antisym : (s t : Text) → text_le s t ≡ true → text_le t s ≡ true → s ≡ t
unfolding text_le
text_le_antisym [] [] h k = refl
text_le_antisym [] (y ∷ t) h k = absurd cc
text_le_antisym (x ∷ s) [] h k = absurd cc
text_le_antisym (x ∷ s) (y ∷ t) h k = ground (arith, text_le_antisym s t)

sort_texts_swap : (s t : Text) → sort_texts (s ∷ (t ∷ [])) ≡ sort_texts (t ∷ (s ∷ []))
unfolding sort_texts sort_in
sort_texts_swap s t = elim (Bool-cases (text_le s t)) [
  | inl below ↦ elim (Bool-cases (text_le t s)) [
    | inl above ↦ ground (arith, below, above, text_le_antisym s t below above)
    | inr other ↦ ground (arith, below, other)
  ]
  | inr above ↦ ground (arith, above, text_le_total s t above)
]

joined_fingerprints_swap : (a b : Text) → joined_fingerprints a b ≡ joined_fingerprints b a
unfolding joined_fingerprints
joined_fingerprints_swap a b = ap join_first (sort_texts_swap (map to_upper a) (map to_upper b))

joined_fingerprints_upper :
    (a b c d : Text)
    → map to_upper a ≡ map to_upper c
    → map to_upper b ≡ map to_upper d
    → joined_fingerprints a b ≡ joined_fingerprints c d
unfolding joined_fingerprints
joined_fingerprints_upper a b c d h k = cc (h, k)

-- The two ends of a connection compute the same code from the same nonces: each has its own fingerprint
-- and the other's, in its own order and its own case.
pub compute_sas_agrees :
    (x : Codec) (rc rd : Bytes) (local_fp remote_fp their_local their_remote : Text)
    → fingerprints_equal local_fp their_remote ≡ true
    → fingerprints_equal remote_fp their_local ≡ true
    → compute_sas x rc rd local_fp remote_fp ≡ compute_sas x rc rd their_local their_remote
unfolding compute_sas
compute_sas_agrees x rc rd local_fp remote_fp their_local their_remote h k =
    let joined : joined_fingerprints local_fp remote_fp
        ≡ joined_fingerprints their_local their_remote =
      joined_fingerprints_upper local_fp remote_fp their_remote their_local
        ((fingerprints_equal_iff local_fp their_remote).0 h)
        ((fingerprints_equal_iff remote_fp their_local).0 k)
      ∙ joined_fingerprints_swap their_remote their_local in
    rw joined

padded_digits-length : (n v : ℕ) → length (padded_digits n v) ≡ n
unfolding padded_digits
padded_digits-length zero v = refl
padded_digits-length (suc n) v = omega (arith, padded_digits-length n v)
