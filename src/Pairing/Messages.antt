-- ===== src/Pairing/Messages.antt =====
-- internal/pairing/commit.go: the messages of a pairing on the data channel.
use bitbang_cli.Wire.{Bytes}
use bitbang_cli.Wire.RoundTrip.{IsByte}
use bitbang_cli.Prelude.{
  Bool, true, false, not, ◌&&◌, ◌||◌, ltb, All, String, Text, List, ◌∷◌, none, ◌≢◌, ◌≡◌, codes,
  Option, if◌then◌else◌, [], some, arith, text_eq, length, is_empty, refl, ◌==◌,
}
use bitbang_cli.Pairing.Commit.{Codec, nonce_len}
use Prim.Native.String.{String, []}

-- The errors of the decoder are ignored here.
unfoldable pub pair_message_type : Codec → Bytes → Text
pair_message_type x input = elim (x.text_field "type" input) [ none ↦ [] | some t ↦ t ]

unfoldable pub decode_nonce : Codec → Text → Option Bytes
decode_nonce x s = elim (x.decode_base64 s) [
  | none ↦ none
  | some n ↦ if length n == nonce_len then some n else none
]

unfoldable pub parse_pair_commit : Codec → Bytes → Option Text
parse_pair_commit x input = elim (x.text_field "commit" input) [
  | none ↦ none
  | some commit ↦ if is_empty commit then none else some commit
]

unfoldable pub parse_nonce_field : String → Codec → Bytes → Option Bytes
unfolding decode_nonce
parse_nonce_field name x input = elim (x.text_field name input) [
  | none ↦ none
  | some s ↦ decode_nonce x s
]

unfoldable pub parse_pair_challenge : Codec → Bytes → Option Bytes
unfolding parse_nonce_field
parse_pair_challenge x input = parse_nonce_field "nonce_d" x input

unfoldable pub parse_pair_reveal : Codec → Bytes → Option Bytes
unfolding parse_nonce_field
parse_pair_reveal x input = parse_nonce_field "nonce_c" x input

unfoldable pub parse_pair_credentials : Codec → Bytes → Option (Text × Text × Text)
parse_pair_credentials x input = elim (x.text_field "uid" input) [
  | none ↦ none
  | some uid ↦ elim (x.text_field "public_key" input) [
    | none ↦ none
    | some public_key ↦ elim (x.text_field "access_code" input) [
      | none ↦ none
      | some access_code ↦ if is_empty uid then none else some (uid, public_key, access_code)
    ]
  ]
]

unfoldable pub build_pair_commit : Codec → Text → Bytes
build_pair_commit x commit = x.marshal (("type", codes "pair_commit") ∷ (("commit", commit) ∷ []))

unfoldable pub build_pair_challenge : Codec → Bytes → Bytes
build_pair_challenge x nonce =
    x.marshal (("type", codes "pair_challenge") ∷ (("nonce_d", x.encode_base64 nonce) ∷ []))

unfoldable pub build_pair_reveal : Codec → Bytes → Bytes
build_pair_reveal x nonce =
    x.marshal (("type", codes "pair_reveal") ∷ (("nonce_c", x.encode_base64 nonce) ∷ []))

unfoldable pub build_pair_credentials : Codec → Text → Text → Text → Bytes
build_pair_credentials x uid public_key access_code = x.marshal (
    ("type", codes "pair_credentials")
    ∷ (("uid", uid) ∷ (("public_key", public_key) ∷ (("access_code", access_code) ∷ []))))

-- The names of the fields of these messages: lower-case, so no two of them are one to a decoder that
-- looks names up in any case.
abbrev pub field_names : List Text
field_names =
    codes "type"
    ∷ (codes "commit"
        ∷ (codes "nonce_d"
            ∷ (codes "nonce_c"
                ∷ (codes "uid" ∷ (codes "public_key" ∷ (codes "access_code" ∷ []))))))

abbrev pub is_one_of : Text → List Text → Bool
is_one_of name [] = false
is_one_of name (n ∷ names) = text_eq n name || is_one_of name names

abbrev pub is_ascii : Text → Bool
is_ascii [] = true
is_ascii (c ∷ s) = ltb c 128 && is_ascii s

-- An object of the pairing: its names are among the fields of the messages and stand there once. The
-- program never makes another.
abbrev pub names_of : List (String × Text) → List Text
names_of [] = []
names_of ((key, value) ∷ fields) = codes key ∷ names_of fields

abbrev pub is_object : List Text → Bool
is_object [] = true
is_object (name ∷ names) =
    is_one_of name field_names && (not (is_one_of name names) && is_object names)

abbrev pub field_of : String → List (String × Text) → Text
field_of name [] = []
field_of name ((key, value) ∷ fields) =
    if text_eq (codes key) (codes name) then value else field_of name fields

abbrev pub HasAscii : List (String × Text) → Type 0
HasAscii [] = Unit
HasAscii ((key, value) ∷ fields) = (is_ascii value ≡ true) × HasAscii fields

-- What encoding/json promises of these objects, their texts being ASCII: a field of the messages reads
-- back as the text that was written, and an absent one is empty. What encoding/base64 promises: the
-- bytes read back, and the text is ASCII.
pub record ReadsBack (x : Codec) : Type 0 where
  pub object :
      (name : String) (fields : List (String × Text))
      → is_one_of (codes name) field_names ≡ true
      → is_object (names_of fields) ≡ true
      → HasAscii fields
      → x.text_field name (x.marshal fields) ≡ some (field_of name fields)
  pub bytes : (n : Bytes) → All IsByte n → x.decode_base64 (x.encode_base64 n) ≡ some n
  pub ascii : (n : Bytes) → All IsByte n → is_ascii (x.encode_base64 n) ≡ true

pub parse-build_pair_commit :
    (x : Codec) (commit : Text)
    → ReadsBack x
    → is_ascii commit ≡ true
    → commit ≢ []
    → (pair_message_type x (build_pair_commit x commit) ≡ codes "pair_commit")
      × (parse_pair_commit x (build_pair_commit x commit) ≡ some commit)
unfolding build_pair_commit parse_pair_commit pair_message_type
parse-build_pair_commit x [] reads plain filled = absurd (filled refl)
parse-build_pair_commit x (c ∷ commit) reads plain filled =
    let fields : List (String × Text) =
      ("type", codes "pair_commit") ∷ (("commit", c ∷ commit) ∷ []) in
    let kind = reads.object "type" fields refl refl (refl, (plain, tt)) in
    let value = reads.object "commit" fields refl refl (refl, (plain, tt)) in
    (ground (arith, kind), ground (arith, value))

decode-encode_nonce :
    (x : Codec) (n : Bytes)
    → ReadsBack x
    → All IsByte n
    → length n ≡ nonce_len
    → decode_nonce x (x.encode_base64 n) ≡ some n
unfolding decode_nonce
decode-encode_nonce x n reads whole size = ground (arith, reads.bytes n whole, size)

pub parse-build_pair_challenge :
    (x : Codec) (n : Bytes)
    → ReadsBack x
    → All IsByte n
    → length n ≡ nonce_len
    → (pair_message_type x (build_pair_challenge x n) ≡ codes "pair_challenge")
      × (parse_pair_challenge x (build_pair_challenge x n) ≡ some n)
unfolding build_pair_challenge parse_pair_challenge parse_nonce_field pair_message_type
parse-build_pair_challenge x n reads whole size =
    let fields : List (String × Text) =
      ("type", codes "pair_challenge") ∷ (("nonce_d", x.encode_base64 n) ∷ []) in
    let texts : HasAscii fields = (refl, (reads.ascii n whole, tt)) in
    let kind = reads.object "type" fields refl refl texts in
    let value = reads.object "nonce_d" fields refl refl texts in
    (ground (arith, kind), ground (arith, value, decode-encode_nonce x n reads whole size))

pub parse-build_pair_reveal :
    (x : Codec) (n : Bytes)
    → ReadsBack x
    → All IsByte n
    → length n ≡ nonce_len
    → (pair_message_type x (build_pair_reveal x n) ≡ codes "pair_reveal")
      × (parse_pair_reveal x (build_pair_reveal x n) ≡ some n)
unfolding build_pair_reveal parse_pair_reveal parse_nonce_field pair_message_type
parse-build_pair_reveal x n reads whole size =
    let fields : List (String × Text) =
      ("type", codes "pair_reveal") ∷ (("nonce_c", x.encode_base64 n) ∷ []) in
    let texts : HasAscii fields = (refl, (reads.ascii n whole, tt)) in
    let kind = reads.object "type" fields refl refl texts in
    let value = reads.object "nonce_c" fields refl refl texts in
    (ground (arith, kind), ground (arith, value, decode-encode_nonce x n reads whole size))

pub parse-build_pair_credentials :
    (x : Codec) (uid public_key code : Text)
    → ReadsBack x
    → is_ascii uid ≡ true
    → is_ascii public_key ≡ true
    → is_ascii code ≡ true
    → uid ≢ []
    → (pair_message_type x (build_pair_credentials x uid public_key code)
        ≡ codes "pair_credentials")
      × (parse_pair_credentials x (build_pair_credentials x uid public_key code)
          ≡ some (uid, public_key, code))
unfolding build_pair_credentials parse_pair_credentials pair_message_type
parse-build_pair_credentials x [] public_key code reads a b c filled = absurd (filled refl)
parse-build_pair_credentials x (u ∷ uid) public_key code reads a b c filled =
    let fields : List (String × Text) =
      ("type", codes "pair_credentials")
      ∷ (("uid", u ∷ uid) ∷ (("public_key", public_key) ∷ (("access_code", code) ∷ []))) in
    let texts : HasAscii fields = (refl, (a, (b, (c, tt)))) in
    let kind = reads.object "type" fields refl refl texts in
    let id = reads.object "uid" fields refl refl texts in
    let key = reads.object "public_key" fields refl refl texts in
    let access = reads.object "access_code" fields refl refl texts in
    (ground (arith, kind), ground (arith, id, key, access))
