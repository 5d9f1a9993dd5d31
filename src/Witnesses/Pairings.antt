-- ===== src/Witnesses/Pairings.antt =====
-- internal/pairing, with both ends of a pairing: the hash is its argument, and a small encoder stands for
-- base64.
use bitbang_cli.Peer.Honest.{pairing_completes}
use bitbang_cli.Allowlist.{trim_right, trim, trim_left, is_space}
use bitbang_cli.Peer.Credentials.{OnCredentials, Earned, handle_pair_request-Earned}
use bitbang_cli.Pairing.Messages.{
  ReadsBack, field_of, is_one_of, is_object, is_ascii, names_of, field_names, build_pair_commit,
  build_pair_reveal, build_pair_challenge, build_pair_credentials,
}
use bitbang_cli.Pairing.Connector.{Dialing, connect_pair, heard_frame, sends, shows, paired}
use bitbang_cli.Sdp.{to_upper, extract_fingerprint}
use bitbang_cli.Pairing.Prompt.{
  prompt_for_sas, Prompt, prompt_ok, max_sas_attempts, TypedAt, prompt_for_sas_lem,
}
use bitbang_cli.Prelude.{
  map, Bool, not, ◌&&◌, ltb, subst, Bool-cases, inl, inr, text_eq_iff, none, ◌-◌, ◌+◌, Text, String,
  ◌≡◌, ℕ, codes, ◌++◌, ◌∷◌, some, All, List, [], suc, if◌then◌else◌, Option, ap, ◌≢◌, ok, arith,
  refl, true, ◌==◌, text_eq, ◌↔◌, zero, ◌<◌, ◌≤◌,
}
use bitbang_cli.Wire.{Bytes}
use bitbang_cli.Wire.RoundTrip.{IsByte}
use bitbang_cli.Peer.Pair as Pair
use bitbang_cli.Pairing.Commit.{Codec, commitment, compute_sas}
use bitbang_cli.Peer.Pair.{
  closes, challenge, asked, credentials, approved, handle_pair_request_on_open, granted_code,
}

-- An encoder of named texts: each name and each value, its characters one higher, and a 0 behind it. The
-- decoder looks a name up in any case, as encoding/json does.
write_text : Text → Bytes
write_text [] = 0 ∷ []
write_text (c ∷ s) = suc c ∷ write_text s

write_fields : List (String × Text) → Bytes
write_fields [] = []
write_fields ((name, value) ∷ fields) =
    write_text (codes name) ++ (write_text value ++ write_fields fields)

read_texts : Bytes → List Text
read_texts [] = []
read_texts (zero ∷ b) = [] ∷ read_texts b
read_texts (suc c ∷ b) = elim (read_texts b) [ [] ↦ (c ∷ []) ∷ [] | t ∷ ts ↦ (c ∷ t) ∷ ts ]

same_name : Text → Text → Bool
same_name key name = text_eq (map to_upper key) (map to_upper name)

value_of : Text → List Text → Text
value_of name [] = []
value_of name (key ∷ []) = []
value_of name (key ∷ (value ∷ rest)) =
    let later = value_of name rest in if same_name key name then value else later

read_texts-write_text : (s : Text) (b : Bytes) → read_texts (write_text s ++ b) ≡ s ∷ read_texts b
unfolding read_texts write_text
read_texts-write_text [] b = refl
read_texts-write_text (c ∷ s) b = ground (arith, read_texts-write_text s b)

and_left : (a b : Bool) → (a && b) ≡ true → a ≡ true
and_left a b h = ground arith

and_right : (a b : Bool) → (a && b) ≡ true → b ≡ true
and_right a b h = ground arith

every : (Text → Bool) → List Text → Bool
every test [] = true
every test (name ∷ names) = test name && every test names

every_one :
    (test : Text → Bool) (name : Text) (names : List Text)
    → every test names ≡ true
    → is_one_of name names ≡ true
    → test name ≡ true
unfolding every
every_one test name [] h k = absurd (ground (arith, k))
every_one test name (n ∷ names) h k = elim (Bool-cases (text_eq n name)) [
  | inl same ↦ subst (λ m. test m ≡ true) ((text_eq_iff n name).0 same) (ground (arith, h))
  | inr other ↦ every_one test name names (ground (arith, h)) (ground (arith, k, other))
]

same : Bool → Bool → Bool
same a b = if a then b else not b

same_eq : (a b : Bool) → same a b ≡ true → a ≡ b
unfolding same
same_eq a b h = ground arith

-- The names of the messages are told apart in any case.
names_differ :
    every (λ k. every (λ n. same (same_name k n) (text_eq k n)) field_names) field_names ≡ true
unfolding every same same_name to_upper
names_differ = refl

same_name_eq :
    (k n : Text)
    → is_one_of k field_names ≡ true
    → is_one_of n field_names ≡ true
    → same_name k n ≡ text_eq k n
same_name_eq k n hk hn = same_eq (same_name k n) (text_eq k n) (
    every_one (λ m. same (same_name k m) (text_eq k m)) n field_names
      (every_one (λ l. every (λ m. same (same_name l m) (text_eq l m)) field_names) k field_names
        names_differ hk)
      hn)

value_of-write_fields :
    (name : String) (fields : List (String × Text))
    → is_one_of (codes name) field_names ≡ true
    → is_object (names_of fields) ≡ true
    → value_of (codes name) (read_texts (write_fields fields)) ≡ field_of name fields
unfolding value_of write_fields read_texts
value_of-write_fields name [] known object = refl
value_of-write_fields name ((key, value) ∷ fields) known object =
    let own : is_one_of (codes key) field_names ≡ true =
      and_left (is_one_of (codes key) field_names) _ object in
    let others : is_object (names_of fields) ≡ true =
      and_right (not (is_one_of (codes key) (names_of fields))) _
        (and_right (is_one_of (codes key) field_names) _ object) in
    let first = read_texts-write_text (codes key) (write_text value ++ write_fields fields) in
    let second = read_texts-write_text value (write_fields fields) in
    let folded = same_name_eq (codes key) (codes name) own known in
    ground (arith, first, second, folded, value_of-write_fields name fields known others)

-- A byte as two ASCII characters.
encode_bytes : Bytes → Text
encode_bytes [] = []
encode_bytes (b ∷ n) =
    let rest = encode_bytes n in if ltb b 128 then b'+' ∷ (b ∷ rest) else b'/' ∷ ((b - 128) ∷ rest)

decode_bytes : Text → Option Bytes
decode_bytes [] = some []
decode_bytes (m ∷ []) = none
decode_bytes (m ∷ (c ∷ s)) = elim (decode_bytes s) [
  | none ↦ none
  | some n ↦ if m == b'+' then some (c ∷ n) else if m == b'/' then some ((c + 128) ∷ n) else none
]

decode_bytes-encode_bytes : (n : Bytes) → All IsByte n → decode_bytes (encode_bytes n) ≡ some n
unfolding decode_bytes encode_bytes
decode_bytes-encode_bytes [] h = refl
decode_bytes-encode_bytes (b ∷ n) h = ground (arith, decode_bytes-encode_bytes n h.1)

encode_bytes_ascii : (n : Bytes) → All IsByte n → is_ascii (encode_bytes n) ≡ true
unfolding encode_bytes
encode_bytes_ascii [] h = refl
encode_bytes_ascii (b ∷ n) h = ground (arith, encode_bytes_ascii n h.1, h.0)

abbrev plain_codec : Codec
plain_codec = record {
  sha256 = λ b. b;
  encode_base64 = encode_bytes;
  decode_base64 = decode_bytes;
  text_field = λ name b. some (value_of (codes name) (read_texts b));
  marshal = write_fields;
}

plain_codec-ReadsBack : ReadsBack plain_codec
plain_codec-ReadsBack = record {
  object =
      λ name fields known object texts. ap some (value_of-write_fields name fields known object);
  bytes = decode_bytes-encode_bytes;
  ascii = encode_bytes_ascii;
}

abbrev repeated : ℕ → ℕ → Bytes
repeated zero b = []
repeated (suc n) b = b ∷ repeated n b

abbrev rc : Bytes
rc = 9 ∷ repeated 31 1

abbrev rd : Bytes
rd = repeated 32 2

abbrev here : Text
here = codes "a=fingerprint:sha-256 AA"

abbrev there : Text
there = codes "a=fingerprint:sha-256 bb"

-- The code that the connector shows.
abbrev shown : Text
shown = compute_sas plain_codec rc rd (extract_fingerprint there) (extract_fingerprint here)

abbrev listener : Pair.Setting
listener = record {
  codec = plain_codec;
  local_description = here;
  remote_description = there;
  new_nonce = some rd;
  takes_challenge = true;
  takes_credentials = true;
  prompt = λ n. (shown, prompt_ok);
  grant_credential = some (some (codes "link"));
  uid = codes "uid";
  public_key = codes "key";
  identity_code = codes "master";
}

abbrev connector : Dialing
connector = record {
  codec = plain_codec;
  local_description = there;
  remote_description = here;
  new_nonce = some rc;
  takes_commit = true;
  takes_reveal = true;
}

abbrev inbox : List (Option Bytes)
inbox =
    some (build_pair_commit plain_codec (commitment plain_codec rc))
    ∷ (some (build_pair_reveal plain_codec rc) ∷ [])

shown_test : shown ≡ codes "060737"
unfolding compute_sas extract_fingerprint
shown_test = refl

typed_shown : trim is_space (listener.prompt 1).0 ≡ shown
unfolding compute_sas extract_fingerprint trim trim_left trim_right
typed_shown = refl

fingerprints_test :
    (extract_fingerprint here ≡ codes "AA") × (extract_fingerprint there ≡ codes "BB")
unfolding extract_fingerprint
fingerprints_test = (refl, refl)

rc-IsByte : All IsByte rc
rc-IsByte = ground arith

rd-IsByte : All IsByte rd
rd-IsByte = ground arith

commitment_filled : commitment plain_codec rc ≢ []
unfolding commitment encode_bytes
commitment_filled = λ e. cc

uid_filled : codes "uid" ≢ []
uid_filled = filled (b'u') (codes "id")
  where
    filled : (c : ℕ) (s : Text) → (c ∷ s) ≢ []
    filled c s e = cc

here_filled : extract_fingerprint here ≢ []
unfolding extract_fingerprint
here_filled = λ e. cc

there_filled : extract_fingerprint there ≢ []
unfolding extract_fingerprint
there_filled = λ e. cc

granted_test : granted_code listener ≡ some (codes "link")
unfolding granted_code
granted_test = refl

pairing_completes_example :
    (handle_pair_request_on_open listener inbox
      ≡ challenge rd
        ∷ (asked 1
            ∷ (credentials (codes "uid") (codes "key") (codes "link")
                ∷ (approved ∷ (closes ∷ [])))))
    × (connect_pair connector (
          heard_frame (build_pair_challenge plain_codec rd)
          ∷ (heard_frame
                (build_pair_credentials plain_codec (codes "uid") (codes "key") (codes "link"))
              ∷ []))
        ≡ sends (build_pair_commit plain_codec (commitment plain_codec rc))
          ∷ (sends (build_pair_reveal plain_codec rc)
              ∷ (shows shown ∷ (paired (codes "uid") (codes "link") ∷ []))))
pairing_completes_example =
    pairing_completes plain_codec listener connector rc rd (codes "link") plain_codec-ReadsBack
      rc-IsByte rd-IsByte rc-IsByte refl refl refl refl refl commitment_filled uid_filled
      here_filled there_filled refl refl refl refl refl refl refl refl refl typed_shown granted_test

handle_pair_request-Earned_example :
    All (OnCredentials (Earned listener inbox)) (handle_pair_request_on_open listener inbox)
handle_pair_request-Earned_example = handle_pair_request-Earned listener inbox

abbrev answers : Prompt
answers n = (if n == 2 then codes " 123456 " else codes "1", prompt_ok)

prompt_for_sas_lem_example :
    (((prompt_for_sas (codes "123456") answers).0 ≡ ok tt)
      ↔ ((n : ℕ) × (n < max_sas_attempts) × TypedAt (codes "123456") answers 1 n))
    × ((prompt_for_sas (codes "123456") answers).1 ≤ 3)
prompt_for_sas_lem_example = prompt_for_sas_lem (codes "123456") answers

prompt_test : prompt_for_sas (codes "123456") answers ≡ (ok tt, 2)
unfolding prompt_for_sas trim_right trim_left
prompt_test = refl
