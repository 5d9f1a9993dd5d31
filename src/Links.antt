-- ===== src/Links.antt =====
-- internal/links/terms.go and table.go: the links of a listener, what a code grants, and how codes are
-- made, found and withdrawn. A time is a number.
pub mod Codes
pub mod Authorize
pub mod Build
pub mod Lifecycle
use bitbang_cli.Pin.{constant_time_compare}
use bitbang_cli.Allowlist.{Net}
use Prim.Native.Nat.{ℕ}
use bitbang_cli.Grant.Spec.{Word, Spec, Error, parse_string, has, to_string, word_text, words}
use bitbang_cli.Grant.Narrow.{Paths, narrow, intersect}
use bitbang_cli.Prelude.{
  Text, ℕ, List, Result, Option, [], codes, Bool, none, ◌>>=◌, err, ◌∷◌, false, if◌then◌else◌, ◌++◌,
  is_empty, ok, text_eq, some, true, ltb, ◌||◌, sort_texts, ◌==◌,
}

pub record Terms : Type 0 where
  pub label : Text
  pub code : Text
  pub grant : Text
  pub expires : Option ℕ

abbrev pub owner_label : Text
owner_label = codes "owner"

-- `Check`: the error of an expired link is false here.
unfoldable pub check : Terms → ℕ → Bool
check t now = elim t.expires [ none ↦ true | some end ↦ ltb now end ]

pub data TermsError : Type 0 where
  bad_grant : Text → Error → TermsError

unfoldable pub spec : Terms → Result TermsError Spec
spec t = elim (parse_string t.grant) [ ok s ↦ ok s | err e ↦ err (bad_grant t.label e) ]

module _ (paths : Paths) (net : Net) where
  unfoldable pub effective : Terms → Spec → Result TermsError Spec
  unfolding spec
  effective t offered = spec t >>= λ s. elim (narrow paths net offered (intersect s offered)) [
    | ok eff ↦ ok eff
    | err e ↦ err (bad_grant t.label e)
  ]

  unfoldable pub same_grants : Terms → Terms → Spec → Bool
  unfolding effective
  same_grants a b offered = same_results (effective a offered) (effective b offered)
    where
      same_results : Result TermsError Spec → Result TermsError Spec → Bool
      same_results (ok ea) (ok eb) = text_eq (to_string ea) (to_string eb)
      same_results (ok ea) (err y) = false
      same_results (err x) (ok eb) = false
      same_results (err x) (err y) = false

pub record Table : Type 0 where
  pub entries : List Terms
  pub offered : Spec

pub data BuildError : Type 0 where
  owner_reserved : BuildError
  duplicate_label : Text → BuildError

-- A link that resolves to nothing here, or that asks for words that the listener does not offer.
pub data Warning : Type 0 where
  refused : TermsError → Warning
  not_offered : Text → List Text → Warning

unfoldable pub label_seen : Text → List Text → Bool
label_seen label [] = false
label_seen label (l ∷ ls) = text_eq l label || label_seen label ls

-- The loop over the labels: `seen` is the set of those before.
unfoldable pub first_duplicate : List Text → List Terms → Option BuildError
first_duplicate seen [] = none
first_duplicate seen (e ∷ es) =
    let rest = first_duplicate (e.label ∷ seen) es in
    if label_seen e.label seen
    then some (if text_eq e.label owner_label then owner_reserved else duplicate_label e.label)
    else rest

unfoldable pub missing_words : List Word → Spec → List Text
missing_words [] offered = []
missing_words (w ∷ ws) offered =
    let rest = missing_words ws offered in if has w offered then rest else word_text w ∷ rest

unfoldable pub owner_row : Text → Terms
owner_row identity_code = record {
  label = owner_label;
  code = identity_code;
  grant = [];
  expires = none;
}

module _ (paths : Paths) (net : Net) where
  unfoldable pub warnings_of : Spec → Terms → List Warning
  unfolding missing_words
  warnings_of offered e = elim (spec e) [
    | err x ↦ []
    | ok s ↦ elim (effective paths net e offered) [
      | err x ↦ refused x ∷ []
      | ok eff ↦
          let missing = missing_words (words s) offered in
          if is_empty missing then [] else not_offered e.label (sort_texts missing) ∷ []
    ]
  ]

  unfoldable pub all_warnings : Spec → List Terms → List Warning
  unfolding warnings_of
  all_warnings offered [] = []
  all_warnings offered (e ∷ es) = warnings_of offered e ++ all_warnings offered es

  unfoldable pub build : List Terms → Spec → Text → Result BuildError (Table × List Warning)
  unfolding first_duplicate owner_row all_warnings
  build entries offered identity_code =
      let all = owner_row identity_code ∷ entries in
      elim (first_duplicate [] all) [
        | some e ↦ err e
        | none ↦ ok (record { entries = all; offered = offered }, all_warnings offered entries)
      ]

unfoldable pub by_label : Text → List Terms → Option Terms
by_label label [] = none
by_label label (e ∷ es) = if text_eq e.label label then some e else by_label label es

unfoldable pub find_code : Text → List Terms → Option Terms
find_code code [] = none
find_code code (e ∷ es) = if text_eq e.code code then some e else find_code code es

unfoldable pub by_code : Text → List Terms → Option Terms
unfolding find_code
by_code code es = if is_empty code then none else find_code code es

-- The loop of `Authorize`, which runs over every entry and keeps the last match.
unfoldable pub last_match : Text → List Terms → Option Terms → Option Terms
last_match code [] matched = matched
last_match code (e ∷ es) matched = last_match code es (
    if is_empty e.code
    then matched
    else if constant_time_compare code e.code == 1
    then some e
    else matched)

unfoldable pub authorize : Text → ℕ → List Terms → Option Terms
unfolding last_match check
authorize code now es = elim (last_match code es none) [
  | none ↦ none
  | some e ↦ if check e now then some e else none
]
