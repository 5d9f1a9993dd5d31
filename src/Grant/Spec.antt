-- ===== src/Grant/Spec.antt =====
-- internal/grant/grant.go: grants, and the grammar that reads and writes them.
use bitbang_cli.Grant.Fields.{split_fields, quote_command, join, quote_field}
use bitbang_cli.Allowlist.{Net, Entry, trim, permits_target, is_space}
use bitbang_cli.Prelude.{
  Option, true, Bool, Result, Text, false, some, List, none, [], ℕ, if◌then◌else◌, codes, ok, ◌∷◌,
  ◌>>=◌, err, ◌++◌, ◌==◌, is_empty, text_eq, is_some,
}
use bitbang_cli.Allowlist

pub data Word : Type 0 where
  files proxy forward shell : Word

unfoldable pub word_of : Text → Option Word
word_of t =
    if text_eq t (codes "shell")
    then some shell
    else if text_eq t (codes "files")
    then some files
    else if text_eq t (codes "proxy")
    then some proxy
    else if text_eq t (codes "forward")
    then some forward
    else none

-- A set of capabilities: Go's map from scope names to true.
pub record Caps : Type 0 where
  pub has_files : Bool
  pub has_proxy : Bool
  pub has_forward : Bool
  pub has_shell : Bool

abbrev pub has_cap : Word → Caps → Bool
has_cap files c = c.has_files
has_cap proxy c = c.has_proxy
has_cap forward c = c.has_forward
has_cap shell c = c.has_shell

abbrev pub with_cap : Word → Caps → Caps
with_cap files c = record c { has_files = true }
with_cap proxy c = record c { has_proxy = true }
with_cap forward c = record c { has_forward = true }
with_cap shell c = record c { has_shell = true }

abbrev pub no_caps : Caps
no_caps = record { has_files = false; has_proxy = false; has_forward = false; has_shell = false }

-- A nil map is `none`; a nil slice and the empty one are both `[]`.
pub record Spec : Type 0 where
  pub caps : Option Caps
  pub shell_argv : List Text
  pub files_path : Text
  pub proxy_targets : List Text
  pub forward_targets : List Text

abbrev pub unspecified : Spec
unspecified = record {
  caps = none;
  shell_argv = [];
  files_path = [];
  proxy_targets = [];
  forward_targets = [];
}

-- Indexing a nil map gives false.
abbrev pub caps_or_none : Option Caps → Caps
caps_or_none none = no_caps
caps_or_none (some c) = c

unfoldable pub has : Word → Spec → Bool
has w s = has_cap w (caps_or_none s.caps)

unfoldable pub everything : Spec
everything = record unspecified {
  caps = some (record { has_files = true; has_proxy = true; has_forward = true; has_shell = true });
}

-- `strings.Split(arg, ",")`
unfoldable pub split_commas : Text → List Text
split_commas [] = [] ∷ []
split_commas (c ∷ s) =
    let rest = split_commas s in
    if c == b',' then [] ∷ rest else elim rest [ [] ↦ (c ∷ []) ∷ [] | t ∷ ts ↦ (c ∷ t) ∷ ts ]

unfoldable pub keep_items : List Text → List Text
keep_items [] = []
keep_items (p ∷ ps) =
    let item = trim is_space p in
    let rest = keep_items ps in if is_empty item then rest else item ∷ rest

unfoldable pub split_list : Text → List Text
unfolding split_commas keep_items
split_list arg = if is_empty arg then [] else keep_items (split_commas arg)

pub data Error : Type 0 where
  not_a_word : Text → Error
  named_twice : Word → Error
  unbalanced : ℕ → Error
  not_served : Word → Error
  shell_pinned : Error
  path_error : Error
  not_inside : Error
  bad_targets : Allowlist.Error → Error
  outside_targets : Text → Error

abbrev pub or_unbalanced {ℓ} : {A : Type ℓ} → Result ℕ A → Result Error A
or_unbalanced (ok a) = ok a
or_unbalanced (err q) = err (unbalanced q)

-- The `switch` on the word; an empty `arg` is no argument.
unfoldable pub set_argument : Word → Text → Spec → Result Error Spec
set_argument shell arg s =
    if is_empty arg
    then ok s
    else or_unbalanced (split_fields arg) >>= λ argv. ok (record s { shell_argv = argv })
set_argument files arg s = ok (record s { files_path = arg })
set_argument proxy arg s = ok (record s { proxy_targets = split_list arg })
set_argument forward arg s = ok (record s { forward_targets = split_list arg })

-- One word with its argument. `seen` is what was named before: a word and its scope have one name, so
-- it is the set of the spec's capabilities.
unfoldable pub read_word : Text → Text → Spec → Result Error Spec
read_word word arg s = elim (word_of word) [
  | none ↦ err (not_a_word word)
  | some w ↦
      if has w s
      then err (named_twice w)
      else set_argument w arg (record s { caps = some (with_cap w (caps_or_none s.caps)) })
]

-- The loop of `parse`: a word takes the token behind it, unless that is a word too.
unfoldable pub parse_words : List Text → Spec → Result Error Spec
parse_words [] s = ok s
parse_words (word ∷ []) s = read_word word [] s
parse_words (word ∷ (next ∷ rest)) s =
    let alone = read_word word [] s >>= parse_words (next ∷ rest) in
    let taking = read_word word next s >>= parse_words rest in
    if is_some (word_of next) then alone else taking

unfoldable pub parse : List Text → Result Error Spec
parse args =
    if is_empty args
    then ok unspecified
    else parse_words args (record unspecified { caps = some no_caps })

unfoldable pub parse_string : Text → Result Error Spec
parse_string s = or_unbalanced (split_fields s) >>= parse

unfoldable pub argument_text : Word → Spec → Text
argument_text shell s = if is_empty s.shell_argv then [] else b' ' ∷ quote_command s.shell_argv
argument_text files s = if is_empty s.files_path then [] else b' ' ∷ quote_field s.files_path
argument_text proxy s =
    if is_empty s.proxy_targets then [] else b' ' ∷ join (codes ",") s.proxy_targets
argument_text forward s =
    if is_empty s.forward_targets then [] else b' ' ∷ join (codes ",") s.forward_targets

abbrev pub word_text : Word → Text
word_text files = codes "files"
word_text proxy = codes "proxy"
word_text forward = codes "forward"
word_text shell = codes "shell"

abbrev pub order : List Word
order = files ∷ (proxy ∷ (forward ∷ (shell ∷ [])))

-- The loop of `String` over the words that are left; `text` is the builder's content.
unfoldable pub render : List Word → Spec → Text → Text
render [] s text = text
render (w ∷ ws) s text = render ws s (
    if has w s
    then text ++ ((if is_empty text then [] else codes " ") ++ (word_text w ++ argument_text w s))
    else text)

unfoldable pub to_string : Spec → Text
to_string s = render order s []

unfoldable pub words : Spec → List Word
words s =
    (if has files s then files ∷ [] else [])
    ++ ((if has proxy s then proxy ∷ [] else [])
        ++ ((if has forward s then forward ∷ [] else [])
            ++ (if has shell s then shell ∷ [] else [])))
