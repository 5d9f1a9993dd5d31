-- ===== src/Allowlist.antt =====
-- internal/allowlist/allowlist.go: which targets a listener reaches on a requester's behalf. The
-- functions of package net and strconv that take a target apart are parameters; texts are ASCII.
pub mod Permits
use bitbang_cli.Prelude.{
  List, Text, ℕ, if◌then◌else◌, map, Option, Result, ◌∷◌, Bool, [], ok, is_empty, none, false, leb,
  ◌==◌, err, true, ◌||◌, text_eq, ◌&&◌, some, not, ◌+◌, ltb, ◌>>=◌,
}
use Prim.Native.Nat.{ℕ}

pub record Entry : Type 0 where
  pub host : Text
  pub port : ℕ

abbrev pub is_space : ℕ → Bool
is_space c = c == b' ' || (leb 9 c && leb c 13)

abbrev pub is_bracket : ℕ → Bool
is_bracket c = c == b'[' || c == b']'

-- The text without the characters at its front, or at its end, that satisfy the test.
unfoldable pub trim_left : (ℕ → Bool) → Text → Text
trim_left test [] = []
trim_left test (c ∷ s) = let rest = trim_left test s in if test c then rest else c ∷ s

unfoldable pub trim_right : (ℕ → Bool) → Text → Text
trim_right test [] = []
trim_right test (c ∷ s) =
    let rest = trim_right test s in
    if is_empty rest then (if test c then [] else c ∷ []) else c ∷ rest

unfoldable pub trim : (ℕ → Bool) → Text → Text
trim test s = trim_right test (trim_left test s)

-- `strings.TrimSuffix(h, ".")`
unfoldable pub trim_dot : Text → Text
trim_dot [] = []
trim_dot (c ∷ s) =
    let rest = trim_dot s in if is_empty s then (if c == b'.' then [] else c ∷ []) else c ∷ rest

unfoldable pub to_lower : ℕ → ℕ
to_lower c = if leb b'A' c && leb c b'Z' then c + 32 else c

unfoldable pub normalize_host : Text → Text
normalize_host h = map to_lower (trim_dot (trim is_bracket (trim is_space h)))

unfoldable pub has_colon : Text → Bool
has_colon [] = false
has_colon (c ∷ s) = c == b':' || has_colon s

abbrev pub opens_bracket : Text → Bool
opens_bracket [] = false
opens_bracket (c ∷ s) = c == b'['

-- An `int`: `negsuc n` is -(n + 1).
pub data ℤ : Type 0 where
  pos : ℕ → ℤ
  negsuc : ℕ → ℤ

-- An entry's port is the requested one.
abbrev pub same_port : ℕ → ℤ → Bool
same_port p (pos n) = p == n
same_port p (negsuc n) = false

-- net.SplitHostPort and strconv.Atoi, `none` for an error.
pub record Net : Type 0 where
  pub split_host_port : Text → Option (Text × Text)
  pub atoi : Text → Option ℤ

pub data Error : Type 0 where
  empty_target invalid_target invalid_port no_host : Error

module _ (net : Net) where
  unfoldable pub parse_port : Text → Text → Result Error Entry
  parse_port host port_text = elim (net.atoi port_text) [
    | none ↦ err invalid_port
    | some (negsuc n) ↦ err invalid_port
    | some (pos port) ↦
        if ltb port 1 || ltb 65535 port
        then err invalid_port
        else if is_empty host
        then err no_host
        else ok (record { host = normalize_host host; port = port })
  ]

  unfoldable pub parse_entry : Text → Result Error Entry
  parse_entry raw =
      let spec = trim is_space raw in
      if is_empty spec then err empty_target else elim (net.split_host_port spec) [
        | none ↦
            if has_colon spec && not (opens_bracket spec)
            then err invalid_target
            else ok (record { host = normalize_host spec; port = 0 })
        | some (host, port_text) ↦ parse_port host port_text
      ]

  unfoldable pub parse : List Text → Result Error (List Entry)
  parse [] = ok []
  parse (spec ∷ specs) =
      let rest = parse specs in parse_entry spec >>= λ e. rest >>= λ l. ok (e ∷ l)

-- The loop of Permits; `h` is the normalized host.
unfoldable pub permits_some : List Entry → Text → ℤ → Bool
permits_some [] h port = false
permits_some (e ∷ l) h port =
    (text_eq e.host h && (e.port == 0 || same_port e.port port)) || permits_some l h port

unfoldable pub permits : List Entry → Text → ℤ → Bool
permits l host port = if is_empty l then true else permits_some l (normalize_host host) port

unfoldable pub permits_target : Net → List Entry → Text → Bool
permits_target net l target = if is_empty l then true else elim (net.split_host_port target) [
  | none ↦ permits l target (pos 0)
  | some (host, port_text) ↦ elim (net.atoi port_text) [
    | none ↦ false
    | some port ↦ permits l host port
  ]
]
