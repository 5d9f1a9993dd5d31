-- ===== src/Grant/Fields.antt =====
-- internal/grant/grant.go: splitting a line into tokens, and quoting a token for it.
use Prim.Native.Nat.{ℕ}
use Prim.Native.String.{[], ◌∷◌}
use bitbang_cli.Prelude.{
  ℕ, Text, [], Result, List, false, Bool, ◌∷◌, codes, if◌then◌else◌, ◌==◌, ◌++◌, not, is_empty,
  ◌||◌, map, err, ◌&&◌, true, ok,
}

abbrev pub is_quote : ℕ → Bool
is_quote r = r == b'\'' || r == b'"'

abbrev pub is_blank : ℕ → Bool
is_blank r = r == b' ' || (r == 9 || (r == 10 || r == 13))

-- The variables of the loop of `splitFields`; `quote` is 0 outside quotes.
pub record Split : Type 0 where
  pub out : List Text
  pub cur : Text
  pub quote : ℕ
  pub is_open : Bool

unfoldable pub split_step : ℕ → Split → Split
split_step r s =
    if not (s.quote == 0) && r == s.quote
    then record s { quote = 0 }
    else if s.quote == 0 && is_quote r
    then record s { quote = r; is_open = true }
    else if s.quote == 0 && is_blank r
    then (if s.is_open
        then record s { out = s.out ++ (s.cur ∷ []); cur = []; is_open = false }
        else s)
    else record s { cur = s.cur ++ (r ∷ []); is_open = true }

unfoldable pub split_run : Text → Split → Split
split_run [] s = s
split_run (r ∷ rs) s = split_run rs (split_step r s)

abbrev pub split_start : Split
split_start = record { out = []; cur = []; quote = 0; is_open = false }

-- The error is the quote that is left open.
unfoldable pub split_end : Split → Result ℕ (List Text)
split_end s =
    if not (s.quote == 0)
    then err s.quote
    else ok (if s.is_open then s.out ++ (s.cur ∷ []) else s.out)

unfoldable pub split_fields : Text → Result ℕ (List Text)
unfolding split_run split_end
split_fields s = split_end (split_run s split_start)

unfoldable pub contains : (ℕ → Bool) → Text → Bool
contains test [] = false
contains test (r ∷ rs) = test r || contains test rs

-- `strings.Join`
unfoldable pub join : Text → List Text → Text
join sep [] = []
join sep (t ∷ []) = t
join sep (t ∷ (u ∷ us)) = t ++ (sep ++ join sep (u ∷ us))

unfoldable pub quote_field : Text → Text
unfolding contains
quote_field s =
    if is_empty s
    then b'"' ∷ (b'"' ∷ [])
    else if not (contains (λ r. is_blank r || is_quote r) s)
    then s
    else if not (contains (λ r. r == b'"') s)
    then b'"' ∷ (s ++ (b'"' ∷ []))
    else b'\'' ∷ (s ++ (b'\'' ∷ []))

unfoldable pub quote_command : List Text → Text
unfolding quote_field join
quote_command argv = quote_field (join (codes " ") (map quote_field argv))
