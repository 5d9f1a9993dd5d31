-- ===== src/Witnesses/Codes.antt =====
-- internal/links: a table with a shared code, an expired row and a row without a code.
use bitbang_cli.Allowlist.{Net}
use bitbang_cli.Grant.Narrow.{Paths}
use bitbang_cli.Links.Authorize.{LastWith, authorize_lem}
use bitbang_cli.Links.{authorize, Terms, check, Table, owner_row}
use bitbang_cli.Links.Codes.{count_code, mint, dedupe_codes}
use bitbang_cli.Links.Lifecycle.{Rowwise, IsMinted, mint_lem, dedupe_codes_lem}
use bitbang_cli.Grant.Spec.{unspecified}
use bitbang_cli.Prelude.{
  ◌≢◌, codes, ℕ, List, ◌≡◌, Result, Text, ◌∷◌, [], some, ok, ◌≤◌, none, ◌↔◌, refl, is_empty, false,
  true,
}

abbrev shared1 : Terms
shared1 = record { label = codes "a"; code = codes "k"; grant = []; expires = none }

abbrev shared2 : Terms
shared2 = record { label = codes "b"; code = codes "k"; grant = []; expires = some 9 }

abbrev fresh : Terms
fresh = record { label = codes "c"; code = []; grant = []; expires = some 9 }

abbrev rows : List Terms
rows = shared1 ∷ (shared2 ∷ (fresh ∷ []))

authorize_lem_example :
    (authorize (codes "k") 5 rows ≡ some shared2)
    ↔ ((false ≡ false) × LastWith (codes "k") shared2 rows × (check shared2 5 ≡ true))
authorize_lem_example = authorize_lem (codes "k") 5 rows shared2

dedupe_codes_lem_example :
    (count_code (codes "k") ((dedupe_codes rows (codes "k")).0) ≤ 1)
    × (codes "k" ≡ codes "k" → count_code (codes "k") ((dedupe_codes rows (codes "k")).0) ≡ 0)
    × (codes "k" ≢ codes "k"
        → count_code (codes "k") rows ≤ 1
        → count_code (codes "k") ((dedupe_codes rows (codes "k")).0) ≡ count_code (codes "k") rows)
dedupe_codes_lem_example = dedupe_codes_lem rows (codes "k") (codes "k") refl

abbrev generate : ℕ → Result Text Text
generate n = ok (n ∷ [])

generate_lem : (k : ℕ) (code : Text) → generate k ≡ ok code → is_empty code ≡ false
generate_lem k [] h = cc
generate_lem k (c ∷ cs) h = refl

abbrev filled_rows : List Terms
filled_rows = shared1 ∷ (shared2 ∷ (record fresh { code = 0 ∷ [] } ∷ []))

mints : mint 5 generate 0 rows ≡ ok (filled_rows, codes "c" ∷ [])
unfolding mint check
mints = refl

mint_lem_example : Rowwise (IsMinted 5) rows filled_rows
mint_lem_example = mint_lem 5 generate 0 rows filled_rows (codes "c" ∷ []) generate_lem mints

abbrev live_rows : List Terms
live_rows = shared1 ∷ (fresh ∷ [])

abbrev no_net : Net
no_net = record { split_host_port = λ t. none; atoi = λ t. none }

abbrev no_paths : Paths
no_paths = record { separator = b'/'; abs = λ t. none; rel = λ p c. none }

abbrev built : Table
built = record { entries = owner_row (codes "id") ∷ live_rows; offered = unspecified }
