-- ===== src/Command/Polled.antt =====
-- The poll agrees with the admission of a new connection.
use bitbang_cli.Command.Poll.{ServePeer}
use bitbang_cli.Allowlist.{Net}
use bitbang_cli.Grant.Narrow.{Paths}
use bitbang_cli.Prelude.{ℕ, ◌≡◌, [], ◌⊎◌, some, true}
use bitbang_cli.Links.{Terms, Table, authorize, same_grants}

-- Nothing is granted to the peer yet, or a new connection with its code would be admitted, with the same
-- grants.
abbrev pub MayStay : Paths → Net → Table → ℕ → ServePeer → Type 0
MayStay paths net table now p =
    (p.label ≡ [])
    ⊎ ((current : Terms) × (authorize p.terms.code now table.entries ≡ some current)
        × (same_grants paths net p.terms current table.offered ≡ true))
