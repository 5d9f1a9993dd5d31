-- ===== src/Command/Poll.antt =====
-- cmd/bitbang/serve_peer.go: the poll that ends the sessions whose links no longer permit them.
use bitbang_cli.Allowlist.{Net}
use bitbang_cli.Grant.Narrow.{Paths}
use bitbang_cli.Prelude.{
  Text, ℕ, List, Bool, if◌then◌else◌, Option, none, ◌∷◌, [], codes, some, is_empty, ◌&&◌, not,
}
use bitbang_cli.Links.{Terms, Table, by_label, by_code, check, same_grants}

-- A peer under its link: the label is empty until a code is granted.
pub record ServePeer : Type 0 where
  pub client_id : Text
  pub label : Text
  pub terms : Terms
  pub has_session : Bool

-- What a revoked peer sees: the message, where there is a session to say it in, and the close, which
-- comes once the message has drained.
pub data Farewell : Type 0 where
  goodbye : Text → Farewell
  closes : Farewell

unfoldable pub revoke : Text → ServePeer → List Farewell
revoke why p = if p.has_session then goodbye why ∷ (closes ∷ []) else closes ∷ []

unfoldable pub why_gone : Table → Text → ℕ → Text
why_gone table label now = elim (by_label label table.entries) [
  | none ↦ codes "this link was revoked"
  | some entry ↦
      if is_empty entry.code && not (check entry now)
      then codes "this link has expired"
      else codes "this link was reissued; ask for the new URL"
]

module _ (paths : Paths) (net : Net) where
  -- One turn of the loop: the message with which the peer is revoked.
  unfoldable pub poll_peer : Table → ℕ → ServePeer → Option Text
  unfolding why_gone
  poll_peer table now p =
      if is_empty p.label then none else elim (by_code p.terms.code table.entries) [
        | none ↦ some (why_gone table p.label now)
        | some current ↦
            if not (check current now)
            then some (codes "this link has expired")
            else if not (same_grants paths net p.terms current table.offered)
            then some (codes "this link's permissions changed; reconnect")
            else none
      ]

  -- The peers that stay, and those that are revoked with what they see.
  unfoldable pub poll_peers :
      Table → ℕ → List ServePeer → List ServePeer × List (ServePeer × List Farewell)
  unfolding poll_peer revoke
  poll_peers table now [] = ([], [])
  poll_peers table now (p ∷ ps) =
      let rest = poll_peers table now ps in
      elim (poll_peer table now p) [
        | none ↦ (p ∷ rest.0, rest.1)
        | some why ↦ (rest.0, (p, revoke why p) ∷ rest.1)
      ]
