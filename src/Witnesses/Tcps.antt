-- ===== src/Witnesses/Tcps.antt =====
-- internal/streamtype/tcp.go: two streams under a limit of one, and one target that is not allowed.
use bitbang_cli.Tcp.{tcp_run, new_tcp, TcpEvent, syn, ends, validate_target}
use bitbang_cli.Tcp.Slots.{IsTcp, tcp_run-new-IsTcp}
use bitbang_cli.Prelude.{Text, List, Bool, codes, ◌∷◌, ◌≡◌, [], some, refl, false}
use bitbang_cli.Allowlist.{
  Entry, pos, permits_some, normalize_host, trim_dot, trim, trim_right, trim_left, to_lower,
}

abbrev allow : List Entry
allow = record { host = codes "nas"; port = 80 } ∷ []

abbrev is_address : Text → Bool
is_address host = false

abbrev events : List TcpEvent
events =
    syn 1 (some (codes "nas", pos 80))
    ∷ (syn 3 (some (codes "nas", pos 80))
        ∷ (ends 0 ∷ (syn 5 (some (codes "x", pos 80)) ∷ (syn 5 (some (codes "nas", pos 80)) ∷ []))))

tcp_test :
    ((tcp_run (validate_target is_address) allow events (new_tcp 1)).active ≡ 1)
    × ((tcp_run (validate_target is_address) allow events (new_tcp 1)).streams ≡ (5, 1) ∷ [])
unfolding tcp_run new_tcp permits_some normalize_host trim_dot trim trim_right trim_left to_lower
    validate_target
tcp_test = (refl, refl)

tcp_run-new-IsTcp_example :
    IsTcp
      (validate_target is_address)
      allow
      (tcp_run (validate_target is_address) allow events (new_tcp 1))
tcp_run-new-IsTcp_example = tcp_run-new-IsTcp is_address allow 1 events
