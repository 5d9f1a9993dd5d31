-- ===== src/Witnesses/Polls.antt =====
-- cmd/bitbang/serve_peer.go: a peer whose link is in the table, and one whose link is gone.
use bitbang_cli.Grant.Fields.{split_fields}
use bitbang_cli.Grant.Spec.{everything, parse, parse_string, to_string, render, has, argument_text}
use bitbang_cli.Grant.Narrow.{
  Paths, narrow, narrow_caps, intersect, narrow_shell, narrow_files, narrow_targets,
}
use bitbang_cli.Command.Poll.{poll_peer, ServePeer}
use bitbang_cli.Allowlist.{Net, pos}
use bitbang_cli.Prelude.{codes, List, ◌∷◌, [], some, true, none, ◌≡◌, refl}
use bitbang_cli.Links.{Terms, Table, by_code, check, by_label, same_grants}

abbrev net : Net
net = record { split_host_port = λ t. some (t, codes "80"); atoi = λ t. some (pos 80) }

abbrev paths : Paths
paths = record { separator = b'/'; abs = λ t. some t; rel = λ p c. some (codes ".") }

abbrev ann : Terms
ann = record { label = codes "ann"; code = codes "k"; grant = []; expires = none }

abbrev retired : Terms
retired = record { label = codes "bob"; code = []; grant = []; expires = some 9 }

abbrev table : Table
table = record { entries = ann ∷ (retired ∷ []); offered = everything }

abbrev peer_of : Terms → ServePeer
peer_of t = record { client_id = codes "1"; label = t.label; terms = t; has_session = true }

abbrev peers : List ServePeer
peers = peer_of ann ∷ (peer_of (record retired { code = codes "old" }) ∷ [])

expired_test :
    poll_peer paths net table 10 (peer_of (record retired { code = codes "old" }))
    ≡ some (codes "this link has expired")
unfolding poll_peer by_code by_label check
expired_test = refl

kept_test : poll_peer paths net table 10 (peer_of ann) ≡ none
unfolding poll_peer by_code check same_grants parse_string split_fields parse narrow narrow_caps
    intersect everything narrow_shell narrow_files narrow_targets to_string render has argument_text
kept_test = refl
