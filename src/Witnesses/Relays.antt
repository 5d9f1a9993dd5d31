-- ===== src/Witnesses/Relays.antt =====
-- Runs of the theorems about byte streams, WebSocket messages and paths.
use bitbang_cli.Streams.Pumps.{IsPumped, heard, pump-IsPumped}
use bitbang_cli.Streams.Writes.{write_full_lem}
use bitbang_cli.WebSocket.RoundTrip.{write_fragments-write_ws_reader}
use bitbang_cli.Allowlist.{pos}
use bitbang_cli.Prelude.{
  List, true, ◌∷◌, codes, some, Text, ◌++◌, [], Option, ◌≡◌, ◌≢◌, none, ◌≤◌, false, arith,
  if◌then◌else◌, refl, text_eq, ℕ,
}
use bitbang_cli.WebSocket.{write_ws_reader, WsStream, write_fragments}
use bitbang_cli.SafePath.{
  Filepath, safe_path, within_base, has_prefix, has_suffix, IsInside, safe_path-IsInside,
}
use bitbang_cli.Streams.{write_full, Write, Round, pump, written, end_of_file, waiting}

abbrev open_stream : WsStream
open_stream = record { connected = true; writer = none; sent = [] }

write_fragments-write_ws_reader_example :
    let r = write_ws_reader true (record { bytes = 7 ∷ (8 ∷ []); fails = false }) in
    (r.1 ≡ true)
    × (write_fragments r.0 open_stream
        ≡ (record open_stream { sent = (true, 7 ∷ (8 ∷ [])) ∷ [] }, none))
write_fragments-write_ws_reader_example =
    write_fragments-write_ws_reader true (7 ∷ (8 ∷ [])) open_stream refl refl

-- Two calls, the first of which takes one byte of three.
abbrev script : List Write
script = record { count = pos 1; error = none } ∷ (record { count = pos 2; error = none } ∷ [])

write_full_test : write_full script (7 ∷ (8 ∷ (9 ∷ []))) ≡ (7 ∷ (8 ∷ (9 ∷ [])), written)
unfolding write_full
write_full_test = refl

write_full_lem_example :
    let r = write_full script (7 ∷ (8 ∷ (9 ∷ []))) in
    (3 ≤ 2 → r.1 ≢ waiting)
    × ((rest : List ℕ) × (7 ∷ (8 ∷ (9 ∷ [])) ≡ r.0 ++ rest) × (r.1 ≡ written → rest ≡ []))
write_full_lem_example = write_full_lem script (7 ∷ (8 ∷ (9 ∷ [])))

abbrev rounds : List Round
rounds =
    record {
      got = 7 ∷ [];
      error = some end_of_file;
      cancelled = false;
      cancelled_late = false;
      dat_fails = none;
      fin_fails = none;
    }
    ∷ []

pump-IsPumped_example : IsPumped (heard rounds) (pump rounds)
pump-IsPumped_example = pump-IsPumped rounds

-- The share "/s", whose file "/s/a" is a link to "/s/b".
abbrev links_resolved : Text → Option Text
links_resolved t = if text_eq t (codes "/s/a") then some (codes "/s/b") else some t

abbrev fp : Filepath
fp = record {
  abs = λ t. some t;
  join = λ a b. a ++ (47 ∷ b);
  eval_symlinks = links_resolved;
  separator = 47;
}

answer : safe_path fp (codes "/s") (codes "a") ≡ codes "/s/b"
unfolding safe_path within_base has_prefix has_suffix
answer = refl

answer_filled : safe_path fp (codes "/s") (codes "a") ≢ []
answer_filled e = absurd (ground (arith, answer))

safe_path-IsInside_example :
    (base : Text) × (requested : Text) × (real_base : Text) × (some (codes "/s") ≡ some base)
    × (some (base ++ (47 ∷ codes "a")) ≡ some requested)
    × (links_resolved base ≡ some real_base)
    × (links_resolved requested ≡ some (safe_path fp (codes "/s") (codes "a")))
    × IsInside 47 requested base
    × IsInside 47 (safe_path fp (codes "/s") (codes "a")) real_base
safe_path-IsInside_example = safe_path-IsInside fp (codes "/s") (codes "a") answer_filled
