-- ===== src/Witnesses/Commands.antt =====
-- cmd/bitbang and internal/sdp: arguments, held output and a description, and the tests of their models.
use bitbang_cli.Command.Held.{all_writes}
use bitbang_cli.Command.Pieces.{IsReordered}
use bitbang_cli.Command.Twice.{reorder_args_lem}
use bitbang_cli.Command.Shown.{IsAccounted, hold_run-new-IsAccounted}
use bitbang_cli.Command.Hold.{hold_run, Call, new_hold_writer, writes, written, holds, releases}
use bitbang_cli.Command.Args.{reorder_args}
use bitbang_cli.Sdp.{extract_fingerprint}
use bitbang_cli.Prelude.{Text, codes, List, Bool, ◌∷◌, [], ◌≡◌, text_eq, refl}
use mathlib.Core.List.{Perm}

abbrev is_bool : Text → Bool
is_bool name = text_eq name (codes "verbose")

abbrev given : List Text
given =
    codes "URL"
    ∷ (codes "--pin" ∷ (codes "1234" ∷ (codes "--verbose" ∷ (codes "--" ∷ (codes "-l" ∷ [])))))

abbrev wanted : List Text
wanted =
    codes "--pin"
    ∷ (codes "1234" ∷ (codes "--verbose" ∷ (codes "URL" ∷ (codes "--" ∷ (codes "-l" ∷ [])))))

reorder_test : reorder_args is_bool given ≡ wanted
unfolding reorder_args
reorder_test = refl

-- A flag whose value is missing takes a positional argument.
missing_value :
    reorder_args is_bool (codes "URL" ∷ (codes "--pin" ∷ [])) ≡ codes "--pin" ∷ (codes "URL" ∷ [])
unfolding reorder_args
missing_value = refl

reorder_args_lem_example :
    IsReordered is_bool given (reorder_args is_bool given)
    × Perm (reorder_args is_bool given) given
    × (reorder_args is_bool (reorder_args is_bool given) ≡ reorder_args is_bool given)
reorder_args_lem_example = reorder_args_lem is_bool given

abbrev calls : List Call
calls =
    writes (1 ∷ []) ∷ (holds ∷ (writes (2 ∷ []) ∷ (releases ∷ (holds ∷ (writes (3 ∷ []) ∷ [])))))

hold_test : (hold_run calls new_hold_writer).1 ≡ written (1 ∷ []) ∷ (written (2 ∷ []) ∷ [])
unfolding hold_run new_hold_writer
hold_test = refl

hold_run-new-IsAccounted_example :
    IsAccounted [] (all_writes calls) (hold_run calls new_hold_writer)
hold_run-new-IsAccounted_example = hold_run-new-IsAccounted calls

abbrev lower_case : Text
lower_case = codes "v=0\r\na=fingerprint:sha-256 ab:0f\r\n"

abbrev upper_case : Text
upper_case = codes "a=FINGERPRINT:SHA-256  AB:0F\n"

fingerprint_test : extract_fingerprint lower_case ≡ codes "AB:0F"
unfolding extract_fingerprint
fingerprint_test = refl
