-- ===== src/Witnesses/Grants.antt =====
-- internal/grant at small inputs. The paths of the example are absolute and lie one beside the other.
use bitbang_cli.Grant.Narrowing.{CapsWithin, TargetsWithin, narrow_only_narrows}
use bitbang_cli.Allowlist.{Net, pos}
use bitbang_cli.Grant.Fields.{split_fields, join, quote_command, quote_field, contains}
use bitbang_cli.Prelude.{
  Text, All, List, codes, some, ◌≡◌, ok, map, if◌then◌else◌, ◌∷◌, text_eq, [], inr, inl, refl, ◌⊎◌,
  true,
}
use bitbang_cli.Grant.Spec.{
  Spec, unspecified, everything, with_cap, files, no_caps, Caps, caps_or_none,
}
use bitbang_cli.Grant.Narrow.{
  narrow, Paths, narrow_caps, narrow_shell, narrow_files, is_within, narrow_targets,
}
use bitbang_cli.Grant.Quoting.{Quotable, split_fields-quote_command}

abbrev commands : List Text
commands = codes "echo" ∷ (codes "a b" ∷ [])

commands-Quotable : All Quotable commands
unfolding contains
commands-Quotable = (inl refl, (inl refl, tt))

line-Quotable : Quotable (join (codes " ") (map quote_field commands))
unfolding contains join quote_field
line-Quotable = inr refl

split_fields-quote_command_example :
    (field : Text) × (split_fields (quote_command commands) ≡ ok (field ∷ []))
    × (split_fields field ≡ ok commands)
split_fields-quote_command_example =
    split_fields-quote_command commands commands-Quotable line-Quotable

abbrev net : Net
net = record { split_host_port = λ t. some (t, codes "80"); atoi = λ t. some (pos 80) }

abbrev paths : Paths
paths = record {
  separator = b'/';
  abs = λ t. some t;
  rel = λ p c. some (if text_eq p c then codes "." else codes "../x");
}

abbrev listener : Spec
listener = record everything { files_path = codes "/srv"; forward_targets = codes "nas:80" ∷ [] }

abbrev link : Spec
link = record unspecified { caps = some (with_cap files no_caps); files_path = codes "/srv" }

abbrev narrowed : Spec
narrowed = record listener { caps = some (with_cap files no_caps) }

narrows : narrow paths net listener link ≡ ok narrowed
unfolding narrow narrow_caps narrow_shell narrow_files is_within narrow_targets everything
narrows = refl

-- A listener that names no path, as plain `serve files`, and a link that names one.
open_path_test :
    narrow paths net
      (record listener { files_path = [] })
      (record link { files_path = codes "/etc" })
    ≡ ok (record narrowed { files_path = codes "/etc" })
unfolding narrow narrow_caps narrow_shell narrow_files is_within narrow_targets everything
open_path_test = refl

narrow_only_narrows_example :
    ((caps : Caps) × (narrowed.caps ≡ some caps)
      × CapsWithin (caps_or_none listener.caps) (with_cap files no_caps) caps)
    × (((listener.shell_argv ≡ []) × (narrowed.shell_argv ≡ link.shell_argv))
        ⊎ (narrowed.shell_argv ≡ listener.shell_argv))
    × (((listener.files_path ≡ []) × (narrowed.files_path ≡ link.files_path))
        ⊎ (narrowed.files_path ≡ listener.files_path)
        ⊎ (is_within paths listener.files_path narrowed.files_path ≡ ok true))
    × TargetsWithin net listener.proxy_targets link.proxy_targets narrowed.proxy_targets
    × TargetsWithin net listener.forward_targets link.forward_targets narrowed.forward_targets
narrow_only_narrows_example = narrow_only_narrows paths net listener link narrowed narrows
