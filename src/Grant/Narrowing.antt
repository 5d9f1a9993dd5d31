-- ===== src/Grant/Narrowing.antt =====
-- internal/grant/grant.go, `Narrow`: what a link leaves of the listener's grant.
use bitbang_cli.Allowlist
use bitbang_cli.Prelude.{
  List, Text, ◌≡◌, ok, [], none, ◌⊎◌, All, inr, true, inl, ◌∷◌, arith, Result-cases, subst, sym,
  refl, some, Result, ◌>>=◌, err,
}
use bitbang_cli.Grant.Spec.{
  Word, Caps, has_cap, order, no_caps, Spec, files, proxy, forward, caps_or_none, shell, Error,
}
use bitbang_cli.Grant.Narrow.{
  narrow_targets, first_refused, narrow_caps, narrow, narrow_shell, narrow_files, Paths, is_within,
}
use bitbang_cli.Allowlist.{Net, Entry, permits_target}

-- Every target is the listener's list itself or lies within what that list permits; where the listener
-- has no list, the targets are the link's.
abbrev pub TargetsWithin : Net → List Text → List Text → List Text → Type 0
TargetsWithin net listener link out =
    ((listener ≡ []) × (out ≡ link))
    ⊎ (out ≡ listener)
    ⊎ ((allowed : List Entry) × (Allowlist.parse net listener ≡ ok allowed)
        × All (λ t. permits_target net allowed t ≡ true) out)

first_refused-none :
    (net : Net) (allowed : List Entry) (ts : List Text)
    → first_refused net allowed ts ≡ none
    → All (λ t. permits_target net allowed t ≡ true) ts
unfolding first_refused
first_refused-none net allowed [] h = tt
first_refused-none net allowed (t ∷ ts) h = ground (arith, first_refused-none net allowed ts)

narrow_targets-Within :
    (net : Net) (listener link out : List Text)
    → narrow_targets net listener link ≡ ok out
    → TargetsWithin net listener link out
unfolding narrow_targets
narrow_targets-Within net listener [] out h = inr (inl (ground arith))
narrow_targets-Within net [] (t ∷ ts) out h = inl (refl, ground arith)
narrow_targets-Within net (l ∷ ls) (t ∷ ts) out h =
    elim (Result-cases (Allowlist.parse net (l ∷ ls))) [
      | inr (e, bad) ↦ absurd (ground (arith, bad))
      | inl (allowed, good) ↦
          let same : (first_refused net allowed (t ∷ ts) ≡ none) × (out ≡ t ∷ ts) =
            ground (arith, good) in
          inr (
            inr (
              allowed,
              good,
              subst (All (λ x. permits_target net allowed x ≡ true)) (sym same.1)
                  (first_refused-none net allowed (t ∷ ts) same.0),
            ))
    ]

-- The capabilities of a narrowed grant are those the link asks for, and the listener has each of them.
abbrev pub CapsWithin : Caps → Caps → Caps → Type 0
CapsWithin listener asked out =
    (out ≡ asked) × ((w : Word) → has_cap w out ≡ true → has_cap w listener ≡ true)

narrow_caps-Within :
    (listener asked out : Caps)
    → narrow_caps order listener asked no_caps ≡ ok out
    → CapsWithin listener asked out
unfolding narrow_caps
narrow_caps-Within listener asked out h = (ground arith, below)
  where
    below : (w : Word) → has_cap w out ≡ true → has_cap w listener ≡ true
    below files g = ground arith
    below proxy g = ground arith
    below forward g = ground arith
    below shell g = ground arith

narrow_shell-eq :
    (listener link out : List Text)
    → narrow_shell listener link ≡ ok out
    → ((listener ≡ []) × (out ≡ link)) ⊎ (out ≡ listener)
unfolding narrow_shell
narrow_shell-eq listener link out h = ground arith

narrow_files-eq :
    (paths : Paths) (listener link out : Text)
    → narrow_files paths listener link ≡ ok out
    → ((listener ≡ []) × (out ≡ link)) ⊎ (out ≡ listener) ⊎ (is_within paths listener out ≡ ok true)
unfolding narrow_files
narrow_files-eq paths listener link out h = ground arith

-- The parts of a grant that was put together from five results.
grant_parts :
    (r1 : Result Error Caps) (r2 : Result Error (List Text)) (r3 : Result Error Text)
    (r4 r5 : Result Error (List Text)) (out : Spec)
    → (r1 >>= λ caps. r2 >>= λ argv. r3 >>= λ path. r4 >>= λ proxies. r5 >>= λ forwards.
        ok (record {
          caps = some caps;
          shell_argv = argv;
          files_path = path;
          proxy_targets = proxies;
          forward_targets = forwards;
        }))
      ≡ ok out
    → ((caps : Caps) × (out.caps ≡ some caps) × (r1 ≡ ok caps))
      × (r2 ≡ ok out.shell_argv)
      × (r3 ≡ ok out.files_path)
      × (r4 ≡ ok out.proxy_targets)
      × (r5 ≡ ok out.forward_targets)
grant_parts (err e) r2 r3 r4 r5 out h = cc
grant_parts (ok a) (err e) r3 r4 r5 out h = cc
grant_parts (ok a) (ok b) (err e) r4 r5 out h = cc
grant_parts (ok a) (ok b) (ok c) (err e) r5 out h = cc
grant_parts (ok a) (ok b) (ok c) (ok d) (err e) out h = cc
grant_parts (ok a) (ok b) (ok c) (ok d) (ok e) out h =
    ((a, ground arith, refl), ground arith, ground arith, ground arith, ground arith)

-- What a link leaves of a listener's grant, whenever narrowing succeeds. The capabilities are those that
-- the link asks for (the listener's own when it names none), and the listener has each of them. A
-- command that the listener pins is kept, and where it pins none the command is the link's. Where the
-- listener's grant names a path, the path stays at it or inside it; where it names none, the path is the
-- link's, whatever that is. The targets of the proxy and of forwarding are the listener's own or all
-- permitted by the listener's list, and where the listener has no list they are the link's.
pub narrow_only_narrows :
    (paths : Paths) (net : Net) (s link out : Spec)
    → narrow paths net s link ≡ ok out
    → ((caps : Caps) × (out.caps ≡ some caps)
        × CapsWithin
            (caps_or_none s.caps)
            (elim link.caps [ none ↦ caps_or_none s.caps | some c ↦ c ])
            caps)
      × (((s.shell_argv ≡ []) × (out.shell_argv ≡ link.shell_argv))
          ⊎ (out.shell_argv ≡ s.shell_argv))
      × (((s.files_path ≡ []) × (out.files_path ≡ link.files_path))
          ⊎ (out.files_path ≡ s.files_path)
          ⊎ (is_within paths s.files_path out.files_path ≡ ok true))
      × TargetsWithin net s.proxy_targets link.proxy_targets out.proxy_targets
      × TargetsWithin net s.forward_targets link.forward_targets out.forward_targets
unfolding narrow
narrow_only_narrows paths net s link out h =
    let (cs, h2, h3, h4, h5) = grant_parts _ _ _ _ _ out h in
    let (caps, hc, h1) = cs in
    (
      (caps, hc, narrow_caps-Within _ _ caps h1),
      narrow_shell-eq s.shell_argv link.shell_argv out.shell_argv h2,
      narrow_files-eq paths s.files_path link.files_path out.files_path h3,
      narrow_targets-Within net s.proxy_targets link.proxy_targets out.proxy_targets h4,
      narrow_targets-Within net s.forward_targets link.forward_targets out.forward_targets h5,
    )
