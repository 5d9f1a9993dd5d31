-- ===== src/Shell/Serving.antt =====
-- Every step of such a listener keeps its shells live or told to end.
use bitbang_cli.Shell.Forgotten.{shells_opened, set_evict-total}
use bitbang_cli.Shell.Served.{
  Ready, serving_run, Serving, IsServed, Ready-dropped, Ready-added, serving_step,
  length-drop_token, serves, length-set_evict, has_token-remove, finishes, drop_token-other,
}
use bitbang_cli.Shell.Displaced.{Admitted, has_room, is_refused, displaces, admit-Admitted}
use bitbang_cli.Shell.{ShellAdmission, release_shell, fresh_shell, ShellAdmissions}
use bitbang_cli.Shell.Overrun.{
  Shells, open_shell, has_token, is_token, start_shell, end_shell, remove_token, new_shells,
}
use bitbang_cli.Prelude.{
  Bool, ℕ, List, if◌then◌else◌, All, ◌∷◌, ◌≡◌, true, ◌<◌, [], length, ◌≤◌, total, ◌⊎◌, ◌==◌, ◌≢◌,
  arith, suc, ap, refl, ◌++◌, inl, inr, on_if, length-append, Option, subst, sym, Bool-cases,
  total-append,
}
use Prim.Native.Nat.{ℕ, suc}

end-IsServed : (max t : ℕ) (s : Shells) → IsServed max s → IsServed max (end_shell t s)
unfolding end_shell release_shell remove_token
end-IsServed max t s h = record {
  ready = Ready-dropped s.admissions.next t s.admissions.live h.ready;
  idle = ap (remove_token t) h.idle;
  within = omega (arith, length-drop_token t s.admissions.live, h.within);
  served = λ u r.
      let still : (u ≢ t) × (has_token u s.running ≡ true) =
        ground (arith, has_token-remove u t s.running) in
      elim (h.served u still.1) [
        | inl live ↦ inl (omega (arith, drop_token-other u t s.admissions.live still.0, live))
        | inr told ↦ inr told
      ];
}

All-split {ℓ} :
    {A : Type 0} (P : A → Type ℓ) (front back : List A) (x : A)
    → All P (front ++ (x ∷ back))
    → P x × All P (front ++ back)
All-split P [] back x h = h
All-split P (y ∷ front) back x h =
    let rest = All-split P front back x h.1 in (rest.0, (h.0, rest.1))

abbrev added : List ShellAdmission → Bool → List ℕ → Shells → Shells
added kept protected told s = record s {
  admissions = record {
    live = kept ++ (fresh_shell s.admissions.next protected ∷ []);
    next = suc s.admissions.next;
  };
  starting = s.admissions.next ∷ s.starting;
  told = told;
}

added-IsServed :
    (max : ℕ) (protected spawned : Bool) (s : Shells) (kept : List ShellAdmission) (told : List ℕ)
    → All (Ready s.admissions.next) kept
    → length kept < max
    → ((t : ℕ)
        → has_token t s.running ≡ true
        → (1 ≤ total (is_token t) kept) ⊎ (has_token t told ≡ true))
    → s.starting ≡ []
    → let o = added kept protected told s in
      let t = s.admissions.next in
      IsServed max
        (if has_token t o.starting then (if spawned then start_shell t o else end_shell t o) else o)
unfolding has_token start_shell end_shell release_shell remove_token
added-IsServed max protected spawned s kept told ready room served idle =
    let t = s.admissions.next in
    let o = added kept protected told s in
    let shell = fresh_shell t protected in
    on_if (IsServed max) (has_token t o.starting) _ _
      (λ c.
        on_if (IsServed max) spawned _ _
          (λ c.
            on_if (IsServed max) (has_token t o.starting) _ _
              (λ c. record {
                ready = (Ready-added t protected kept ready).0;
                idle = ground (arith, idle);
                within = omega (
                  arith,
                  length-set_evict t (kept ++ (shell ∷ [])),
                  length-append kept (shell ∷ []),
                  room,
                );
                served = λ u r. elim (Bool-cases (t == u)) [
                  | inl same ↦ inl (
                      ground (
                        arith,
                        set_evict-total u t (kept ++ (shell ∷ [])),
                        total-append (is_token u) kept (shell ∷ []),
                      ))
                  | inr other ↦ elim (served u (ground (arith))) [
                    | inl live ↦ inl (
                        omega (
                          arith,
                          live,
                          set_evict-total u t (kept ++ (shell ∷ [])),
                          total-append (is_token u) kept (shell ∷ []),
                        ))
                    | inr gone ↦ inr gone
                  ]
                ];
              })
              (λ c. absurd (ground (arith))))
          (λ c. record {
            ready = (Ready-added t protected kept ready).1;
            idle = ground (arith, idle);
            within = omega (
              arith,
              length-drop_token t (kept ++ (shell ∷ [])),
              length-append kept (shell ∷ []),
              room,
            );
            served = λ u r.
                let still : (u ≢ t) × (has_token u s.running ≡ true) =
                  ground (arith, has_token-remove u t s.running) in
                elim (served u still.1) [
                  | inl live ↦ inl (
                      omega (
                        arith,
                        live,
                        drop_token-other u t (kept ++ (shell ∷ [])) still.0,
                        total-append (is_token u) kept (shell ∷ []),
                      ))
                  | inr gone ↦ inr gone
                ];
          }))
      (λ c. absurd (ground (arith)))

opened-IsServed :
    (max : ℕ) (protected spawned : Bool) (s : Shells) (a : ShellAdmissions)
    (adm old : Option ShellAdmission)
    → Admitted max protected s.admissions a adm old
    → 0 < max
    → IsServed max s
    → let o = shells_opened s a adm old in
      let t = s.admissions.next in
      IsServed max
        (if has_token t o.starting then (if spawned then start_shell t o else end_shell t o) else o)
unfolding has_token
opened-IsServed max protected spawned s a adm old (has_room r) pos h =
    added-IsServed max protected spawned s s.admissions.live s.told h.ready (ground (arith))
      h.served h.idle
opened-IsServed max protected spawned s a adm old (is_refused b c f g) pos h =
    on_if (IsServed max) (has_token s.admissions.next s.starting) _ _
      (λ c. absurd (ground (arith, h.idle))) (λ c. h)
opened-IsServed max protected spawned s a adm old (displaces front back d e m f g k) pos h =
    let parts =
      All-split (Ready s.admissions.next) front back d
        (subst (All (Ready s.admissions.next)) e h.ready) in
    added-IsServed max protected spawned s (front ++ back)
      (if d.evict then d.token ∷ s.told else s.told) parts.1
      (omega
        (arith, h.within, ap length e, length-append front (d ∷ back), length-append front back))
      (λ t r. elim (h.served t r) [
        | inl live ↦
            let sum = sym (ap (total (is_token t)) e) in
            elim (Bool-cases (d.token == t)) [
              | inl same ↦ inr (ground (arith, parts.0.0))
              | inr other ↦ inl (
                  ground (
                    arith,
                    live,
                    sum,
                    total-append (is_token t) front (d ∷ back),
                    total-append (is_token t) front back,
                  ))
            ]
        | inr told ↦ inr (ground (arith, told))
      ])
      h.idle

serving_run-IsServed :
    (max : ℕ) (es : List Serving) (s : Shells)
    → 0 < max
    → IsServed max s
    → IsServed max (serving_run max es s)
unfolding serving_run serving_step open_shell
serving_run-IsServed max [] s pos h = h
serving_run-IsServed max (serves protected spawned ∷ es) s pos h =
    serving_run-IsServed max es (serving_step max (serves protected spawned) s) pos (
      opened-IsServed max protected spawned s _ _ _ (admit-Admitted max protected s.admissions) pos
        h)
serving_run-IsServed max (finishes t ∷ es) s pos h =
    serving_run-IsServed max es (end_shell t s) pos (end-IsServed max t s h)

-- While no admission falls between another's and its process, the live shells stay within the limit,
-- and every running process belongs to one of them or was told to end when another took its place.
pub serving_run-new-IsServed :
    (max : ℕ) (es : List Serving) → 0 < max → IsServed max (serving_run max es new_shells)
unfolding has_token
serving_run-new-IsServed max es pos =
    serving_run-IsServed max es new_shells pos
      (record { ready = tt; idle = refl; within = omega (arith); served = λ t r. absurd (cc) })
