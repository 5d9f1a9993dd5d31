-- ===== src/Share/Roles.antt =====
-- Every step of a share keeps what its peers have.
use bitbang_cli.Share.Kept.{later-IsServing, drop_peer-IsServing, release-Keeps, saved-IsServing}
use bitbang_cli.Share.{Access, access_default, access_control, access_view}
use bitbang_cli.Share.Reserved.{keyboard}
use bitbang_cli.Share.Slots.{
  Release, release, Role, control_role, view_role, take_control, Slots, acquire, Grant, ControlSlot,
}
use bitbang_cli.Share.Keyboard.{IsServing, IsStage, IsPeer, Keeps, reserve, load-save, same}
use bitbang_cli.Prelude.{
  ℕ, Text, ◌≡◌, on_option, on_if, subst, none, is_empty, some, leb, arith, true, ◌++◌, not, refl,
  ◌≤◌, ◌∷◌, total, [], inl, ap, ◌∙◌, inr, is_some, ◌≢◌, total-append, sym, Bool-cases,
  if◌then◌else◌, ◌⊎◌, Option, List,
}
use Prim.Native.Nat.{ℕ}
use bitbang_cli.Share.Worker.{
  publish, hold, arm_refusal, Worker, Shell, waiting, publishing, granted, load, SharePeer, save,
  build_role, arming,
}

pub publish-IsServing :
    (p : ℕ) (sh : Shell) (w : Worker)
    → w.stage ≡ publishing p sh
    → IsServing w
    → IsServing (publish p sh w)
unfolding publish
publish-IsServing p sh w e h =
    on_option IsServing (load p w.store) _ _ (λ n. h)
      (λ x n.
        on_if IsServing x.closed _ _
          (λ c.
            later-IsServing w (record w { stage = waiting }) refl (λ p. omega (arith))
              (λ p x l c k. k) tt h)
          (λ c.
            let held = subst (IsStage w) e h.built in
            let v : Worker = record w {
              store = save p (record x { installed = some sh }) w.store;
              stage = if is_some sh.refused then arming p else waiting;
            } in
            saved-IsServing p x (record x { installed = some sh }) w v h n refl refl (λ q k. k)
              (λ (old : IsPeer w p x). record {
                own = old.own;
                serves = λ alive other i refused.
                    let same_shell : sh ≡ other = ground (arith) in
                    subst (λ (s : Shell). 1 ≤ total (reserve s.role p) x.releases) same_shell
                      (held (ap (λ (s : Shell). s.refused) same_shell ∙ refused) x n c);
                quiet = old.quiet;
                keyed = old.keyed;
              })
              (on_if (IsStage v) (is_some sh.refused) _ _ (λ c. tt) (λ c. tt))))

pub arm_refusal-IsServing : (p : ℕ) (w : Worker) → IsServing w → IsServing (arm_refusal p w)
unfolding arm_refusal
arm_refusal-IsServing p w h =
    on_option IsServing (load p w.store) _ _ (λ n. h)
      (λ x n.
        on_if (λ s. IsServing (record w { stage = waiting; store = s })) x.closed _ _
          (λ c.
            later-IsServing w (record w { stage = waiting }) refl (λ p. omega (arith))
              (λ p x l c k. k) tt h)
          (λ c.
            saved-IsServing p x (record x { refusal = true }) w _ h n refl refl (λ q k. k)
              (λ (old : IsPeer w p x). record {
                own = old.own;
                serves = old.serves;
                quiet = old.quiet;
                keyed = old.keyed;
              })
              tt))

reserve_own :
    (role : Role) (p : ℕ) (r : Release) → r.role ≡ role → r.owner ≡ p → reserve role p r ≡ 1
reserve_own control_role p r e o = ground (arith)
reserve_own view_role p r e o = ground (arith)

-- The release that buildSession hands over to its peer.
held-IsPeer :
    (p : ℕ) (sh : Shell) (r : Release) (x : SharePeer) (w v : Worker)
    → IsStage w (granted p sh r)
    → load p w.store ≡ some x
    → v.running ≡ w.running
    → (Keeps p w → Keeps p v)
    → IsPeer w p x
    → IsPeer v p (record x { releases = x.releases ++ (r ∷ []) })
held-IsPeer p sh r x w v built n hr hk old = record {
  own = λ q ne.
      let not_mine : keyboard q r ≡ 0 = ground (arith, built.1) in
      omega (arith, total-append (keyboard q) x.releases (r ∷ []), old.own q ne, not_mine);
  serves = λ alive other i refused. omega (
    arith,
    total-append (reserve other.role p) x.releases (r ∷ []),
    old.serves alive other i refused,
  );
  quiet = λ alive. ap (total (keyboard p)) hr ∙ old.quiet alive;
  keyed = λ alive k. hk (elim (Bool-cases (leb 1 (total (keyboard p) x.releases))) [
    | inl before ↦ old.keyed alive (ground (arith))
    | inr now ↦ built.2 x n alive (ground (arith, total-append (keyboard p) x.releases (r ∷ [])))
  ]);
}

pub hold-IsServing :
    (p : ℕ) (sh : Shell) (r : Release) (w : Worker)
    → w.stage ≡ granted p sh r
    → IsServing w
    → IsServing (hold p sh r w)
unfolding hold
hold-IsServing p sh r w e h =
    on_option IsServing (load p w.store) _ _ (λ n. h)
      (λ x n.
        let built = subst (IsStage w) e h.built in
        on_if IsServing x.closed _ _
          (λ c.
            let v : Worker = record w { stage = waiting; slots = release r w.slots } in
            later-IsServing w v refl (λ p. omega (arith))
              (λ q z l live k.
                let ne : q ≢ p = λ qp. absurd (ground (arith)) in
                release-Keeps q r w v k (ground (arith, built.1)) refl refl)
              tt h)
          (λ c.
            let y : SharePeer = record x { releases = x.releases ++ (r ∷ []) } in
            let v : Worker = record w { stage = publishing p sh; store = save p y w.store } in
            saved-IsServing p x y w v h n refl refl (λ q k. k)
              (held-IsPeer p sh r x w v built n refl (λ k. k))
              (λ refused z l alive.
                let yz : y ≡ z = ground (arith, load-save p p x y w.store n) in
                subst (λ (u : SharePeer). 1 ≤ total (reserve sh.role p) u.releases) yz
                  (omega (
                    arith,
                    total-append (reserve sh.role p) x.releases (r ∷ []),
                    reserve_own sh.role p r built.0 built.1,
                  )))))

-- Taking the keyboard sends the one who had it to be preempted.
abbrev evicts : Option ℕ → List ℕ → List ℕ
evicts holder list = elim holder [ none ↦ list | some q ↦ list ++ (q ∷ []) ]

evicts_holder :
    (q : ℕ) (holder : Option ℕ) (list : List ℕ)
    → (holder ≡ some q) ⊎ (1 ≤ total (same q) list)
    → 1 ≤ total (same q) (evicts holder list)
evicts_holder q none list k = ground (arith)
evicts_holder q (some old) list k = ground (arith, total-append (same q) list (old ∷ []))

take_control_evicts :
    (p : ℕ) (r : Release) (s : Slots)
    → (take_control p s).1.0.0 ≡ some r
    → ((take_control p s).1.1 ≡ s.control.holder)
      × ((take_control p s).0.control.holder ≡ some p)
      × (r.role ≡ control_role)
      × (r.owner ≡ p)
unfolding take_control
take_control_evicts p r s h = ground (arith)

acquire_keeps :
    (p : ℕ) (r : Release) (s : Slots)
    → (acquire p s).1.0 ≡ some r
    → ((acquire p s).0.control ≡ s.control) × (r.role ≡ view_role) × (r.owner ≡ p)
unfolding acquire
acquire_keeps p r s h = ground (arith)

take_control-Keeps :
    (p q : ℕ) (s : Slots) (list : List ℕ)
    → (s.control.holder ≡ some q) ⊎ (1 ≤ total (same q) list)
    → ((take_control p s).0.control.holder ≡ some q)
      ⊎ (1 ≤ total (same q) (evicts (take_control p s).1.1 list))
unfolding take_control
take_control-Keeps p q s list k =
    on_if
      (λ (r : Slots × (Grant × Option ℕ)).
        (r.0.control.holder ≡ some q) ⊎ (1 ≤ total (same q) (evicts r.1.1 list)))
      (not (is_empty s.control.disabled)) _ _ (λ c. k)
      (λ c. inr (evicts_holder q s.control.holder list k))

acquire_control : (p : ℕ) (s : Slots) → (acquire p s).0.control ≡ s.control
unfolding acquire
acquire_control p s = ground (arith)

pub build_role-IsServing :
    (id : Text) (p : ℕ) (access : Access) (w : Worker)
    → w.stage ≡ waiting
    → IsServing w
    → IsServing (build_role id p access w)
unfolding build_role
build_role-IsServing id p access_default w e h = drop_peer-IsServing id p w h
build_role-IsServing id p access_control w e h =
    let t = take_control p w.slots in
    let shell : Option Text → Shell =
      λ refused. record { role = control_role; refused = refused } in
    let v : Worker = record w {
      slots = t.0;
      preempting = evicts t.1.1 w.preempting;
      stage = elim t.1.0.0 [
        | none ↦ publishing p (shell (some t.1.0.1))
        | some r ↦ granted p (shell none) r
      ];
    } in
    later-IsServing w v refl (λ q. omega (arith))
      (λ q x l c k. take_control-Keeps p q w.slots w.preempting k)
      (on_option (IsStage v) t.1.0.0 _ _ (λ n bad x l c. absurd (cc))
        (λ r n.
          let facts = take_control_evicts p r w.slots n in
          (facts.2, facts.3, λ x l c k. inl facts.1)))
      h
build_role-IsServing id p access_view w e h =
    let t = acquire p w.slots in
    let shell : Option Text → Shell = λ refused. record { role = view_role; refused = refused } in
    let v : Worker = record w {
      slots = t.0;
      stage = elim t.1.0 [
        | none ↦ publishing p (shell (some t.1.1))
        | some r ↦ granted p (shell none) r
      ];
    } in
    later-IsServing w v refl (λ q. omega (arith))
      (λ q x l c k.
        subst (λ (s : ControlSlot). (s.holder ≡ some q) ⊎ (1 ≤ total (same q) w.preempting))
          (sym (acquire_control p w.slots)) k)
      (on_option (IsStage v) t.1.0 _ _ (λ n bad x l c. absurd (cc))
        (λ r n.
          let facts = acquire_keeps p r w.slots n in
          (facts.1, facts.2, λ x l c k. absurd (ground (arith, facts.1)))))
      h
