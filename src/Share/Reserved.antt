-- ===== src/Share/Reserved.antt =====
-- The slots of a share are in hand exactly as often as they are counted, and a slot given back is given
-- back once: the invariant of every step.
use bitbang_cli.Share.Owned.{IsMove, owned}
use Prim.Native.Nat.{ℕ, suc}
use bitbang_cli.Share.Worker.{Worker}
use bitbang_cli.Share.Slots.{
  Release, has_run, take_control, set_run, control_role, view_role, release, Slots, give_up,
  acquire,
}
use bitbang_cli.Prelude.{
  ℕ, List, if◌then◌else◌, ◌==◌, ◌≡◌, ◌∙◌, ◌+◌, Bool, ◌≤◌, some, arith, ap, ◌++◌, false, ◌∷◌, sym,
  [], subst, length, suc, zero, refl, ◌-◌, ◌⊎◌, inl, inr, none, ◌≢◌, Text, List-cases,
}

abbrev pub tally : ℕ → Release → ℕ
tally k r = if r.once == k then 1 else 0

abbrev pub viewing : Release → ℕ
viewing r = elim r.role [ control_role ↦ 0 | view_role ↦ 1 ]

abbrev pub controlling : Release → ℕ
controlling r = elim r.role [ control_role ↦ 1 | view_role ↦ 0 ]

abbrev pub keyboard : ℕ → Release → ℕ
keyboard p r = elim r.role [ control_role ↦ if r.owner == p then 1 else 0 | view_role ↦ 0 ]

abbrev pub is_open : ℕ → List Bool → ℕ
unfolding has_run
is_open k os = if has_run k os then 0 else 1

-- Every cell that has not run belongs to one release in hand and no other does; the counter counts the
-- releases of viewers in hand, and the holder's release is in hand.
pub record IsReserved (limit : ℕ) (ban : Text) (w : Worker) : Type 0 where
  pub cells : (k : ℕ) → owned (tally k) w ≡ is_open k w.slots.onces
  pub counted : owned viewing w ≡ w.slots.viewers.used
  pub capped : w.slots.viewers.used ≤ limit
  pub limited : w.slots.viewers.max ≡ limit
  pub banned : w.slots.control.disabled ≡ ban
  pub barred : ban ≢ [] → owned controlling w ≡ 0
  pub held : (p : ℕ) → w.slots.control.holder ≡ some p → 1 ≤ owned (keyboard p) w

pub move-IsReserved :
    (limit : ℕ) (ban : Text) (w v : Worker)
    → IsMove w v
    → IsReserved limit ban w
    → IsReserved limit ban v
move-IsReserved limit ban w v m h = record {
  cells = λ k.
      m.owned_same (tally k) ∙ h.cells k ∙ ap (λ (s : Slots). is_open k s.onces) (sym m.slots_same);
  counted =
      m.owned_same viewing ∙ h.counted ∙ ap (λ (s : Slots). s.viewers.used) (sym m.slots_same);
  capped = subst (λ (s : Slots). s.viewers.used ≤ limit) (sym m.slots_same) h.capped;
  limited = ap (λ (s : Slots). s.viewers.max) m.slots_same ∙ h.limited;
  banned = ap (λ (s : Slots). s.control.disabled) m.slots_same ∙ h.banned;
  barred = λ b. m.owned_same controlling ∙ h.barred b;
  held = λ p e.
      let before = h.held p (sym (ap (λ (s : Slots). s.control.holder) m.slots_same) ∙ e) in
      omega (arith, before, m.owned_same (keyboard p));
}

is_open-append :
    (k : ℕ) (os : List Bool)
    → is_open k (os ++ (false ∷ [])) ≡ is_open k os + (if length os == k then 1 else 0)
unfolding has_run
is_open-append zero [] = refl
is_open-append (suc k) [] = ground (arith)
is_open-append zero (o ∷ os) = ground (arith)
is_open-append (suc k) (o ∷ os) = ground (arith, is_open-append k os)

is_open-set_run :
    (j k : ℕ) (os : List Bool)
    → is_open j (set_run k os) + (if k == j then is_open k os else 0) ≡ is_open j os
unfolding has_run set_run
is_open-set_run j k [] = ground (arith)
is_open-set_run zero zero (o ∷ os) = ground (arith)
is_open-set_run zero (suc k) (o ∷ os) = ground (arith)
is_open-set_run (suc j) zero (o ∷ os) = ground (arith)
is_open-set_run (suc j) (suc k) (o ∷ os) = ground (arith, is_open-set_run j k os)

-- What a release does to the slots, its cell not having run.
release_open :
    (r : Release) (s : Slots)
    → has_run r.once s.onces ≡ false
    → ((release r s).onces ≡ set_run r.once s.onces)
      × ((release r s).viewers.used ≡ s.viewers.used - viewing r)
      × ((release r s).viewers.max ≡ s.viewers.max)
      × ((p : ℕ)
          → (release r s).control.holder ≡ some p
          → (s.control.holder ≡ some p) × (keyboard p r ≡ 0))
unfolding release give_up
release_open r s h = (ground (arith), ground (arith), ground (arith), λ p e. ground (arith))

release_disabled : (r : Release) (s : Slots) → (release r s).control.disabled ≡ s.control.disabled
unfolding release give_up
release_disabled r s = ground (arith)

-- A release called out of the hands that held it.
pub release-IsReserved :
    (limit : ℕ) (ban : Text) (r : Release) (w v : Worker)
    → IsReserved limit ban w
    → ((f : Release → ℕ) → owned f v + f r ≡ owned f w)
    → v.slots ≡ release r w.slots
    → IsReserved limit ban v
unfolding has_run
release-IsReserved limit ban r w v h gone same =
    let unused : has_run r.once w.slots.onces ≡ false =
      ground (arith, h.cells r.once, gone (tally r.once)) in
    let after = release_open r w.slots unused in
    record {
      cells = λ k.
          let n = is_open-set_run k r.once w.slots.onces in
          let o : v.slots.onces ≡ set_run r.once w.slots.onces =
            ap (λ (s : Slots). s.onces) same ∙ after.0 in
          ground (arith, o, n, h.cells k, gone (tally k), unused);
      counted =
          omega (arith, ap (λ (s : Slots). s.viewers.used) same, after.1, h.counted, gone viewing);
      capped = omega (arith, ap (λ (s : Slots). s.viewers.used) same, after.1, h.capped);
      limited = ap (λ (s : Slots). s.viewers.max) same ∙ after.2 ∙ h.limited;
      banned = ap (λ (s : Slots). s.control.disabled) same ∙ release_disabled r w.slots ∙ h.banned;
      barred = λ b. omega (arith, gone controlling, h.barred b);
      held = λ p e.
          let before = after.3 p (sym (ap (λ (s : Slots). s.control.holder) same) ∙ e) in
          omega (arith, h.held p before.0, before.1, gone (keyboard p));
    }

-- A slot granted: its cell is fresh, and the counter or the holder says so.
pub record IsGranted (p : ℕ) (r : Release) (s t : Slots) : Type 0 where
  pub fresh : r.once ≡ length s.onces
  pub added : t.onces ≡ s.onces ++ (false ∷ [])
  pub used_now : t.viewers.used ≡ s.viewers.used + viewing r
  pub limit :
      (t.viewers.max ≡ s.viewers.max) × (t.viewers.used ≤ s.viewers.max ⊎ t.viewers ≡ s.viewers)
  pub owns : r.owner ≡ p
  pub allowed :
      (t.control.disabled ≡ s.control.disabled) × (s.control.disabled ≢ [] → controlling r ≡ 0)
  pub holds : (q : ℕ) → t.control.holder ≡ some q → (keyboard q r ≡ 1) ⊎ (s.control.holder ≡ some q)

pub take_control-IsGranted :
    (p : ℕ) (r : Release) (s : Slots)
    → (take_control p s).1.0.0 ≡ some r
    → IsGranted p r s (take_control p s).0
unfolding take_control
take_control-IsGranted p r s h = record {
  fresh = ground (arith);
  added = ground (arith);
  used_now = ground (arith);
  limit = ground (arith);
  owns = ground (arith);
  allowed = (
    ground (arith),
    λ d. elim (List-cases s.control.disabled) [
      | inl e ↦ absurd (d e)
      | inr (c, cs, e) ↦ absurd (ground (arith))
    ],
  );
  holds = λ q e. ground (arith);
}

pub acquire-IsGranted :
    (p : ℕ) (r : Release) (s : Slots) → (acquire p s).1.0 ≡ some r → IsGranted p r s (acquire p s).0
unfolding acquire
acquire-IsGranted p r s h = record {
  fresh = ground (arith);
  added = ground (arith);
  used_now = ground (arith);
  limit = ground (arith);
  owns = ground (arith);
  allowed = (ground (arith), λ d. ground (arith));
  holds = λ q e. ground (arith);
}

pub take_control_refused :
    (p : ℕ) (s : Slots) → (take_control p s).1.0.0 ≡ none → (take_control p s).0 ≡ s
unfolding take_control
take_control_refused p s h = ground (arith)

pub acquire_refused : (p : ℕ) (s : Slots) → (acquire p s).1.0 ≡ none → (acquire p s).0 ≡ s
unfolding acquire
acquire_refused p s h = ground (arith)

-- The new release is in the hands of buildSession.
pub granted-IsReserved :
    (limit : ℕ) (ban : Text) (p : ℕ) (r : Release) (w v : Worker)
    → IsReserved limit ban w
    → IsGranted p r w.slots v.slots
    → ((f : Release → ℕ) → owned f v ≡ owned f w + f r)
    → IsReserved limit ban v
granted-IsReserved limit ban p r w v h g more = record {
  cells = λ k.
      let n = is_open-append k w.slots.onces in
      let o : is_open k v.slots.onces ≡ is_open k (w.slots.onces ++ (false ∷ [])) =
        ap (is_open k) g.added in
      ground (arith, o, n, h.cells k, more (tally k), g.fresh);
  counted = omega (arith, g.used_now, h.counted, more viewing);
  capped = ground (arith, g.limit, h.capped, h.limited);
  limited = g.limit.0 ∙ h.limited;
  banned = g.allowed.0 ∙ h.banned;
  barred =
      λ b. omega (arith, more controlling, h.barred b, g.allowed.1 (λ e. b (sym h.banned ∙ e)));
  held = λ p e. elim (g.holds p e) [
    | inl new ↦ omega (arith, new, more (keyboard p))
    | inr old ↦ omega (arith, h.held p old, more (keyboard p))
  ];
}
