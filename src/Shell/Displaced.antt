-- ===== src/Shell/Displaced.antt =====
-- Who gives up a shell: what an admission does to the live shells.
use bitbang_cli.Shell.{
  oldest_displaceable, ShellAdmission, admit, ShellAdmissions, may_displace, fresh_shell, first,
}
use Prim.Native.Nat.{ℕ, suc}
use bitbang_cli.Prelude.{
  Bool, ℕ, List, All, Option, ◌≡◌, false, ◌⊎◌, true, on_if, none, some, ◌∷◌, ltb, length, take, ◌<◌,
  arith, ◌&&◌, ◌++◌, leb, [], inl, drop, inr, suc, ◌≤◌, Bool-cases, ap, refl, on_option, subst, sym,
}

abbrev pub Stays : Bool → ShellAdmission → Type 0
Stays protected s = may_displace protected s ≡ false

-- Where the oldest shell stands that the caller may take, or that there is none.
oldest_displaceable_lem :
    (protected : Bool) (live : List ShellAdmission)
    → ((oldest_displaceable protected live ≡ none) × All (Stays protected) live)
      ⊎ ((i : ℕ) × (s : ShellAdmission) × (oldest_displaceable protected live ≡ some i)
          × (live ≡ take i live ++ (s ∷ drop (suc i) live))
          × (first (drop i live) ≡ some s)
          × (may_displace protected s ≡ true)
          × All (Stays protected) (take i live))
unfolding oldest_displaceable
oldest_displaceable_lem protected [] = inl (refl, tt)
oldest_displaceable_lem protected (s ∷ ss) = elim (Bool-cases (may_displace protected s)) [
  | inl takes ↦ inr (0, s, ground (arith), refl, refl, takes, tt)
  | inr stays ↦ elim (oldest_displaceable_lem protected ss) [
    | inl nobody ↦ inl (ground (arith, nobody.0), (stays, nobody.1))
    | inr found ↦ inr (
      suc found.0,
      found.1,
      ground (arith, found.2),
      ap (◌∷◌ s) found.3,
      found.4,
      found.5,
      (stays, found.6),
    )
  ]
]

-- What an admission may do: add the shell where there is room, refuse an unprotected one where every
-- live shell is protected, or put it in the place of the oldest that it may displace.
pub data Admitted (max : ℕ) (protected : Bool) (a : ShellAdmissions)
    : ShellAdmissions → Option ShellAdmission → Option ShellAdmission → Type 0 where
  has_room :
      (max ≡ 0) ⊎ (length a.live < max)
      → Admitted max protected a
          (record { live = a.live ++ (fresh_shell a.next protected ∷ []); next = suc a.next })
          (some (fresh_shell a.next protected))
          none
  is_refused :
      protected ≡ false
      → All (λ s. s.protected ≡ true) a.live
      → 0 < max
      → max ≤ length a.live
      → Admitted max protected a a none none
  displaces :
      (front back : List ShellAdmission) (s : ShellAdmission)
      → a.live ≡ front ++ (s ∷ back)
      → may_displace protected s ≡ true
      → All (Stays protected) front
      → 0 < max
      → max ≤ length a.live
      → Admitted max protected a
          (record {
            live = (front ++ back) ++ (fresh_shell a.next protected ∷ []);
            next = suc a.next;
          })
          (some (fresh_shell a.next protected))
          (some s)

All-protected :
    (live : List ShellAdmission) → All (Stays false) live → All (λ s. s.protected ≡ true) live
All-protected [] h = tt
All-protected (s ∷ ss) h = (ground (arith, h.0), All-protected ss h.1)

only_others :
    (max : ℕ) (protected : Bool) (live : List ShellAdmission)
    → All (Stays protected) live
    → 0 < max
    → max ≤ length live
    → (protected ≡ false) × All (λ s. s.protected ≡ true) live
only_others max false live h pos full = (refl, All-protected live h)
only_others max true [] h pos full = absurd (omega (arith))
only_others max true (s ∷ ss) h pos full = absurd (ground (arith, h.0))

nobody_displaceable :
    (protected : Bool) (live : List ShellAdmission)
    → oldest_displaceable protected live ≡ none
    → All (Stays protected) live
nobody_displaceable protected live e = elim (oldest_displaceable_lem protected live) [
  | inl nobody ↦ nobody.1
  | inr found ↦ absurd (ground (arith, found.2))
]

found_displaceable :
    (protected : Bool) (live : List ShellAdmission) (i : ℕ)
    → oldest_displaceable protected live ≡ some i
    → (s : ShellAdmission) × (live ≡ take i live ++ (s ∷ drop (suc i) live))
      × (first (drop i live) ≡ some s)
      × (may_displace protected s ≡ true)
      × All (Stays protected) (take i live)
found_displaceable protected live i e = elim (oldest_displaceable_lem protected live) [
  | inl nobody ↦ absurd (ground (arith, nobody.0))
  | inr found ↦
      let same : found.0 ≡ i = ground (arith, found.2) in
      subst
        (λ n.
          (s : ShellAdmission) × (live ≡ take n live ++ (s ∷ drop (suc n) live))
          × (first (drop n live) ≡ some s)
          × (may_displace protected s ≡ true)
          × All (Stays protected) (take n live))
        same (found.1, found.3, found.4, found.5, found.6)
]

-- A new shell goes behind the live ones while there is room. At the limit it displaces the oldest
-- shell that its caller may displace, where the owner may displace any and nobody else one of the
-- owner's, and all others keep their order; and it is refused when all are the owner's and its caller
-- is not.
pub admit-Admitted :
    (max : ℕ) (protected : Bool) (a : ShellAdmissions)
    → Admitted max protected a
        (admit max protected a).0
        (admit max protected a).1.0
        (admit max protected a).1.1
unfolding admit
admit-Admitted max protected a =
    let P : ShellAdmissions × (Option ShellAdmission × Option ShellAdmission) → Type 0 =
      λ r. Admitted max protected a r.0 r.1.0 r.1.1 in
    on_if P (ltb 0 max && leb max (length a.live)) _ _
      (λ full.
        let facts : (0 < max) × (max ≤ length a.live) = ground (arith) in
        on_option P (oldest_displaceable protected a.live) _ _
          (λ e.
            let others =
              only_others max protected a.live (nobody_displaceable protected a.live e) facts.0
                facts.1 in
            is_refused others.0 others.1 facts.0 facts.1)
          (λ i e.
            let found = found_displaceable protected a.live i e in
            let shell = fresh_shell a.next protected in
            subst
              (Admitted max protected a
                (record {
                  live = (take i a.live ++ drop (suc i) a.live) ++ (shell ∷ []);
                  next = suc a.next;
                })
                (some shell))
              (sym found.2)
              (displaces (take i a.live) (drop (suc i) a.live) found.0 found.1 found.3 found.4
                facts.0 facts.1)))
      (λ room. has_room (ground (arith)))
