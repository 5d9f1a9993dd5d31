-- ===== src/Allowlist/Permits.antt =====
-- What an allow list permits.
use bitbang_cli.Prelude.{Text, List, ◌∷◌, ◌⊎◌, ◌≡◌, true, [], ◌↔◌, arith, text_eq_iff}
use bitbang_cli.Allowlist.{permits_some, permits, ◌∷◌, Entry, true, normalize_host, ℤ, pos}

-- Host and port fall under an entry.
abbrev pub Covers : Text → ℤ → Entry → Type 0
Covers h port e = (e.host ≡ h) × ((e.port ≡ 0) ⊎ (pos e.port ≡ port))

-- Some entry of the list satisfies the predicate.
abbrev pub Some : {A : Type 0} → (A → Type 0) → List A → Type 0
Some P [] = ⊥
Some P (x ∷ xs) = P x ⊎ Some P xs

permits_some_lem :
    (l : List Entry) (h : Text) (port : ℤ) → (permits_some l h port ≡ true) ↔ Some (Covers h port) l
unfolding permits_some
permits_some_lem [] h port = ground arith
permits_some_lem (e ∷ l) h port = ground (arith, permits_some_lem l h port, text_eq_iff e.host h)

-- A target is permitted exactly when the list is empty or one of its entries has the normalized host,
-- with no port or with the target's own.
pub permits_lem :
    (l : List Entry) (host : Text) (port : ℤ)
    → (permits l host port ≡ true) ↔ ((l ≡ []) ⊎ Some (Covers (normalize_host host) port) l)
unfolding permits
permits_lem [] host port = ground arith
permits_lem (e ∷ l) host port = ground (arith, permits_some_lem (e ∷ l) (normalize_host host) port)
