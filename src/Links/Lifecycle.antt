-- ===== src/Links/Lifecycle.antt =====
-- internal/links/table.go: what is left of the codes after the passes over a table.
use bitbang_cli.Prelude.{
  ◌≢◌, Text, List, [], ℕ, is_empty, ◌∷◌, Result, ◌≡◌, ok, true, false, if◌then◌else◌, ◌≤◌, on_if,
  arith, subst, err, not, ◌>>=◌, Bool-cases, ◌||◌, text_eq_iff, ◌+◌, text_eq, refl, inl,
  Result-cases, inr, sym, ap, Bool, ◌&&◌, text_eq→eq,
}
use bitbang_cli.Links.{Terms, check, ℕ, is_empty, ◌∷◌, Result, ok, true, false, err, text_eq, Bool}
use bitbang_cli.Links.Codes.{
  conflicts, count_code, cleared, dedupe_codes, mint, retire_expired, clear_code,
}

cleared_row :
    (x : Terms) (code : Text) (b : Bool)
    → is_empty code ≡ false
    → text_eq ((if b then clear_code x else x).code) code ≡ (text_eq x.code code && not b)
unfolding clear_code
cleared_row x [] b h = absurd cc
cleared_row x (c ∷ cs) true h = ground arith
cleared_row x (c ∷ cs) false h = ground arith

count_code-cleared :
    (id code : Text) (all es : List Terms)
    → is_empty code ≡ false
    → count_code code (cleared id all es)
      ≡ (if conflicts id all code then 0 else count_code code es)
unfolding count_code cleared
count_code-cleared id code all [] h = ground arith
count_code-cleared id code all (x ∷ es) h =
    elim (Bool-cases (text_eq x.code code))
      as (λ z.
        count_code code (cleared id all (x ∷ es))
        ≡ (if conflicts id all code then 0 else count_code code (x ∷ es))) [
          | inl t ↦ ground (
            arith,
            t,
            ap (conflicts id all) (text_eq→eq x.code code t),
            cleared_row x code (conflicts id all x.code) h,
            count_code-cleared id code all es h,
          )
          | inr f ↦ ground (
            arith,
            f,
            cleared_row x code (conflicts id all x.code) h,
            count_code-cleared id code all es h,
          )
        ]

-- After DedupeCodes a code that is not empty stands in at most one row, and the identity's in none; a
-- code other than the identity's that stood in at most one row still stands in as many.
pub dedupe_codes_lem :
    (entries : List Terms) (id code : Text)
    → is_empty code ≡ false
    → (count_code code ((dedupe_codes entries id).0) ≤ 1)
      × (code ≡ id → count_code code ((dedupe_codes entries id).0) ≡ 0)
      × (code ≢ id
          → count_code code entries ≤ 1
          → count_code code ((dedupe_codes entries id).0) ≡ count_code code entries)
unfolding dedupe_codes
dedupe_codes_lem entries id code h =
    ground (arith, count_code-cleared id code entries entries h, text_eq_iff code id)

-- Two tables with as many rows, each row of the second in the relation to its row of the first.
abbrev pub Rowwise : (Terms → Terms → Type 0) → List Terms → List Terms → Type 0
Rowwise R [] [] = Unit
Rowwise R [] (o ∷ os) = ⊥
Rowwise R (e ∷ es) [] = ⊥
Rowwise R (e ∷ es) (o ∷ os) = R e o × Rowwise R es os

-- The label and the expiry stand; a row that has not expired is unchanged; an expired one has no code.
pub record IsRetired (now : ℕ) (e o : Terms) : Type 0 where
  pub same_label : o.label ≡ e.label
  pub same_expiry : o.expires ≡ e.expires
  pub live_unchanged : check e now ≡ true → o ≡ e
  pub expired_cleared : check e now ≡ false → is_empty o.code ≡ true

-- Every row that RetireExpired returns keeps its label and expiry, is unchanged if it is live, and has no
-- code if it has expired.
pub retire_expired_lem :
    (now : ℕ) (es : List Terms) → Rowwise (IsRetired now) es ((retire_expired now es).0)
unfolding retire_expired clear_code
retire_expired_lem now [] = tt
retire_expired_lem now (e ∷ es) =
    on_if (λ (r : List Terms × List Text). Rowwise (IsRetired now) (e ∷ es) (r.0))
      (is_empty e.code || check e now) (e ∷ (retire_expired now es).0, (retire_expired now es).1)
      (clear_code e ∷ (retire_expired now es).0, e.label ∷ (retire_expired now es).1)
      (λ t. (
        record {
          same_label = refl;
          same_expiry = refl;
          live_unchanged = λ l. refl;
          expired_cleared = λ l. ground (arith, t, l);
        },
        retire_expired_lem now es,
      ))
      (λ f. (
        record {
          same_label = refl;
          same_expiry = refl;
          live_unchanged = λ l. absurd (ground (arith, f, l));
          expired_cleared = λ l. refl;
        },
        retire_expired_lem now es,
      ))

-- A row with a code or past its expiry is unchanged; any other has a code, and its label.
pub record IsMinted (now : ℕ) (e o : Terms) : Type 0 where
  pub same_label : o.label ≡ e.label
  pub coded_unchanged : is_empty e.code ≡ false → o ≡ e
  pub expired_unchanged : check e now ≡ false → o ≡ e
  pub live_coded : check e now ≡ true → is_empty o.code ≡ false

-- A result that is rows which Mint may return, or an error.
abbrev pub WhenMinted : {X : Type 0} → ℕ → List Terms → Result X (List Terms × List Text) → Type 0
WhenMinted now es (ok r) = Rowwise (IsMinted now) es (r.0)
WhenMinted now es (err x) = Unit

WhenMinted-cons :
    {X : Type 0} (now : ℕ) (e o : Terms) (es : List Terms) (m : Result X (List Terms × List Text))
    (f : List Text → List Text)
    → IsMinted now e o
    → WhenMinted now es m
    → WhenMinted now (e ∷ es) (m >>= λ r. ok (o ∷ r.0, f (r.1)))
WhenMinted-cons now e o es (ok r) f h hm = (h, hm)
WhenMinted-cons now e o es (err x) f h hm = tt

skipped-IsMinted :
    (now : ℕ) (e : Terms) → (not (is_empty e.code) || not (check e now)) ≡ true → IsMinted now e e
skipped-IsMinted now e h = record {
  same_label = refl;
  coded_unchanged = λ c. refl;
  expired_unchanged = λ c. refl;
  live_coded = λ c. ground (arith, h, c);
}

filled-IsMinted :
    (now : ℕ) (e : Terms) (code : Text)
    → (not (is_empty e.code) || not (check e now)) ≡ false
    → is_empty code ≡ false
    → IsMinted now e (record e { code = code })
filled-IsMinted now e code h hc = record {
  same_label = refl;
  coded_unchanged = λ c. absurd (ground (arith, h, c));
  expired_unchanged = λ c. absurd (ground (arith, h, c));
  live_coded = λ c. hc;
}

mint-WhenMinted :
    {X : Type 0} (now : ℕ) (gen : ℕ → Result X Text) (n : ℕ) (es : List Terms)
    → ((k : ℕ) (code : Text) → gen k ≡ ok code → is_empty code ≡ false)
    → WhenMinted now es (mint now gen n es)
unfolding mint
mint-WhenMinted now gen n [] hg = tt
mint-WhenMinted now gen n (e ∷ es) hg =
    on_if (WhenMinted now (e ∷ es)) (not (is_empty e.code) || not (check e now))
      (mint now gen n es >>= λ r. ok (e ∷ r.0, r.1))
      (gen n >>= λ code.
        mint now gen (n + 1) es >>= λ r. ok (record e { code = code } ∷ r.0, e.label ∷ r.1))
      (λ t.
        WhenMinted-cons now e e es (mint now gen n es) (λ ls. ls) (skipped-IsMinted now e t)
          (mint-WhenMinted now gen n es hg))
      (λ f. elim (Result-cases (gen n)) [
        | inl (code, eq) ↦
            subst
              (λ m. WhenMinted now (e ∷ es) (
                m >>= λ c.
                mint now gen (n + 1) es >>= λ r. ok (record e { code = c } ∷ r.0, e.label ∷ r.1)))
              (sym eq)
              (WhenMinted-cons now e (record e { code = code }) es (mint now gen (n + 1) es)
                (λ ls. e.label ∷ ls) (filled-IsMinted now e code f (hg n code eq))
                (mint-WhenMinted now gen (n + 1) es hg))
        | inr (x, eq) ↦
            subst
              (λ m. WhenMinted now (e ∷ es) (
                m >>= λ c.
                mint now gen (n + 1) es >>= λ r. ok (record e { code = c } ∷ r.0, e.label ∷ r.1)))
              (sym eq) tt
      ])

-- Where the generator's answers are not empty and Mint succeeds: a row with a code and an expired row
-- are unchanged, and every live row has a code.
pub mint_lem :
    {X : Type 0} (now : ℕ) (gen : ℕ → Result X Text) (n : ℕ) (es out : List Terms)
    (labels : List Text)
    → ((k : ℕ) (code : Text) → gen k ≡ ok code → is_empty code ≡ false)
    → mint now gen n es ≡ ok (out, labels)
    → Rowwise (IsMinted now) es out
mint_lem now gen n es out labels hg h =
    subst (WhenMinted now es) h (mint-WhenMinted now gen n es hg)
