-- ===== src/Share/Authority.antt =====
-- What a code is worth at a share: the codes of NewWorker under Worker.authorize.
use bitbang_cli.Prelude.{
  ℕ, Text, Result, ◌≡◌, ok, ◌≢◌, if◌then◌else◌, ◌<◌, not, suc, ◌&&◌, text_eq, zero, true, false,
  Result-cases, Bool-cases, inl, arith, inr, text_eq_iff, ◌∙◌, ap, sym,
}
use bitbang_cli.Share.{
  distinct_from, new_codes, ℕ, authorize, distinct_access_code, WorkerConfig, Codes, access_control,
  access_view, access_default, check_config,
}

-- The code that is found is one of the first eight and not the excluded one.
distinct_from_lem :
    (left : ℕ) (exclude code : Text) (generate : ℕ → Result Text Text)
    → distinct_from left exclude generate ≡ ok code
    → (code ≢ exclude) × ((n : ℕ) × (n < left) × (generate n ≡ ok code))
unfolding distinct_from
distinct_from_lem zero exclude code generate h = absurd (cc)
distinct_from_lem (suc left) exclude code generate h = elim (Result-cases (generate 0)) [
  | inl (first, drawn) ↦ elim (Bool-cases (text_eq first exclude)) [
    | inl same ↦
        let rest = distinct_from_lem left exclude code (λ n. generate (suc n)) (ground (arith)) in
        let place : (n : ℕ) × (n < suc left) × (generate n ≡ ok code) =
          (suc rest.1.0, omega (arith, rest.1.1), rest.1.2) in
        (rest.0, place)
    | inr other ↦
        let found : first ≡ code = ground (arith) in
        let place : (n : ℕ) × (n < suc left) × (generate n ≡ ok code) =
          (0, omega (arith), drawn ∙ ap ok found) in
        (λ e. absurd (ground (arith, text_eq_iff first exclude)), place)
  ]
  | inr (e, failed) ↦ absurd (ground (arith))
]

check_config_ok : (cfg c : WorkerConfig) → check_config cfg ≡ ok c → c ≡ cfg
unfolding check_config
check_config_ok cfg c h = ground (arith)

new_codes_ok :
    (cfg : WorkerConfig) (identity_code : Text) (generate : ℕ → Result Text Text) (cs : Codes)
    → new_codes cfg identity_code generate ≡ ok cs
    → (cfg.read_only ≡ true → cs.view_code ≡ identity_code)
      × (cfg.read_only ≡ false → (cs.control_code ≡ identity_code) × (cs.view_code ≢ identity_code))
unfolding new_codes distinct_access_code
new_codes_ok cfg identity_code generate cs h = elim (Result-cases (check_config cfg)) [
  | inr (e, refused) ↦ absurd (ground (arith))
  | inl (c, checked) ↦
      let same : c ≡ cfg = check_config_ok cfg c checked in
      let same_mode = ap (λ (x : WorkerConfig). x.read_only) same in
      (
        λ reads. ground (arith, same_mode),
        λ writes. elim (Result-cases (distinct_from 8 identity_code generate)) [
          | inr (e, failed) ↦ absurd (ground (arith, same_mode))
          | inl (view, found) ↦
              let distinct = distinct_from_lem 8 identity_code view generate found in
              let view_is : cs.view_code ≡ view = ground (arith, same_mode) in
              let control_is : cs.control_code ≡ identity_code = ground (arith, same_mode) in
              (control_is, λ e. distinct.0 (sym view_is ∙ e))
        ],
      )
]

-- The access codes of a new share let their holders in and nobody else: with the control code one
-- controls the share, with the view code, which is another, one watches it, and a read-only share has
-- no control code: no text at all gets control there.
pub authorize-new_codes :
    (cfg : WorkerConfig) (identity_code code : Text) (generate : ℕ → Result Text Text) (cs : Codes)
    → new_codes cfg identity_code generate ≡ ok cs
    → authorize cfg.read_only cs code ≡ (
        if not cfg.read_only && text_eq code identity_code
        then (access_control, true)
        else if text_eq code cs.view_code
        then (access_view, true)
        else (access_default, false))
      × ((cfg.read_only ≡ true → cs.view_code ≡ identity_code)
          × (cfg.read_only ≡ false
              → (cs.control_code ≡ identity_code) × (cs.view_code ≢ identity_code)))
unfolding authorize
authorize-new_codes cfg identity_code code generate cs h =
    let facts = new_codes_ok cfg identity_code generate cs h in (ground (arith, facts), facts)
