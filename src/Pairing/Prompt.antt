-- ===== src/Pairing/Prompt.antt =====
-- internal/pairing/listener.go: the operator types what the other side reads aloud. Texts are ASCII, and
-- the announcements that are printed are left out.
use bitbang_cli.Allowlist.{trim, is_space}
use Prim.Native.Nat.{ℕ, suc}
use bitbang_cli.Prelude.{
  Text, ℕ, Result, ◌+◌, suc, ◌≡◌, err, if◌then◌else◌, text_eq, ok, false, zero, ◌⊎◌, ◌<◌, inl,
  Bool-cases, inr, arith, refl, text_eq→eq, subst, ◌↔◌, text_eq_iff, true, ◌≤◌,
}

abbrev pub max_sas_attempts : ℕ
max_sas_attempts = 3

pub data PromptStatus : Type 0 where
  prompt_ok prompt_abort prompt_timeout : PromptStatus

pub data Rejection : Type 0 where
  sas_mismatch user_declined timeout : Rejection

-- What a prompt answers to the n-th attempt.
abbrev pub Prompt : Type 0
Prompt = ℕ → Text × PromptStatus

-- The loop from the attempt given, with that many left; its second part counts the prompts.
unfoldable pub prompt_from : Text → Prompt → ℕ → ℕ → Result Rejection (Unit {0}) × ℕ
unfolding trim
prompt_from expected prompt attempt zero = (err sas_mismatch, 0)
prompt_from expected prompt attempt (suc left) =
    let rest = prompt_from expected prompt (attempt + 1) left in
    let typed = (prompt attempt).0 in
    elim (prompt attempt).1 [
      | prompt_abort ↦ (err user_declined, 1)
      | prompt_timeout ↦ (err timeout, 1)
      | prompt_ok ↦
          if text_eq (trim is_space typed) expected then (ok tt, 1) else (rest.0, rest.1 + 1)
    ]

unfoldable pub prompt_for_sas : Text → Prompt → Result Rejection (Unit {0}) × ℕ
unfolding prompt_from
prompt_for_sas expected prompt = prompt_from expected prompt 1 max_sas_attempts

-- The attempts from the first to the one before the n-th are answered, and wrong.
abbrev pub WrongUntil : Text → Prompt → ℕ → ℕ → Type 0
WrongUntil expected prompt attempt zero = Unit
WrongUntil expected prompt attempt (suc n) =
    ((prompt attempt).1 ≡ prompt_ok)
    × (text_eq (trim is_space (prompt attempt).0) expected ≡ false)
    × WrongUntil expected prompt (attempt + 1) n

-- The n-th attempt from the first one is the code, and the attempts before it are answered and wrong.
abbrev pub TypedAt : Text → Prompt → ℕ → ℕ → Type 0
TypedAt expected prompt attempt n =
    WrongUntil expected prompt attempt n
    × ((prompt (attempt + n)).1 ≡ prompt_ok)
    × (trim is_space (prompt (attempt + n)).0 ≡ expected)

Status-cases : (s : PromptStatus) → (s ≡ prompt_ok) ⊎ ((s ≡ prompt_abort) ⊎ (s ≡ prompt_timeout))
Status-cases prompt_ok = inl refl
Status-cases prompt_abort = inr (inl refl)
Status-cases prompt_timeout = inr (inr refl)

prompt_from→typed :
    (expected : Text) (prompt : Prompt) (attempt left : ℕ)
    → (prompt_from expected prompt attempt left).0 ≡ ok tt
    → (n : ℕ) × (n < left) × TypedAt expected prompt attempt n
unfolding prompt_from
prompt_from→typed expected prompt attempt zero h = absurd cc
prompt_from→typed expected prompt attempt (suc left) h = elim (Status-cases (prompt attempt).1) [
  | inl answered ↦ elim (Bool-cases (text_eq (trim is_space (prompt attempt).0) expected)) [
    | inl same ↦ (0, omega arith, (tt, answered_here answered, typed_here same))
    | inr wrong ↦
        let later =
          prompt_from→typed expected prompt (attempt + 1) left
            (ground (arith, answered, wrong, h)) in
        let (n, below, (wrongs, answered_n, typed_n)) = later in
        (
          suc n,
          omega (arith, below),
          (
            (answered, wrong, wrongs),
            subst (λ n. (prompt n).1 ≡ prompt_ok) (omega arith) answered_n,
            subst (λ n. trim is_space (prompt n).0 ≡ expected) (omega arith) typed_n,
          ),
        )
  ]
  | inr (inl aborted) ↦ absurd (ground (arith, aborted, h))
  | inr (inr late) ↦ absurd (ground (arith, late, h))
]
  where
    answered_here : (prompt attempt).1 ≡ prompt_ok → (prompt (attempt + 0)).1 ≡ prompt_ok
    answered_here a = subst (λ n. (prompt n).1 ≡ prompt_ok) (omega arith) a

    typed_here :
        text_eq (trim is_space (prompt attempt).0) expected ≡ true
        → trim is_space (prompt (attempt + 0)).0 ≡ expected
    typed_here same =
        subst (λ n. trim is_space (prompt n).0 ≡ expected) (omega arith)
          (text_eq→eq (trim is_space (prompt attempt).0) expected same)

typed→prompt_from :
    (expected : Text) (prompt : Prompt) (attempt left n : ℕ)
    → n < left
    → TypedAt expected prompt attempt n
    → (prompt_from expected prompt attempt left).0 ≡ ok tt
unfolding prompt_from
typed→prompt_from expected prompt attempt zero n h t = absurd (omega arith)
typed→prompt_from expected prompt attempt (suc left) zero h (wrongs, answered, typed) =
    let same =
      (text_eq_iff (trim is_space (prompt attempt).0) expected).1
        (subst (λ n. trim is_space (prompt n).0 ≡ expected) (omega arith) typed) in
    let here : (prompt attempt).1 ≡ prompt_ok =
      subst (λ n. (prompt n).1 ≡ prompt_ok) (omega arith) answered in
    ground (arith, here, same)
typed→prompt_from expected prompt attempt (suc left) (suc n) h
      ((answered, wrong, wrongs), last, typed) =
    let rest = typed→prompt_from expected prompt (attempt + 1) left n (omega arith) (
      wrongs,
      subst (λ n. (prompt n).1 ≡ prompt_ok) (omega arith) last,
      subst (λ n. trim is_space (prompt n).0 ≡ expected) (omega arith) typed,
    ) in
    ground (arith, answered, wrong, rest)

prompt_from_count :
    (expected : Text) (prompt : Prompt) (attempt left : ℕ)
    → (prompt_from expected prompt attempt left).1 ≤ left
unfolding prompt_from
prompt_from_count expected prompt attempt zero = omega arith
prompt_from_count expected prompt attempt (suc left) =
    ground (arith, prompt_from_count expected prompt (attempt + 1) left)

-- A pairing is confirmed exactly when one of at most three attempts is the code, the blanks around it
-- aside, and the attempts before it were answered; the operator is never asked more than three times.
pub prompt_for_sas_lem :
    (expected : Text) (prompt : Prompt)
    → (((prompt_for_sas expected prompt).0 ≡ ok tt)
        ↔ ((n : ℕ) × (n < max_sas_attempts) × TypedAt expected prompt 1 n))
      × ((prompt_for_sas expected prompt).1 ≤ 3)
unfolding prompt_for_sas
prompt_for_sas_lem expected prompt = (
  (prompt_from→typed expected prompt 1 3, λ t. typed→prompt_from expected prompt 1 3 t.0 t.1 t.2),
  prompt_from_count expected prompt 1 3,
)
