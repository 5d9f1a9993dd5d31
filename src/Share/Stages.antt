-- ===== src/Share/Stages.antt =====
-- The sections of buildSession that move releases only, and a match on the stage.
use bitbang_cli.Share.Runs.{waits}
use bitbang_cli.Share.Slots.{Release}
use bitbang_cli.Share.Owned.{owned, staged, IsMove, same_hands, save-IsMove}
use bitbang_cli.Share.Worker.{
  hold, Worker, Stage, Shell, waiting, load, granted, publishing, publish, arm_refusal, arming,
}
use bitbang_cli.Prelude.{ℕ, on_option, ◌≡◌, refl, arith, some, on_if, true}

pub publish-IsMove :
    (p : ℕ) (sh : Shell) (w : Worker) → w.stage ≡ publishing p sh → IsMove w (publish p sh w)
unfolding publish staged owned
publish-IsMove p sh w e =
    on_option (IsMove w) (load p w.store) _ _ (λ n. same_move)
      (λ x n.
        on_if (IsMove w) x.closed _ _
          (λ c. record { slots_same = refl; owned_same = λ (f : Release → ℕ). unstaged f })
          (λ c.
            save-IsMove p x (record x { installed = some sh }) w _ n refl refl refl refl
              (λ (f : Release → ℕ). ground (arith))))
  where
    same_move : IsMove w w
    same_move = same_hands w w refl refl refl refl

    unstaged : (f : Release → ℕ) → owned f (record w { stage = waiting }) ≡ owned f w
    unstaged f = ground (arith)

pub arm_refusal-IsMove : (p : ℕ) (w : Worker) → w.stage ≡ arming p → IsMove w (arm_refusal p w)
unfolding arm_refusal staged owned
arm_refusal-IsMove p w e =
    on_option (IsMove w) (load p w.store) _ _ (λ n. same_hands w w refl refl refl refl)
      (λ x n.
        on_if (λ s. IsMove w (record w { stage = waiting; store = s })) x.closed _ _
          (λ c. record { slots_same = refl; owned_same = λ (f : Release → ℕ). ground (arith) })
          (λ c.
            save-IsMove p x (record x { refusal = true }) w _ n refl refl refl refl
              (λ (f : Release → ℕ). ground (arith))))

-- A match on the stage, from what holds at each.
pub on_stage {ℓ} :
    (P : Worker → Type ℓ) (w : Worker) (s : Stage)
    → w.stage ≡ s
    → (w.stage ≡ waiting → P w)
    → ((p : ℕ) (sh : Shell) (r : Release) → w.stage ≡ granted p sh r → P (hold p sh r w))
    → ((p : ℕ) (sh : Shell) → w.stage ≡ publishing p sh → P (publish p sh w))
    → ((p : ℕ) → w.stage ≡ arming p → P (arm_refusal p w))
    → P (elim s [
      | waiting ↦ w
      | granted p sh r ↦ hold p sh r w
      | publishing p sh ↦ publish p sh w
      | arming p ↦ arm_refusal p w
    ])
on_stage P w waiting e a b c d = a e
on_stage P w (granted p sh r) e a b c d = b p sh r e
on_stage P w (publishing p sh) e a b c d = c p sh e
on_stage P w (arming p) e a b c d = d p e

pub waits_stage : (w : Worker) → waits w ≡ true → w.stage ≡ waiting
waits_stage w h = ground (arith)
