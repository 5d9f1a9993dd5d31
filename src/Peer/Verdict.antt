-- ===== src/Peer/Verdict.antt =====
-- The end of a pairing: one verdict over signaling, and one close.
use bitbang_cli.Pairing.Messages.{parse_pair_commit, parse_pair_reveal}
use bitbang_cli.Pairing.Commit.{verify_commitment, compute_sas}
use bitbang_cli.Sdp.{extract_fingerprint}
use bitbang_cli.Wire.{Bytes}
use bitbang_cli.Pairing.Prompt.{Rejection, prompt_for_sas, user_declined, timeout, sas_mismatch}
use bitbang_cli.Prelude.{
  ℕ, List, on_option, Text, total, Option, ◌≡◌, on_result, ◌⊎◌, refl, false, codes, on_if, inl,
  is_empty, inr, ◌||◌, ◌∷◌, arith,
}
use Prim.Native.Nat.{ℕ}
use bitbang_cli.Peer.Pair.{
  reject, confirm, deliver_credentials, handle_pair_request_on_open, check_reveal, check_commit,
  Action, rejected, send_challenge, Setting, challenge, asked, granted_code, recv_typed,
  credentials, closes, approved,
}

abbrev pub close_count : Action → ℕ
close_count closes = 1
close_count approved = 0
close_count (rejected reason) = 0
close_count (challenge rd) = 0
close_count (asked n) = 0
close_count (credentials uid public_key code) = 0

abbrev pub verdict_count : Action → ℕ
verdict_count closes = 0
verdict_count approved = 1
verdict_count (rejected reason) = 1
verdict_count (challenge rd) = 0
verdict_count (asked n) = 0
verdict_count (credentials uid public_key code) = 0

abbrev pub Ends : ℕ → List Action → Type 0
Ends verdicts acts = (total close_count acts ≡ 1) × (total verdict_count acts ≡ verdicts)

-- An action that neither closes nor decides, in front.
cons-Ends :
    (n : ℕ) (a : Action) (acts : List Action)
    → close_count a ≡ 0
    → verdict_count a ≡ 0
    → Ends n acts
    → Ends n (a ∷ acts)
cons-Ends n a acts h k ends = (omega (arith, ends.0), omega (arith, ends.1))

reject-Ends : (reason : Rejection) → Ends 1 (reject reason)
unfolding reject
reject-Ends reason = (refl, refl)

deliver-Ends : (set : Setting) → Ends 1 (deliver_credentials set)
unfolding deliver_credentials
deliver-Ends set =
    on_option (Ends 1) (granted_code set) _ _ (λ declined. reject-Ends user_declined)
      (λ code granted.
        on_if (Ends 1) set.takes_credentials _ _ (λ taken. (refl, refl)) (λ lost. (refl, refl)))

confirm-Ends : (set : Setting) (sas : Text) → Ends 1 (confirm set sas)
unfolding confirm
confirm-Ends set sas =
    let answer = prompt_for_sas sas set.prompt in
    cons-Ends 1 (asked answer.1) _ refl refl (
      on_result (Ends 1) answer.0 _ _ (λ done answered. deliver-Ends set)
        (λ reason failed. reject-Ends reason))

check_reveal-Ends :
    (set : Setting) (local_fp remote_fp commit : Text) (rd : Bytes) (inbox : List (Option Bytes))
    → Ends 1 (check_reveal set local_fp remote_fp commit rd inbox)
unfolding check_reveal
check_reveal-Ends set local_fp remote_fp commit rd inbox =
    on_option (Ends 1) (recv_typed set (codes "pair_reveal") inbox).0 _ _
      (λ late. reject-Ends timeout)
      (λ frame arrived.
        on_option (Ends 1) (parse_pair_reveal set.codec frame) _ _ (λ bad. reject-Ends sas_mismatch)
          (λ rc parsed.
            on_if (Ends 1) (verify_commitment set.codec commit rc) _ _
              (λ opens. confirm-Ends set (compute_sas set.codec rc rd local_fp remote_fp))
              (λ differs. reject-Ends sas_mismatch)))

check_commit-Ends :
    (set : Setting) (local_fp remote_fp : Text) (inbox : List (Option Bytes))
    → Ends 1 (check_commit set local_fp remote_fp inbox)
      ⊎ ((set.takes_challenge ≡ false) × Ends 0 (check_commit set local_fp remote_fp inbox))
unfolding check_commit send_challenge
check_commit-Ends set local_fp remote_fp inbox =
    let next = recv_typed set (codes "pair_commit") inbox in
    let Q : List Action → Type 0 =
      λ acts. Ends 1 acts ⊎ ((set.takes_challenge ≡ false) × Ends 0 acts) in
    on_option Q next.0 _ _ (λ late. inl (reject-Ends timeout))
      (λ frame arrived.
        on_option Q (parse_pair_commit set.codec frame) _ _ (λ bad. inl (reject-Ends user_declined))
          (λ commit parsed.
            on_option Q set.new_nonce _ _ (λ lost. inl (reject-Ends user_declined))
              (λ rd fresh.
                on_if Q set.takes_challenge _ _
                  (λ taken. inl (
                    cons-Ends 1 (challenge rd) _ refl refl
                      (check_reveal-Ends set local_fp remote_fp commit rd next.1)))
                  (λ refused. inr (refused, (refl, refl))))))

-- Whatever frames arrive, a pairing closes its connection once, and it sends one verdict over signaling,
-- an approval or a rejection; where the channel does not take the challenge it may send none.
pub handle_pair_request-Ends :
    (set : Setting) (inbox : List (Option Bytes))
    → Ends 1 (handle_pair_request_on_open set inbox)
      ⊎ ((set.takes_challenge ≡ false) × Ends 0 (handle_pair_request_on_open set inbox))
unfolding handle_pair_request_on_open
handle_pair_request-Ends set inbox =
    let local_fp = extract_fingerprint set.local_description in
    let remote_fp = extract_fingerprint set.remote_description in
    on_if (λ acts. Ends 1 acts ⊎ ((set.takes_challenge ≡ false) × Ends 0 acts))
      (is_empty local_fp || is_empty remote_fp) _ _ (λ missing. inl (reject-Ends user_declined))
      (λ present. check_commit-Ends set local_fp remote_fp inbox)
