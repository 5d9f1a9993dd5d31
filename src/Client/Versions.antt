-- ===== src/Client/Versions.antt =====
-- The version that a handshake ends with.
use bitbang_cli.Wire.{negotiate_swsp_version, swsp_version, parse_frame, is_syn}
use bitbang_cli.Prelude.{
  Text, ℕ, on_result, List, Option, ◌≤◌, ◌≡◌, ok, on_if, on_option, ◌+◌, ◌∷◌, text_eq, arith, codes,
  leb, [], not, ◌==◌,
}
use bitbang_cli.Client.Handshake.{
  Setting, on_control, send_pin, control_loop, Outcome, handshake, set_negotiated_version, on_ready,
  on_message, stop, fails, on_auth_required, Control, established, on_wrong_pin, after, Progress,
  Received, waits, message, panics, check_verify, ended,
}

-- The version is one that this side speaks, and no later than the listener's.
abbrev pub Negotiated : Outcome → Type 0
Negotiated waits = Unit
Negotiated panics = Unit
Negotiated (fails e) = Unit
Negotiated (established server negotiated ctl) =
    (2 ≤ negotiated) × (negotiated ≤ swsp_version) × (negotiated ≤ server)

set_negotiated_version_lem :
    (server negotiated : ℕ) (v : ℕ × ℕ)
    → set_negotiated_version server negotiated ≡ ok v
    → (2 ≤ v.1) × (v.1 ≤ swsp_version) × (v.1 ≤ v.0)
unfolding set_negotiated_version negotiate_swsp_version
set_negotiated_version_lem server negotiated v h = grind arith

on_ready-Negotiated : (ctl : Control) → Negotiated (on_ready ctl)
unfolding on_ready
on_ready-Negotiated ctl =
    on_result Negotiated (set_negotiated_version ctl.server_version ctl.negotiated_version) _ _
      (λ v good. set_negotiated_version_lem ctl.server_version ctl.negotiated_version v good)
      (λ e bad. tt)

-- One message of the loop ends no worse than the rest of the loop.
send_pin-Negotiated :
    (set : Setting) (ask : ℕ → Option Text) (retry : ℕ) (next : Progress)
    → Negotiated next.outcome
    → Negotiated (send_pin set ask retry next).outcome
unfolding send_pin stop after
send_pin-Negotiated set ask retry next h =
    let P : Progress → Type 0 = λ p. Negotiated p.outcome in
    on_option P (ask retry) _ _ (λ e. tt)
      (λ pin given. on_if P (set.takes_message (retry + 1)) _ _ (λ t. h) (λ f. tt))

on_control-Negotiated :
    (set : Setting) (ctl : Control) (retry : ℕ) (again asked : Progress)
    → Negotiated again.outcome
    → Negotiated asked.outcome
    → Negotiated (on_control set ctl retry again asked).outcome
unfolding on_control on_auth_required on_wrong_pin stop
on_control-Negotiated set ctl retry again asked h k =
    let P : Progress → Type 0 = λ p. Negotiated p.outcome in
    on_if P (text_eq ctl.kind (codes "ready")) _ _ (λ ready. on_ready-Negotiated ctl)
      (λ r.
        on_if P (text_eq ctl.kind (codes "auth_required")) _ _
          (λ required.
            on_option P set.prompt _ _ (λ n. tt)
              (λ ask s. send_pin-Negotiated set ask retry asked k))
          (λ q.
            on_if P (text_eq ctl.kind (codes "auth_result")) _ _
              (λ result.
                on_if P ctl.success _ _ (λ s. h)
                  (λ w.
                    on_if P (leb 3 retry) _ _ (λ many. tt)
                      (λ few.
                        on_option P set.prompt _ _ (λ n. tt)
                          (λ ask s. send_pin-Negotiated set ask retry asked k))))
              (λ a. on_if P (text_eq ctl.kind (codes "error")) _ _ (λ e. tt) (λ other. h))))

control_loop-Negotiated :
    (set : Setting) (retry : ℕ) (rs : List Received)
    → Negotiated (control_loop set retry rs).outcome
unfolding control_loop on_message stop
control_loop-Negotiated set retry [] = tt
control_loop-Negotiated set retry (ended ∷ rs) = tt
control_loop-Negotiated set retry (message input ∷ rs) =
    let P : Progress → Type 0 = λ p. Negotiated p.outcome in
    let again = control_loop-Negotiated set retry rs in
    on_result P (parse_frame input) _ _
      (λ frame good.
        on_if P (not (frame.stream_id == 0)) _ _ (λ stray. tt)
          (λ zero.
            on_if P (not (is_syn frame)) _ _ (λ skipped. again)
              (λ syn.
                on_control-Negotiated set (set.control frame.payload) retry
                  (control_loop set retry rs) (control_loop set (retry + 1) rs) again
                  (control_loop-Negotiated set (retry + 1) rs))))
      (λ e bad. tt)

-- A handshake that succeeds ends with a version from 2 to 4 that the listener has, whatever numbers the
-- listener announces.
pub handshake-Negotiated :
    (set : Setting) (rs : List Received) → Negotiated (handshake set rs).outcome
unfolding handshake stop after
handshake-Negotiated set [] = tt
handshake-Negotiated set (ended ∷ rs) = tt
handshake-Negotiated set (message input ∷ rs) =
    let P : Progress → Type 0 = λ p. Negotiated p.outcome in
    on_result P (check_verify set input) _ _
      (λ proved good.
        on_if P (set.takes_message 0) _ _ (λ t. control_loop-Negotiated set 0 rs) (λ f. tt))
      (λ e bad. tt)
