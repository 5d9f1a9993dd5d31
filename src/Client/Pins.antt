-- ===== src/Client/Pins.antt =====
-- How many PINs a handshake gives away.
use bitbang_cli.Wire.{parse_frame}
use bitbang_cli.Prelude.{
  Text, ℕ, List, total, Option, ◌-◌, ◌≤◌, err, ◌+◌, ok, on_option, if◌then◌else◌, arith, ◌∷◌,
  text_eq, on_if, codes, Result-cases, inr, leb, inl, [],
}
use bitbang_cli.Client.Handshake.{
  Setting, Received, on_control, Message, control_loop, send_pin, message, on_auth_required,
  Progress, stop, auth, on_message, after, on_wrong_pin, connect, Control, ended, handshake,
  check_verify,
}

abbrev pub pin_count : Message → ℕ
pin_count connect = 0
pin_count (auth pin) = 1

-- A control frame that asks for a PIN.
unfoldable pub requires_pin : Setting → Received → ℕ
requires_pin set ended = 0
requires_pin set (message input) = elim (parse_frame input) [
  | err e ↦ 0
  | ok frame ↦ if text_eq (set.control frame.payload).kind (codes "auth_required") then 1 else 0
]

abbrev pub SendsAtMost : ℕ → Progress → Type 0
SendsAtMost n p = total pin_count p.sent ≤ n

send_pin-SendsAtMost :
    (set : Setting) (ask : ℕ → Option Text) (retry n : ℕ) (next : Progress)
    → SendsAtMost n next
    → SendsAtMost (1 + n) (send_pin set ask retry next)
unfolding send_pin stop after
send_pin-SendsAtMost set ask retry n next h =
    let P = SendsAtMost (1 + n) in
    on_option P (ask retry) _ _ (λ e. omega arith)
      (λ pin given.
        on_if P (set.takes_message (retry + 1)) _ _ (λ t. omega (arith, h)) (λ f. omega arith))

on_control-SendsAtMost :
    (set : Setting) (ctl : Control) (retry left : ℕ) (again asked : Progress)
    → SendsAtMost ((3 - retry) + left) again
    → SendsAtMost ((3 - (retry + 1)) + left) asked
    → SendsAtMost
        ((3 - retry) + ((if text_eq ctl.kind (codes "auth_required") then 1 else 0) + left))
        (on_control set ctl retry again asked)
unfolding on_control on_auth_required on_wrong_pin stop
on_control-SendsAtMost set ctl retry left again asked h k =
    let extra = if text_eq ctl.kind (codes "auth_required") then 1 else 0 in
    let P = SendsAtMost ((3 - retry) + (extra + left)) in
    on_if P (text_eq ctl.kind (codes "ready")) _ _ (λ ready. omega arith)
      (λ r.
        on_if P (text_eq ctl.kind (codes "auth_required")) _ _
          (λ required.
            on_option P set.prompt _ _ (λ n. omega arith)
              (λ ask s.
                at_most_one_more
                  (send_pin-SendsAtMost set ask retry ((3 - (retry + 1)) + left) asked k)
                  (ground (arith, required))))
          (λ q.
            on_if P (text_eq ctl.kind (codes "auth_result")) _ _
              (λ result.
                on_if P ctl.success _ _ (λ s. omega (arith, h))
                  (λ w.
                    on_if P (leb 3 retry) _ _ (λ many. omega arith)
                      (λ few.
                        on_option P set.prompt _ _ (λ n. omega arith)
                          (λ ask s.
                            at_most_one_more
                              (send_pin-SendsAtMost set ask retry ((3 - (retry + 1)) + left) asked
                                k)
                              (ground (arith, few))))))
              (λ a.
                on_if P (text_eq ctl.kind (codes "error")) _ _ (λ e. omega arith)
                  (λ other. omega (arith, h)))))
  where
    at_most_one_more : {sent m n : ℕ} → sent ≤ m → m ≤ n → sent ≤ n
    at_most_one_more a b = omega (arith, a, b)

control_loop-SendsAtMost :
    (set : Setting) (retry : ℕ) (rs : List Received)
    → SendsAtMost ((3 - retry) + total (requires_pin set) rs) (control_loop set retry rs)
unfolding control_loop on_message stop requires_pin
control_loop-SendsAtMost set retry [] = omega arith
control_loop-SendsAtMost set retry (ended ∷ rs) = omega arith
control_loop-SendsAtMost set retry (message input ∷ rs) = elim (Result-cases (parse_frame input)) [
  | inr (e, bad) ↦ ground (arith, bad)
  | inl (frame, good) ↦
      let again = control_loop-SendsAtMost set retry rs in
      let control =
        on_control-SendsAtMost set (set.control frame.payload) retry (total (requires_pin set) rs)
          (control_loop set retry rs) (control_loop set (retry + 1) rs) again
          (control_loop-SendsAtMost set (retry + 1) rs) in
      ground (arith, good, again, control)
]

-- A handshake sends at most three PINs more than the listener asks for with `auth_required`: the loop
-- caps the answers to a wrong PIN, and the listener's own questions are not counted.
pub handshake-SendsAtMost :
    (set : Setting) (rs : List Received)
    → SendsAtMost (3 + total (requires_pin set) rs) (handshake set rs)
unfolding handshake stop after
handshake-SendsAtMost set [] = omega arith
handshake-SendsAtMost set (ended ∷ rs) = omega arith
handshake-SendsAtMost set (message input ∷ rs) = elim (Result-cases (check_verify set input)) [
  | inr (e, bad) ↦ ground (arith, bad)
  | inl (proved, good) ↦ ground (arith, good, control_loop-SendsAtMost set 0 rs)
]
