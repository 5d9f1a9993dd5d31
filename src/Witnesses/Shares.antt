-- ===== src/Witnesses/Shares.antt =====
-- Runs of the theorems about a share.
use bitbang_cli.Share.Runs.{
  share_run, drops, Event, share_step, releases, requests, answers, shuts, builds,
}
use bitbang_cli.PeerSet.{new, len, has, lookup, add_limited, get}
use bitbang_cli.Share.Authority.{authorize-new_codes}
use bitbang_cli.Share.Steps.{share_run-new-IsReserved}
use bitbang_cli.Share.Slots.{
  view_role, control_role, take_control, acquire, new_control_slot, new_role_slots,
}
use bitbang_cli.Share.Viewers.{has_terminal, keyboard_is_one, viewers_within_limit}
use bitbang_cli.Share.Worker.{
  SharePeer, Worker, handle_request, new_worker, handle_answer, build_next, load, save, hold,
  publish, arm_refusal, build_role,
}
use Prim.Native.Nat.{ℕ}
use bitbang_cli.Share.Reserved.{IsReserved}
use bitbang_cli.Share.Keyboard.{Keeps}
use bitbang_cli.Share.{
  WorkerConfig, new_codes, authorize, check_config, distinct_access_code, access_control,
  distinct_from, access_view,
}
use bitbang_cli.Prelude.{
  ℕ, List, total, Text, Result, ◌++◌, codes, false, if◌then◌else◌, ◌==◌, ◌∷◌, ◌≡◌, true, ◌≤◌, ok,
  some, Bool, refl, [], none, ◌≢◌,
}

abbrev cfg : WorkerConfig
cfg = record {
  session_id = codes "$1";
  mgmt_session = codes "m";
  state_dir = codes "d";
  ttl = 0;
  viewers = 1;
  read_only = false;
}

abbrev full_text : Text
full_text = codes "share is full"

-- Two peers ask for the view and one gets it; then two take the keyboard, one after the other.
abbrev admitted_run : List Event
admitted_run =
    requests (codes "a") true
    ∷ (answers (codes "a") (some access_view)
        ∷ (builds
            ∷ (builds
                ∷ (requests (codes "b") true
                    ∷ (answers (codes "b") (some access_view)
                        ∷ (builds
                            ∷ (builds
                                ∷ (requests (codes "c") true
                                    ∷ (answers (codes "c") (some access_control)
                                        ∷ (builds
                                            ∷ (builds
                                                ∷ (requests (codes "d") true
                                                    ∷ (answers (codes "d") (some access_control)
                                                        ∷ (builds ∷ (builds ∷ [])))))))))))))))

abbrev after : Worker
after = share_run admitted_run (new_worker cfg full_text)

abbrev first_holder : SharePeer
first_holder = record {
  client_id = codes "c";
  closed = false;
  access = access_control;
  releases = record { once = 1; role = control_role; owner = 2 } ∷ [];
  installed = some (record { role = control_role; refused = none });
  refusal = false;
}

viewers_test : total (has_terminal view_role) after.store ≡ 1
unfolding share_run share_step handle_request handle_answer build_next load save hold publish
    arm_refusal build_role take_control acquire new_worker new_control_slot new_role_slots new len
    has lookup add_limited get
viewers_test = refl

loaded : load 2 after.store ≡ some first_holder
unfolding share_run share_step handle_request handle_answer build_next load save hold publish
    arm_refusal build_role take_control acquire new_worker new_control_slot new_role_slots new len
    has lookup add_limited get
loaded = refl

viewers_within_limit_example : total (has_terminal view_role) after.store ≤ 1
viewers_within_limit_example = viewers_within_limit cfg full_text admitted_run

keyboard_is_one_example : Keeps 2 after × (cfg.read_only ≡ false)
keyboard_is_one_example = keyboard_is_one cfg full_text admitted_run 2 first_holder loaded refl

share_run-new-IsReserved_example :
    IsReserved 1 [] (
      share_run
        (admitted_run ++ (drops 0 ∷ (releases 0 ∷ (shuts ∷ []))))
        (new_worker cfg full_text))
share_run-new-IsReserved_example =
    share_run-new-IsReserved cfg full_text (admitted_run ++ (drops 0 ∷ (releases 0 ∷ (shuts ∷ []))))

abbrev generate : ℕ → Result Text Text
generate n = if n == 0 then ok (codes "k") else ok (codes "v")

made :
    new_codes cfg (codes "k") generate
    ≡ ok (record { control_code = codes "k"; view_code = codes "v" })
unfolding new_codes check_config distinct_access_code distinct_from
made = refl

authorize-new_codes_example :
    (authorize false (record { control_code = codes "k"; view_code = codes "v" }) (codes "v")
      ≡ (access_view, true))
    × ((false ≡ true → codes "v" ≡ codes "k")
        × (◌≡◌ {A = Bool} false false → (codes "k" ≡ codes "k") × (codes "v" ≢ codes "k")))
authorize-new_codes_example =
    authorize-new_codes cfg (codes "k") (codes "v") generate
      (record { control_code = codes "k"; view_code = codes "v" }) made
