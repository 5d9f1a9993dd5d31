-- ===== src/Share/Steps.antt =====
-- Every step of a share keeps what is reserved and what is held together.
use bitbang_cli.Share.Stages.{on_stage, waits_stage, publish-IsMove, arm_refusal-IsMove}
use bitbang_cli.Share.Runs.{
  share_run, share_step, Event, preempt_at, waits, release_at, requests, answers, releases,
  preempts, drops, builds, shuts,
}
use bitbang_cli.Share.Slots.{
  Release, take_control, acquire, new_role_slots, new_control_slot, has_run,
}
use bitbang_cli.Share.{Access, access_default, access_control, access_view, WorkerConfig}
use bitbang_cli.Share.Reserved.{
  IsReserved, release-IsReserved, move-IsReserved, take_control_refused, granted-IsReserved,
  take_control-IsGranted, acquire_refused, acquire-IsGranted,
}
use bitbang_cli.Share.Owned.{
  owned, staged, same_hands, drop_peer-IsMove, total-without, save-IsMove, total-save,
  handle_request-IsMove, shutdown-IsMove,
}
use bitbang_cli.Share.Worker.{
  build_next, build_role, hold, handle_answer, Worker, Shell, waiting, load, granted, SharePeer,
  publishing, save, new_worker, drop_peer, view_only_share,
}
use bitbang_cli.Prelude.{
  Text, ℕ, Option, on_option, ◌≡◌, refl, arith, Option-cases, some, ◌++◌, inl, ◌∷◌, inr, [], total,
  total-append, on_if, List, none, if◌then◌else◌,
}
use bitbang_cli.PeerSet

module _ (limit : ℕ) (ban : Text) where
  build_role-IsReserved :
      (id : Text) (p : ℕ) (access : Access) (w : Worker)
      → w.stage ≡ waiting
      → IsReserved limit ban w
      → IsReserved limit ban (build_role id p access w)
  unfolding build_role owned staged
  build_role-IsReserved id p access_default w e h =
      move-IsReserved limit ban w _ (drop_peer-IsMove id p w) h
  build_role-IsReserved id p access_control w e h =
      elim (Option-cases ((take_control p w.slots).1.0.0)) [
        | inl refused ↦
            move-IsReserved limit ban w _
              (record {
                slots_same = take_control_refused p w.slots refused;
                owned_same = λ (f : Release → ℕ). ground (arith);
              })
              h
        | inr (r, given) ↦
            granted-IsReserved limit ban p r w _ h (take_control-IsGranted p r w.slots given)
              (λ (f : Release → ℕ). ground (arith))
      ]
  build_role-IsReserved id p access_view w e h = elim (Option-cases ((acquire p w.slots).1.0)) [
    | inl refused ↦
        move-IsReserved limit ban w _
          (record {
            slots_same = acquire_refused p w.slots refused;
            owned_same = λ (f : Release → ℕ). ground (arith);
          })
          h
    | inr (r, given) ↦
        granted-IsReserved limit ban p r w _ h (acquire-IsGranted p r w.slots given)
          (λ (f : Release → ℕ). ground (arith))
  ]

  handle_answer-IsReserved :
      (id : Text) (result : Option Access) (w : Worker)
      → w.stage ≡ waiting
      → IsReserved limit ban w
      → IsReserved limit ban (handle_answer id result w)
  unfolding handle_answer
  handle_answer-IsReserved id result w e h =
      on_option (IsReserved limit ban) (PeerSet.get id w.peers) _ _ (λ n. h)
        (λ p n.
          on_option (IsReserved limit ban) (load p w.store) _ _ (λ n. h)
            (λ x n.
              on_option (IsReserved limit ban) result _ _ (λ c. h)
                (λ access c.
                  let v : Worker = record w {
                    store = save p (record x { access = access }) w.store;
                  } in
                  build_role-IsReserved id p access v e (
                    move-IsReserved limit ban w v
                      (save-IsMove p x (record x { access = access }) w v n refl refl refl refl
                        (λ (f : Release → ℕ). refl))
                      h))))

  hold-IsReserved :
      (p : ℕ) (sh : Shell) (r : Release) (w : Worker)
      → w.stage ≡ granted p sh r
      → IsReserved limit ban w
      → IsReserved limit ban (hold p sh r w)
  unfolding hold owned staged
  hold-IsReserved p sh r w e h =
      on_option (IsReserved limit ban) (load p w.store) _ _ (λ n. h)
        (λ x n.
          on_if (IsReserved limit ban) x.closed _ _
            (λ c. release-IsReserved limit ban r w _ h (λ (f : Release → ℕ). ground (arith)) refl)
            (λ c.
              move-IsReserved limit ban w _ (record { slots_same = refl; owned_same = kept x n })
                h))
    where
      kept :
          (x : SharePeer)
          → load p w.store ≡ some x
          → (f : Release → ℕ)
          → owned f (record w {
            stage = publishing p sh;
            store = save p (record x { releases = x.releases ++ (r ∷ []) }) w.store;
          })
            ≡ owned f w
      kept x n f = ground (
        arith,
        total-save (λ z. total f z.releases) p x (record x { releases = x.releases ++ (r ∷ []) })
            w.store n,
        total-append f x.releases (r ∷ []),
      )

  build_next-IsReserved :
      (w : Worker) → IsReserved limit ban w → IsReserved limit ban (build_next w)
  unfolding build_next
  build_next-IsReserved w h =
      on_stage (IsReserved limit ban) w w.stage refl (λ e. h)
        (λ p sh r e. hold-IsReserved p sh r w e h)
        (λ p sh e. move-IsReserved limit ban w _ (publish-IsMove p sh w e) h)
        (λ p e. move-IsReserved limit ban w _ (arm_refusal-IsMove p w e) h)

  release_at-IsReserved :
      (k : ℕ) (w : Worker) → IsReserved limit ban w → IsReserved limit ban (release_at k w)
  unfolding release_at owned
  release_at-IsReserved k w h =
      on_option (IsReserved limit ban) (load k w.running) _ _ (λ n. h)
        (λ r n.
          release-IsReserved limit ban r w _ h
            (λ (f : Release → ℕ). omega (arith, total-without f k r w.running n)) refl)

  preempt_at-IsReserved :
      (k : ℕ) (w : Worker) → IsReserved limit ban w → IsReserved limit ban (preempt_at k w)
  unfolding preempt_at
  preempt_at-IsReserved k w h =
      on_option (IsReserved limit ban) (load k w.preempting) _ _ (λ n. h)
        (λ p n.
          let v : Worker = elim (load p w.store) [
            | none ↦ w
            | some x ↦ drop_peer x.client_id p w
          ] in
          let hv : (IsReserved limit ban) v =
            on_option (IsReserved limit ban) (load p w.store) _ _ (λ n. h)
              (λ x n. move-IsReserved limit ban w _ (drop_peer-IsMove x.client_id p w) h) in
          move-IsReserved limit ban v _ (same_hands v _ refl refl refl refl) hv)

  pub share_step-IsReserved :
      (e : Event) (w : Worker) → IsReserved limit ban w → IsReserved limit ban (share_step e w)
  unfolding share_step
  share_step-IsReserved (requests id built) w h =
      on_if (IsReserved limit ban) (waits w) _ _
        (λ c. move-IsReserved limit ban w _ (handle_request-IsMove id built w) h) (λ c. h)
  share_step-IsReserved (answers id result) w h =
      on_if (IsReserved limit ban) (waits w) _ _
        (λ c. handle_answer-IsReserved id result w (waits_stage w c) h) (λ c. h)
  share_step-IsReserved builds w h = build_next-IsReserved w h
  share_step-IsReserved shuts w h = move-IsReserved limit ban w _ (shutdown-IsMove w) h
  share_step-IsReserved (releases k) w h = release_at-IsReserved k w h
  share_step-IsReserved (preempts k) w h = preempt_at-IsReserved k w h
  share_step-IsReserved (drops p) w h =
      on_option (IsReserved limit ban) (load p w.store) _ _ (λ n. h)
        (λ x n. move-IsReserved limit ban w _ (drop_peer-IsMove x.client_id p w) h)

  pub share_run-IsReserved :
      (es : List Event) (w : Worker)
      → IsReserved limit ban w
      → IsReserved limit ban (share_run es w)
  unfolding share_run
  share_run-IsReserved [] w h = h
  share_run-IsReserved (e ∷ es) w h =
      share_run-IsReserved es (share_step e w) (share_step-IsReserved e w h)

-- However requests, answers, drops, releases, preemptions and the shutdown of a share interleave, every
-- slot that is counted is in the hands of one peer, of buildSession or of a teardown that has still to
-- give it back, its release function has not run, there are at most as many as viewers are allowed, the
-- holder of the keyboard has its release, and on a read-only share nobody has one.
pub share_run-new-IsReserved :
    (cfg : WorkerConfig) (busy : Text) (es : List Event)
    → IsReserved cfg.viewers
        (if cfg.read_only then view_only_share else [])
        (share_run es (new_worker cfg busy))
unfolding new_worker new_role_slots new_control_slot owned staged has_run
share_run-new-IsReserved cfg busy es =
    share_run-IsReserved cfg.viewers (if cfg.read_only then view_only_share else []) es
      (new_worker cfg busy)
      (record {
        cells = λ k. refl;
        counted = refl;
        capped = omega (arith);
        limited = refl;
        banned = refl;
        barred = λ b. refl;
        held = λ p e. absurd (cc);
      })
