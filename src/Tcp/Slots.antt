-- ===== src/Tcp/Slots.antt =====
-- The slots of a session's TCP streams.
use bitbang_cli.Tcp.Workers.{
  remove_counts, length-end_worker, end_worker-All, lookup-remove, find_worker-end_worker,
  find_worker-none,
}
use bitbang_cli.Prelude.{
  Text, Bool, List, ℕ, ◌≡◌, true, length, ◌<◌, ◌≤◌, ltb, ◌&&◌, All, leb, some, none, false, ◌∷◌,
  arith, Bool-cases, [], on_if, ◌==◌, refl, inl, inr, subst, sym, ◌∙◌, ap, on_option, Option, not,
}
use bitbang_cli.Allowlist.{Entry, ℤ, permits}
use bitbang_cli.IdMap.{lookup, insert, lookup-insert}
use bitbang_cli.Tcp.{
  Worker, TcpHandler, start_stream, find_worker, remove, end_worker, new_tcp, tcp_run, tcp_step,
  on_syn, TcpEvent, finish, ends, syn, Refusal, validate_target,
}

-- The slots in use are counted and within the limit, no goroutine serves a target that is not allowed,
-- an id that is taken is its goroutine's, and no goroutine has an address that is still to come.
pub record IsTcp (valid : Text → ℤ → Bool) (allow : List Entry) (h : TcpHandler) : Type 0 where
  pub counted : h.active ≡ length h.running
  pub capped : 0 < h.max_concurrent → h.active ≤ h.max_concurrent
  pub allowed :
      All (λ w. (valid w.host w.port ≡ true) × (permits allow w.host w.port ≡ true)) h.running
  pub tracked :
      (id token : ℕ)
      → lookup id h.streams ≡ some token
      → (w : Worker) × (find_worker token h.running ≡ some w) × (w.id ≡ id)
  pub fresh : (token : ℕ) → h.next_token ≤ token → find_worker token h.running ≡ none

start_stream-IsTcp :
    (valid : Text → ℤ → Bool) (allow : List Entry) (id : ℕ) (host : Text) (port : ℤ)
    (h : TcpHandler)
    → valid host port ≡ true
    → permits allow host port ≡ true
    → (ltb 0 h.max_concurrent && leb h.max_concurrent h.active) ≡ false
    → IsTcp valid allow h
    → IsTcp valid allow (start_stream id host port h)
unfolding start_stream find_worker
start_stream-IsTcp valid allow id host port h ok_target permitted room i = record {
  counted = omega (arith, i.counted);
  capped = λ limited. ground (arith, room, limited);
  allowed = ((ok_target, permitted), i.allowed);
  tracked = λ key token found. tracked key token found;
  fresh = λ token above. ground (arith, i.fresh token (omega (arith, above)), above);
}
  where
    started : Worker
    started = record { token = h.next_token; id = id; host = host; port = port }

    tracked :
        (key token : ℕ)
        → lookup key (insert id h.next_token h.streams) ≡ some token
        → (w : Worker) × (find_worker token (started ∷ h.running) ≡ some w) × (w.id ≡ key)
    tracked key token found = elim (Bool-cases (id == key)) [
      | inl here ↦ (
        started,
        ground (arith, found, here, lookup-insert id key h.next_token h.streams),
        ground (arith, here),
      )
      | inr other ↦
          let (w, old, same) =
            i.tracked key token
              (ground (arith, found, other, lookup-insert id key h.next_token h.streams)) in
          (
            w,
            elim (Bool-cases (h.next_token == token)) [
              | inl taken ↦
                  absurd (ground (arith, taken, old, i.fresh token (ground (arith, taken))))
              | inr apart ↦ ground (arith, apart, old)
            ],
            same,
          )
    ]

remove-IsTcp :
    (valid : Text → ℤ → Bool) (allow : List Entry) (token : ℕ) (w : Worker) (h : TcpHandler)
    → find_worker token h.running ≡ some w
    → IsTcp valid allow h
    → IsTcp valid allow (remove w.id token (record h { running = end_worker token h.running }))
remove-IsTcp valid allow token w h found i =
    let ended : TcpHandler = record h { running = end_worker token h.running } in
    let (active_eq, running_eq, max_eq, next_eq) = remove_counts w.id token ended in
    let size = length-end_worker token h.running w found in
    let Allowed : Worker → Type 0 =
      λ w. (valid w.host w.port ≡ true) × (permits allow w.host w.port ≡ true) in
    record {
      counted = ground (arith, active_eq, running_eq, size, i.counted);
      capped = λ limited. ground (arith, active_eq, max_eq, limited, i.capped);
      allowed =
          subst (All Allowed) (sym running_eq) (end_worker-All Allowed token h.running i.allowed);
      tracked = λ key t there.
          let (before, not_mine) = lookup-remove w.id token key t ended there in
          let (v, held, same) = i.tracked key t before in
          (
            v,
            subst (λ ws. find_worker t ws ≡ some v) (sym running_eq)
                (find_worker-end_worker t token h.running
                    (λ e. not_mine (sym same ∙ ap (λ x. x.id) (one_worker t v held e)) e)
                  ∙ held),
            same,
          );
      fresh = λ t above.
          subst (λ ws. find_worker t ws ≡ none) (sym running_eq)
            (find_worker-none t token h.running (i.fresh t (ground (arith, next_eq, above))));
    }
  where
    one_worker : (t : ℕ) (v : Worker) → find_worker t h.running ≡ some v → t ≡ token → v ≡ w
    one_worker t v held e = ground (arith, held, e, found)

tcp_step-IsTcp :
    (valid : Text → ℤ → Bool) (allow : List Entry) (e : TcpEvent) (h : TcpHandler)
    → IsTcp valid allow h
    → IsTcp valid allow (tcp_step valid allow e h)
unfolding tcp_step on_syn finish
tcp_step-IsTcp valid allow (ends token) h i =
    on_option (IsTcp valid allow) (find_worker token h.running) _ _ (λ gone. i)
      (λ w found. remove-IsTcp valid allow token w h found i)
tcp_step-IsTcp valid allow (syn id none) h i = i
tcp_step-IsTcp valid allow (syn id (some target)) h i =
    let P : TcpHandler × Option Refusal → Type 0 = λ r. IsTcp valid allow r.0 in
    on_if P (not (valid target.0 target.1)) _ _ (λ invalid. i)
      (λ fine.
        on_if P (not (permits allow target.0 target.1)) _ _ (λ barred. i)
          (λ permitted.
            on_if P (ltb 0 h.max_concurrent && leb h.max_concurrent h.active) _ _ (λ full. i)
              (λ room.
                start_stream-IsTcp valid allow id target.0 target.1 h (ground (arith, fine))
                  (ground (arith, permitted)) room i)))

tcp_run-IsTcp :
    (valid : Text → ℤ → Bool) (allow : List Entry) (es : List TcpEvent) (h : TcpHandler)
    → IsTcp valid allow h
    → IsTcp valid allow (tcp_run valid allow es h)
unfolding tcp_run
tcp_run-IsTcp valid allow [] h i = i
tcp_run-IsTcp valid allow (e ∷ es) h i =
    tcp_run-IsTcp valid allow es (tcp_step valid allow e h) (tcp_step-IsTcp valid allow e h i)

-- Whatever streams are opened and however their goroutines end, a new handler's slots in use are those of
-- the goroutines that run and no more than the limit, where there is one; every target served is valid and
-- allowed; a taken id is held by a running goroutine of that id.
pub tcp_run-new-IsTcp :
    (is_address : Text → Bool) (allow : List Entry) (max : ℕ) (es : List TcpEvent)
    → IsTcp
        (validate_target is_address)
        allow
        (tcp_run (validate_target is_address) allow es (new_tcp max))
unfolding new_tcp lookup find_worker
tcp_run-new-IsTcp is_address allow max es =
    tcp_run-IsTcp (validate_target is_address) allow es (new_tcp max) (record {
      counted = refl;
      capped = λ limited. omega arith;
      allowed = tt;
      tracked = λ id token found. absurd (nothing id token found);
      fresh = λ token above. refl;
    })
  where
    nothing : (id token : ℕ) → lookup id [] ≡ some token → ⊥
    nothing id token found = cc
