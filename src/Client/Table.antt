-- ===== src/Client/Table.antt =====
-- The stream table of the connecting side, and what takes streams out of it.
use Prim.Native.Nat.{ℕ}
use bitbang_cli.Prelude.{
  arith, ℕ, ◌%◌, Option, ◌≡◌, on_if, List, true, on_option, ◌<◌, some, ◌∷◌, [], ap, Bool-cases,
  refl, ◌∙◌, none, ◌==◌, inl, subst, ==_iff, inr, sym, ◌≤◌,
}
use bitbang_cli.IdMap.{
  lookup, Distinct, Keys, insert, delete, delete-Distinct, delete-Keys, insert-Distinct,
}
use bitbang_cli.Client.Stream.{Stream}
use bitbang_cli.Client.Session.{
  Session, Event, put_stream, detach_stream, send_raw, fail_stream, Code, finish_streams,
  notify_peer_of, flow_control_enabled,
}

-- The ids that are given out: odd, and below the next one.
abbrev pub IsGiven : ℕ → ℕ → Type 0
IsGiven next id = (id % 2 ≡ 1) × (id < next)

pub record IsTable (n : ℕ) (s : Session) : Type 0 where
  pub distinct : Distinct s.streams
  pub given : Keys (IsGiven s.next_stream_id) s.streams
  pub bounded : s.next_stream_id ≤ n
  pub next_odd : s.next_stream_id % 2 ≡ 1
  pub emptied : s.closed ≡ true → s.streams ≡ []

pub lookup-Given :
    (P : ℕ → Type 0) (id : ℕ) (m : List (ℕ × Stream)) (st : Stream)
    → Keys P m
    → lookup id m ≡ some st
    → P id
unfolding lookup
lookup-Given P id [] st h e = absurd (ground (arith, e))
lookup-Given P id ((k, t) ∷ m) st h e = elim (Bool-cases (k == id)) [
  | inl same ↦ subst P ((==_iff k id).0 same) h.0
  | inr other ↦ lookup-Given P id m st h.1 (ground (arith, other, e))
]

module _ (n : ℕ) where
  pub put-IsTable :
      (id : ℕ) (st old : Stream) (s : Session)
      → lookup id s.streams ≡ some old
      → IsTable n s
      → IsTable n (put_stream id st s)
  unfolding put_stream insert lookup
  put-IsTable id st old s h v = record {
    distinct = insert-Distinct id st s.streams v.distinct;
    given = (lookup-Given _ id s.streams old v.given h, delete-Keys _ id s.streams v.given);
    bounded = v.bounded;
    next_odd = v.next_odd;
    emptied = λ c.
        (let clash : none ≡ some old = sym (ap (lookup id) (v.emptied c)) ∙ h in
          absurd (ground (arith, clash)));
  }

  pub detach-IsTable : (id : ℕ) (s : Session) → IsTable n s → IsTable n (detach_stream id s)
  unfolding detach_stream delete
  detach-IsTable id s v = record {
    distinct = delete-Distinct id s.streams v.distinct;
    given = delete-Keys _ id s.streams v.given;
    bounded = v.bounded;
    next_odd = v.next_odd;
    emptied = λ c. ap (delete id) (v.emptied c);
  }

  pub send_raw-IsTable : (e : Event) (s : Session) → IsTable n s → IsTable n (send_raw e s).0
  unfolding send_raw
  send_raw-IsTable e s v = ground arith

  pub notify-IsTable :
      (id : ℕ) (c : Code) (s : Session) → IsTable n s → IsTable n (notify_peer_of id c s)
  unfolding notify_peer_of
  notify-IsTable id c s v =
      on_if (IsTable n) (flow_control_enabled s) _ _ (λ t. send_raw-IsTable _ s v)
        (λ t. send_raw-IsTable _ s v)

  pub fail_stream-IsTable :
      (id : ℕ) (code : Option Code) (s : Session) → IsTable n s → IsTable n (fail_stream id code s)
  unfolding fail_stream
  fail_stream-IsTable id none s v =
      on_option (IsTable n) (lookup id s.streams) _ _ (λ e. v) (λ st e. detach-IsTable id s v)
  fail_stream-IsTable id (some c) s v =
      on_option (IsTable n) (lookup id s.streams) _ _ (λ e. v)
        (λ st e. notify-IsTable id c _ (detach-IsTable id s v))

  pub finish_streams-IsTable : (s : Session) → IsTable n s → IsTable n (finish_streams s)
  unfolding finish_streams
  finish_streams-IsTable s v = record {
    distinct = tt;
    given = tt;
    bounded = v.bounded;
    next_odd = v.next_odd;
    emptied = λ c. refl;
  }
