-- ===== src/Client/Runs.antt =====
-- The stream table over the runs of a session.
use bitbang_cli.Client.Moves.{
  accept_frame-IsTable, open_stream-IsTable, close_stream-IsTable, deliver-IsTable,
  send_frame-IsTable,
}
use bitbang_cli.Client.Stream.{update_send_limit}
use bitbang_cli.Client.Session.{
  finish_streams, Session, invalid_control, new_session, close_session, flow_control_enabled,
}
use bitbang_cli.Session.Control.{Update}
use bitbang_cli.Wire.{Bytes, Frame, parse_frame, is_syn}
use Prim.Native.Nat.{ℕ}
use bitbang_cli.Prelude.{
  ℕ, Option, Text, Bool, refl, on_if, some, on_option, ◌==◌, text_eq, codes, none, on_result, not,
  List, false, ◌+◌, ◌||◌, arith, ◌<◌, total, subst, ◌^◌, ◌≡◌, ◌∷◌, [],
}
use bitbang_cli.IdMap.{lookup, lookup-fresh}
use bitbang_cli.Client.Table.{IsTable, fail_stream-IsTable, put-IsTable}
use bitbang_cli.Client.Dispatch.{
  Decoder, run, step, Input, opens, closes_stream, arrives, takes, writes, closes, loses_channel,
  end_by_listener, handle_kind, reset_malformed_control, apply_window_update, handle_message,
  handle_control,
}

widen : (n : ℕ) (s : Session) → IsTable n s → IsTable (n + 0) s
widen n s v = subst (λ k. IsTable k s) (omega arith) v

module _ (n : ℕ) where
  reset_malformed-IsTable :
      (id : Option ℕ) (s : Session) → IsTable n s → IsTable n (reset_malformed_control id s)
  unfolding reset_malformed_control
  reset_malformed-IsTable none s v = v
  reset_malformed-IsTable (some id) s v =
      on_if (IsTable n) (id == 0) _ _ (λ t. v)
        (λ t. fail_stream-IsTable n id (some invalid_control) s v)

  apply_window_update-IsTable :
      (u : Update) (s : Session) → IsTable n s → IsTable n (apply_window_update u s)
  unfolding apply_window_update
  apply_window_update-IsTable u s v =
      on_option (IsTable n) (lookup u.stream_id s.streams) _ _ (λ absent. v)
        (λ st found.
          on_if (IsTable n) (u.stream_id == 0 || u.max_bytes == 0) _ _
            (λ t. fail_stream-IsTable n u.stream_id (some invalid_control) s v)
            (λ t. put-IsTable n u.stream_id (update_send_limit u.max_bytes st) st s found v))

  end_by_listener-IsTable : (s : Session) → IsTable n s → IsTable n (end_by_listener s)
  unfolding end_by_listener finish_streams
  end_by_listener-IsTable s v = record {
    distinct = tt;
    given = tt;
    bounded = v.bounded;
    next_odd = v.next_odd;
    emptied = λ c. refl;
  }

  handle_kind-IsTable :
      (dec : Decoder) (payload : Bytes) (kind : Text) (s : Session)
      → IsTable n s
      → IsTable n (handle_kind dec payload kind s)
  unfolding handle_kind
  handle_kind-IsTable dec payload kind s v =
      on_if (IsTable n) (text_eq kind (codes "window_update")) _ _
        (λ t.
          on_option (IsTable n) (dec.update payload) _ _
            (λ absent. reset_malformed-IsTable (dec.target payload) s v)
            (λ u found. apply_window_update-IsTable u s v))
        (λ t.
          on_if (IsTable n) (text_eq kind (codes "error")) _ _ (λ t. end_by_listener-IsTable s v)
            (λ t.
              on_if (IsTable n) (text_eq kind (codes "stream_reset")) _ _
                (λ t.
                  on_option (IsTable n) (dec.reset payload) _ _
                    (λ absent. reset_malformed-IsTable (dec.target payload) s v)
                    (λ r found. fail_stream-IsTable n r.stream_id none s v))
                (λ t. v)))

  handle_control-IsTable :
      (dec : Decoder) (frame : Frame) (s : Session)
      → IsTable n s
      → IsTable n (handle_control dec frame s)
  unfolding handle_control
  handle_control-IsTable dec frame s v =
      on_if (IsTable n) (not (is_syn frame)) _ _ (λ t. v)
        (λ t.
          on_option (IsTable n) (dec.header frame.payload) _ _ (λ absent. v)
            (λ kind found. handle_kind-IsTable dec frame.payload kind s v))

  handle_message-IsTable :
      (dec : Decoder) (drops : Bool) (input : Bytes) (s : Session)
      → IsTable n s
      → IsTable n (handle_message dec drops input s)
  unfolding handle_message
  handle_message-IsTable dec drops input s v =
      on_result (IsTable n) (parse_frame input) _ _
        (λ frame good.
          on_if (IsTable n) (frame.stream_id == 0) _ _
            (λ t.
              on_if (IsTable n) (flow_control_enabled s) _ _
                (λ t. handle_control-IsTable dec frame s v) (λ t. v))
            (λ t. accept_frame-IsTable n drops frame s v))
        (λ e bad. v)

  close_session-IsTable : (s : Session) → IsTable n s → IsTable n (close_session s)
  unfolding close_session finish_streams
  close_session-IsTable s v = record {
    distinct = tt;
    given = tt;
    bounded = v.bounded;
    next_odd = v.next_odd;
    emptied = λ c. refl;
  }

  lost-IsTable :
      (s : Session) → IsTable n s → IsTable n (finish_streams (record s { channel_open = false }))
  unfolding finish_streams
  lost-IsTable s v = record {
    distinct = tt;
    given = tt;
    bounded = v.bounded;
    next_odd = v.next_odd;
    emptied = λ c. refl;
  }

-- The ids that an input gives out, counted twice.
abbrev pub span : Input → ℕ
span opens = 2
span _ = 0

step-IsTable :
    (dec : Decoder) (i : Input) (n : ℕ) (s : Session)
    → n + span i < 2 ^ 32
    → IsTable n s
    → IsTable (n + span i) (step dec i s)
unfolding step
step-IsTable dec opens n s small v = open_stream-IsTable n s small v
step-IsTable dec (closes_stream id) n s small v = close_stream-IsTable (n + 0) id s (widen n s v)
step-IsTable dec (arrives drops input) n s small v =
    handle_message-IsTable (n + 0) dec drops input s (widen n s v)
step-IsTable dec (takes id) n s small v = deliver-IsTable (n + 0) id s (widen n s v)
step-IsTable dec (writes frame) n s small v = send_frame-IsTable (n + 0) frame s (widen n s v)
step-IsTable dec closes n s small v = close_session-IsTable (n + 0) s (widen n s v)
step-IsTable dec loses_channel n s small v = lost-IsTable (n + 0) s (widen n s v)

run-IsTable :
    (dec : Decoder) (is : List Input) (n m : ℕ) (s : Session)
    → n + total span is ≡ m
    → m < 2 ^ 32
    → IsTable n s
    → IsTable m (run dec is s)
unfolding run
run-IsTable dec [] n m s e small v = subst (λ k. IsTable k s) (omega arith) v
run-IsTable dec (i ∷ is) n m s e small v =
    run-IsTable dec is (n + span i) m (step dec i s) (omega arith) small
      (step-IsTable dec i n s (omega arith) v)

new_session-IsTable : (version : ℕ) → IsTable 1 (new_session version)
unfolding new_session
new_session-IsTable version = ground arith

-- In every run of a new session that opens fewer than 2^31 streams, no stream id stands twice in the
-- table, the ids in it are odd and have been given out, the id that OpenStream gives out next is in no
-- entry, and a closed session holds no stream.
pub run-new-IsTable :
    (version : ℕ) (dec : Decoder) (is : List Input)
    → 1 + total span is < 2 ^ 32
    → let s : Session = run dec is (new_session version) in
      IsTable (1 + total span is) s × (lookup s.next_stream_id s.streams ≡ none)
run-new-IsTable version dec is small =
    let v =
      run-IsTable dec is 1 (1 + total span is) (new_session version) refl small
        (new_session-IsTable version) in
    (v, lookup-fresh _ _ _ (λ key g e. absurd (omega (arith, g.1, e))) v.given)
