-- ===== src/Client/Moves.antt =====
-- The stream table over the frames that come and go, and the streams that open.
use bitbang_cli.Prelude.{
  ℕ, ◌+◌, Option, List, on_result, on_option, ◌<◌, ◌≡◌, none, Bool, some, ◌^◌, on_if, ◌∷◌, arith,
  ◌||◌, ◌&&◌, not, [], ◌%◌, true, ◌==◌, subst, sym,
}
use Prim.Native.Nat.{ℕ}
use bitbang_cli.Client.Session.{
  Session, Sent, Event, blocks, refused_failed, window_update, sends, cancelled, reset_code,
  open_stream, detach_finished, delivered, deliver, write_frame, accept_frame, write_reserved,
  deliver_next, send_raw, write_stream, send_frame, close_stream, put_stream, flow_control_enabled,
  fail_stream,
}
use bitbang_cli.Client.Stream.{
  Stream, Refusal, reserved, refused, waits, enqueue, new_stream, consume, reserve_send,
  activate_initial_window,
}
use bitbang_cli.Wire.{Frame, validate_frame_payload, flow_bytes, is_fin, is_syn}
use bitbang_cli.Client.Table.{
  IsTable, IsGiven, put-IsTable, send_raw-IsTable, fail_stream-IsTable, detach-IsTable,
}
use bitbang_cli.IdMap.{lookup, insert, Keys, lookup-insert, Keys-map, insert-Distinct, delete-Keys}

module _ (n : ℕ) where
  detach_finished-IsTable :
      (id : ℕ) (st old : Stream) (s : Session)
      → lookup id s.streams ≡ some old
      → IsTable n s
      → IsTable n (detach_finished id st s)
  unfolding detach_finished
  detach_finished-IsTable id st old s h v =
      on_if (IsTable n) (st.inbound_delivered && st.outbound_fin) _ _ (λ t. detach-IsTable n id s v)
        (λ t. put-IsTable n id st old s h v)

  -- What is put in the table is found there, also after a message is sent.
  lookup-put :
      (e : Event) (id : ℕ) (st : Stream) (s : Session)
      → lookup id (send_raw e (put_stream id st s)).0.streams ≡ some st
  unfolding send_raw put_stream
  lookup-put e id st s = ground (arith, lookup-insert id id st s.streams)

  delivered-IsTable :
      (id : ℕ) (frame : Frame) (update : ℕ) (st old : Stream) (s : Session)
      → lookup id s.streams ≡ some old
      → IsTable n s
      → IsTable n (delivered id frame update st s)
  unfolding delivered
  delivered-IsTable id frame update st old s h v =
      let told = send_raw-IsTable n (window_update id update) _ (put-IsTable n id st old s h v) in
      on_if (IsTable n) (is_fin frame) _ _
        (λ t. detach_finished-IsTable id (record st { inbound_delivered = true }) old s h v)
        (λ t.
          on_if (IsTable n) (update == 0) _ _ (λ t. put-IsTable n id st old s h v)
            (λ t.
              on_if (IsTable n) (send_raw (window_update id update) (put_stream id st s)).1 _ _
                (λ t. told) (λ t. fail_stream-IsTable n id none _ told)))

  deliver_next-IsTable :
      (id : ℕ) (frames : List Frame) (st old : Stream) (s : Session)
      → lookup id s.streams ≡ some old
      → IsTable n s
      → IsTable n (deliver_next id frames st s)
  unfolding deliver_next
  deliver_next-IsTable id [] st old s h v = v
  deliver_next-IsTable id (frame ∷ rest) st old s h v =
      let r : Stream × ℕ = consume frame (flow_control_enabled s) (record st { pending = rest }) in
      delivered-IsTable id frame r.1 r.0 old s h v

  write_frame-IsTable :
      (frame : Frame) (st old : Stream) (s : Session)
      → lookup frame.stream_id s.streams ≡ some old
      → IsTable n s
      → IsTable n (write_frame frame st s).0
  unfolding write_frame
  write_frame-IsTable frame st old s h v =
      let e : Event = sends frame.stream_id frame.flags in
      let told = send_raw-IsTable n e _ (put-IsTable n frame.stream_id st old s h v) in
      on_if (λ (r : Session × Sent). IsTable n r.0)
        (not (send_raw e (put_stream frame.stream_id st s)).1) _ _
        (λ t.
          on_if (IsTable n) (flow_control_enabled s && is_syn frame) _ _
            (λ t. fail_stream-IsTable n frame.stream_id none _ told) (λ t. told))
        (λ t.
          on_if (λ (r : Session × Sent). IsTable n r.0) (is_fin frame) _ _
            (λ t.
              detach_finished-IsTable frame.stream_id (record st { outbound_fin = true }) st _
                (lookup-put e frame.stream_id st s) told)
            (λ t. told))

  write_reserved-IsTable :
      (frame : Frame) (st old : Stream) (s : Session)
      → lookup frame.stream_id s.streams ≡ some old
      → IsTable n s
      → IsTable n (write_reserved frame st s).0
  unfolding write_reserved
  write_reserved-IsTable frame st old s h v =
      elim (reserve_send (flow_bytes frame) st)
        as (λ r.
          IsTable n
            (elim r as (λ _. Session × Sent) [
              | reserved charged ↦ write_frame frame charged s
              | refused ↦ (put_stream frame.stream_id st s, refused_failed)
              | waits ↦ (put_stream frame.stream_id st s, blocks)
            ]).0) [
              | reserved charged ↦ write_frame-IsTable frame charged old s h v
              | refused ↦ put-IsTable n frame.stream_id st old s h v
              | waits ↦ put-IsTable n frame.stream_id st old s h v
            ]

  write_stream-IsTable :
      (frame : Frame) (st : Stream) (s : Session)
      → lookup frame.stream_id s.streams ≡ some st
      → IsTable n s
      → IsTable n (write_stream frame st s).0
  unfolding write_stream
  write_stream-IsTable frame st s h v =
      let P : Session × Sent → Type 0 = λ r. IsTable n r.0 in
      on_if P st.outbound_fin _ _ (λ t. v)
        (λ t.
          on_if P (not (flow_control_enabled s)) _ _ (λ t. write_frame-IsTable frame st st s h v)
            (λ t.
              on_if P (is_syn frame) _ _
                (λ t. write_reserved-IsTable frame (activate_initial_window st) st s h v)
                (λ t.
                  on_if P (not st.window_active) _ _ (λ t. v)
                    (λ t. write_reserved-IsTable frame st st s h v))))

  accept_checked-IsTable :
      (id : ℕ) (e : Option Refusal) (kept : Session)
      → IsTable n kept
      → IsTable n (elim e [
        | none ↦ kept
        | some e' ↦ elim (reset_code e') [
          | none ↦ kept
          | some code ↦ fail_stream id (some code) kept
        ]
      ])
  accept_checked-IsTable id e kept v =
      on_option (IsTable n) e _ _ (λ absent. v)
        (λ e' found.
          on_option (IsTable n) (reset_code e') _ _ (λ absent. v)
            (λ code found. fail_stream-IsTable n id (some code) kept v))

  pub accept_frame-IsTable :
      (drops : Bool) (frame : Frame) (s : Session)
      → IsTable n s
      → IsTable n (accept_frame drops frame s)
  unfolding accept_frame
  accept_frame-IsTable drops frame s v =
      on_option (IsTable n) (lookup frame.stream_id s.streams) _ _ (λ e. v)
        (λ st e.
          accept_checked-IsTable frame.stream_id (enqueue drops frame (flow_control_enabled s) st).1
            _
            (put-IsTable n frame.stream_id (enqueue drops frame (flow_control_enabled s) st).0 st s
              e v))

  pub deliver-IsTable : (id : ℕ) (s : Session) → IsTable n s → IsTable n (deliver id s)
  unfolding deliver
  deliver-IsTable id s v =
      on_option (IsTable n) (lookup id s.streams) _ _ (λ e. v)
        (λ st e. deliver_next-IsTable id st.pending st st s e v)

  pub send_frame-IsTable :
      (frame : Frame) (s : Session) → IsTable n s → IsTable n (send_frame frame s).0
  unfolding send_frame
  send_frame-IsTable frame s v =
      let P : Session × Sent → Type 0 = λ r. IsTable n r.0 in
      on_result P (validate_frame_payload frame.payload) _ _
        (λ valid e.
          on_option P (lookup frame.stream_id s.streams) _ _ (λ absent. v)
            (λ st found. write_stream-IsTable frame st s found v))
        (λ e bad. v)

  pub close_stream-IsTable : (id : ℕ) (s : Session) → IsTable n s → IsTable n (close_stream id s)
  unfolding close_stream
  close_stream-IsTable id s v =
      on_option (IsTable n) (lookup id s.streams) _ _ (λ e. v)
        (λ st e.
          on_if (IsTable n) (flow_control_enabled s || not st.outbound_fin) _ _
            (λ t. fail_stream-IsTable n id (some cancelled) s v) (λ t. detach-IsTable n id s v))

pub open_stream-IsTable :
    (n : ℕ) (s : Session) → n + 2 < 2 ^ 32 → IsTable n s → IsTable (n + 2) (open_stream s).0
unfolding open_stream insert
open_stream-IsTable n s small v =
    let more : Keys (IsGiven (s.next_stream_id + 2)) s.streams =
      Keys-map _ _ s.streams (λ id g. (g.0, omega (arith, g.1))) v.given in
    let kept : (s.next_stream_id + 2) % 2 ^ 32 ≡ s.next_stream_id + 2 = omega (arith, v.bounded) in
    on_if (λ (r : Session × ℕ). IsTable (n + 2) r.0) s.closed _ _
      (λ c. record {
        distinct = v.distinct;
        given = subst (λ n. Keys (IsGiven n) s.streams) (sym kept) more;
        bounded = omega (arith, v.bounded);
        next_odd = omega (arith, v.next_odd);
        emptied = λ t. v.emptied c;
      })
      (λ c. record {
        distinct =
            insert-Distinct s.next_stream_id (new_stream s.next_stream_id) s.streams v.distinct;
        given = (
          (v.next_odd, omega arith),
          delete-Keys _ s.next_stream_id s.streams
              (subst (λ n. Keys (IsGiven n) s.streams) (sym kept) more),
        );
        bounded = omega (arith, v.bounded);
        next_odd = omega (arith, v.next_odd);
        emptied = λ t. absurd (ground (arith, c, t));
      })
