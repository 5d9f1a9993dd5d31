-- ===== src/Witnesses/Overflows.antt =====
-- internal/session/flow.go: a stream whose SYN has one byte of payload and whose sender fills the window
-- with frames of the largest size.
use bitbang_cli.Flow.Window.{enqueue_overflows_in_window}
use bitbang_cli.Prelude.{
  ◌≡◌, ℕ, true, List, length, some, codes, false, total, ◌∷◌, arith, [], suc, refl, none, ◌*◌, zero,
}
use bitbang_cli.Wire.{Frame, flow_bytes, flag_syn, flag_dat, Bytes, is_syn, max_chunk_size}
use Prim.Native.Nat.{ℕ, suc}
use bitbang_cli.Flow.Receiver.{Inv, Receiver}
use bitbang_cli.Flow.{enqueue, Handler, new_stream, receive_overflow}

unfoldable zeros : ℕ → Bytes
zeros zero = []
zeros (suc n) = 0 ∷ zeros n

length-zeros : (n : ℕ) → length (zeros n) ≡ n
unfolding zeros
length-zeros zero = omega arith
length-zeros (suc n) = omega (arith, length-zeros n)

abbrev chunk : Frame
chunk = record { stream_id = 5; flags = flag_dat; payload = zeros max_chunk_size }

unfoldable chunks : ℕ → List Frame
chunks zero = []
chunks (suc n) = chunk ∷ chunks n

flow_bytes-chunk : flow_bytes chunk ≡ 32768
unfolding flow_bytes is_syn
flow_bytes-chunk = length-zeros 32768

chunks_lem :
    (n : ℕ)
    → (length (chunks n) ≡ n)
      × (total flow_bytes (chunks n) ≡ n * 32768)
      × (total (λ f. length f.payload) (chunks n) ≡ n * 32768)
unfolding chunks
chunks_lem zero = (refl, refl, refl)
chunks_lem (suc n) = (
  omega (arith, (chunks_lem n).0),
  omega (arith, (chunks_lem n).1, flow_bytes-chunk),
  omega (arith, (chunks_lem n).2, length-zeros 32768),
)

abbrev opening : Frame
opening = record { stream_id = 5; flags = flag_syn; payload = 1 ∷ [] }

abbrev shell : Handler
shell = record { kind = codes "shell"; takes_fragments = false; takes_reset = false }

abbrev filled : Receiver
filled = record {
  stream = record (new_stream 5 shell true) {
    queue = opening ∷ chunks 31;
    queued_frames = 32;
    queued_bytes = 1015809;
    received = 1015808;
  };
  current = none;
}

filled-Inv : Inv filled
unfolding new_stream flow_bytes is_syn
filled-Inv = record {
  counted_frames = omega (arith, (chunks_lem 31).0);
  counted_bytes = omega (arith, (chunks_lem 31).2);
  frames_capped = omega arith;
  bytes_capped = omega arith;
  accounted = omega (arith, (chunks_lem 31).1);
  in_window = omega arith;
  window = refl;
  updated = omega arith;
  due = omega arith;
  bounded = omega arith;
}

filled_lem :
    (filled.stream.closed ≡ false)
    × (filled.stream.receive_queued_fin ≡ false)
    × (filled.stream.consumed ≡ filled.stream.last_update)
    × (filled.stream.advertised ≡ 1048576)
    × (flow_bytes opening ≡ 0)
unfolding new_stream flow_bytes is_syn
filled_lem = (refl, refl, refl, refl, refl)

enqueue_overflows_in_window_example : (enqueue chunk filled.stream).1 ≡ some receive_overflow
enqueue_overflows_in_window_example =
    enqueue_overflows_in_window chunk filled filled-Inv filled_lem.0 filled_lem.1 filled_lem.2
      (omega (arith, (chunks_lem 31).1, (chunks_lem 31).2, filled_lem.4))
      (omega (arith, flow_bytes-chunk, length-zeros 32768))
      (omega (arith, flow_bytes-chunk, filled_lem.3))
