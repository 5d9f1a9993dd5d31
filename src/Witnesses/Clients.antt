-- ===== src/Witnesses/Clients.antt =====
-- internal/client/session.go at small inputs.
use bitbang_cli.Client.Runs.{run-new-IsTable}
use bitbang_cli.Client.Accounts.{accepted, answers-opened, bytes_of, IsOpenOp, listener_before_fin}
use bitbang_cli.Client.Dispatch.{opens}
use bitbang_cli.Flow.{Handler}
use bitbang_cli.Client.Verified.{StartsVerified, handshake-Verified}
use bitbang_cli.Client.Table.{IsTable}
use bitbang_cli.Prelude.{
  All, none, some, List, codes, ◌∷◌, ◌⊎◌, [], ◌≡◌, false, true, ℕ, refl, ◌≢◌, arith, total,
}
use bitbang_cli.Wire.{
  Frame, flag_dat, flag_fin, parse_frame, build_frame, flag_syn, put_uint32, put_uint16,
  little_endian, is_syn, flow_bytes,
}
use bitbang_cli.Client.Handshake.{
  Setting, handshake, Received, message, connect, auth, panics, Control, established,
}
use bitbang_cli.Client.Sides.{Op, arrives, takes, finishes, answers, client_step}
use bitbang_cli.Client.Dispatch as Dispatch
use bitbang_cli.Client.Session as Client
use bitbang_cli.IdMap.{lookup}
use bitbang_cli.Client.Accounts.{opened}

abbrev two_bytes : Frame
two_bytes = record { stream_id = 1; flags = flag_dat; payload = 7 ∷ (7 ∷ []) }

abbrev last_byte : Frame
last_byte = record { stream_id = 1; flags = flag_fin; payload = 9 ∷ [] }

abbrev ops : List Op
ops =
    arrives two_bytes
    ∷ (takes ∷ (finishes ∷ (arrives last_byte ∷ (takes ∷ (finishes ∷ (arrives two_bytes ∷ []))))))

abbrev handler : Handler
handler = record { kind = codes "tcp"; takes_fragments = true; takes_reset = false }

plain_ops : All IsOpenOp ops
unfolding is_syn
plain_ops = (refl, (tt, (tt, (refl, (tt, (tt, (refl, tt)))))))

few_bytes : total bytes_of ops ≡ 5
unfolding flow_bytes is_syn
few_bytes = refl

answers-opened_example :
    answers (client_step true) ops (opened 1) ≡ answers listener_before_fin ops (accepted 1 handler)
answers-opened_example = answers-opened true 1 handler ops plain_ops (omega (arith, few_bytes))

abbrev decoder : Dispatch.Decoder
decoder = record { header = λ b. none; update = λ b. none; reset = λ b. none; target = λ b. none }

abbrev inputs : List Dispatch.Input
inputs = Dispatch.opens ∷ (Dispatch.opens ∷ (Dispatch.closes_stream 1 ∷ (Dispatch.closes ∷ [])))

run-new-IsTable_example :
    let s : Client.Session = Dispatch.run decoder inputs (Client.new_session 4) in
    IsTable 5 s × (lookup s.next_stream_id s.streams ≡ none)
run-new-IsTable_example = run-new-IsTable 4 decoder inputs (ground arith)

abbrev setting : Setting
setting = record {
  verify = λ b. some (codes "verify_nonce_hash", b);
  control = λ b. record {
    kind = b;
    success = false;
    caps = [];
    server_version = 4;
    negotiated_version = 0;
    access = [];
  };
  nonce_hash = codes "hash";
  prompt = some (λ retry. some (codes "1234"));
  takes_message = λ n. true;
}

abbrev received : List Received
received =
    message (build_frame 0 flag_syn (codes "hash"))
    ∷ (message (build_frame 0 flag_syn (codes "auth_required"))
        ∷ (message (build_frame 0 flag_syn (codes "ready")) ∷ []))

handshake_test : (handshake setting received).sent ≡ connect ∷ (auth (codes "1234") ∷ [])
unfolding handshake parse_frame build_frame put_uint32 put_uint16 little_endian is_syn
handshake_test = refl

-- The listener rejects a PIN it has not asked for, and the prompt is nil.
nil_prompt :
    (handshake
      (record setting { prompt = none })
      (message (build_frame 0 flag_syn (codes "hash"))
        ∷ (message (build_frame 0 flag_syn (codes "auth_result")) ∷ []))).outcome
    ≡ panics
unfolding handshake parse_frame build_frame put_uint32 put_uint16 little_endian is_syn
nil_prompt = refl

handshake-Verified_example :
    StartsVerified setting received
    ⊎ (((handshake setting received).sent ≡ [])
        × ((server negotiated : ℕ) (ctl : Control)
            → (handshake setting received).outcome ≢ established server negotiated ctl))
handshake-Verified_example = handshake-Verified setting received
