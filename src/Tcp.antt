-- ===== src/Tcp.antt =====
-- internal/streamtype/tcp.go, and ValidateTarget of internal/tcpforward: the TCP streams of one session. The sockets, and the dial that each stream's
-- goroutine makes, are outside; a goroutine is known from its start to its `remove`.
pub mod Workers
pub mod Slots
use bitbang_cli.Prelude.{
  Text, ℕ, Bool, ◌+◌, [], Option, ◌-◌, none, List, some, ◌∷◌, if◌then◌else◌, ◌==◌, not, ltb, ◌&&◌,
  leb, false, ◌||◌, is_empty,
}
use bitbang_cli.Allowlist.{Entry, ℤ, permits, pos, negsuc}
use bitbang_cli.IdMap.{lookup, insert, delete}

-- One run of `runStream`. The token is the address of its tcpStream.
pub record Worker : Type 0 where
  pub token : ℕ
  pub id : ℕ
  pub host : Text
  pub port : ℤ

-- `streams` gives the token that stands for an id, and `next_token` an address not used so far.
pub record TcpHandler : Type 0 where
  pub max_concurrent : ℕ
  pub streams : List (ℕ × ℕ)
  pub active : ℕ
  pub next_token : ℕ
  pub running : List Worker

unfoldable pub new_tcp : ℕ → TcpHandler
new_tcp max = record {
  max_concurrent = max;
  streams = [];
  active = 0;
  next_token = 0;
  running = [];
}

-- Why a stream is refused, with an error frame.
pub data Refusal : Type 0 where
  bad_request invalid_target not_allowed busy : Refusal

unfoldable pub port_in_range : ℤ → Bool
port_in_range (pos n) = leb 1 n && leb n 65535
port_in_range (negsuc n) = false

-- The characters that ValidateTarget refuses: those of its list, blanks and control characters.
unfoldable pub is_refused_char : ℕ → Bool
is_refused_char c =
    c == b':' || c == b'/' || c == b'\\' || c == b'[' || c == b']' || leb c 32 || c == 127

unfoldable pub has_refused_char : Text → Bool
unfolding is_refused_char
has_refused_char [] = false
has_refused_char (c ∷ s) = is_refused_char c || has_refused_char s

-- `tcpforward.ValidateTarget` of an ASCII host; `is_address` is whether netip.ParseAddr takes it. A blank at
-- either end, which the source tests by itself, is a blank.
unfoldable pub validate_target : (Text → Bool) → Text → ℤ → Bool
unfolding port_in_range has_refused_char
validate_target is_address host port =
    port_in_range port && not (is_empty host) && (is_address host || not (has_refused_char host))

unfoldable pub find_worker : ℕ → List Worker → Option Worker
find_worker token [] = none
find_worker token (w ∷ ws) = if w.token == token then some w else find_worker token ws

unfoldable pub end_worker : ℕ → List Worker → List Worker
end_worker token [] = []
end_worker token (w ∷ ws) =
    let rest = end_worker token ws in if w.token == token then ws else w ∷ rest

-- A stream takes its id over. The stream that stood there is closed, which makes its goroutine end
-- sooner and changes nothing here.
unfoldable pub start_stream : ℕ → Text → ℤ → TcpHandler → TcpHandler
unfolding insert
start_stream id host port h = record h {
  streams = insert id h.next_token h.streams;
  active = h.active + 1;
  next_token = h.next_token + 1;
  running = record { token = h.next_token; id = id; host = host; port = port } ∷ h.running;
}

-- `OnSYN`; the request is none where it is no JSON, and `valid` stands for ValidateTarget.
unfoldable pub on_syn :
    (Text → ℤ → Bool)
    → List Entry
    → ℕ
    → Option (Text × ℤ)
    → TcpHandler
    → TcpHandler × Option Refusal
unfolding permits start_stream
on_syn valid allow id request h = elim request [
  | none ↦ (h, some bad_request)
  | some target ↦
      if not (valid target.0 target.1)
      then (h, some invalid_target)
      else if not (permits allow target.0 target.1)
      then (h, some not_allowed)
      else if ltb 0 h.max_concurrent && leb h.max_concurrent h.active
      then (h, some busy)
      else (start_stream id target.0 target.1 h, none)
]

-- `remove`, which the goroutine defers: the id is freed if it is still this stream's.
unfoldable pub remove : ℕ → ℕ → TcpHandler → TcpHandler
unfolding lookup delete
remove id want h =
    let freed : TcpHandler = record h { active = h.active - 1 } in
    elim (lookup id h.streams) [
      | none ↦ freed
      | some token ↦ if token == want then record freed { streams = delete id h.streams } else freed
    ]

unfoldable pub finish : ℕ → TcpHandler → TcpHandler
unfolding find_worker end_worker remove
finish token h = elim (find_worker token h.running) [
  | none ↦ h
  | some w ↦ remove w.id token (record h { running = end_worker token h.running })
]

-- A stream opens, or a goroutine ends.
pub data TcpEvent : Type 0 where
  syn : ℕ → Option (Text × ℤ) → TcpEvent
  ends : ℕ → TcpEvent

unfoldable pub tcp_step : (Text → ℤ → Bool) → List Entry → TcpEvent → TcpHandler → TcpHandler
unfolding on_syn finish
tcp_step valid allow (syn id request) h = (on_syn valid allow id request h).0
tcp_step valid allow (ends token) h = finish token h

unfoldable pub tcp_run : (Text → ℤ → Bool) → List Entry → List TcpEvent → TcpHandler → TcpHandler
unfolding tcp_step
tcp_run valid allow [] h = h
tcp_run valid allow (e ∷ es) h = tcp_run valid allow es (tcp_step valid allow e h)
