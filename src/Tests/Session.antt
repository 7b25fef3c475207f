-- ===== src/Tests/Session.antt =====
-- Concrete runs of a session, for src/session.cpp.
use moqtopus.Common.{◌≡◌, refl, List, [], ◌∷◌, ◌++◌, true, false, none}
use moqtopus.Session.{SessionPhase, local_close, State, Derived}
use moqtopus.Codec.Varint.{read_varint, read_length, read_tail}
use moqtopus.Receive.Subgroup.{concat}
use moqtopus.Session.Gate.{Mode, Gate, classify_bytes, on_receive}
use moqtopus.Session.Gate.Laws.{on_receive-split}
use moqtopus.Session.Lifecycle.Laws.{Event}

-- A derived class that does nothing, and a transport that sends SETUP.
abbrev idle : Derived (Unit {0})
idle = record {
  on_ready = λ s. s;
  terminate_subscriptions = λ reason s. s;
  shutdown = λ code s. s;
  send_setup = λ s. (none, s);
}

abbrev start : State (Unit {0})
start = record {
  session = record {
    phase = SessionPhase.init;
    local_setup_sent = false;
    peer_setup_received = false;
    has_version = false;
    close_reason = none;
    next_request_id = 0;
    ready_waiters = [];
    settled = [];
    has_transport = true;
  };
  world = tt;
}

-- A promise, the handshake, a Request ID, the end, and a late error.
abbrev life : List Event
life =
    Event.asked_ready 7
    ∷ Event.connects
    ∷ Event.peer_setup
    ∷ Event.asked_id
    ∷ Event.closes 0
    ∷ Event.failed local_close
    ∷ Event.shut_down true
    ∷ []

abbrev fresh : Gate
fresh = record { mode = Mode.classify; bytes = [] }

-- The type of a subgroup stream, in two bytes that come one by one.
on_receive-split_example :
    (on_receive true
      (on_receive true fresh ((0x80 ∷ []) ∷ []) false).0
      ((0x15 ∷ 7 ∷ []) ∷ [])
      false).1
    ≡ (on_receive true fresh (((0x80 ∷ []) ∷ []) ++ ((0x15 ∷ 7 ∷ []) ∷ [])) false).1
unfolding on_receive classify_bytes concat read_varint read_length read_tail
on_receive-split_example =
    on_receive-split true false fresh ((0x80 ∷ []) ∷ []) ((0x15 ∷ 7 ∷ []) ∷ []) refl
