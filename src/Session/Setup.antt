-- ===== src/Session/Setup.antt =====
-- The sending of SETUP, in the callback `connected` of src/session.cpp, with the part of
-- include/moq/client_config.h that it reads, and the snapshot of a session's state.
use moqtopus.Common.{
  ℕ, zero, suc, ◌+◌, ◌%◌, ◌/◌, ltb, Bool, true, false, [], ◌∷◌, ◌++◌, Option, none, some,
  if◌then◌else◌, is_empty, Result, ok, err,
}
use moqtopus.Types.{ByteBuffer}
use moqtopus.Codec.Decoders.Setup.{encode_setup}
use moqtopus.Session.{SessionPhase, Reason, raised, setup_send_failed, Session}

-- The members of MsQuicClientConfig that the session reads.
pub record MsQuicClientConfig : Type 0 where
  pub host : ByteBuffer
  pub port : ℕ
  pub authority : ByteBuffer
  pub path : ByteBuffer

-- `std::to_string` of a uint16_t, which has five digits at most.
pub digits : ℕ → ℕ → ByteBuffer
digits zero n = []
digits (suc rounds) n =
    let higher : ByteBuffer = digits rounds (n / 10) in
    if ltb n 10 then (48 + n) ∷ [] else higher ++ ((48 + n % 10) ∷ [])

pub authority_of : MsQuicClientConfig → ByteBuffer
authority_of config =
    if is_empty config.authority
    then config.host ++ (b':' ∷ digits 5 config.port)
    else config.authority

module _ {S : Type 0} (open_stream : Bool → S → Result ℕ × S)
    (send : ℕ → ByteBuffer → Bool → S → Bool × S) where
  -- `if (!stream->send(...)) throw ...`
  pub send_bytes : ℕ → Result ByteBuffer → S → Option Reason × S
  send_bytes stream (err error) s = (some (raised error), s)
  send_bytes stream (ok bytes) s =
      let (sent, t) = send stream bytes false s in
      (if sent then none else some setup_send_failed, t)

  -- The control stream, and SETUP on it: the exception's text, if one is thrown.
  pub send_on : Result ℕ → MsQuicClientConfig → S → Option Reason × S
  send_on (err error) config s = (some (raised error), s)
  send_on (ok stream) config s =
      send_bytes stream (encode_setup (authority_of config) config.path) s

  pub send_setup : MsQuicClientConfig → S → Option Reason × S
  send_setup config s = let (opened, t) = open_stream true s in send_on opened config t

  -- Whatever opening a stream and sending keep, sending SETUP keeps.
  pub send_setup-Keeps :
      (R : S → S → Type 0) (same : (s : S) → R s s) (chain : (s t u : S) → R s t → R t u → R s u)
      (opened : (way : Bool) (s : S) → R s (open_stream way s).1)
      (sent : (stream : ℕ) (bytes : ByteBuffer) (fin : Bool) (s : S)
        → R s (send stream bytes fin s).1)
      (config : MsQuicClientConfig) (s : S)
      → R s (send_setup config s).1
  unfolding send_setup send_on send_bytes
  send_setup-Keeps R same chain opened sent config s =
      chain s _ _ (opened true s) (by_stream (open_stream true s).0 _)
    where
      by_bytes :
          (stream : ℕ) (bytes : Result ByteBuffer) (t : S) → R t (send_bytes stream bytes t).1
      by_bytes stream (err error) t = same t
      by_bytes stream (ok bytes) t = sent stream bytes false t

      by_stream : (opened : Result ℕ) (t : S) → R t (send_on opened config t).1
      by_stream (err error) t = same t
      by_stream (ok stream) t = by_bytes stream _ t

-- SessionStateSnapshot
pub record SessionStateSnapshot : Type 0 where
  pub phase : SessionPhase
  pub local_setup_sent : Bool
  pub peer_setup_received : Bool
  pub has_version : Bool
  pub close_reason : Option (ℕ × Reason)
  pub active_subscriptions : ℕ

-- `Session::state`
pub state : ℕ → Session → SessionStateSnapshot
state active s = record {
  phase = s.phase;
  local_setup_sent = s.local_setup_sent;
  peer_setup_received = s.peer_setup_received;
  has_version = s.has_version;
  close_reason = s.close_reason;
  active_subscriptions = active;
}
