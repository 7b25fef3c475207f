-- ===== src/Session/Lifecycle/Goes.antt =====
-- What the members of a session keep through the changes that src/session.cpp makes of them.
use moqtopus.Common.{
  overflow_error, ◌⊎◌, leb-false, ℕ, ◌+◌, ◌-◌, ◌^◌, ◌%◌, ◌≤◌, ◌<◌, ◌≡◌, refl, arith, ltb, Bool,
  true, false, List, [], Option, none, some, inl, inr, Bool-cases, ok, err,
}
use moqtopus.Codec.Objects.{is_some}
use moqtopus.Session.{SessionPhase, Reason, Session, rank, is_closing, is_ready}
use moqtopus.Session.Lifecycle.{
  answer, settle_waiters, fail_ready_waiters, ready, allocate_request_id, become_ready,
  start_closing, finish_closing,
}

-- No promise waits once the session is ready or closing; a session that is ready has sent and received
-- SETUP; a reason stands from the closing on and not before; and Request IDs are even.
pub record IsConsistent (s : Session) : Type 0 where
  pub waiting : is_ready s.phase ≡ true → s.ready_waiters ≡ []
  pub setups :
      s.phase ≡ SessionPhase.ready → (s.local_setup_sent ≡ true) × (s.peer_setup_received ≡ true)
  pub open_until : s.phase ≡ SessionPhase.closing → is_some s.close_reason ≡ true
  pub unexplained : is_closing s.phase ≡ false → s.close_reason ≡ none
  pub even : s.next_request_id % 2 ≡ 0

-- The phase does not go back, a reason for the closing stays, and Request IDs are not given out again.
pub record Advances (s t : Session) : Type 0 where
  pub forward : rank s.phase ≤ rank t.phase
  pub kept : (r : ℕ × Reason) → s.close_reason ≡ some r → t.close_reason ≡ some r
  pub ids : s.next_request_id ≤ t.next_request_id

-- A change from a consistent session leads to a consistent one, and forward.
abbrev pub Goes : Session → Session → Type 0
Goes s t = IsConsistent s → IsConsistent t × Advances s t

Advances-trans : (s t u : Session) → Advances s t → Advances t u → Advances s u
Advances-trans s t u p q = record {
  forward = omega (arith, p.forward, q.forward);
  kept = λ r e. q.kept r (p.kept r e);
  ids = omega (arith, p.ids, q.ids);
}

pub Goes-refl : (s : Session) → Goes s s
Goes-refl s h = (h, record { forward = omega arith; kept = λ r e. e; ids = omega arith })

pub Goes-trans : (s t u : Session) → Goes s t → Goes t u → Goes s u
Goes-trans s t u p q h =
    let (ht, st) = p h in let (hu, tu) = q ht in (hu, Advances-trans s t u st tu)

rank-closed : (phase : SessionPhase) → rank phase ≤ 4
unfolding rank
rank-closed SessionPhase.init = omega arith
rank-closed SessionPhase.setup_in_progress = omega arith
rank-closed SessionPhase.ready = omega arith
rank-closed SessionPhase.closing = omega arith
rank-closed SessionPhase.closed = omega arith

pub become_ready-Goes :
    (s : Session)
    → s.local_setup_sent ≡ true
    → s.peer_setup_received ≡ true
    → is_ready s.phase ≡ false
    → Goes s (become_ready s)
unfolding become_ready settle_waiters rank
become_ready-Goes s sent received early h =
    let before : rank s.phase < 2 = leb-false 2 (rank s.phase) early in
    let open_still : is_closing s.phase ≡ false = ground (arith, before) in
    (
      record {
        waiting = λ e. refl;
        setups = λ e. (sent, received);
        open_until = λ e. absurd (cc);
        unexplained = λ e. h.unexplained open_still;
        even = h.even;
      },
      record { forward = omega (arith, before); kept = λ r e. e; ids = omega arith },
    )

pub start_closing-Goes :
    (code : ℕ) (reason : Reason) (s : Session)
    → is_closing s.phase ≡ false
    → Goes s (start_closing code reason s)
unfolding start_closing fail_ready_waiters settle_waiters rank
start_closing-Goes code reason s early h =
    let before : rank s.phase < 3 = leb-false 3 (rank s.phase) early in
    let none_yet = h.unexplained early in
    (
      record {
        waiting = λ e. refl;
        setups = λ e. absurd (cc);
        open_until = λ e. refl;
        unexplained = λ e. absurd (cc);
        even = h.even;
      },
      record { forward = omega (arith, before); kept = λ r e. absurd (cc); ids = omega arith },
    )

pub finish_closing-Goes : (completed : Bool) (s : Session) → Goes s (finish_closing completed s)
unfolding finish_closing fail_ready_waiters settle_waiters rank
finish_closing-Goes completed s h = (
  record {
    waiting = λ e. refl;
    setups = λ e. absurd (cc);
    open_until = λ e. absurd (cc);
    unexplained = λ e. absurd (cc);
    even = h.even;
  },
  record { forward = rank-closed s.phase; kept = λ r e. rw e refl; ids = omega arith },
)

settled-Goes :
    (s : Session) (outcomes : List (ℕ × Option Reason)) → Goes s (record s { settled = outcomes })
settled-Goes s outcomes h = (
  record {
    waiting = h.waiting;
    setups = h.setups;
    open_until = h.open_until;
    unexplained = h.unexplained;
    even = h.even;
  },
  record { forward = omega arith; kept = λ r e. e; ids = omega arith },
)

queued-Goes :
    (s : Session) (waiters : List ℕ)
    → is_ready s.phase ≡ false
    → Goes s (record s { ready_waiters = waiters })
queued-Goes s waiters early h = (
  record {
    waiting = λ e. absurd (ground (arith, e, early));
    setups = h.setups;
    open_until = h.open_until;
    unexplained = h.unexplained;
    even = h.even;
  },
  record { forward = omega arith; kept = λ r e. e; ids = omega arith },
)

pub ready-Goes : (promise : ℕ) (s : Session) → Goes s (ready promise s)
unfolding ready answer rank
ready-Goes promise s = by_phase s.phase refl
  where
    by_phase : (phase : SessionPhase) → s.phase ≡ phase → Goes s (answer phase promise s)
    by_phase SessionPhase.init e = queued-Goes s _ (rw e refl)
    by_phase SessionPhase.setup_in_progress e = queued-Goes s _ (rw e refl)
    by_phase SessionPhase.ready e = settled-Goes s _
    by_phase SessionPhase.closing e = settled-Goes s _
    by_phase SessionPhase.closed e = settled-Goes s _

numbered-Goes : (s : Session) → Goes s (record s { next_request_id = s.next_request_id + 2 })
numbered-Goes s h = (
  record {
    waiting = h.waiting;
    setups = h.setups;
    open_until = h.open_until;
    unexplained = h.unexplained;
    even = omega (arith, h.even);
  },
  record { forward = omega arith; kept = λ r e. e; ids = omega arith },
)

-- `allocate_request_id`, whose exception leaves the session as it is.
unfoldable pub allocated : Session → Session
allocated s = elim (allocate_request_id s) [ ok (id, t) ↦ t | err e ↦ s ]

pub allocated-Goes : (s : Session) → Goes s (allocated s)
unfolding allocated allocate_request_id
allocated-Goes s = elim (Bool-cases (ltb (2 ^ 64 - 1 - 2) s.next_request_id)) [
  | inl out ↦ rw (out, allocated) (Goes-refl s)
  | inr left ↦ rw (left, allocated) (numbered-Goes s)
]

-- allocate_request_id hands out the next Request ID of a consistent session, which is even and
-- fits 64 bits with the one behind it, which is then next; or the next but one does not fit 64
-- bits, and it reports an overflow.
pub allocate_request_id-ids :
    (s : Session)
    → IsConsistent s
    → ((t : Session) × (allocate_request_id s ≡ ok (s.next_request_id, t))
        × (t.next_request_id ≡ s.next_request_id + 2)
        × (s.next_request_id + 2 < 2 ^ 64)
        × (s.next_request_id % 2 ≡ 0))
      ⊎ ((2 ^ 64 ≤ s.next_request_id + 2)
          × (allocate_request_id s ≡ err (overflow_error "MOQT Request ID space exhausted")))
unfolding allocate_request_id
allocate_request_id-ids s h = elim (Bool-cases (ltb (2 ^ 64 - 1 - 2) s.next_request_id)) [
  | inl out ↦ inr (ground (arith, out), rw out refl)
  | inr left ↦ inl (
    record s { next_request_id = s.next_request_id + 2 },
    rw left refl,
    refl,
    ground (arith, left),
    h.even,
  )
]
