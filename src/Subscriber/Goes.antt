-- ===== src/Subscriber/Goes.antt =====
-- What the requests of a subscriber keep through the changes that src/subscriber_session.cpp makes of them.
pub mod Requests
pub mod Added
pub mod Promises
pub mod Ends
pub mod Closing
pub mod Established
pub mod Answers
pub mod Responses
pub mod Subscribes
pub mod Calls
use moqtopus.Common.{
  ℕ, zero, suc, ◌+◌, ◌≤◌, ◌<◌, ◌==◌, ◌≡◌, ◌⊎◌, refl, sym, ◌∙◌, arith, length, Bool, true, false,
  not, ◌&&◌, ◌||◌, List, [], ◌∷◌, ◌++◌, Option, none, some, inl, inr, Bool-cases, Option-cases,
  if◌then◌else◌, find, erase, insert, find-erase, find-insert, get_elem?, set, get_elem?-set,
  get_elem?-set_ne, ==→eq,
}
use moqtopus.Codec.Objects.{is_some}
use moqtopus.Subscriber.{
  SubscriptionPhase, SubscriptionRequest, Outcome, State, is_terminated, request_at,
}

unfoldable pub rank : SubscriptionPhase → ℕ
rank SubscriptionPhase.pending = 0
rank SubscriptionPhase.established = 1
rank SubscriptionPhase.update_failed = 2
rank SubscriptionPhase.terminated = 3

-- How a phase changes: `calm` is a change that only ends requests, as every call of the application is.
abbrev pub Moves : Bool → SubscriptionPhase → SubscriptionPhase → Type 0
Moves true a b = (b ≡ a) ⊎ (b ≡ SubscriptionPhase.terminated)
Moves false a b = rank a ≤ rank b

pub Moves-refl : (calm : Bool) (a : SubscriptionPhase) → Moves calm a a
Moves-refl true a = inl refl
Moves-refl false a = omega arith

Moves-trans :
    (calm : Bool) (a b c : SubscriptionPhase) → Moves calm a b → Moves calm b c → Moves calm a c
Moves-trans true a b c (inl p) (inl q) = inl (q ∙ p)
Moves-trans true a b c (inr p) (inl q) = inr (q ∙ p)
Moves-trans true a b c p (inr q) = inr q
Moves-trans false a b c p q = omega (arith, p, q)

-- No phase lies behind the last.
pub Moves_last : (calm : Bool) (a : SubscriptionPhase) → Moves calm a SubscriptionPhase.terminated
unfolding rank
Moves_last true a = inr refl
Moves_last false SubscriptionPhase.pending = omega arith
Moves_last false SubscriptionPhase.established = omega arith
Moves_last false SubscriptionPhase.update_failed = omega arith
Moves_last false SubscriptionPhase.terminated = omega arith

-- A calm change goes forward.
loosen_moves : (a b : SubscriptionPhase) → Moves true a b → Moves false a b
loosen_moves a b (inl same) = rw same (Moves-refl false a)
loosen_moves a b (inr over) = rw over (Moves_last false a)

-- A request holds the promise of its SUBSCRIBE while it is pending and no other then; it has an alias
-- behind SUBSCRIBE_OK, and promises of updates only while it is established; and it holds none at its end.
abbrev pub Tidy : SubscriptionPhase → SubscriptionRequest → Type 0
Tidy SubscriptionPhase.pending r =
    (r.updates ≡ []) × (r.track_alias ≡ none) × (is_some r.result ≡ true)
Tidy SubscriptionPhase.established r = (r.result ≡ none) × (is_some r.track_alias ≡ true)
Tidy SubscriptionPhase.update_failed r =
    (r.result ≡ none) × (is_some r.track_alias ≡ true) × (r.updates ≡ [])
Tidy SubscriptionPhase.terminated r = (r.result ≡ none) × (r.updates ≡ [])

abbrev pub IsTidy : SubscriptionRequest → Type 0
IsTidy r = Tidy r.phase r

-- The request has yet to settle the promise.
unfoldable pub is_in : ℕ → List ℕ → Bool
is_in p [] = false
is_in p (x ∷ xs) = x == p || is_in p xs

unfoldable pub is_result : ℕ → Option ℕ → Bool
is_result p none = false
is_result p (some x) = x == p

unfoldable pub holds : ℕ → SubscriptionRequest → Bool
holds p r = is_result p r.result || is_in p r.updates

module _ {W : Type 0} where
  abbrev pub is_settled : ℕ → State W → Bool
  is_settled p s = is_some (find p s.settled)

  -- The request of the table's entry.
  pub record Entry (s : State W) (id ref : ℕ) : Type 0 where
    pub request : SubscriptionRequest
    pub there : request_at ref s ≡ some request
    pub named : request.request_id ≡ id
    pub live : is_terminated request.phase ≡ false
    pub below : id < s.session.next_request_id

  -- The requests are tidy, and the table has those that are not terminated, each under its Request ID,
  -- which was given out.
  pub record IsSound (s : State W) : Type 0 where
    pub tidy : (ref : ℕ) (r : SubscriptionRequest) → request_at ref s ≡ some r → IsTidy r
    pub listed :
        (ref : ℕ) (r : SubscriptionRequest)
        → request_at ref s ≡ some r
        → is_terminated r.phase ≡ false
        → find r.request_id s.subscriptions ≡ some ref
    pub entries : (id ref : ℕ) → find id s.subscriptions ≡ some ref → Entry s id ref

  -- What became of a request.
  pub record Became (calm : Bool) (s t : State W) (ref : ℕ) (r : SubscriptionRequest) : Type 0 where
    pub request : SubscriptionRequest
    pub there : request_at ref t ≡ some request
    pub named : request.request_id ≡ r.request_id
    pub forward : Moves calm r.phase request.phase
    pub promises : (p : ℕ) → holds p r ≡ true → (holds p request ≡ true) ⊎ (is_settled p t ≡ true)

  -- Requests stay and their phases do not go back, a promise that a request held is still held by it or is
  -- settled, what a promise is settled with stays, and new entries of the table have new Request IDs.
  pub record Later (calm : Bool) (s t : State W) : Type 0 where
    pub became :
        (ref : ℕ) (r : SubscriptionRequest) → request_at ref s ≡ some r → Became calm s t ref r
    pub settled : (p : ℕ) (o : Outcome) → find p s.settled ≡ some o → find p t.settled ≡ some o
    pub ids : s.session.next_request_id ≤ t.session.next_request_id
    pub fresh :
        (id ref : ℕ)
        → find id t.subscriptions ≡ some ref
        → (find id s.subscriptions ≡ some ref) ⊎ (s.session.next_request_id ≤ id)

  -- A change from a sound state leads to a sound one, and on.
  abbrev pub Goes : Bool → State W → State W → Type 0
  Goes calm s t = IsSound s → IsSound t × Later calm s t

  pub settled_on :
      (s t : State W)
      → ((p : ℕ) (o : Outcome) → find p s.settled ≡ some o → find p t.settled ≡ some o)
      → (p : ℕ) → is_settled p s ≡ true
      → is_settled p t ≡ true
  settled_on s t on p e = elim (Option-cases (find p s.settled)) [
    | inl open_still ↦ absurd (ground (arith, e, open_still))
    | inr (o, known) ↦ rw (on p o known) refl
  ]

  pub Later-refl : (calm : Bool) (s : State W) → Later calm s s
  Later-refl calm s = record {
    became = λ ref r e. record {
      request = r;
      there = e;
      named = refl;
      forward = Moves-refl calm _;
      promises = λ p h. inl h;
    };
    settled = λ p o e. e;
    ids = omega arith;
    fresh = λ id ref e. inl e;
  }

  pub Later-trans :
      (calm : Bool) (s t u : State W) → Later calm s t → Later calm t u → Later calm s u
  Later-trans calm s t u a b = record {
    became = λ ref r e.
        let x = a.became ref r e in
        let y = b.became ref x.request x.there in
        record {
          request = y.request;
          there = y.there;
          named = y.named ∙ x.named;
          forward = Moves-trans calm _ _ _ x.forward y.forward;
          promises = λ p h. elim (x.promises p h) [
            | inl held ↦ y.promises p held
            | inr done ↦ inr (settled_on t u b.settled p done)
          ];
        };
    settled = λ p o e. b.settled p o (a.settled p o e);
    ids = omega (arith, a.ids, b.ids);
    fresh = λ id ref e. elim (b.fresh id ref e) [
      | inl old ↦ a.fresh id ref old
      | inr new ↦ inr (omega (arith, a.ids, new))
    ];
  }

  pub Goes-refl : (calm : Bool) (s : State W) → Goes calm s s
  Goes-refl calm s h = (h, Later-refl calm s)

  pub Goes-trans : (calm : Bool) (s t u : State W) → Goes calm s t → Goes calm t u → Goes calm s u
  Goes-trans calm s t u a b h =
      let (ht, st) = a h in let (hu, tu) = b ht in (hu, Later-trans calm s t u st tu)

  -- A change of other members only, by which promises may be settled.
  pub record Aside (s t : State W) : Type 0 where
    pub requests : t.requests ≡ s.requests
    pub subscriptions : t.subscriptions ≡ s.subscriptions
    pub ids : s.session.next_request_id ≤ t.session.next_request_id
    pub settled : (p : ℕ) (o : Outcome) → find p s.settled ≡ some o → find p t.settled ≡ some o

  pub Aside-Goes : (calm : Bool) (s t : State W) → Aside s t → Goes calm s t
  Aside-Goes calm s t a h = (
    record {
      tidy = λ ref r e. h.tidy ref r (rw a.requests at e);
      listed = λ ref r e live. rw a.subscriptions (h.listed ref r (rw a.requests at e) live);
      entries = λ id ref e.
          let x = h.entries id ref (rw a.subscriptions at e) in
          record {
            request = x.request;
            there = rw a.requests x.there;
            named = x.named;
            live = x.live;
            below = omega (arith, x.below, a.ids);
          };
    },
    record {
      became = λ ref r e. record {
        request = r;
        there = rw a.requests e;
        named = refl;
        forward = Moves-refl calm _;
        promises = λ p held. inl held;
      };
      settled = a.settled;
      ids = a.ids;
      fresh = λ id ref e. inl (rw a.subscriptions at e);
    },
  )

  pub loosen : (s t : State W) → Goes true s t → Goes false s t
  loosen s t g h =
      let (ht, l) = g h in
      (
        ht,
        record {
          became = λ ref r e.
              let b = l.became ref r e in
              record {
                request = b.request;
                there = b.there;
                named = b.named;
                forward = loosen_moves r.phase b.request.phase b.forward;
                promises = b.promises;
              };
          settled = l.settled;
          ids = l.ids;
          fresh = l.fresh;
        },
      )
