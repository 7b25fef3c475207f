-- ===== src/Publisher/Goes.antt =====
-- What a change of a publisher keeps, for src/publisher_session.cpp.
pub mod Requests
pub mod Added
pub mod Ends
pub mod Updates
pub mod Establish
pub mod Accepts
pub mod Calls
use moqtopus.Common.{
  ℕ, ◌≤◌, ◌%◌, ◌≡◌, ◌⊎◌, refl, ◌∙◌, sym, arith, length, Bool, true, false, List, Option, none, some,
  inl, inr, Bool-cases, find, Result, ok, err, Exception,
}
use moqtopus.Publisher.{SubscriptionRequest, State, Act, ◌>>=◌, request_at, catch}
use moqtopus.Publisher.Request.{is_member}
use moqtopus.Session.{Reason, raised}

outcome_cases :
    {A : Type 0} (outcome : Result A)
    → ((a : A) × (outcome ≡ ok a)) ⊎ ((error : Exception) × (outcome ≡ err error))
outcome_cases (ok a) = inl (a, refl)
outcome_cases (err error) = inr (error, refl)

module _ {W : Type 0} where
  -- The request of the table's entry.
  pub record Entry (s : State W) (id ref : ℕ) : Type 0 where
    pub request : SubscriptionRequest
    pub there : request_at ref s ≡ some request
    pub named : request.request_id ≡ id
    pub live : request.is_over ≡ false
    pub known : is_member id s.peer_request_ids ≡ true

  -- The table has the requests that are not over, each under its Request ID, which the peer has used; there
  -- are no more of them than the limit says, and the Request IDs of the peer are odd.
  pub record IsSound (s : State W) : Type 0 where
    pub listed :
        (ref : ℕ) (r : SubscriptionRequest)
        → request_at ref s ≡ some r
        → r.is_over ≡ false
        → find r.request_id s.subscriptions ≡ some ref
    pub entries : (id ref : ℕ) → find id s.subscriptions ≡ some ref → Entry s id ref
    pub odd : (id : ℕ) → is_member id s.peer_request_ids ≡ true → id % 2 ≡ 1
    pub limited : length s.subscriptions ≤ s.max_subscriptions

  -- What became of a request.
  pub record Became (t : State W) (ref : ℕ) (r : SubscriptionRequest) : Type 0 where
    pub request : SubscriptionRequest
    pub there : request_at ref t ≡ some request
    pub named : request.request_id ≡ r.request_id
    pub over : r.is_over ≡ true → request.is_over ≡ true

  -- Requests stay, and one that is over stays so; the peer's Request IDs stay used, and a new entry of the
  -- table has one that was not used.
  pub record Later (s t : State W) : Type 0 where
    pub became : (ref : ℕ) (r : SubscriptionRequest) → request_at ref s ≡ some r → Became t ref r
    pub used :
        (id : ℕ) → is_member id s.peer_request_ids ≡ true → is_member id t.peer_request_ids ≡ true
    pub fresh :
        (id ref : ℕ)
        → find id t.subscriptions ≡ some ref
        → (find id s.subscriptions ≡ some ref) ⊎ (is_member id s.peer_request_ids ≡ false)
    pub limit : t.max_subscriptions ≡ s.max_subscriptions

  -- A change from a sound state leads to a sound one, and on.
  abbrev pub Goes : State W → State W → Type 0
  Goes s t = IsSound s → IsSound t × Later s t

  pub Later-refl : (s : State W) → Later s s
  Later-refl s = record {
    became = λ ref r e. record { request = r; there = e; named = refl; over = λ h. h };
    used = λ id e. e;
    fresh = λ id ref e. inl e;
    limit = refl;
  }

  pub Later-trans : (s t u : State W) → Later s t → Later t u → Later s u
  Later-trans s t u a b = record {
    became = λ ref r e.
        let x = a.became ref r e in
        let y = b.became ref x.request x.there in
        record {
          request = y.request;
          there = y.there;
          named = y.named ∙ x.named;
          over = λ h. y.over (x.over h);
        };
    used = λ id e. b.used id (a.used id e);
    fresh = λ id ref e. elim (b.fresh id ref e) [
      | inl old ↦ a.fresh id ref old
      | inr new ↦ elim (Bool-cases (is_member id s.peer_request_ids)) [
        | inl used ↦ let both : true ≡ false = sym (a.used id used) ∙ new in absurd (cc)
        | inr unused ↦ inr unused
      ]
    ];
    limit = b.limit ∙ a.limit;
  }

  pub Goes-refl : (s : State W) → Goes s s
  Goes-refl s h = (h, Later-refl s)

  pub Goes-trans : (s t u : State W) → Goes s t → Goes t u → Goes s u
  Goes-trans s t u a b h =
      let (ht, st) = a h in let (hu, tu) = b ht in (hu, Later-trans s t u st tu)

  -- A change of other members only.
  pub record Aside (s t : State W) : Type 0 where
    pub requests : t.requests ≡ s.requests
    pub subscriptions : t.subscriptions ≡ s.subscriptions
    pub peer_request_ids : t.peer_request_ids ≡ s.peer_request_ids
    pub limit : t.max_subscriptions ≡ s.max_subscriptions

  pub Aside-refl : (s : State W) → Aside s s
  Aside-refl s = record {
    requests = refl;
    subscriptions = refl;
    peer_request_ids = refl;
    limit = refl;
  }

  pub Aside-trans : (s t u : State W) → Aside s t → Aside t u → Aside s u
  Aside-trans s t u a b = record {
    requests = b.requests ∙ a.requests;
    subscriptions = b.subscriptions ∙ a.subscriptions;
    peer_request_ids = b.peer_request_ids ∙ a.peer_request_ids;
    limit = b.limit ∙ a.limit;
  }

  pub Aside-Goes : (s t : State W) → Aside s t → Goes s t
  Aside-Goes s t a h = (
    record {
      listed = λ ref r e live. rw a.subscriptions (h.listed ref r (rw a.requests at e) live);
      entries = λ id ref e.
          let x = h.entries id ref (rw a.subscriptions at e) in
          record {
            request = x.request;
            there = rw a.requests x.there;
            named = x.named;
            live = x.live;
            known = rw a.peer_request_ids x.known;
          };
      odd = λ id e. h.odd id (rw a.peer_request_ids at e);
      limited = rw (a.subscriptions, a.limit) h.limited;
    },
    record {
      became =
          λ ref r e. record { request = r; there = rw a.requests e; named = refl; over = λ h. h };
      used = λ id e. rw a.peer_request_ids e;
      fresh = λ id ref e. inl (rw a.subscriptions at e);
      limit = a.limit;
    },
  )

  -- A call that may throw.
  abbrev pub ActGoes : {A : Type 0} → Act W A → Type 0
  ActGoes call = (s : State W) → Goes s (call s).1

  pub bind-Goes :
      {A B : Type 0} (call : Act W A) (rest : A → Act W B)
      → ActGoes call
      → ((a : A) → ActGoes (rest a))
      → ActGoes (call >>= rest)
  bind-Goes call rest first then_rest s = elim (outcome_cases (call s).0) [
    | inl (a, e) ↦ rw (◌>>=◌, e) (Goes-trans s (call s).1 _ (first s) (then_rest a _))
    | inr (error, e) ↦ rw (◌>>=◌, e) (first s)
  ]

  pub catch-Goes :
      (call : Act W (Unit {0})) (handler : Reason → State W → State W)
      → ActGoes call
      → ((reason : Reason) (s : State W) → Goes s (handler reason s))
      → (s : State W) → Goes s (catch call handler s)
  catch-Goes call handler first handled s = elim (outcome_cases (call s).0) [
    | inl (a, e) ↦ rw (catch, e) (first s)
    | inr (error, e) ↦
        rw (catch, e) (Goes-trans s (call s).1 _ (first s) (handled (raised error) _))
  ]
