-- ===== src/Subscriber/Goes/Added.antt =====
-- A new request in src/subscriber_session.cpp, with its entry of the table.
use moqtopus.Common.{
  ℕ, ◌≤◌, ◌<◌, ◌==◌, ◌≡◌, ◌⊎◌, refl, sym, ◌∙◌, arith, length, Bool, false, [], ◌∷◌, ◌++◌, none,
  some, inl, inr, Bool-cases, if◌then◌else◌, find, insert, find-insert, get_elem?-append,
  get_elem?-append_new, get_elem?-append_cases, ==→eq, ==_self,
}
use moqtopus.Subscriber.{SubscriptionRequest, Outcome, State, is_terminated, request_at}
use moqtopus.Subscriber.Goes.{IsTidy, Entry, IsSound, Later, settled_on}

module _ {W : Type 0} where
  -- A new request at the end of the heap, with an entry of the table.
  pub record Added (s t : State W) (r : SubscriptionRequest) : Type 0 where
    pub requests : t.requests ≡ s.requests ++ (r ∷ [])
    pub subscriptions : t.subscriptions ≡ insert r.request_id (length s.requests) s.subscriptions
    pub tidy : IsTidy r
    pub live : is_terminated r.phase ≡ false
    pub new : find r.request_id s.subscriptions ≡ none
    pub below : r.request_id < t.session.next_request_id
    pub ids : s.session.next_request_id ≤ t.session.next_request_id
    pub settled : (p : ℕ) (o : Outcome) → find p s.settled ≡ some o → find p t.settled ≡ some o

  module _ (calm : Bool) (s t : State W) (r : SubscriptionRequest) (c : Added s t r) where
    stays :
        (other : ℕ) (x : SubscriptionRequest)
        → request_at other s ≡ some x
        → request_at other t ≡ some x
    stays other x e = rw c.requests (get_elem?-append s.requests (r ∷ []) other x e)

    arrives : request_at (length s.requests) t ≡ some r
    arrives = rw c.requests (get_elem?-append_new s.requests r)

    origin :
        (other : ℕ) (x : SubscriptionRequest)
        → request_at other t ≡ some x
        → ((other ≡ length s.requests) × (r ≡ x)) ⊎ (request_at other s ≡ some x)
    origin other x e = get_elem?-append_cases s.requests r x other (rw c.requests at e)

    -- What the table of the new state has.
    looked_up :
        (id : ℕ)
        → find id t.subscriptions
          ≡ (if r.request_id == id then some (length s.requests) else find id s.subscriptions)
    looked_up id =
        rw c.subscriptions (find-insert r.request_id id (length s.requests) s.subscriptions)

    entry_of : IsSound s → (id other : ℕ) → find id t.subscriptions ≡ some other → Entry t id other
    entry_of h id other e = elim (Bool-cases (r.request_id == id)) [
      | inl same ↦
          let found : some (length s.requests) ≡ some other = rw (looked_up id, same) at e in
          let at : length s.requests ≡ other = cc in
          record {
            request = r;
            there = rw (← at) arrives;
            named = ==→eq r.request_id id same;
            live = c.live;
            below = rw (← ==→eq r.request_id id same) c.below;
          }
      | inr differs ↦
          let x = h.entries id other (rw (looked_up id, differs) at e) in
          record {
            request = x.request;
            there = stays other x.request x.there;
            named = x.named;
            live = x.live;
            below = omega (arith, x.below, c.ids);
          }
    ]

    pub added-IsSound : IsSound s → IsSound t
    added-IsSound h = record {
      tidy = λ other x e. elim (origin other x e) [
        | inl (at, new) ↦ rw (← new) c.tidy
        | inr old ↦ h.tidy other x old
      ];
      listed = λ other x e live. elim (origin other x e) [
        | inl (at, new) ↦ rw (← new, at, looked_up r.request_id, ==_self r.request_id) refl
        | inr old ↦ elim (Bool-cases (r.request_id == x.request_id)) [
          | inl same ↦
              let found = h.listed other x old live in
              let eq = ==→eq r.request_id x.request_id same in
              let lost : find r.request_id s.subscriptions ≡ some other = rw eq found in
              let never : none ≡ some other = sym c.new ∙ lost in absurd (cc)
          | inr differs ↦ rw (looked_up x.request_id, differs) (h.listed other x old live)
        ]
      ];
      entries = entry_of h;
    }

    -- The new Request ID was given out behind `u`.
    pub added-Later :
        (u : State W) → Later calm u s → u.session.next_request_id ≤ r.request_id → Later calm u t
    added-Later u l given = record {
      became = λ ref x e.
          let b = l.became ref x e in
          record {
            request = b.request;
            there = stays ref b.request b.there;
            named = b.named;
            forward = b.forward;
            promises = λ p held. elim (b.promises p held) [
              | inl still ↦ inl still
              | inr done ↦ inr (settled_on s t c.settled p done)
            ];
          };
      settled = λ p o e. c.settled p o (l.settled p o e);
      ids = omega (arith, l.ids, c.ids);
      fresh = λ id other e. elim (Bool-cases (r.request_id == id)) [
        | inl same ↦ inr (omega (arith, given, ==→eq r.request_id id same))
        | inr differs ↦ l.fresh id other (rw (looked_up id, differs) at e)
      ];
    }
