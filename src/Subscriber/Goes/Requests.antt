-- ===== src/Subscriber/Goes/Requests.antt =====
-- The changes of one request in src/subscriber_session.cpp: a member, and its end.
use moqtopus.Common.{
  ℕ, ◌≤◌, ◌==◌, ◌≡◌, ◌⊎◌, refl, sym, ◌∙◌, ap, arith, Bool, true, false, none, some, inl, inr,
  Bool-cases, find, erase, find-erase, set, get_elem?-set, get_elem?-set_ne, ==→eq,
}
use moqtopus.Subscriber.{SubscriptionRequest, Outcome, State, is_terminated, request_at}
use moqtopus.Subscriber.Goes.{IsTidy, Moves, Moves-refl, holds, is_settled, Entry, Became, Goes}

module _ {W : Type 0} where
  -- The request at `ref` is `r` before and `r'` behind, and the promises that it held are seen to.
  pub record Replaced (calm : Bool) (s t : State W) (ref : ℕ) (r r' : SubscriptionRequest)
      : Type 0 where
    pub before : request_at ref s ≡ some r
    pub requests : t.requests ≡ set s.requests ref r'
    pub named : r'.request_id ≡ r.request_id
    pub forward : Moves calm r.phase r'.phase
    pub tidy : IsTidy r'
    pub promises : (p : ℕ) → holds p r ≡ true → (holds p r' ≡ true) ⊎ (is_settled p t ≡ true)
    pub ids : s.session.next_request_id ≤ t.session.next_request_id
    pub settled : (p : ℕ) (o : Outcome) → find p s.settled ≡ some o → find p t.settled ≡ some o

  module _ (calm : Bool) (s t : State W) (ref : ℕ) (r r' : SubscriptionRequest)
      (c : Replaced calm s t ref r r') where
    here : request_at ref t ≡ some r'
    here = rw c.requests (get_elem?-set s.requests ref r r' c.before)

    elsewhere : (other : ℕ) → (ref == other) ≡ false → request_at other t ≡ request_at other s
    elsewhere other ne = rw c.requests (get_elem?-set_ne s.requests ref other r' ne)

    -- A request behind is the new one, or it was there.
    which :
        (other : ℕ) (x : SubscriptionRequest)
        → request_at other t ≡ some x
        → ((ref ≡ other) × (r' ≡ x)) ⊎ (((ref == other) ≡ false) × (request_at other s ≡ some x))
    which other x e = elim (Bool-cases (ref == other)) [
      | inl same ↦
          let eq = ==→eq ref other same in
          let found : request_at ref t ≡ some x = rw eq e in
          let both : some r' ≡ some x = sym here ∙ found in inl (eq, cc)
      | inr ne ↦ inr (ne, sym (elsewhere other ne) ∙ e)
    ]

    IsTidy-behind :
        ((other : ℕ) (x : SubscriptionRequest) → request_at other s ≡ some x → IsTidy x)
        → (other : ℕ) (x : SubscriptionRequest) → request_at other t ≡ some x
        → IsTidy x
    IsTidy-behind tidy other x e = elim (which other x e) [
      | inl (at, new) ↦ rw (← new) c.tidy
      | inr (ne, old) ↦ tidy other x old
    ]

    Became-behind :
        (other : ℕ) (x : SubscriptionRequest)
        → request_at other s ≡ some x
        → Became calm s t other x
    Became-behind other x e = elim (Bool-cases (ref == other)) [
      | inl same ↦
          let eq = ==→eq ref other same in
          let found : request_at ref s ≡ some x = rw eq e in
          let both : some r ≡ some x = sym c.before ∙ found in
          let old : r ≡ x = cc in
          record {
            request = r';
            there = rw (← eq) here;
            named = rw (← old) c.named;
            forward = rw (← old) c.forward;
            promises = λ p held. c.promises p (rw old held);
          }
      | inr ne ↦ record {
        request = x;
        there = elsewhere other ne ∙ e;
        named = refl;
        forward = Moves-refl calm _;
        promises = λ p held. inl held;
      }
    ]

    -- The request that an entry of the table names.
    entry_behind :
        (id other : ℕ)
        → ((ref ≡ other) → is_terminated r'.phase ≡ false)
        → Entry s id other
        → Entry t id other
    entry_behind id other alive x = elim (Bool-cases (ref == other)) [
      | inl same ↦
          let eq = ==→eq ref other same in
          let found : request_at ref s ≡ some x.request = rw eq x.there in
          let both : some r ≡ some x.request = sym c.before ∙ found in
          let old : r ≡ x.request = cc in
          record {
            request = r';
            there = rw (← eq) here;
            named = c.named ∙ (ap (λ (y : SubscriptionRequest). y.request_id) old ∙ x.named);
            live = alive eq;
            below = omega (arith, x.below, c.ids);
          }
      | inr ne ↦ record {
        request = x.request;
        there = elsewhere other ne ∙ x.there;
        named = x.named;
        live = x.live;
        below = omega (arith, x.below, c.ids);
      }
    ]

    -- A change that does not end the request.
    pub changed-Goes :
        is_terminated r'.phase ≡ is_terminated r.phase
        → t.subscriptions ≡ s.subscriptions
        → Goes calm s t
    changed-Goes alike table h = (
      record {
        tidy = IsTidy-behind h.tidy;
        listed = λ other x e live. elim (which other x e) [
          | inl (eq, new) ↦
              let alive : is_terminated r'.phase ≡ false = rw new live in
              let listed = h.listed ref r c.before (sym alike ∙ alive) in
              rw (table, ← new, c.named, ← eq) listed
          | inr (ne, old) ↦ rw table (h.listed other x old live)
        ];
        entries = λ id other e.
            let x = h.entries id other (rw table at e) in
            entry_behind id other
              (λ eq.
                let found : request_at ref s ≡ some x.request = rw eq x.there in
                let both : some r ≡ some x.request = sym c.before ∙ found in
                let old : r ≡ x.request = cc in
                alike ∙ (ap (λ (y : SubscriptionRequest). is_terminated y.phase) old ∙ x.live))
              x;
      },
      record {
        became = Became-behind;
        settled = c.settled;
        ids = c.ids;
        fresh = λ id other e. inl (rw table at e);
      },
    )

    -- The end of a request, which leaves the table.
    pub ended-Goes :
        is_terminated r.phase ≡ false
        → is_terminated r'.phase ≡ true
        → t.subscriptions ≡ erase r.request_id s.subscriptions
        → Goes calm s t
    ended-Goes live dead table h = (
      record {
        tidy = IsTidy-behind h.tidy;
        listed = λ other x e alive. elim (which other x e) [
          | inl (eq, new) ↦ let gone : is_terminated x.phase ≡ true = rw (← new) dead in absurd (cc)
          | inr (ne, old) ↦ elim (Bool-cases (r.request_id == x.request_id)) [
            | inl same ↦
                let eq = ==→eq _ _ same in
                let one = h.listed ref r c.before live in
                let two : find r.request_id s.subscriptions ≡ some other =
                  rw eq (h.listed other x old alive) in
                let both : some ref ≡ some other = sym one ∙ two in
                absurd (ground (arith, both, ne))
            | inr differs ↦
                rw (table, find-erase r.request_id x.request_id s.subscriptions, differs)
                  (h.listed other x old alive)
          ]
        ];
        entries = λ id other e.
            let (differs, found) = left_over id other table e in
            let x = h.entries id other found in
            entry_behind id other
              (λ eq.
                let at : request_at ref s ≡ some x.request = rw eq x.there in
                let both : some r ≡ some x.request = sym c.before ∙ at in
                let old : r ≡ x.request = cc in
                let named : r.request_id ≡ id =
                  ap (λ (y : SubscriptionRequest). y.request_id) old ∙ x.named in
                absurd (ground (arith, differs, named)))
              x;
      },
      record {
        became = Became-behind;
        settled = c.settled;
        ids = c.ids;
        fresh = λ id other e. inl (left_over id other table e).1;
      },
    )
      where
        left_over :
            (id other : ℕ)
            → t.subscriptions ≡ erase r.request_id s.subscriptions
            → find id t.subscriptions ≡ some other
            → ((r.request_id == id) ≡ false) × (find id s.subscriptions ≡ some other)
        left_over id other table e = elim (Bool-cases (r.request_id == id)) [
          | inl same ↦
              let gone : find id (erase r.request_id s.subscriptions) ≡ some other =
                rw table at e in
              let none_left : none ≡ some other =
                rw (find-erase r.request_id id s.subscriptions, same) at gone in
              absurd (cc)
          | inr differs ↦
              let left : find id (erase r.request_id s.subscriptions) ≡ some other =
                rw table at e in
              (differs, rw (find-erase r.request_id id s.subscriptions, differs) at left)
        ]
