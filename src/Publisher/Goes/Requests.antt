-- ===== src/Publisher/Goes/Requests.antt =====
-- The changes of one request in src/publisher_session.cpp: its buffer, and its end.
use moqtopus.Common.{
  ℕ, ◌==◌, ◌≡◌, ◌⊎◌, refl, sym, ◌∙◌, ap, arith, true, false, none, some, inl, inr, Bool-cases, find,
  erase, find-erase, length-erase, set, get_elem?-set, get_elem?-set_ne, ==→eq,
}
use moqtopus.Publisher.{SubscriptionRequest, State, request_at}
use moqtopus.Publisher.Goes.{Entry, Became, Goes}

module _ {W : Type 0} where
  -- The request at `ref` is `r` before and `r'` behind.
  pub record Replaced (s t : State W) (ref : ℕ) (r r' : SubscriptionRequest) : Type 0 where
    pub before : request_at ref s ≡ some r
    pub requests : t.requests ≡ set s.requests ref r'
    pub named : r'.request_id ≡ r.request_id
    pub over : r.is_over ≡ true → r'.is_over ≡ true
    pub peer_request_ids : t.peer_request_ids ≡ s.peer_request_ids
    pub limit : t.max_subscriptions ≡ s.max_subscriptions

  module _ (s t : State W) (ref : ℕ) (r r' : SubscriptionRequest) (c : Replaced s t ref r r') where
    here : request_at ref t ≡ some r'
    here = rw c.requests (get_elem?-set s.requests ref r r' c.before)

    elsewhere : (other : ℕ) → (ref == other) ≡ false → request_at other t ≡ request_at other s
    elsewhere other ne = rw c.requests (get_elem?-set_ne s.requests ref other r' ne)

    -- A request behind is the new one, or it was there.
    which :
        (other : ℕ) (x : SubscriptionRequest)
        → request_at other t ≡ some x
        → ((ref ≡ other) × (r' ≡ x)) ⊎ (((ref == other) ≡ false) × (request_at other s ≡ some x))
    which other x e = elim (Bool-cases (ref == other)) [
      | inl same ↦
          let eq = ==→eq ref other same in
          let found : request_at ref t ≡ some x = rw eq e in
          let both : some r' ≡ some x = sym here ∙ found in inl (eq, cc)
      | inr ne ↦ inr (ne, sym (elsewhere other ne) ∙ e)
    ]

    Became-behind :
        (other : ℕ) (x : SubscriptionRequest) → request_at other s ≡ some x → Became t other x
    Became-behind other x e = elim (Bool-cases (ref == other)) [
      | inl same ↦
          let eq = ==→eq ref other same in
          let found : request_at ref s ≡ some x = rw eq e in
          let both : some r ≡ some x = sym c.before ∙ found in
          let old : r ≡ x = cc in
          record {
            request = r';
            there = rw (← eq) here;
            named = rw (← old) c.named;
            over = rw (← old) c.over;
          }
      | inr ne ↦ record { request = x; there = elsewhere other ne ∙ e; named = refl; over = λ h. h }
    ]

    -- The request that an entry of the table names.
    entry_behind :
        (id other : ℕ) → ((ref ≡ other) → r'.is_over ≡ false) → Entry s id other → Entry t id other
    entry_behind id other alive x = elim (Bool-cases (ref == other)) [
      | inl same ↦
          let eq = ==→eq ref other same in
          let found : request_at ref s ≡ some x.request = rw eq x.there in
          let both : some r ≡ some x.request = sym c.before ∙ found in
          let old : r ≡ x.request = cc in
          record {
            request = r';
            there = rw (← eq) here;
            named = c.named ∙ (ap (λ (y : SubscriptionRequest). y.request_id) old ∙ x.named);
            live = alive eq;
            known = rw c.peer_request_ids x.known;
          }
      | inr ne ↦ record {
        request = x.request;
        there = elsewhere other ne ∙ x.there;
        named = x.named;
        live = x.live;
        known = rw c.peer_request_ids x.known;
      }
    ]

    -- A change that does not end the request.
    pub changed-Goes : r'.is_over ≡ r.is_over → t.subscriptions ≡ s.subscriptions → Goes s t
    changed-Goes alike table h = (
      record {
        listed = λ other x e live. elim (which other x e) [
          | inl (eq, new) ↦
              let alive : r'.is_over ≡ false = rw new live in
              let listed = h.listed ref r c.before (sym alike ∙ alive) in
              rw (table, ← new, c.named, ← eq) listed
          | inr (ne, old) ↦ rw table (h.listed other x old live)
        ];
        entries = λ id other e.
            let x = h.entries id other (rw table at e) in
            entry_behind id other
              (λ eq.
                let found : request_at ref s ≡ some x.request = rw eq x.there in
                let both : some r ≡ some x.request = sym c.before ∙ found in
                let old : r ≡ x.request = cc in
                alike ∙ (ap (λ (y : SubscriptionRequest). y.is_over) old ∙ x.live))
              x;
        odd = λ id e. h.odd id (rw c.peer_request_ids at e);
        limited = rw (table, c.limit) h.limited;
      },
      record {
        became = Became-behind;
        used = λ id e. rw c.peer_request_ids e;
        fresh = λ id other e. inl (rw table at e);
        limit = c.limit;
      },
    )

    left_over :
        (id other : ℕ)
        → t.subscriptions ≡ erase r.request_id s.subscriptions
        → find id t.subscriptions ≡ some other
        → ((r.request_id == id) ≡ false) × (find id s.subscriptions ≡ some other)
    left_over id other table e = elim (Bool-cases (r.request_id == id)) [
      | inl same ↦
          let gone : find id (erase r.request_id s.subscriptions) ≡ some other = rw table at e in
          let none_left : none ≡ some other =
            rw (find-erase r.request_id id s.subscriptions, same) at gone in
          absurd (cc)
      | inr differs ↦
          let left : find id (erase r.request_id s.subscriptions) ≡ some other = rw table at e in
          (differs, rw (find-erase r.request_id id s.subscriptions, differs) at left)
    ]

    -- The end of the request, which takes its entry, and no other, out of the table.
    pub ended-Goes :
        r'.is_over ≡ true
        → t.subscriptions ≡ erase r.request_id s.subscriptions
        → ((other : ℕ) → find r.request_id s.subscriptions ≡ some other → ref ≡ other)
        → Goes s t
    ended-Goes over table alone h = (
      record {
        listed = λ other x e live. elim (which other x e) [
          | inl (eq, new) ↦
              let still : r'.is_over ≡ false = rw new live in
              let both : true ≡ false = sym over ∙ still in absurd (cc)
          | inr (ne, old) ↦ elim (Bool-cases (r.request_id == x.request_id)) [
            | inl same ↦
                let eq = ==→eq r.request_id x.request_id same in
                let mine : find r.request_id s.subscriptions ≡ some other =
                  rw eq (h.listed other x old live) in
                absurd (ground (arith, alone other mine, ne))
            | inr differs ↦
                rw (table, find-erase r.request_id x.request_id s.subscriptions, differs)
                  (h.listed other x old live)
          ]
        ];
        entries = λ id other e.
            let (differs, old) = left_over id other table e in
            let x = h.entries id other old in
            entry_behind id other
              (λ eq.
                let found : request_at ref s ≡ some x.request = rw eq x.there in
                let both : some r ≡ some x.request = sym c.before ∙ found in
                let same : r ≡ x.request = cc in
                let named : r.request_id ≡ id =
                  ap (λ (y : SubscriptionRequest). y.request_id) same ∙ x.named in
                absurd (ground (arith, differs, named)))
              x;
        odd = λ id e. h.odd id (rw c.peer_request_ids at e);
        limited =
            rw (table, c.limit)
              (omega (arith, h.limited, length-erase r.request_id s.subscriptions));
      },
      record {
        became = Became-behind;
        used = λ id e. rw c.peer_request_ids e;
        fresh = λ id other e. inl (left_over id other table e).1;
        limit = c.limit;
      },
    )
