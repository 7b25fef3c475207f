-- ===== src/Subscriber/Goes/Promises.antt =====
-- What the changes of promises and of the plane leave alone, in src/subscriber_session.cpp.
use moqtopus.Common.{
  ℕ, ◌==◌, ◌≡◌, refl, sym, ◌∙◌, ap, arith, true, List, [], ◌∷◌, Option, none, some, inl, inr,
  Bool-cases, Option-cases, find, insert, find-insert, ==→eq, ==_self,
}
use moqtopus.Receive
use moqtopus.Receive.Routes.{retire_route, deactivate}
use moqtopus.Subscriber.{
  SubscriptionPhase, SubscriptionRequest, Outcome, State, fail, set_value, fail_all, enter_plane,
}
use moqtopus.Subscriber.Request.{fail_result, retire}
use moqtopus.Subscriber.Goes.{is_in, is_result, is_settled, settled_on, Aside}

-- A new outcome leaves those that are there.
pub record_settled :
    (promise p : ℕ) (outcome o : Outcome) (m : List (ℕ × Outcome))
    → find promise m ≡ none
    → find p m ≡ some o
    → find p (insert promise outcome m) ≡ some o
record_settled promise p outcome o m open_still e = elim (Bool-cases (promise == p)) [
  | inl same ↦
      let known : find promise m ≡ some o = rw (==→eq promise p same) e in
      let both : none ≡ some o = sym open_still ∙ known in absurd (cc)
  | inr other ↦ rw (find-insert promise p outcome m, other) e
]

-- What `end_request` leaves at `ref`.
abbrev pub ended_request : SubscriptionRequest → SubscriptionRequest
ended_request r = record r { phase = SubscriptionPhase.terminated; updates = []; result = none }

pub retire_route-world :
    {X : Type 0} (alias : ℕ) (t : Receive.State X) → (retire_route alias t).world ≡ t.world
unfolding retire_route deactivate
retire_route-world alias t = ground arith

module _ {W : Type 0} where
  pub Aside-refl : (s : State W) → Aside s s
  Aside-refl s = record {
    requests = refl;
    subscriptions = refl;
    ids = omega arith;
    settled = λ p o e. e;
  }

  pub Aside-trans : (s t u : State W) → Aside s t → Aside t u → Aside s u
  Aside-trans s t u a b = record {
    requests = b.requests ∙ a.requests;
    subscriptions = b.subscriptions ∙ a.subscriptions;
    ids = omega (arith, a.ids, b.ids);
    settled = λ p o e. b.settled p o (a.settled p o e);
  }

  pub fail-Aside :
      (promise : ℕ) (outcome : Outcome) (s : State W) → Aside s (fail promise outcome s)
  unfolding fail
  fail-Aside promise outcome s = elim (Option-cases (find promise s.settled)) [
    | inr (o, known) ↦ rw (known, fail) (Aside-refl s)
    | inl open_still ↦
        rw (open_still, fail)
          (record {
            requests = refl;
            subscriptions = refl;
            ids = omega arith;
            settled = λ p o e. record_settled promise p outcome o s.settled open_still e;
          })
  ]

  pub set_value-Aside :
      (promise : ℕ) (outcome : Outcome) (s : State W) → Aside s (set_value promise outcome s)
  unfolding set_value
  set_value-Aside promise outcome s = elim (Option-cases (find promise s.settled)) [
    | inr (o, known) ↦
        rw (known, set_value)
          (record {
            requests = refl;
            subscriptions = refl;
            ids = omega arith;
            settled = λ p o e. e;
          })
    | inl open_still ↦
        rw (open_still, set_value)
          (record {
            requests = refl;
            subscriptions = refl;
            ids = omega arith;
            settled = λ p o e. record_settled promise p outcome o s.settled open_still e;
          })
  ]

  pub fail_all-Aside :
      (promises : List ℕ) (outcome : Outcome) (s : State W) → Aside s (fail_all promises outcome s)
  unfolding fail_all
  fail_all-Aside [] outcome s = Aside-refl s
  fail_all-Aside (promise ∷ promises) outcome s =
      Aside-trans _ _ _ (fail-Aside promise outcome s) (fail_all-Aside promises outcome _)

  pub fail_result-Aside :
      (result : Option ℕ) (outcome : Outcome) (s : State W) → Aside s (fail_result result outcome s)
  unfolding fail_result
  fail_result-Aside none outcome s = Aside-refl s
  fail_result-Aside (some promise) outcome s = fail-Aside promise outcome s

  pub retire-Aside : (alias : Option ℕ) (s : State W) → Aside s (retire alias s)
  unfolding retire
  retire-Aside none s = Aside-refl s
  retire-Aside (some alias) s =
      let same = retire_route-world alias (enter_plane s) in
      record {
        requests = ap (λ (x : State W). x.requests) same;
        subscriptions = ap (λ (x : State W). x.subscriptions) same;
        ids = rw same (omega arith);
        settled = λ p o e. rw same e;
      }

  -- The promises of a failed request are settled.
  pub fail_settles :
      (promise : ℕ) (outcome : Outcome) (s : State W)
      → is_settled promise (fail promise outcome s) ≡ true
  unfolding fail
  fail_settles promise outcome s = elim (Option-cases (find promise s.settled)) [
    | inr (o, known) ↦ rw (known, fail, known) refl
    | inl open_still ↦
        rw (open_still, fail, find-insert promise promise outcome s.settled, ==_self promise) refl
  ]

  pub set_value_settles :
      (promise : ℕ) (outcome : Outcome) (s : State W)
      → is_settled promise (set_value promise outcome s) ≡ true
  unfolding set_value
  set_value_settles promise outcome s = elim (Option-cases (find promise s.settled)) [
    | inr (o, known) ↦ rw (known, set_value, known) refl
    | inl open_still ↦
        rw (open_still, set_value, find-insert promise promise outcome s.settled, ==_self promise)
          refl
  ]

  pub stays_settled :
      (s t : State W) → Aside s t → (p : ℕ) → is_settled p s ≡ true → is_settled p t ≡ true
  stays_settled s t a = settled_on s t a.settled

  pub fail_all_settles :
      (p : ℕ) (promises : List ℕ) (outcome : Outcome) (s : State W)
      → is_in p promises ≡ true
      → is_settled p (fail_all promises outcome s) ≡ true
  unfolding fail_all is_in
  fail_all_settles p [] outcome s e = cc
  fail_all_settles p (x ∷ xs) outcome s e = elim (Bool-cases (x == p)) [
    | inl same ↦
        let first : is_settled p (fail x outcome s) ≡ true =
          rw (← ==→eq x p same) (fail_settles x outcome s) in
        stays_settled _ _ (fail_all-Aside xs outcome (fail x outcome s)) p first
    | inr other ↦ fail_all_settles p xs outcome (fail x outcome s) (rw other at e)
  ]

  pub fail_result_settles :
      (p : ℕ) (result : Option ℕ) (outcome : Outcome) (s : State W)
      → is_result p result ≡ true
      → is_settled p (fail_result result outcome s) ≡ true
  unfolding fail_result is_result
  fail_result_settles p none outcome s e = cc
  fail_result_settles p (some x) outcome s e = rw (← ==→eq x p e) (fail_settles x outcome s)
