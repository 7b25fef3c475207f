-- ===== src/Receive/Subgroup/Stream.antt =====
-- The loop over the objects of a subgroup stream, in src/data_plane.cpp: its fuel, and the receive
-- events that the bytes of a stream are split into.
use moqtopus.Common.{
  is_empty, not, ◌&&◌, get_elem?-set, Bool-cases, if◌then◌else◌, ℕ, zero, suc, ◌<◌, ◌≡◌, refl, sym,
  ◌∙◌, arith, length, length-append, Bool, true, false, List, ◌++◌, Option, none, some, inl, inr,
}
use moqtopus.Receive.{object_cut_short, SubgroupReceiver, State, Owner, Fault, receiver_at}
use moqtopus.Receive.Parse.{Parse, done, need_more_data, failed, ObjectFields, parse_object_fields}
use moqtopus.Receive.Parse.Streaming.{IsSteady-parse_object_fields, parse_object_fields_shrinks}
use moqtopus.Receive.Subgroup.{is_closed, update, fail, accept_object, object_loop}

module _ {W : Type 0} (owner : Owner W) (ref : ℕ) where
  loop_stops :
      (n : ℕ) (fin : Bool) (c : List ℕ) (s : State W)
      → is_closed owner ref s ≡ true
      → object_loop owner (suc n) ref fin c s ≡ (c, s)
  unfolding object_loop
  loop_stops n fin c s e = ground arith

  module _ (r : SubgroupReceiver) (s : State W) (there : receiver_at ref s ≡ some r)
      (live : r.closed ≡ false) where
    pub loop_done :
        (n : ℕ) (fin : Bool) (c rest : List ℕ) (f : ObjectFields)
        → parse_object_fields r.stream_id r.properties_per_object c ≡ done (f, rest)
        → object_loop owner (suc n) ref fin c s
          ≡ object_loop owner n ref fin rest (accept_object owner ref r f s)
    unfolding object_loop
    loop_done n fin c rest f e = simp (there, live, e, object_loop) refl

    loop_failed :
        (n : ℕ) (fin : Bool) (c : List ℕ) (x : Fault)
        → parse_object_fields r.stream_id r.properties_per_object c ≡ failed x
        → object_loop owner (suc n) ref fin c s ≡ (c, fail owner ref x s)
    unfolding object_loop
    loop_failed n fin c x e = rw (there, live, e, object_loop) refl

    loop_waits :
        (n : ℕ) (c : List ℕ)
        → parse_object_fields r.stream_id r.properties_per_object c ≡ need_more_data
        → object_loop owner (suc n) ref false c s ≡ (c, s)
    unfolding object_loop
    loop_waits n c e = rw (there, live, e, object_loop) refl

    -- The answer when the bytes run out does not depend on the fuel.
    pub loop_ends :
        (n : ℕ) (fin : Bool) (c : List ℕ)
        → parse_object_fields r.stream_id r.properties_per_object c ≡ need_more_data
        → object_loop owner (suc n) ref fin c s
          ≡ (if fin && not (is_empty c) then (c, fail owner ref object_cut_short s) else (c, s))
    unfolding object_loop
    loop_ends n fin c e = rw (there, live, e, object_loop) refl

  -- What one turn of the loop finds.
  data Turn (c : List ℕ) (s : State W) : Type 0 where
    stopped : is_closed owner ref s ≡ true → Turn c s
    parsed :
        (r : SubgroupReceiver)
        → receiver_at ref s ≡ some r
        → r.closed ≡ false
        → (f : ObjectFields) (rest : List ℕ)
        → parse_object_fields r.stream_id r.properties_per_object c ≡ done (f, rest)
        → Turn c s
    waiting :
        (r : SubgroupReceiver)
        → receiver_at ref s ≡ some r
        → r.closed ≡ false
        → parse_object_fields r.stream_id r.properties_per_object c ≡ need_more_data
        → Turn c s
    broken :
        (r : SubgroupReceiver)
        → receiver_at ref s ≡ some r
        → r.closed ≡ false
        → (x : Fault) → parse_object_fields r.stream_id r.properties_per_object c ≡ failed x
        → Turn c s

  turn : (c : List ℕ) (s : State W) → Turn c s
  turn c s = at_ref (receiver_at ref s) refl
    where
      bytes :
          (r : SubgroupReceiver) (o : Parse (ObjectFields × List ℕ))
          → receiver_at ref s ≡ some r
          → r.closed ≡ false
          → parse_object_fields r.stream_id r.properties_per_object c ≡ o
          → Turn c s
      bytes r (done (f, rest)) p live q = parsed r p live f rest q
      bytes r need_more_data p live q = waiting r p live q
      bytes r (failed x) p live q = broken r p live x q

      at_ref : (o : Option SubgroupReceiver) → receiver_at ref s ≡ o → Turn c s
      at_ref none p = stopped (rw (p, is_closed) refl)
      at_ref (some r) p = elim (Bool-cases r.closed) [
        | inl e ↦ stopped (rw (p, is_closed) e)
        | inr live ↦ bytes r _ p live refl
      ]

  -- The loop over the objects of a subgroup stream ends of itself: with more fuel than there are
  -- bytes its result does not depend on the fuel.
  pub object_loop_enough_fuel :
      (n k : ℕ) (fin : Bool) (c : List ℕ) (s : State W)
      → length c < n
      → length c < k
      → object_loop owner n ref fin c s ≡ object_loop owner k ref fin c s
  object_loop_enough_fuel zero k fin c s p q = absurd (omega arith)
  object_loop_enough_fuel (suc n) zero fin c s p q = absurd (omega arith)
  object_loop_enough_fuel (suc n) (suc k) fin c s p q = elim (turn c s) [
    | stopped e ↦ loop_stops n fin c s e ∙ sym (loop_stops k fin c s e)
    | parsed r there live f rest e ↦
        let shorter = parse_object_fields_shrinks _ _ c f rest e in
        loop_done r s there live n fin c rest f e
        ∙ object_loop_enough_fuel n k fin rest _ (omega arith) (omega arith)
        ∙ sym (loop_done r s there live k fin c rest f e)
    | waiting r there live e ↦
        loop_ends r s there live n fin c e ∙ sym (loop_ends r s there live k fin c e)
    | broken r there live x e ↦
        loop_failed r s there live n fin c x e ∙ sym (loop_failed r s there live k fin c x e)
  ]

  fail-closes :
      (x : Fault) (s : State W) (r : SubgroupReceiver)
      → ((t : State W)
          → is_closed owner ref t ≡ true
          → is_closed owner ref (owner.protocol_error x t) ≡ true)
      → receiver_at ref s ≡ some r
      → is_closed owner ref (fail owner ref x s) ≡ true
  unfolding fail
  fail-closes x s r keeps there =
      keeps _ (rw (there, update) (rw (get_elem?-set _ ref r _ there, is_closed) refl))

  loop_split :
      ((x : Fault) (t : State W)
        → is_closed owner ref t ≡ true
        → is_closed owner ref (owner.protocol_error x t) ≡ true)
      → (m n k : ℕ) (fin : Bool) (c more : List ℕ) (s : State W) → length c < m
      → length (c ++ more) < n
      → length ((object_loop owner m ref false c s).0 ++ more) < k
      → object_loop owner n ref fin (c ++ more) s
        ≡ object_loop owner k ref fin
            ((object_loop owner m ref false c s).0 ++ more)
            (object_loop owner m ref false c s).1
  loop_split keeps zero n k fin c more s p q h = absurd (omega arith)
  loop_split keeps (suc m) zero k fin c more s p q h = absurd (omega arith)
  loop_split keeps (suc m) (suc n) zero fin c more s p q h = absurd (omega arith)
  loop_split keeps (suc m) (suc n) (suc k) fin c more s p q h = elim (turn c s) [
    | stopped e ↦
        rw (loop_stops m false c s e) (loop_stops n fin _ s e ∙ sym (loop_stops k fin _ s e))
    | parsed r there live f rest e ↦
        let shorter = parse_object_fields_shrinks _ _ c f rest e in
        let later = (IsSteady-parse_object_fields _ _).onward c more f rest e in
        let first = loop_done r s there live m false c rest f e in
        let h' = rw first at h in
        rw first (
          loop_done r s there live n fin _ _ f later
          ∙ loop_split keeps m n (suc k) fin rest more _ (omega arith)
              (omega (arith, length-append rest more, length-append c more)) h')
    | waiting r there live e ↦
        let first = loop_waits r s there live m c e in
        let h' = rw first at h in
        rw first (object_loop_enough_fuel (suc n) (suc k) fin (c ++ more) s q h')
    | broken r there live x e ↦
        let later = (IsSteady-parse_object_fields _ _).errs c more x e in
        let first = loop_failed r s there live m false c x e in
        rw first (
          loop_failed r s there live n fin _ x later
          ∙ sym (loop_stops k fin _ _ (fail-closes x s r (keeps x) there)))
  ]

  -- Running the object loop of a subgroup stream on some bytes, and then on what that left in
  -- front of further bytes, ends in the same state and with the same rest as running it on all of
  -- the bytes, for an owner that leaves a closed receiver closed when it reports an error to it.
  pub object_loop_split :
      ((x : Fault) (t : State W)
        → is_closed owner ref t ≡ true
        → is_closed owner ref (owner.protocol_error x t) ≡ true)
      → (fin : Bool) (c more : List ℕ) (s : State W)
      → let first = object_loop owner (suc (length c)) ref false c s in
        object_loop owner (suc (length (c ++ more))) ref fin (c ++ more) s
        ≡ object_loop owner (suc (length (first.0 ++ more))) ref fin (first.0 ++ more) first.1
  object_loop_split keeps fin c more s =
      loop_split keeps _ _ _ fin c more s (omega arith) (omega arith) (omega arith)
