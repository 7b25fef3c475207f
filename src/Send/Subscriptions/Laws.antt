-- ===== src/Send/Subscriptions/Laws.antt =====
-- `attach_subscription` and `detach_subscription` of src/send_data_plane.cpp, one after the other.
use moqtopus.Common.{
  ℕ, ◌==◌, ◌≡◌, ◌||◌, refl, ap, arith, Bool, false, List, [], ◌∷◌, Option, none, some, inl, inr,
  Bool-cases, find, insert, erase, find-insert, ==_self,
}
use moqtopus.Common.Keyed.{find_by, insert_by}
use moqtopus.Types.{TrackName, TrackNamespace, Location}
use moqtopus.Codec.Decoders.Options.{SubscriptionOptions}
use moqtopus.Send.{TrackKey, TrackEntry, SubscriptionSend, SendDataPlane, State, same_track}
use moqtopus.Send.Filter.{origin}
use moqtopus.Send.Subscriptions.{
  Refusal, track_at, put_track, find_track, wants_timeout, requested_range, add_to_set,
  remove_from_set, attach_subscription, forget, end_streams, detach_subscription,
}

-- `contains`
unfoldable pub is_in : ℕ → List ℕ → Bool
is_in id [] = false
is_in id (x ∷ xs) = x == id || is_in id xs

remove_from_set-add_to_set :
    (id : ℕ) (xs : List ℕ) → is_in id xs ≡ false → remove_from_set id (add_to_set id xs) ≡ xs
unfolding is_in remove_from_set add_to_set
remove_from_set-add_to_set id [] e = rw (==_self id) refl
remove_from_set-add_to_set id (x ∷ xs) e = elim (Bool-cases (x == id)) [
  | inl same ↦ absurd (ground (arith, e, same))
  | inr other ↦
      rw
        (other, remove_from_set, other, remove_from_set-add_to_set id xs (ground (arith, e, other)))
        refl
]

erase-insert :
    {V : Type 0} → (k : ℕ) (v : V) (m : List (ℕ × V)) → find k m ≡ none → erase k (insert k v m) ≡ m
erase-insert k v [] e = rw (==_self k) refl
erase-insert k v ((j, w) ∷ m) e = elim (Bool-cases (j == k)) [
  | inl same ↦ absurd (ground (arith, e, same))
  | inr other ↦ rw (other, erase, other, erase-insert k v m (ground (arith, e, other))) refl
]

module _ {K V : Type 0} (same : K → K → Bool) where
  find_by-insert_by :
      (k : K) (v w : V) (m : List (K × V))
      → find_by same k m ≡ some w
      → find_by same k (insert_by same k v m) ≡ some v
  unfolding find_by insert_by
  find_by-insert_by k v w [] e = ground (arith, e)
  find_by-insert_by k v w ((j, x) ∷ m) e = elim (Bool-cases (same j k)) [
    | inl here ↦ simp here refl
    | inr other ↦ simp other (find_by-insert_by k v w m (simp (other, find_by) at e))
  ]

  insert_by-insert_by :
      (k : K) (v w : V) (m : List (K × V))
      → find_by same k m ≡ some w
      → insert_by same k w (insert_by same k v m) ≡ m
  unfolding find_by insert_by
  insert_by-insert_by k v w [] e = ground (arith, e)
  insert_by-insert_by k v w ((j, x) ∷ m) e = elim (Bool-cases (same j k)) [
    | inl here ↦
        let kept : some x ≡ some w = simp (here, find_by) at e in
        simp here (ap (λ y. (j, y) ∷ m) (cc))
    | inr other ↦ simp (other, insert_by-insert_by k v w m (simp (other, find_by) at e)) refl
  ]

forget-put :
    (id : ℕ) (key : TrackKey) (entry : TrackEntry) (sub : SubscriptionSend) (p : SendDataPlane)
    → track_at key p ≡ some entry
    → find id p.subscriptions ≡ none
    → is_in id entry.subscriptions ≡ false
    → forget id key
        (record (put_track key
          (record entry { subscriptions = add_to_set id entry.subscriptions })
          p) { subscriptions = insert id sub p.subscriptions })
      ≡ p
unfolding forget
forget-put id key entry sub p there fresh free =
    rw
      (
        find_by-insert_by same_track key
            (record entry { subscriptions = add_to_set id entry.subscriptions }) entry p.tracks
            there,
        forget,
        remove_from_set-add_to_set id entry.subscriptions free,
        insert_by-insert_by same_track key
            (record entry { subscriptions = add_to_set id entry.subscriptions }) entry p.tracks
            there,
        erase-insert id sub p.subscriptions fresh,
      )
      refl

module _ {W : Type 0} (abort_send : ℕ → ℕ → State W → State W)
    (finish_send : ℕ → State W → State W) where
  detach-inserted :
      (id : ℕ) (key : TrackKey) (entry : TrackEntry) (sub : SubscriptionSend)
      (reset_error : Option ℕ) (p : SendDataPlane) (world : W)
      → track_at key p ≡ some entry
      → find id p.subscriptions ≡ none
      → is_in id entry.subscriptions ≡ false
      → sub.track_key ≡ key
      → sub.stream_count ≡ 0
      → sub.streams ≡ []
      → detach_subscription abort_send finish_send id reset_error (record {
        plane =
            record (put_track key
              (record entry { subscriptions = add_to_set id entry.subscriptions })
              p) { subscriptions = insert id sub p.subscriptions };
        world = world;
      })
        ≡ (0, record { plane = p; world = world })
  unfolding detach_subscription end_streams
  detach-inserted id key entry sub reset_error p world there fresh free key_is count_is streams_is =
      simp
        (
          find-insert id id sub p.subscriptions,
          ==_self id,
          streams_is,
          count_is,
          key_is,
          forget-put id key entry sub p there fresh free,
          detach_subscription,
          end_streams,
        )
        refl

  -- Detaching a subscription right behind a successful attach_subscription, with FIN or with
  -- RESET, counts no streams and leaves the plane and the rest of the program as they were before
  -- it was attached; for a Request ID that neither the table of subscriptions nor the set of its
  -- track has.
  pub detach_subscription-attach_subscription :
      (id alias : ℕ) (namespace : TrackNamespace) (name : TrackName) (options : SubscriptionOptions)
      (reset_error : Option ℕ) (p : SendDataPlane) (world : W) (entry : TrackEntry)
      → find_track namespace name p ≡ some entry
      → find id p.subscriptions ≡ none
      → is_in id entry.subscriptions ≡ false
      → (attach_subscription id alias namespace name options p).0 ≡ none
      → detach_subscription abort_send finish_send id reset_error (record {
        plane = (attach_subscription id alias namespace name options p).1;
        world = world;
      })
        ≡ (0, record { plane = p; world = world })
  unfolding find_track attach_subscription detach_subscription
  detach_subscription-attach_subscription id alias namespace name options reset_error p world entry
        there fresh free ok =
      elim (Bool-cases (wants_timeout options)) [
        | inl refused ↦ absurd (
            let wrong : some Refusal.timeouts_unsupported ≡ none =
              simp (refused, attach_subscription) at ok in
            cc)
        | inr kept ↦
            by_range (requested_range options.filter entry.largest (origin, none)) refl kept
      ]
    where
      by_range :
          (o : Option (Location × Option ℕ))
          → requested_range options.filter entry.largest (origin, none) ≡ o
          → wants_timeout options ≡ false
          → detach_subscription abort_send finish_send id reset_error (record {
            plane = (attach_subscription id alias namespace name options p).1;
            world = world;
          })
            ≡ (0, record { plane = p; world = world })
      by_range none e kept = absurd (
          let wrong : some Refusal.already_published ≡ none =
            simp (kept, there, e, attach_subscription) at ok in
          cc)
      by_range (some (from, to)) e kept =
          simp (kept, there, e, fresh, attach_subscription)
            (detach-inserted id (namespace, name) entry _ reset_error p world there fresh free refl
              refl refl)
