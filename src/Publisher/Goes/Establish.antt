-- ===== src/Publisher/Goes/Establish.antt =====
-- The start of a request of the peer, in src/publisher_session.cpp.
use moqtopus.Common.{
  ℕ, ◌+◌, ◌%◌, ◌^◌, ◌<◌, leb, ◌≡◌, refl, sym, ◌∙◌, arith, length, Bool, true, false, none, inl, inr,
  Bool-cases, Option-cases, find,
}
use moqtopus.Types.{ByteBuffer}
use moqtopus.Codec.Messages.{Subscribe, encode_subscribe_ok, encode_request_error}
use moqtopus.Codec.Decoders.Options.{SubscriptionOptions}
use moqtopus.Send.{TrackEntry}
use moqtopus.Send.Subscriptions.{find_track, attach_subscription}
use moqtopus.Session.{subscribe_ok_unsent}
use moqtopus.Publisher.{SubscriptionRequest, State, App, request}
use moqtopus.Publisher.Namespaces.{reserved_namespace}
use moqtopus.Publisher.Request.{is_member, refusal_text, largest_of}
use moqtopus.Publisher.Accept.{
  new_request, add_request, emplace, reject, after_ok, send_ok, establish, attach, admit,
}
use moqtopus.Publisher.Goes.{
  IsSound, Later, Later-trans, Goes, Goes-refl, Goes-trans, Aside, Aside-Goes, ActGoes,
  outcome_cases,
}
use moqtopus.Publisher.Goes.Added.{Added, added-IsSound, added-Later}
use moqtopus.Publisher.Goes.Ends.{AppGoes, begin_close-Goes}
use moqtopus.Publisher.Goes.Updates.{receive_bytes-Goes}

module _ {W : Type 0} where
  -- Behind a state `u`, the peer's Request ID was taken, and no request has it.
  pub record Taken (u s : State W) (id : ℕ) : Type 0 where
    pub sound : IsSound s
    pub later : Later u s
    pub unused : is_member id u.peer_request_ids ≡ false
    pub known : is_member id s.peer_request_ids ≡ true
    pub new : find id s.subscriptions ≡ none

  -- The outcome of a step that began at `u`.
  abbrev pub Reached : State W → State W → Type 0
  Reached u t = IsSound t × Later u t

  pub reach : (u s t : State W) (id : ℕ) → Taken u s id → Goes s t → Reached u t
  reach u s t id k g = let (ht, l) = g k.sound in (ht, Later-trans u s t k.later l)

  -- Other members do not matter.
  pub Aside-Taken : (u s t : State W) (id : ℕ) → Taken u s id → Aside s t → Taken u t id
  Aside-Taken u s t id k a =
      let (ht, l) = Aside-Goes s t a k.sound in
      record {
        sound = ht;
        later = Later-trans u s t k.later l;
        unused = k.unused;
        known = rw a.peer_request_ids k.known;
        new = rw a.subscriptions k.new;
      }

  -- A request without an entry of the table.
  pub unlisted :
      (s : State W) (id : ℕ)
      → IsSound s
      → is_member id s.peer_request_ids ≡ false
      → find id s.subscriptions ≡ none
  unlisted s id h unused = elim (Option-cases (find id s.subscriptions)) [
    | inl none_there ↦ none_there
    | inr (ref, there) ↦
        let both : true ≡ false = sym (h.entries id ref there).known ∙ unused in absurd (cc)
  ]

module _ {W : Type 0} (app : App W) (app_goes : AppGoes app) where
  pub reject-Goes :
      (stream error : ℕ) (reason : ByteBuffer) → ActGoes (reject app stream error reason)
  unfolding reject
  reject-Goes stream error reason s = elim (outcome_cases (encode_request_error error reason 0)) [
    | inl (bytes, e) ↦
        rw (reject, e)
          (Goes-trans s _ _ (app_goes.send stream bytes true s) (app_goes.abort_receive stream _ _))
    | inr (error', e) ↦ rw (reject, e) (Goes-refl s)
  ]

  pub after_ok-Goes :
      (ref : ℕ) (leftover : ByteBuffer) (fin sent : Bool)
      → ActGoes (after_ok app ref leftover fin sent)
  unfolding after_ok
  after_ok-Goes ref leftover fin true s = receive_bytes-Goes app app_goes ref leftover fin s
  after_ok-Goes ref leftover fin false s = begin_close-Goes app app_goes _ subscribe_ok_unsent s

  pub send_ok-Goes :
      (ref stream alias : ℕ) (entry : TrackEntry) (leftover : ByteBuffer) (fin : Bool)
      → ActGoes (send_ok app ref stream alias entry leftover fin)
  unfolding send_ok
  send_ok-Goes ref stream alias entry leftover fin s =
      elim (outcome_cases
        (encode_subscribe_ok alias (largest_of entry.largest) entry.track.track_properties)) [
          | inl (bytes, e) ↦
              rw (send_ok, e)
                (Goes-trans s _ _ (app_goes.send stream bytes false s)
                  (after_ok-Goes ref leftover fin _ _))
          | inr (error, e) ↦ rw (send_ok, e) (Goes-refl s)
        ]

  pub establish-Reaches :
      (stream alias : ℕ) (subscribe : Subscribe) (entry : TrackEntry) (leftover : ByteBuffer)
      (fin : Bool) (u s : State W)
      → Taken u s subscribe.request_id
      → length s.subscriptions < s.max_subscriptions
      → Reached u (establish app stream subscribe alias entry leftover fin s).1
  unfolding establish add_request emplace
  establish-Reaches stream alias subscribe entry leftover fin u s k room =
      let ref : ℕ = length s.requests in
      let r : SubscriptionRequest = new_request subscribe stream in
      let made : State W = add_request r s in
      let placed : State W =
        emplace subscribe.request_id ref (app.set_sink stream (request ref) made) in
      let a = app_goes.set_sink stream (request ref) made in
      let c : Added s placed r = record {
        requests = rw (a.subscriptions, k.new) a.requests;
        subscriptions = rw (a.subscriptions, k.new) refl;
        live = refl;
        new = k.new;
        known = k.known;
        room = room;
        peer_request_ids = rw (a.subscriptions, k.new) a.peer_request_ids;
        limit = rw (a.subscriptions, k.new) a.limit;
      } in
      let h = added-IsSound s placed r c k.sound in
      let l = added-Later s placed r c u k.later k.unused in
      let (ht, lt) = send_ok-Goes ref stream alias entry leftover fin placed h in
      (ht, Later-trans u placed _ l lt)

  pub attach-Reaches :
      (stream : ℕ) (subscribe : Subscribe) (options : SubscriptionOptions) (entry : TrackEntry)
      (leftover : ByteBuffer) (fin : Bool) (u s : State W)
      → Taken u s subscribe.request_id
      → length s.subscriptions < s.max_subscriptions
      → Reached u (attach app stream subscribe options entry leftover fin s).1
  unfolding attach
  attach-Reaches stream subscribe options entry leftover fin u s k room =
      let tried =
        attach_subscription subscribe.request_id s.next_track_alias subscribe.track_namespace
          subscribe.track_name options s.plane in
      let s1 : State W = record s {
        next_track_alias = (s.next_track_alias + 1) % 2 ^ 64;
        plane = tried.1;
      } in
      let k1 : Taken u s1 subscribe.request_id =
        Aside-Taken u s s1 subscribe.request_id k (record {
          requests = refl;
          subscriptions = refl;
          peer_request_ids = refl;
          limit = refl;
        }) in
      elim (Option-cases tried.0) [
        | inl accepted ↦
            rw (attach, accepted)
              (establish-Reaches stream s.next_track_alias subscribe entry leftover fin u s1 k1
                room)
        | inr (refusal, refused) ↦
            rw (attach, refused)
              (reach u s1 _ _ k1 (reject-Goes stream _ (refusal_text refusal) s1))
      ]

  pub admit-Reaches :
      (stream : ℕ) (subscribe : Subscribe) (options : SubscriptionOptions) (leftover : ByteBuffer)
      (fin : Bool) (u s : State W)
      → Taken u s subscribe.request_id
      → Reached u (admit app stream subscribe options leftover fin s).1
  unfolding admit
  admit-Reaches stream subscribe options leftover fin u s k =
      elim (Bool-cases (reserved_namespace subscribe.track_namespace)) [
        | inl reserved ↦ rw (admit, reserved) (reach u s _ _ k (reject-Goes stream _ _ s))
        | inr usual ↦ elim (Bool-cases (leb s.max_subscriptions (length s.subscriptions))) [
          | inl full ↦ rw (admit, usual, full) (reach u s _ _ k (reject-Goes stream _ _ s))
          | inr room ↦
              elim (Option-cases
                (find_track subscribe.track_namespace subscribe.track_name s.plane)) [
                  | inl unpublished ↦
                      rw (admit, usual, room, unpublished)
                        (reach u s _ _ k (reject-Goes stream _ _ s))
                  | inr (entry, published) ↦
                      rw (admit, usual, room, published)
                        (attach-Reaches stream subscribe options entry leftover fin u s k
                          (ground (arith, room)))
                ]
        ]
      ]
