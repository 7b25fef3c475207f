-- ===== src/Send/Filter/Laws.antt =====
-- Which objects a subscription's filter lets through, in src/send_data_plane.cpp.
use moqtopus.Common.{
  ◌∙◌, ℕ, ◌+◌, ◌-◌, ◌%◌, ◌^◌, ◌<◌, ◌≡◌, refl, arith, true, false, ltb, leb, Option, none, some,
  if◌then◌else◌,
}
use moqtopus.Types.{Location}
use moqtopus.Codec.Decoders.Options.{
  SubscriptionFilter, filter_largest_object, filter_next_group_start,
}
use moqtopus.Send.{SubscriptionSend}
use moqtopus.Send.Filter.{
  location_less, resolve_filter, largest_start, next_group_start, passes_filter,
}

resolve_largest :
    (filter : SubscriptionFilter) (l : Location)
    → l.object < 2 ^ 64 - 1
    → filter.filter_type ≡ filter_largest_object
    → resolve_filter filter (some l) ≡ (record { group = l.group; object = l.object + 1 }, none)
unfolding resolve_filter largest_start
resolve_largest filter l small kind =
    let sum : (l.object + 1) % 2 ^ 64 ≡ l.object + 1 = omega arith in
    rw (kind, resolve_filter, largest_start) (rw sum refl)

resolve_next_group :
    (filter : SubscriptionFilter) (l : Location)
    → l.group < 2 ^ 64 - 1
    → filter.filter_type ≡ filter_next_group_start
    → resolve_filter filter (some l) ≡ (record { group = l.group + 1; object = 0 }, none)
unfolding resolve_filter next_group_start
resolve_next_group filter l small kind =
    let sum : (l.group + 1) % 2 ^ 64 ≡ l.group + 1 = omega arith in
    rw (kind, resolve_filter, next_group_start) (rw sum refl)

module _ (sub : SubscriptionSend) (filter : SubscriptionFilter) (largest : Option Location)
    (start : sub.start ≡ (resolve_filter filter largest).0)
    (end_group : sub.end_group ≡ (resolve_filter filter largest).1) (group object : ℕ) where
  abbrev pub location : Location
  location = record { group = group; object = object }

  passes_lem :
      (from : Location) (to : Option ℕ)
      → resolve_filter filter largest ≡ (from, to)
      → passes_filter sub group object ≡ (
          if location_less location from
          then false
          else elim to [ none ↦ true | some last ↦ leb group last ])
  unfolding passes_filter
  passes_lem from to range = rw (start, end_group, range, passes_filter) refl

  -- A subscription whose range was resolved from a LargestObject filter lets exactly the objects
  -- through that are behind the largest location of the track, which has an Object ID below 2^64 -
  -- 1.
  pub largest_object_filter :
      (l : Location)
      → largest ≡ some l
      → l.object < 2 ^ 64 - 1
      → filter.filter_type ≡ filter_largest_object
      → passes_filter sub group object ≡ location_less l location
  unfolding location_less
  largest_object_filter l known small kind =
      passes_lem (record { group = l.group; object = l.object + 1 }) none
        (rw known (resolve_largest filter l small kind))
      ∙ ground arith

  -- A subscription whose range was resolved from a NextGroupStart filter lets exactly the objects
  -- of the groups behind the group of the largest location through, which has a Group ID below
  -- 2^64 - 1.
  next_group_filter :
      (l : Location)
      → largest ≡ some l
      → l.group < 2 ^ 64 - 1
      → filter.filter_type ≡ filter_next_group_start
      → passes_filter sub group object ≡ ltb l.group group
  unfolding location_less
  next_group_filter l known small kind =
      passes_lem (record { group = l.group + 1; object = 0 }) none
        (rw known (resolve_next_group filter l small kind))
      ∙ ground arith
