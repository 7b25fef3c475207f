-- ===== src/Receive/Routes/Pending.antt =====
-- The count of the parked subgroup streams, and what becomes of a parked stream, in src/data_plane.cpp.
use moqtopus.Common.{
  ◌==◌, if◌then◌else◌, leb-false, ℕ, ◌^◌, ◌≤◌, ◌<◌, ◌≡◌, refl, arith, length, length-append, true,
  leb, List, [], ◌∷◌, ◌++◌, Option, none, some, find, find-insert, inl, inr, Bool-cases, IsKeyed,
  IsKeyed-insert, IsKeyed-erase, total, weight_at, total-insert, total-erase, is_empty,
}
use moqtopus.Receive.{DataPlane}
use moqtopus.Receive.Routes.{
  entries, without, Parking, parked, full, established, find_or_park_subgroup,
  discard_pending_subgroup,
}

-- The table holds no alias twice, the count is the number of streams in it, and it is within the limit
-- of the configuration, a `size_t`.
pub record IsCounted (p : DataPlane) : Type 0 where
  pub keyed : IsKeyed p.pending_subgroups_by_alias
  pub counted : p.pending_subgroup_stream_count ≡ total length p.pending_subgroups_by_alias
  pub bounded : p.pending_subgroup_stream_count ≤ p.config.max_pending_subgroup_streams
  pub config : p.config.max_pending_subgroup_streams < 2 ^ 64

length-entries : (k : ℕ) (m : List (ℕ × List ℕ)) → length (entries k m) ≡ weight_at length k m
length-entries k m = go (find k m) refl
  where
    go : (o : Option (List ℕ)) → find k m ≡ o → length (entries k m) ≡ weight_at length k m
    go none e = rw (e, entries, weight_at) refl
    go (some v) e = rw (e, entries, weight_at) refl

length-without : (x : ℕ) (xs : List ℕ) → length (without x xs) ≤ length xs
unfolding without
length-without x [] = omega arith
length-without x (y ∷ ys) = ground (arith, length-without x ys)

length-is_empty : (xs : List ℕ) → is_empty xs ≡ true → length xs ≡ 0
length-is_empty [] e = refl
length-is_empty (x ∷ xs) e = ground arith

-- find_or_park_subgroup keeps the count of parked streams equal to the number of streams in the
-- table and within its limit, and no alias twice in the table.
pub find_or_park_subgroup-IsCounted :
    (alias stream : ℕ) (p : DataPlane)
    → IsCounted p
    → IsCounted (find_or_park_subgroup alias stream p).1
unfolding find_or_park_subgroup
find_or_park_subgroup-IsCounted alias stream p h = go (find alias p.routes_by_alias) refl
  where
    m : List (ℕ × List ℕ)
    m = p.pending_subgroups_by_alias

    go :
        (o : Option ℕ)
        → find alias p.routes_by_alias ≡ o
        → IsCounted (find_or_park_subgroup alias stream p).1
    go (some ref) e = rw (e, find_or_park_subgroup) h
    go none e =
        elim (Bool-cases
          (leb p.config.max_pending_subgroup_streams p.pending_subgroup_stream_count)) [
            | inl most ↦ rw (e, most, find_or_park_subgroup) h
            | inr room ↦
                rw (e, room, find_or_park_subgroup)
                  (record {
                    keyed = IsKeyed-insert alias _ m h.keyed;
                    counted = omega (
                      arith,
                      h.counted,
                      h.bounded,
                      h.config,
                      total-insert length alias (entries alias m ++ (stream ∷ [])) m,
                      length-entries alias m,
                      length-append (entries alias m) (stream ∷ []),
                      leb-false _ _ room,
                    );
                    bounded = omega (arith, h.bounded, h.config, leb-false _ _ room);
                    config = h.config;
                  })
          ]

-- discard_pending_subgroup keeps the count of parked streams equal to the number of streams in the
-- table and within its limit, and no alias twice in the table.
discard_pending_subgroup-IsCounted :
    (alias stream : ℕ) (p : DataPlane)
    → IsCounted p
    → IsCounted (discard_pending_subgroup alias stream p)
unfolding discard_pending_subgroup
discard_pending_subgroup-IsCounted alias stream p h =
    go (find alias p.pending_subgroups_by_alias) refl
  where
    m : List (ℕ × List ℕ)
    m = p.pending_subgroups_by_alias

    go :
        (o : Option (List ℕ))
        → find alias m ≡ o
        → IsCounted (discard_pending_subgroup alias stream p)
    go none e = rw (e, discard_pending_subgroup) h
    go (some streams) e =
        let weight : weight_at length alias m ≡ length streams = rw (e, weight_at) refl in
        elim (Bool-cases (is_empty (without stream streams))) [
          | inl gone ↦
              rw (e, gone, discard_pending_subgroup)
                (record {
                  keyed = IsKeyed-erase alias m h.keyed;
                  counted = omega (
                    arith,
                    h.counted,
                    h.bounded,
                    h.config,
                    total-erase length alias m h.keyed,
                    weight,
                    length-is_empty (without stream streams) gone,
                  );
                  bounded = omega (
                    arith,
                    h.counted,
                    h.bounded,
                    h.config,
                    length-without stream streams,
                    total-erase length alias m h.keyed,
                    weight,
                  );
                  config = h.config;
                })
          | inr left ↦
              rw (e, left, discard_pending_subgroup)
                (record {
                  keyed = IsKeyed-insert alias _ m h.keyed;
                  counted = omega (
                    arith,
                    h.counted,
                    h.bounded,
                    h.config,
                    total-insert length alias (without stream streams) m,
                    weight,
                    length-without stream streams,
                    total-erase length alias m h.keyed,
                  );
                  bounded = omega (
                    arith,
                    h.counted,
                    h.bounded,
                    h.config,
                    length-without stream streams,
                    total-erase length alias m h.keyed,
                    weight,
                  );
                  config = h.config;
                })
        ]

-- A stream that find_or_park_subgroup parks stands in the table behind the streams that waited for
-- its alias, and every other alias keeps its streams.
find_or_park_subgroup_parked :
    (alias stream other : ℕ) (p : DataPlane)
    → (find_or_park_subgroup alias stream p).0 ≡ parked
    → entries other (find_or_park_subgroup alias stream p).1.pending_subgroups_by_alias ≡ (
        if alias == other
        then entries alias p.pending_subgroups_by_alias ++ (stream ∷ [])
        else entries other p.pending_subgroups_by_alias)
unfolding find_or_park_subgroup
find_or_park_subgroup_parked alias stream other p h = go (find alias p.routes_by_alias) refl
  where
    go :
        (o : Option ℕ)
        → find alias p.routes_by_alias ≡ o
        → entries other (find_or_park_subgroup alias stream p).1.pending_subgroups_by_alias ≡ (
            if alias == other
            then entries alias p.pending_subgroups_by_alias ++ (stream ∷ [])
            else entries other p.pending_subgroups_by_alias)
    go (some ref) e =
        let bad : ◌≡◌ {A = Parking} (established ref) parked = rw (e, find_or_park_subgroup) at h in
        cc
    go none e =
        elim (Bool-cases
          (leb p.config.max_pending_subgroup_streams p.pending_subgroup_stream_count)) [
            | inl most ↦
                let bad : ◌≡◌ {A = Parking} full parked =
                  rw (e, most, find_or_park_subgroup) at h in
                cc
            | inr room ↦
                rw (e, room, find_or_park_subgroup)
                  (rw
                    (
                      find-insert alias other
                          (entries alias p.pending_subgroups_by_alias ++ (stream ∷ []))
                          p.pending_subgroups_by_alias,
                      entries,
                    )
                    (elim (Bool-cases (alias == other)) [
                      | inl same ↦ rw same refl
                      | inr apart ↦ rw apart refl
                    ]))
          ]
