-- ===== src/Receive/Datagram/Bounds.antt =====
-- The limits on the datagrams that wait for a route, in src/data_plane.cpp.
use moqtopus.Common.{
  ℕ, ◌+◌, ◌^◌, ◌≤◌, ◌<◌, ◌≡◌, refl, arith, length, length-append, ltb, leb, ◌||◌, List, [], ◌∷◌,
  ◌++◌, Option, none, some, find, insert, find-insert, inl, inr, Bool-cases, IsKeyed,
  IsKeyed-insert, total, weight_at, total-insert, leb-false, ◌==◌,
}
use moqtopus.Types.{ByteBuffer}
use moqtopus.Receive.{DataPlane}
use moqtopus.Receive.Routes.{add_size, entries}
use moqtopus.Receive.Datagram.{keep_datagram}

abbrev size_of : List ByteBuffer → ℕ
size_of [] = 0
size_of (d ∷ ds) = length d + size_of ds

-- The count of bytes is what the kept datagrams hold, and it and the number of datagrams for each alias
-- are within the limits of the configuration.
pub record IsAccounted (p : DataPlane) : Type 0 where
  pub keyed : IsKeyed p.unknown_datagrams
  pub accounted : p.buffered_datagram_bytes ≡ total size_of p.unknown_datagrams
  pub bounded : p.buffered_datagram_bytes ≤ p.config.max_buffered_datagram_bytes
  pub few :
      (alias : ℕ)
      → length (entries alias p.unknown_datagrams) ≤ p.config.max_buffered_datagrams_per_alias

size_of-entries :
    (k : ℕ) (m : List (ℕ × List ByteBuffer)) → size_of (entries k m) ≡ weight_at size_of k m
size_of-entries k m = go (find k m) refl
  where
    go :
        (o : Option (List ByteBuffer))
        → find k m ≡ o
        → size_of (entries k m) ≡ weight_at size_of k m
    go none e = rw (e, entries, weight_at) refl
    go (some v) e = rw (e, entries, weight_at) refl

size_of-append :
    (ds : List ByteBuffer) (d : ByteBuffer) → size_of (ds ++ (d ∷ [])) ≡ size_of ds + length d
size_of-append [] d = omega arith
size_of-append (x ∷ ds) d = omega (arith, size_of-append ds d)

few-insert :
    (k alias limit : ℕ) (ds : List ByteBuffer) (m : List (ℕ × List ByteBuffer))
    → length ds ≤ limit
    → length (entries alias m) ≤ limit
    → length (entries alias (insert k ds m)) ≤ limit
few-insert k alias limit ds m h old =
    rw (find-insert k alias ds m, entries)
      (elim (Bool-cases (k == alias)) [ inl same ↦ rw same h | inr apart ↦ rw apart old ])

-- Keeping a datagram for an unknown alias, or refusing to, keeps the count of bytes equal to what
-- the kept datagrams hold, and that count and the number of datagrams for each alias within their
-- limits; for a limit on the bytes below 2^63.
pub keep_datagram-IsAccounted :
    (alias : ℕ) (bytes : ByteBuffer) (p : DataPlane)
    → p.config.max_buffered_datagram_bytes < 2 ^ 63
    → IsAccounted p
    → IsAccounted (keep_datagram alias bytes p)
unfolding keep_datagram
keep_datagram-IsAccounted alias bytes p big h =
    elim (Bool-cases (
      ltb p.config.max_buffered_datagram_bytes (length bytes)
      || ltb p.config.max_buffered_datagram_bytes
          (add_size p.buffered_datagram_bytes (length bytes)))) [
            | inl over ↦ rw over h
            | inr fits ↦
                let within : add_size p.buffered_datagram_bytes (length bytes)
                    ≤ p.config.max_buffered_datagram_bytes =
                  ground (arith, fits) in
                let small : length bytes ≤ p.config.max_buffered_datagram_bytes =
                  ground (arith, fits) in
                elim (Bool-cases
                  (leb p.config.max_buffered_datagrams_per_alias (length (entries alias m)))) [
                    | inl many ↦
                        rw (fits, many)
                          (record {
                            keyed = IsKeyed-insert alias _ m h.keyed;
                            accounted = omega (
                              arith,
                              h.accounted,
                              total-insert size_of alias (entries alias m) m,
                              size_of-entries alias m,
                            );
                            bounded = h.bounded;
                            few = λ other. few-insert alias other _ _ m (h.few alias) (h.few other);
                          })
                    | inr room ↦
                        rw (fits, room)
                          (record {
                            keyed = IsKeyed-insert alias _ m h.keyed;
                            accounted = omega (
                              arith,
                              big,
                              h.bounded,
                              small,
                              h.accounted,
                              total-insert size_of alias (entries alias m ++ (bytes ∷ [])) m,
                              size_of-entries alias m,
                              size_of-append (entries alias m) bytes,
                            );
                            bounded = within;
                            few = λ other.
                                few-insert alias other _ _ m
                                  (omega (
                                    arith,
                                    length-append (entries alias m) (bytes ∷ []),
                                    leb-false _ _ room,
                                  ))
                                  (h.few other);
                          })
                  ]
          ]
  where
    m : List (ℕ × List ByteBuffer)
    m = p.unknown_datagrams
