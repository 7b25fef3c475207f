-- ===== src/Codec/Reader/Bytes.antt =====
-- From bytes a reader reads uint64_t values, and leaves bytes.
use moqtopus.Common.{ℕ, ◌≡◌, arith, All, List, ok, All-right}
use moqtopus.Codec.Varint.{IsByte, IsU64}
use moqtopus.Codec.Cursor.{read_varint-IsU64}
use moqtopus.Codec.Reader.{Reader, varint, or_throw}
use moqtopus.Codec.Reader.Streaming.{IsStreaming}

pub left-IsByte {ℓ} :
    {A : Type ℓ} (m : Reader A) (c r : List ℕ) (a : A)
    → IsStreaming m
    → All IsByte c
    → m c ≡ ok (a, r)
    → All IsByte r
left-IsByte m c r a h b e = let x = h.reads c a r e in All-right IsByte x.used r (rw x.split at b)

pub varint-IsU64 : (c r : List ℕ) (v : ℕ) → All IsByte c → varint c ≡ ok (v, r) → IsU64 v
unfolding varint or_throw
varint-IsU64 c r v b e = read_varint-IsU64 c v r b (ground arith)
