-- ===== src/Publisher/Collision.antt =====
-- Two namespaces with one text, in src/publisher_session.cpp.
use moqtopus.Common.{ℕ, ◌≡◌, refl, ◌∷◌, ◌++◌, none, some}
use moqtopus.Common.Keyed.{find_by-erase_by}
use moqtopus.Types.{ByteBuffer, TrackNamespace, bytes_eq}
use moqtopus.Publisher.{State, App}
use moqtopus.Publisher.Namespaces.{
  append_text, namespace_text, announced_as, announce_namespace, withdraw_namespace,
}

-- A first field with a slash in it.
abbrev pub with_slash : ByteBuffer → ByteBuffer → TrackNamespace → TrackNamespace
with_slash first second rest = (first ++ (b'/' ∷ second)) ∷ rest

namespace_text_joined :
    (x : ℕ) (xs second : ByteBuffer) (rest : TrackNamespace)
    → namespace_text ((x ∷ xs) ∷ second ∷ rest) ≡ namespace_text (with_slash (x ∷ xs) second rest)
unfolding namespace_text append_text
namespace_text_joined x xs second rest = refl

module _ {W : Type 0} (app : App W) where
  announce_known :
      (ns : TrackNamespace) (stream : ℕ) (s : State W)
      → announced_as (namespace_text ns) s ≡ some stream
      → announce_namespace app ns s ≡ s
  unfolding announce_namespace
  announce_known ns stream s known = rw (announce_namespace, known) refl

  withdraw_known :
      (ns : TrackNamespace) (stream : ℕ) (s : State W)
      → announced_as (namespace_text ns) s ≡ some stream
      → announced_as (namespace_text ns) (withdraw_namespace app ns s) ≡ none
  unfolding withdraw_namespace
  withdraw_known ns stream s known =
      rw (withdraw_namespace, known) (find_by-erase_by bytes_eq (namespace_text ns) _)

  -- When a namespace is announced whose first field has a slash behind its first byte, then
  -- announcing the namespace with that field split at the slash does nothing, and withdrawing the
  -- latter forgets the announcement of the former.
  pub announce_collides :
      (x stream : ℕ) (xs second : ByteBuffer) (rest : TrackNamespace) (s : State W)
      → announced_as (namespace_text (with_slash (x ∷ xs) second rest)) s ≡ some stream
      → (announce_namespace app ((x ∷ xs) ∷ second ∷ rest) s ≡ s)
        × (announced_as
              (namespace_text (with_slash (x ∷ xs) second rest))
              (withdraw_namespace app ((x ∷ xs) ∷ second ∷ rest) s)
            ≡ none)
  announce_collides x stream xs second rest s known =
      let joined = namespace_text_joined x xs second rest in
      let same = rw (← joined) at known in
      (
        announce_known ((x ∷ xs) ∷ second ∷ rest) stream s same,
        rw (← joined) (withdraw_known ((x ∷ xs) ∷ second ∷ rest) stream s same),
      )
