-- ===== src/Codec/Decoders/RoundTrip.antt =====
-- A message that one side encodes is framed, read and decoded to the same values on the other.
use moqtopus.Common.{
  Bool, ℕ, ◌≤◌, ◌≡◌, arith, length, List, [], ◌++◌, All, some, Result, ok, >>=-eq-ok, append_assoc,
  append-nil, ◌==◌, true, false, if◌then◌else◌,
}
use moqtopus.Types.{ByteBuffer, TrackNamespace, Parameter}
use moqtopus.Codec.Varint.{IsU64, write_varint}
use moqtopus.Codec.Framing.{encode_control_message, next_message}
use moqtopus.Codec.Framing.Laws.{next_message-encode}
use moqtopus.Codec.Namespace.{write_track_namespace, track_namespace-write}
use moqtopus.Codec.Parameters.{encode_parameters, stable_sort}
use moqtopus.Codec.Parameters.RoundTrip.{IsWellFormed, parameters-encode}
use moqtopus.Codec.Reader.{string, parameters, pure, discard, remaining_view}
use moqtopus.Codec.Reader.Steps.{
  step, pure_lem, varint-write, string-write, string-write_last, remaining_view_lem, decode_done,
}
use moqtopus.Codec.Messages.{
  write_string, encode_subscribe, encode_subscribe_ok, encode_request_update, encode_request_ok,
  encode_request_error, encode_publish_done, message_subscribe, message_subscribe_ok,
  message_request_update, message_request_ok, message_request_error, message_publish_done,
}
use moqtopus.Codec.Decoders.{
  decode_subscribe, decode_subscribe_ok, decode_request_update, decode_request_ok,
  decode_request_error, decode_publish_done, code_redirect,
}

-- Whatever follows the bytes, the peer reads one message of the type off them, and its decoder gives
-- the value.
abbrev pub Carries {ℓ} : {A : Type ℓ} → List ℕ → ℕ → (ByteBuffer → Result A) → A → Type ℓ
Carries bytes type decoder value =
    (rest : List ℕ)
    → (payload : ByteBuffer) × (next_message (bytes ++ rest)
        ≡ some (record { type = type; payload = payload }, rest))
      × (decoder payload ≡ ok value)

pub carried {ℓ} :
    {A : Type ℓ} (type : ℕ) (payload bytes : List ℕ) (decoder : ByteBuffer → Result A) (value : A)
    → IsU64 type
    → encode_control_message type payload ≡ ok bytes
    → decoder payload ≡ ok value
    → Carries bytes type decoder value
carried type payload bytes decoder value u e d rest =
    (payload, next_message-encode type payload bytes rest u e, d)

-- A PUBLISH_DONE that encode_publish_done wrote is framed, read and decoded to the same status,
-- count and reason; for 64-bit numbers and a reason of at most 1024 bytes.
pub publish_done_Carries :
    (status count : ℕ) (reason bytes : List ℕ)
    → IsU64 status
    → IsU64 count
    → length reason ≤ 1024
    → encode_publish_done status count reason ≡ ok bytes
    → Carries bytes message_publish_done decode_publish_done
        (record { status_code = status; stream_count = count; reason = reason })
unfolding encode_publish_done decode_publish_done write_string
publish_done_Carries status count reason bytes us uc h e =
    carried message_publish_done _ bytes decode_publish_done _ (omega arith) e (
      decode_done _ _ _ (
        step _ _ _ _ _ _ (varint-write status _ us) (
          step _ _ _ _ _ _ (varint-write count _ uc)
            (step _ _ _ _ _ _ (string-write_last 1024 reason (omega arith) h) (pure_lem _ _)))))

-- A REQUEST_ERROR that encode_request_error wrote is framed, read and decoded to the same code,
-- interval and reason, also for a redirect; for 64-bit numbers and a reason of at most 1024 bytes.
pub request_error_Carries :
    (code retry : ℕ) (reason bytes : List ℕ)
    → IsU64 code
    → IsU64 retry
    → length reason ≤ 1024
    → encode_request_error code reason retry ≡ ok bytes
    → Carries bytes message_request_error decode_request_error
        (record { code = code; retry_interval = retry; reason = reason })
unfolding encode_request_error decode_request_error write_string
request_error_Carries code retry reason bytes uc ur h e =
    carried message_request_error _ bytes decode_request_error _ (omega arith) e (
      decode_done _ _ _ (
        step _ _ _ _ _ _ (varint-write code _ uc) (
          step _ _ _ _ _ _ (varint-write retry _ ur) (
            step _ _ _ _ _ _ (string-write_last 1024 reason (omega arith) h)
              (step _ _ _ _ _ _ (passed (code == code_redirect)) (pure_lem _ _))))))
  where
    passed : (b : Bool) → (if b then discard remaining_view else pure tt) [] ≡ ok (tt, [])
    passed true = step _ _ _ _ _ _ (remaining_view_lem []) (pure_lem _ _)
    passed false = pure_lem _ _

module _ (params : List Parameter) (u : IsU64 (length params)) (w : All IsWellFormed params) where
  -- A SUBSCRIBE that encode_subscribe wrote is framed, read and decoded to the same Request ID,
  -- namespace, name of at most 4096 bytes, and parameters ordered by their types; for a 64-bit
  -- Request ID and well-formed parameters, fewer than 2^64 of them.
  pub subscribe_Carries :
      (id : ℕ) (ns : TrackNamespace) (name bytes : List ℕ)
      → IsU64 id
      → length name ≤ 4096
      → encode_subscribe id
          (record { track_namespace = ns; track_name = name; parameters = params })
        ≡ ok bytes
      → Carries bytes message_subscribe decode_subscribe (record {
        request_id = id;
        track_namespace = ns;
        track_name = name;
        parameters = stable_sort params;
      })
  unfolding encode_subscribe decode_subscribe write_string
  subscribe_Carries id ns name bytes ui h e =
      let (nb, p, q) = >>=-eq-ok (write_track_namespace ns) _ e in
      let (pb, p2, q2) = >>=-eq-ok (encode_parameters params) _ q in
      carried message_subscribe _ bytes decode_subscribe _ (omega arith) q2 (
        decode_done _ _ _ (
          step _ _ _ _ _ _ (varint-write id _ ui) (
            step _ _ _ _ _ _ (track_namespace-write ns nb _ p) (
              step _ _ _ _ _ _ (string_then name pb h)
                (step _ _ _ _ _ _ (parameters_last pb p2) (pure_lem _ _))))))
    where
      string_then :
          (name pb : List ℕ)
          → length name ≤ 4096
          → string 4096 ((write_varint (length name) ++ name) ++ pb) ≡ ok (name, pb)
      string_then name pb h = rw append_assoc (string-write 4096 name pb (omega arith) h)

      parameters_last :
          (pb : List ℕ)
          → encode_parameters params ≡ ok pb
          → parameters pb ≡ ok (stable_sort params, [])
      parameters_last pb p = rw append-nil at (parameters-encode params pb [] u w p)

  -- A SUBSCRIBE_OK that encode_subscribe_ok wrote is framed, read and decoded to the same alias,
  -- parameters ordered by their types, and properties; for a 64-bit alias and well-formed
  -- parameters, fewer than 2^64 of them.
  pub subscribe_ok_Carries :
      (alias : ℕ) (properties bytes : List ℕ)
      → IsU64 alias
      → encode_subscribe_ok alias params properties ≡ ok bytes
      → Carries bytes message_subscribe_ok decode_subscribe_ok (record {
        track_alias = alias;
        parameters = stable_sort params;
        track_properties = properties;
      })
  unfolding encode_subscribe_ok decode_subscribe_ok
  subscribe_ok_Carries alias properties bytes ua e =
      let (pb, p, q) = >>=-eq-ok (encode_parameters params) _ e in
      carried message_subscribe_ok _ bytes decode_subscribe_ok _ (omega arith) q (
        decode_done _ _ _ (
          step _ _ _ _ _ _ (varint-write alias _ ua) (
            step _ _ _ _ _ _ (parameters-encode params pb properties u w p)
              (step _ _ _ _ _ _ (remaining_view_lem properties) (pure_lem _ _)))))

  -- A REQUEST_UPDATE that encode_request_update wrote is framed, read and decoded to the same
  -- Request ID and parameters ordered by their types; for a 64-bit Request ID and well-formed
  -- parameters, fewer than 2^64 of them.
  pub request_update_Carries :
      (id : ℕ) (bytes : List ℕ)
      → IsU64 id
      → encode_request_update id params ≡ ok bytes
      → Carries bytes message_request_update decode_request_update
          (record { request_id = id; parameters = stable_sort params })
  unfolding encode_request_update decode_request_update
  request_update_Carries id bytes ui e =
      let (pb, p, q) = >>=-eq-ok (encode_parameters params) _ e in
      let last : parameters pb ≡ ok (stable_sort params, []) =
        rw append-nil at (parameters-encode params pb [] u w p) in
      carried message_request_update _ bytes decode_request_update _ (omega arith) q (
        decode_done _ _ _
          (step _ _ _ _ _ _ (varint-write id _ ui) (step _ _ _ _ _ _ last (pure_lem _ _))))

  -- A REQUEST_OK that encode_request_ok wrote is framed, read and decoded to the same parameters
  -- ordered by their types, and no track properties; for well-formed parameters, fewer than 2^64
  -- of them.
  request_ok_Carries :
      (bytes : List ℕ)
      → encode_request_ok params ≡ ok bytes
      → Carries bytes message_request_ok decode_request_ok
          (record { parameters = stable_sort params; track_properties = [] })
  unfolding encode_request_ok decode_request_ok
  request_ok_Carries bytes e =
      let (pb, p, q) = >>=-eq-ok (encode_parameters params) _ e in
      let last : parameters pb ≡ ok (stable_sort params, []) =
        rw append-nil at (parameters-encode params pb [] u w p) in
      carried message_request_ok _ bytes decode_request_ok _ (omega arith) q (
        decode_done _ _ _
          (step _ _ _ _ _ _ last (step _ _ _ _ _ _ (remaining_view_lem []) (pure_lem _ _))))
