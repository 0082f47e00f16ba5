-- ===== src/Source/SensorControl.antt =====
-- include/zmk/pointing_tools/source/sensor_control_wire.h and src/source/sensor_control_session.c: the
-- requests to a sensor on the other half and their responses, one outstanding at a time.
use zmk_pointing_tools.Base.Int.{ℤ, neg_of_ℕ}
use zmk_pointing_tools.Base.{
  not, Option, arith, true, ℕ, Bool, false, refl, some, none, ◌==◌, if◌then◌else◌, ◌+◌, ◌*◌, ◌/◌,
  ◌%◌, ◌^◌, ◌<◌, ◌≡◌, ◌||◌,
}

-- zpt_scw_param1 of a seq, an opcode and a device id
unfoldable pub scw_param1 : (seq opcode device_id : ℕ) → ℕ
scw_param1 seq opcode device_id = seq % 16 * 2 ^ 16 + opcode % 2 ^ 8 * 2 ^ 8 + device_id

unfoldable pub scw_param_seq : ℕ → ℕ
scw_param_seq param1 = param1 / 2 ^ 16 % 16

unfoldable pub scw_param_opcode : ℕ → ℕ
scw_param_opcode param1 = param1 / 2 ^ 8 % 2 ^ 8

unfoldable pub scw_param_device_id : ℕ → ℕ
scw_param_device_id param1 = param1 % 2 ^ 8

unfoldable pub scw_encode : (status_errno seq value : ℕ) → ℕ
scw_encode status_errno seq value = 10 * 2 ^ 28 + status_errno * 2 ^ 20 + seq % 16 * 2 ^ 16 + value

-- The status, the sequence number and the value, if the tag is right.
unfoldable pub scw_decode : ℕ → Option (ℕ × ℕ × ℕ)
scw_decode raw =
    if not (raw / 2 ^ 28 % 16 == 10)
    then none
    else some (raw / 2 ^ 20 % 2 ^ 8, raw / 2 ^ 16 % 16, raw % 2 ^ 16)

-- struct zpt_scw_session
pub record ScwSession : Type 0 where
  pub last_seq : ℕ  -- uint8_t
  pub expected_seq : ℕ  -- uint8_t
  pub status_errno : ℕ  -- uint8_t
  pub value : ℕ  -- uint16_t

abbrev pub scw_session_init : ScwSession
scw_session_init = record { last_seq = 0; expected_seq = 0; status_errno = 0; value = 0 }

unfoldable pub scw_session_begin : ScwSession → ScwSession × ℕ
scw_session_begin session =
    let last_seq = session.last_seq % 15 + 1 in
    (record session { last_seq = last_seq; expected_seq = last_seq }, last_seq)

unfoldable pub scw_session_offer : ScwSession → ℕ → ScwSession × Bool
unfolding scw_decode
scw_session_offer session raw = elim (scw_decode raw) [
  | none ↦ (session, false)
  | some (status, seq, value) ↦
      if session.expected_seq == 0 || not (seq == session.expected_seq)
      then (session, false)
      else (record session { status_errno = status; value = value; expected_seq = 0 }, true)
]

unfoldable pub scw_session_cancel : ScwSession → ScwSession
scw_session_cancel session = record session { expected_seq = 0 }

-- The negated errno, with the value.
unfoldable pub scw_session_result : ScwSession → ℤ × ℕ
scw_session_result session = (neg_of_ℕ session.status_errno, session.value)

-- The fields of a request come back from its parameter.
pub param1-fields :
    (seq opcode device_id : ℕ)
    → seq < 16
    → opcode < 2 ^ 8
    → device_id < 2 ^ 8
    → (scw_param_seq (scw_param1 seq opcode device_id) ≡ seq)
      × (scw_param_opcode (scw_param1 seq opcode device_id) ≡ opcode)
      × (scw_param_device_id (scw_param1 seq opcode device_id) ≡ device_id)
      × (scw_param1 seq opcode device_id < 2 ^ 32)
unfolding scw_param1 scw_param_seq scw_param_opcode scw_param_device_id
param1-fields seq opcode device_id s o d = (omega arith, omega arith, omega arith, omega arith)

scw_decode-encode :
    (status seq value : ℕ)
    → status < 2 ^ 8
    → seq < 16
    → value < 2 ^ 16
    → scw_decode (scw_encode status seq value) ≡ some (status, seq, value)
unfolding scw_encode scw_decode
scw_decode-encode status seq value s q v =
    let status_field : scw_encode status seq value / 2 ^ 20 % 2 ^ 8 ≡ status = omega arith in
    let seq_field : scw_encode status seq value / 2 ^ 16 % 16 ≡ seq = omega arith in
    let value_field : scw_encode status seq value % 2 ^ 16 ≡ value = omega arith in
    let tag_field : scw_encode status seq value / 2 ^ 28 % 16 ≡ 10 = omega arith in
    rw (status_field, seq_field, value_field, tag_field) refl

-- A response is accepted by the session that has begun a request exactly if it has the request's
-- number; then its negated status and its value are the result. Any other leaves the session as it is. In
-- both cases the same response is not accepted again after it.
pub offer-matches :
    (session : ScwSession) (status seq value : ℕ)
    → status < 2 ^ 8
    → seq < 16
    → value < 2 ^ 16
    → let (begun, number) = scw_session_begin session in
      let (offered, accepted) = scw_session_offer begun (scw_encode status seq value) in
      (accepted ≡ (seq == number))
      × (accepted ≡ true → scw_session_result offered ≡ (neg_of_ℕ status, value))
      × (accepted ≡ false → offered ≡ begun)
      × ((scw_session_offer offered (scw_encode status seq value)).1 ≡ false)
unfolding scw_session_begin scw_session_offer scw_session_result
offer-matches session status seq value s q v =
    ground (arith, scw_decode-encode status seq value s q v)
