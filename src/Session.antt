-- ===== src/Session.antt =====
-- apps/modem-ui/src/acoustic-session.ts: the acoustic session. Here are the roles and the
-- coding of texts; Handshake and Delivery have the handshake body and the delivery of packets.
pub mod Handshake
pub mod Delivery
pub mod Examples
use fipwave.Common.{ℕ, ◌==◌, if◌then◌else◌, Result, ok, err, List, Option}
use Prim.Native.String.{String}

pub data AcousticRole : Type 0 where
  role_a role_b : AcousticRole

pub data SessionError : Type 0 where
  role_invalid handshake_invalid identity_invalid profile_set_invalid echo_nonce_invalid :
      SessionError
  truncated version_invalid nonce_invalid profile_count_invalid profile_invalid : SessionError
  range_invalid echo_flag_invalid session_id_invalid trailing_data binding_invalid : SessionError

unfoldable pub role_byte : AcousticRole → ℕ
role_byte role_a = 1
role_byte role_b = 2

unfoldable pub parse_role : ℕ → Result SessionError AcousticRole
parse_role value =
    if value == 1 then ok role_a else if value == 2 then ok role_b else err role_invalid

-- `TextEncoder`, and `TextDecoder` with `fatal`, which are the browser's.
pub record TextCoding : Type 0 where
  pub encode : String → List ℕ
  pub decode : List ℕ → Option String
