-- ===== src/Session/Format.antt =====
-- session/format.py: the header of a frame file.
pub mod Header
use tuner_os.Prelude.{
  ℕ, Bool, not, ◌||◌, List, [], ◌∷◌, ◌++◌, ◌==◌, nat_eq, list_eq, eqb, length, take, drop, Result,
  ok, session_format_error, session_version_error, ◌>>=◌, ◌>>◌, raise_if,
}
use tuner_os.Prelude.Values.{Bytes}
use tuner_os.Prelude.Struct.{to_be, of_be}
use tuner_os.Session.Models.{session_format_version, session_format_version_calibration}

-- b"TNSR"
abbrev pub session_file_magic : Bytes
session_file_magic = 84 ∷ 78 ∷ 83 ∷ 82 ∷ []

abbrev pub session_file_header_size : ℕ
session_file_header_size = 8

-- version in (SESSION_FORMAT_VERSION, SESSION_FORMAT_VERSION_CALIBRATION)
abbrev pub is_supported : ℕ → Bool
is_supported version =
    eqb version session_format_version || eqb version session_format_version_calibration

unfoldable pub encode_session_header : ℕ → Result Bytes
encode_session_header version = do
  raise_if (not (is_supported version)) session_version_error
  ok (session_file_magic ++ (to_be 1 version ++ 0 ∷ 0 ∷ 0 ∷ []))

abbrev pub version_field : Bytes → ℕ
version_field d = of_be (take 1 (drop 4 d))

unfoldable pub decode_session_header : Bytes → Result ℕ
decode_session_header d = do
  raise_if (not (eqb (length d) session_file_header_size)) session_format_error
  raise_if (not (take 4 d == session_file_magic)) session_format_error
  raise_if (not (is_supported (version_field d))) session_version_error
  raise_if (not (drop 5 d == 0 ∷ 0 ∷ 0 ∷ [])) session_format_error
  ok (version_field d)
