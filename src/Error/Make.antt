-- ===== src/Error/Make.antt =====
-- src/error.rs: the constructor functions of `Error`. The text of an error is left out.
use ws_fabric.Prelude.{Text}
use ws_fabric.Error.{Error}

abbrev pub connection_failed : Text → Error
connection_failed msg = Error.connection_failed

abbrev pub invalid_frame : Text → Error
invalid_frame msg = Error.invalid_frame

abbrev pub protocol_violation : Text → Error
protocol_violation msg = Error.protocol_violation

abbrev pub handshake_failed : Text → Error
handshake_failed msg = Error.handshake_failed

abbrev pub invalid_url : Text → Error
invalid_url msg = Error.invalid_url

abbrev pub authentication_failed : Text → Error
authentication_failed msg = Error.authentication_failed

abbrev pub tls : Text → Error
tls msg = Error.tls

abbrev pub not_supported : Text → Error
not_supported msg = Error.not_supported

abbrev pub invalid_state : Text → Error
invalid_state msg = Error.invalid_state
