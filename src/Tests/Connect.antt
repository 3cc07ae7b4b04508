-- ===== src/Tests/Connect.antt =====
-- The handshake: src/datum_protocol.rs with a cryptography that is easy to compute.
use blvm_datum.Common.{◌≡◌, refl}
use blvm_datum.Error.{ok, codes}
use blvm_datum.Bytes.{slice, slice_from, index}
use blvm_datum.Utf8.{from_utf8_lossy, decode_from, decode_byte}
use blvm_datum.Header.{
  serialize_header, deserialize_header, unpack_header, apply_header_xor, xor_prefix, xor_byte,
  cmd_len_byte0, cmd_len_byte1, reserved_byte2, flags_byte3,
}
use blvm_datum.Stream.{Stream, read_exact, write_all, write_next, flush}
use blvm_datum.Messages.{same_command, to_u8, from_u8}
use blvm_datum.Client.{
  Client, new_client, generate_keys, ed25519_public, derive_key, initialize_session_nonce,
  datum_protocol_version, xor_header, create_nonce, no_stream,
}
use blvm_datum.Client.Transport.{
  receive_message_internal, read_signature, check_signature, decrypt_with,
}
use blvm_datum.Client.Handshake.{
  connect, perform_handshake, send_hello, read_hello_response, hello_message, hello_body,
  encrypt_hello, hello_header, is_some, check_response, check_echo, read_pool_key, start_session,
  read_motd, position_zero, bytes_eq, pool_address, strip_prefix_or,
}
use blvm_datum.Tests.Toy.{dial, entropy, toy}

abbrev start : Client
start = new_client (codes "tcp://pool:23334")

-- The handshake succeeds with that answer.
connect_runs : (connect toy dial entropy start).0 ≡ ok tt
unfolding connect perform_handshake send_hello read_hello_response hello_message hello_body
    encrypt_hello hello_header is_some check_response check_echo read_pool_key start_session
    read_motd position_zero bytes_eq pool_address strip_prefix_or new_client generate_keys
    ed25519_public derive_key initialize_session_nonce datum_protocol_version xor_header
    create_nonce no_stream receive_message_internal read_signature check_signature decrypt_with
    serialize_header deserialize_header unpack_header apply_header_xor xor_prefix xor_byte
    cmd_len_byte0 cmd_len_byte1 reserved_byte2 flags_byte3 read_exact write_all write_next flush
    same_command to_u8 from_u8 slice slice_from index from_utf8_lossy decode_from decode_byte
connect_runs = refl
