-- ===== src/Auth/Tests/Conversation.antt =====
-- A conversation with a server with one account: a login with a wrong password, the flush timer, a write
-- of which the system takes most, and the rest.
use priston_tale_eu.Prelude.{refl, false, some, List, [], ◌∷◌, arith, Outcome, ok, fault}
use priston_tale_eu.Network.PacketBuffer.Queue.{IsValid}
use priston_tale_eu.Network.Socket.State.{Socket}
use priston_tale_eu.Network.Socket.Stream.Ops.{fresh}
use priston_tale_eu.Network.Socket.Stream.Invariant.{Agrees}
use priston_tale_eu.Auth.Conversation.{
  Event, hears, fires, completes, run, step, ended, greet, conversation,
}
use priston_tale_eu.Common.Hex.{calculate_sha1_hash, byte_array_to_hex_str}
use priston_tale_eu.Network.PacketBuffer
use priston_tale_eu.Network.PacketBuffer.{make}
use priston_tale_eu.Network.Socket.State.{read}
use priston_tale_eu.Network.Socket.Input.{open_socket, on_read, after_process, start_async_read}
use priston_tale_eu.Network.Socket.Output.{
  write, flush_out, on_write_complete, shift_out, start_write_flush_timer,
}
use priston_tale_eu.Auth.Packets.{account_login_code_bytes, version_bytes}
use priston_tale_eu.Auth.Opcodes.{get_client_packet, initialize_packets, find, insert}
use priston_tale_eu.Auth.Session.{send_packet, send_version_check, decrypt_packet}
use priston_tale_eu.Auth.Handlers.{
  c_string, process_incoming_data, dispatch, execute_packet, on_login_user, login_result,
  check_password, send_login_code, login_code,
}
use priston_tale_eu.Auth.Reception.{process}
use priston_tale_eu.Auth.Conversation.InStep.{conversation-in_step}
use priston_tale_eu.Auth.Tests.{one_account, client}
use priston_tale_eu.Auth.Tests.Arrival.{wrong}

abbrev events : List Event
events =
    hears client 4096 false false wrong 0 ∷ fires ∷ completes false 200 ∷ completes false 96 ∷ []

abbrev reached : Outcome Socket → Socket
reached (ok s) = s
reached (fault f) = client.socket

abbrev last : Socket
last = reached (conversation one_account client 10009 (some []) events)

conversation-in_step_example :
    IsValid last.out_buffer
    × Agrees last.is_open last.write_state last.timer last.flight last.out_buffer.write_position
unfolding conversation greet open_socket send_version_check version_bytes run step ended fresh
    process on_read after_process process_incoming_data dispatch execute_packet decrypt_packet
    on_login_user login_result check_password send_login_code login_code send_packet
    account_login_code_bytes write flush_out on_write_complete shift_out start_async_read c_string
    calculate_sha1_hash byte_array_to_hex_str get_client_packet initialize_packets find insert
    start_write_flush_timer make read PacketBuffer.read_length_remaining PacketBuffer.read
    PacketBuffer.write
conversation-in_step_example =
    conversation-in_step one_account client 10009 (some []) events last (omega arith) refl
