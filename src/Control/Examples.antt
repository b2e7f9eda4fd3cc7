-- ===== src/Control/Examples.antt =====
-- Runs of the theorems on the control packets.
use minimq.Control.{check_control_packet_size, encode_control_packet, pub_ack}
use minimq.Control.Size.{check-control_bytes, control_bytes, encode-control_bytes}
use minimq.Errors.{response_too_large}
use minimq.Prelude.{arith, err, length, none, ok, replicate, some, ◌<◌, ◌↔◌, ◌≡◌, ◌≤◌}
use minimq.Reason.{success}

encode-control_bytes_example :
    encode_control_packet (replicate 9 0) (pub_ack 258 success)
    ≡ ok (control_bytes (pub_ack 258 success))
encode-control_bytes_example =
    encode-control_bytes (replicate 9 0) (pub_ack 258 success) (omega arith)

check-control_bytes_example :
    ((check_control_packet_size (some 4) (pub_ack 7 success) ≡ ok tt)
      ↔ (length (control_bytes (pub_ack 7 success)) ≤ 4))
    × (4 < length (control_bytes (pub_ack 7 success))
        → check_control_packet_size (some 4) (pub_ack 7 success) ≡ err response_too_large)
    × (check_control_packet_size none (pub_ack 7 success) ≡ ok tt)
check-control_bytes_example = check-control_bytes 4 (pub_ack 7 success)
