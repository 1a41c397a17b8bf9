-- ===== src/Lib.antt =====
-- rhex_service: the services of a hexapod robot (rhex_air) and of its ground station (rhex_ground),
-- in C. They talk over wifi frames without a connection: the robot's video is a stream of bytes that
-- libwfb cuts into packets with forward error correction, and commands, telemetry and signal reports
-- are single packets. Processes of one machine share their state through segments of libsvc, and
-- their messages through rings of log records that the main process prints.
--
-- Which file models which part:
--   * Wfb/Packet, Wfb/Io: the packet buffers of libwfb/wfb_tx_rawsock.c and libwfb/wfb_rx_rawsock.c,
--     and the world outside: the clock, write() and fec_encode() are fields of a record that every
--     operation takes; the frames written are kept in order.
--   * Wfb/TxRawsock: the stream sender, libwfb/wfb_tx_rawsock.c. `Sender` is a wfb_stream_t with the
--     static variables of the file. Header and Init are packet_header_init, packet_header_init80211N and
--     wfb_stream_init, Block is pb_transmit_block with pb_transmit_packet, Stream is wfb_tx_stream.
--     A loop body is split at its comments: `fill_packet`, `close_packet`, `next_packet`, `send_data`,
--     `send_fec` and so on, composed as the code composes them.
--   * Wfb/Handed: what the frames that were handed to write() carry, read off the frames alone. Whether
--     a write fails is an answer of the environment; a frame whose write fails counts as handed over.
--   * Wfb/RxRawsock: the stream receiver, libwfb/wfb_rx_rawsock.c. Receive is process_payload, Decode
--     its treatment of a finished block, Interface how wfb_rx_stream_interface finds the payload of a
--     captured frame. Wfb/RxStream has the whole of wfb_rx_stream: the frames that wait at each
--     adapter, and in its child Signal the statistics of their signal strength. fec_decode() is a
--     parameter; the theorems that need it to work name what is needed for the block at hand
--     (`Recovers`).
--   * Wfb/Link: the stream sender and the stream receiver, one behind the other.
--   * Wfb/TxPacket: the packet sender, wfb_write and the headers of wfb_tx_init in libwfb/wfb_tx.c.
--   * Wfb/RxPacket: the packet receiver, libwfb/wfb_rx.c. Start is wfb_rx_init with
--     open_and_configure_interface. libpcap, select() and the radiotap parser are parameters.
--   * Svc/Process: the life of a process, libsvc/svc.c with libsvc/timerfd.c, and the main process
--     that kicks the watchdogs of rhex_air/main.c. What epoll and fork() give is a parameter.
--   * Svc/SharedMem: libsvc/sharedmem.c. A segment is its header and the bytes behind it; a pointer
--     into it is a number.
--   * Log: liblog. Put is log_put_record, Print is log_print and msg_print, with every byte that goes
--     to stderr; Spec is a log as a queue of messages, and Ring joins the two views. What vsnprintf()
--     puts and returns is a parameter.
--   * Air/Motion: rhex_air/control/motion.c. Step is make_step, Control is the state machine of
--     do_motion and parse_msg, Cycle a cycle that stays within the array of the drives. The operations on floats are a parameter (`FloatOps`), and so is the CAN
--     protocol, which is in a submodule; what was given to send_can_msg() is kept in order.
--   * Air/Commands: a cycle of rc_main in rhex_air/control/rhex_rc.c; Ground/CommandsTx: a cycle of
--     rhex_tx_rc_main in rhex_ground/rhex_tx_rc.c.
--   * Air/Crc: rhex_air/control/crc.c, the checksum of the telemetry packet, beside one that
--     works bit by bit.
--   * Air/Gps: rhex_air/sensors/gps.c, from the bytes of the serial port to what is published. minmea is
--     a parameter.
--   * Air/Sensors: rhex_air/sensors/sensors.c and rhex_air/sensors/ina226.c. The operations on floats
--     and what is read on the bus are parameters.
--   * Air/Reports: rhex_air/telemetry/rssi_tx.c; Ground/Reports: rhex_ground/rssi_rx.c.
--   * Ground/Mavlink: the messages of MAVLink that rhex_ground/mavlink_defs.h describes, and the bytes
--     of an acknowledgement; Ground/Control: the clients and the loop of rhex_ground/rhex_control.c.
--   * Ground/TelemetryRx: process_packet of rhex_ground/rhex_telemetry_rx.c; its child Sent joins it to
--     the packet sender.
--   * Base: lists and byte buffers over the native numbers, with `memcpy`, and the operations on bits;
--     Tests: concrete runs.
--
-- Numbers are natural numbers, and what an unsigned type of w bits wraps is written as `% 2 ^ w`.
-- The counter skipfec, an int that a round of the sending loop decrements, has no lower bound here.
-- Little-endian words are lists of bytes. A buffer has the length that the code allocates; a `memcpy`
-- past its end drops bytes here, as does a write past the end of an array, except where data from
-- outside can lead there: a response of a board that is none of the three (Air/Motion), telemetry
-- that is longer than a slot (Ground/TelemetryRx) and a log message that is longer than its buffer
-- (Log) have the result `none`. exit() is `none` too, or a result of its own where the code is kept.
-- The loop of wfb_tx_stream runs on fuel, one more than the bytes of the input: a round that is not
-- the last takes a byte at least. The loop of log_put_record runs on one more than a 32nd of the
-- length. log_print may print for ever, so that its fuel is 64 messages, and the inner loop's 64
-- records; the theorems on it say that it has enough. The loop of vt_crc16 counts in 16 bits and
-- runs on one more than the bytes, which is enough below 2 ^ 16 of them; from there on it has no
-- end. Arguments that are C ints and never negative (ports, rates, types) are natural numbers.
--
-- Not modelled: libwfb/fec.c, libwfb/radiotap.c, libwfb/radiotap_rc.c and rhex_air/sensors/minmea.c,
-- which are copies of libraries; the code that only calls the system (netlink, buses, sockets, the
-- setting up of ports and of adapters); which messages are logged; the start of wfb_rx_stream; the load
-- of the processor, which is a computation on floats; and so far the forwarding to the ground station's
-- program, the camera and video processes, and the packet that the robot's telemetry builds.
pub mod Base
pub mod Wfb
pub mod Svc
pub mod Log
pub mod Air
pub mod Ground
pub mod Tests
