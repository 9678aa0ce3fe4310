-- ===== src/Wattsup/Examples.antt =====
-- Runs of the model of wattsup/wattsup.c, and its theorems at concrete inputs.
use uarch_configure.Common.{
  ◌≤◌, ◌<◌, ◌≡◌, ◌⊎◌, refl, arith, true, false, ltb, ◌==◌, ◌||◌, Option, none, some, if◌then◌else◌,
}
use uarch_configure.Common.{[], ◌∷◌, length, replicate, All}
use uarch_configure.Common.Text.{Text, print_int, is_space, skip_space, cut_at, c_string, atoi}
use uarch_configure.Wattsup.{Packet, wu_strlen, wu_num_fields}
use uarch_configure.Wattsup.Format.{text, overflow, format_packet, format_fields, format_head}
use uarch_configure.Wattsup.Parse.{
  parsed, out_of_bounds, parse_packet, parse_cmd, parse_sub_cmd, parse_count, parse_fields,
}
use uarch_configure.Wattsup.Fits.{packet_text, format_packet_exact}
use uarch_configure.Wattsup.Bounds.{parse_packet_bounds}
use uarch_configure.Wattsup.RoundTrip.{IsClean, parse_packet-format_packet}
use uarch_configure.Wattsup.Device.{received, timed_out, wrote, Device, returns, filled}
use uarch_configure.Wattsup.Commands.{packet, start_fields}
use uarch_configure.Wattsup.ReadData.{wu_read_data}
use uarch_configure.Wattsup.Reading.{wu_read_data_counts, timed_out-IsBad}
use uarch_configure.Wattsup.GivesUp.{stop_text, clear_text, start_text, wu_read_data_gives_up}
use uarch_configure.Wattsup.Open.{
  System, sysfs, dev, start, Directory, Kind, other, character_device,
}

-- The command that starts the log, and its text.
abbrev start_packet : Packet
start_packet = packet b'L' b'W' start_fields 3

start_packet_format : format_packet start_packet ≡ text start_text
unfolding format_packet format_head format_fields print_int
start_packet_format = refl

-- A reply `#d,-,2,  12,7` without its `;`.
abbrev reply : Text
reply =
    b'#' ∷ b'd' ∷ b',' ∷ b'-' ∷ b',' ∷ b'2' ∷ b',' ∷ b' ' ∷ b' ' ∷ b'1' ∷ b'2' ∷ b',' ∷ b'7' ∷ []

abbrev reply_packet : Packet
reply_packet = record {
  cmd = b'd';
  sub_cmd = b'-';
  count = 2;
  buf = reply;
  len = 13;
  field = (b'1' ∷ b'2' ∷ []) ∷ (b'7' ∷ []) ∷ [];
}

reply_parses : (q : Packet) → parse_packet (filled q reply) ≡ (parsed, reply_packet)
unfolding parse_packet parse_cmd parse_sub_cmd parse_count parse_fields c_string cut_at atoi
    skip_space
reply_parses q = refl

-- A reply that says it has nineteen parameters, and has them.
abbrev long_reply : Text
long_reply = b'#' ∷ b'd' ∷ b',' ∷ b'-' ∷ b',' ∷ b'1' ∷ b'9' ∷ b',' ∷ replicate 19 b','

long_reply_faults : (parse_packet (filled reply_packet long_reply)).0 ≡ out_of_bounds
unfolding parse_packet parse_cmd parse_sub_cmd parse_count parse_fields c_string cut_at atoi
    skip_space
long_reply_faults = refl

format_packet_exact_example : format_packet start_packet ≡ (
    if 3 == 0 || ltb (length (packet_text start_packet)) 254
    then text (packet_text start_packet)
    else overflow)
format_packet_exact_example = format_packet_exact start_packet (omega arith)

start-IsClean : All IsClean start_fields
unfolding is_space
start-IsClean = ((omega arith, refl), ((omega arith, refl), ((omega arith, refl), tt)))

parse_packet-format_packet_example :
    parse_packet (filled reply_packet start_text)
    ≡ (parsed, record start_packet { buf = start_text; len = 13 })
unfolding is_space
parse_packet-format_packet_example =
    parse_packet-format_packet start_packet (filled reply_packet start_text) start_text
      (record {
        cmd_plain = omega arith;
        cmd_ascii = omega arith;
        sub_plain = omega arith;
        sub_ascii = omega arith;
        counted = refl;
        nonempty = omega arith;
        few = omega arith;
        clean = start-IsClean;
      })
      start_packet_format refl refl

parse_packet_bounds_example :
    (wu_strlen ≤ 27) ⊎ (wu_num_fields < (parse_packet (filled reply_packet long_reply)).1.count)
parse_packet_bounds_example = parse_packet_bounds (filled reply_packet long_reply) long_reply_faults

-- A meter that answers twice and is then silent.
abbrev meter : Device
meter = record {
  reads =
      received reply
      ∷ received reply
      ∷ timed_out
      ∷ timed_out
      ∷ timed_out
      ∷ timed_out
      ∷ timed_out
      ∷ [];
  writes = wrote 7 ∷ wrote 7 ∷ wrote 13 ∷ [];
  sent = [];
  printed = [];
}

abbrev silent : Device
silent = record meter { reads = timed_out ∷ timed_out ∷ timed_out ∷ timed_out ∷ timed_out ∷ [] }

wu_read_data_counts_example :
    wu_read_data 2 false 2 meter
    ≡ returns tt (record silent { printed = reply_packet ∷ reply_packet ∷ [] })
wu_read_data_counts_example =
    wu_read_data_counts ((reply, reply_packet) ∷ (reply, reply_packet) ∷ []) 2 false meter
      silent.reads (reply_parses, (reply_parses, tt)) (omega arith) (omega arith) refl

wu_read_data_gives_up_example :
    wu_read_data 3 false 5 silent
    ≡ returns tt
        (record silent { reads = []; writes = []; sent = stop_text ∷ clear_text ∷ start_text ∷ [] })
wu_read_data_gives_up_example =
    wu_read_data_gives_up 0 false 5 silent timed_out timed_out timed_out timed_out timed_out [] 7 7
      13 [] (timed_out-IsBad, timed_out-IsBad, timed_out-IsBad, timed_out-IsBad, timed_out-IsBad)
      refl refl

abbrev flood : Device
flood = record meter { reads = received (replicate 256 b'#') ∷ [] }

-- A machine with a file of the name of the device in /sys/class/tty.
abbrev kinds : Directory → Option Kind
kinds start = none
kinds sysfs = some other
kinds dev = some character_device

abbrev with_file : System
with_file = record {
  cwd_opens = true;
  enters = λ _. true;
  kind = kinds;
  writable = λ _. true;
  opens = λ _. some 3;
}
