-- ===== src/Protocol/RoundTrip.antt =====
-- The packets that `decode_packet` of grix_hermes/protocol.py gives and takes.
use grix_hermes_python.Prelude.{String, ◌≡◌, refl, arith, false, ◌==◌, if_elim}
use mathlib.Core.Path.{subst}
use grix_hermes_python.Prelude.Dict.{Dict, get}
use grix_hermes_python.Prelude.Int.{ℤ, pos, ◌≤ℤ◌}
use grix_hermes_python.Prelude.Text.{strip, strip_idem}
use grix_hermes_python.Json.{
  Value, value_at, dict_of, fields_of, dict_of-fields_of, text_of, text_of-text,
}
use grix_hermes_python.Protocol.Clamp.{clamp_int-le, clamp_int-ge, clamp_int-id}
use grix_hermes_python.Protocol.Names.{normalize_text}
use grix_hermes_python.Protocol.Packets.{
  Result, Packet, as_value, build_packet, encode_packet, decode_packet, read_packet, packet_of,
  read_loaded, largest_seq,
}

normalize_text-text : (s : String) → normalize_text (Value.text s) ≡ strip s
unfolding normalize_text
normalize_text-text s = rw (text_of-text s) refl

read_packet-as_value :
    (cmd : String) (payload : Dict Value) (seq : ℤ)
    → strip cmd ≡ cmd
    → (cmd == "") ≡ false
    → pos 0 ≤ℤ seq
    → seq ≤ℤ pos largest_seq
    → read_packet (as_value (build_packet cmd payload seq))
      ≡ Result.returns (build_packet cmd payload seq)
unfolding read_packet build_packet value_at get dict_of fields_of
read_packet-as_value cmd payload seq stripped named above below =
    rw
      (
        normalize_text-text cmd,
        stripped,
        named,
        clamp_int-id seq (pos 0) (pos 0) (pos largest_seq) above below,
        dict_of-fields_of payload,
      )
      refl

-- A packet with a command that is not blank and has no space around it, and a number from 0 up to 2
-- ^ 63 - 1, is decoded as it was built, where `json.loads` reads back what `json.dumps` wrote of
-- it.
pub decode-encode :
    (dumps : Value → String) (loads : String → Result Value) (cmd : String) (payload : Dict Value)
    (seq : ℤ)
    → strip cmd ≡ cmd
    → (cmd == "") ≡ false
    → pos 0 ≤ℤ seq
    → seq ≤ℤ pos largest_seq
    → loads (dumps (as_value (build_packet cmd payload seq)))
      ≡ Result.returns (as_value (build_packet cmd payload seq))
    → decode_packet loads (encode_packet dumps (build_packet cmd payload seq))
      ≡ Result.returns (build_packet cmd payload seq)
unfolding decode_packet encode_packet
decode-encode dumps loads cmd payload seq stripped named above below written =
    rw (written, decode_packet) (read_packet-as_value cmd payload seq stripped named above below)

-- A packet that the rest of the plugin may count on.
abbrev pub IsUsable : Packet → Type 0
IsUsable packet =
    strip packet.cmd ≡ packet.cmd
    × (packet.cmd == "") ≡ false
    × pos 0 ≤ℤ packet.seq
    × packet.seq ≤ℤ pos largest_seq

abbrev IsUsableResult : Result Packet → Type 0
IsUsableResult (Result.raises message) = Unit
IsUsableResult (Result.returns packet) = IsUsable packet

packet_of-IsUsable :
    (cmd : String) (seq payload : Value)
    → strip cmd ≡ cmd
    → (cmd == "") ≡ false
    → IsUsableResult (packet_of cmd seq payload)
packet_of-IsUsable cmd seq (Value.object fs) stripped named = (
  stripped,
  named,
  clamp_int-ge seq (pos 0) (pos 0) (pos largest_seq) (omega arith),
  clamp_int-le seq (pos 0) (pos 0) (pos largest_seq) (omega arith) (omega arith),
)
packet_of-IsUsable cmd seq Value.null stripped named = tt
packet_of-IsUsable cmd seq (Value.boolean b) stripped named = tt
packet_of-IsUsable cmd seq (Value.number n) stripped named = tt
packet_of-IsUsable cmd seq (Value.text s) stripped named = tt
packet_of-IsUsable cmd seq (Value.array vs) stripped named = tt

read_packet-IsUsable : (value : Value) → IsUsableResult (read_packet value)
unfolding read_packet normalize_text
read_packet-IsUsable (Value.object fs) =
    let text = text_of (value_at "cmd" (dict_of fs)) in
    let rest =
      packet_of (strip text) (value_at "seq" (dict_of fs)) (value_at "payload" (dict_of fs)) in
    if_elim IsUsableResult (strip text == "") (Result.raises "grix packet requires cmd") rest
      (λ _. tt)
      (λ named.
        packet_of-IsUsable (strip text) (value_at "seq" (dict_of fs))
          (value_at "payload" (dict_of fs)) (strip_idem text) named)
read_packet-IsUsable Value.null = tt
read_packet-IsUsable (Value.boolean b) = tt
read_packet-IsUsable (Value.number n) = tt
read_packet-IsUsable (Value.text s) = tt
read_packet-IsUsable (Value.array vs) = tt

read_loaded-IsUsable : (loaded : Result Value) → IsUsableResult (read_loaded loaded)
read_loaded-IsUsable (Result.raises message) = tt
read_loaded-IsUsable (Result.returns value) = read_packet-IsUsable value

-- Whatever text comes in, a packet that is decoded has a command that is not blank and has no space
-- around it, and its number lies from 0 up to 2 ^ 63 - 1.
pub decode_packet-IsUsable :
    (loads : String → Result Value) (text : String) (packet : Packet)
    → decode_packet loads text ≡ Result.returns packet
    → IsUsable packet
unfolding decode_packet
decode_packet-IsUsable loads text packet decoded =
    subst IsUsableResult decoded (read_loaded-IsUsable (loads text))
