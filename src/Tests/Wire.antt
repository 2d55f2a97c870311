-- ===== src/Tests/Wire.antt =====
-- Packets, checksums, timers and queries at concrete inputs.
use geekchatserver.Prelude.{
  ◌+◌, ◌≡◌, refl, [], ◌∷◌, ◌++◌, arith, Bytes, codes, take, drop, ◌&&◌, ◌||◌, not, some,
}
use geekchatserver.Hex.{hex_to_ascii}
use geekchatserver.Hex.Decode.{ascii_to_hex, ascii_to_hex-hex_to_ascii}
use geekchatserver.Crc.{crc32_classic}
use geekchatserver.Crc.Reference.{crc32_bitwise, crc32_classic-crc32_bitwise}
use geekchatserver.Framing.{raw_packet}
use geekchatserver.Framing.Chunks.{frames, resume, frames-append}
use geekchatserver.Framing.Roundtrip.{raw_packets, frames-raw_packets}
use geekchatserver.Timer.{
  TimersList, client_timer, user_timer, same_owner, is_timer_effective, add_timer, del_timer,
  kick_timer, timeout_of, delay_of, timer_at,
}
use geekchatserver.Timer.Order.{IsOrdered, add_timer_lem, del_timer_lem, kick_timer_lem}

ascii_to_hex-hex_to_ascii_example : ascii_to_hex (hex_to_ascii (0 ∷ 171 ∷ [])) ≡ some (0 ∷ 171 ∷ [])
ascii_to_hex-hex_to_ascii_example = ascii_to_hex-hex_to_ascii (0 ∷ 171 ∷ []) (omega arith)

hex_digits : hex_to_ascii (0 ∷ 171 ∷ []) ≡ codes "00AB"
unfolding hex_to_ascii
hex_digits = refl

crc32_classic-crc32_bitwise_example :
    crc32_classic (codes "123456789") ≡ crc32_bitwise (codes "123456789")
crc32_classic-crc32_bitwise_example = crc32_classic-crc32_bitwise (codes "123456789") (omega arith)

abbrev hello : Bytes
hello = codes "hello"

frames-append_example :
    frames (take 6 (raw_packet 1 hello) ++ drop 6 (raw_packet 1 hello))
    ≡ resume (frames (take 6 (raw_packet 1 hello))) (drop 6 (raw_packet 1 hello))
frames-append_example = frames-append (take 6 (raw_packet 1 hello)) (drop 6 (raw_packet 1 hello))

frames-raw_packets_example : frames (raw_packets 1 (hello ∷ [] ∷ []) ++ codes "abc") ≡ record {
  packets = (hello ∷ [] ∷ []) ++ (frames (codes "abc")).packets;
  rest = (frames (codes "abc")).rest;
  failed = (frames (codes "abc")).failed;
}
frames-raw_packets_example =
    frames-raw_packets 1 (hello ∷ [] ∷ []) (codes "abc") (omega arith) (omega arith)

-- Two timers, due at 10 and at 30.
abbrev two_timers : TimersList
two_timers = timer_at (client_timer 7) 0 10 ∷ timer_at (user_timer 2) 0 30 ∷ []

two_timers-IsOrdered : IsOrdered two_timers
unfolding is_timer_effective
two_timers-IsOrdered = ((omega arith, tt), refl, (tt, refl, tt))

add_timer_lem_example :
    (ts' : TimersList) × (add_timer 5 two_timers (user_timer 9) 20 ≡ some ts')
    × IsOrdered ts'
    × ((p : _)
        → is_timer_effective ts' p
          ≡ (same_owner (user_timer 9) p || is_timer_effective two_timers p))
unfolding is_timer_effective
add_timer_lem_example = add_timer_lem 5 two_timers (user_timer 9) 20 two_timers-IsOrdered refl

del_timer_lem_example :
    (ts' : TimersList) × (del_timer two_timers (client_timer 7) ≡ some ts')
    × IsOrdered ts'
    × ((p : _)
        → is_timer_effective ts' p
          ≡ (not (same_owner (client_timer 7) p) && is_timer_effective two_timers p))
unfolding is_timer_effective
del_timer_lem_example = del_timer_lem two_timers (client_timer 7) two_timers-IsOrdered refl

kick_timer_lem_example :
    (ts' : TimersList) × (kick_timer 25 two_timers (client_timer 7) ≡ some ts')
    × IsOrdered ts'
    × ((p : _) → is_timer_effective ts' p ≡ is_timer_effective two_timers p)
    × (timeout_of ts' (client_timer 7) ≡ some (25 + delay_of two_timers (client_timer 7)))
unfolding is_timer_effective
kick_timer_lem_example = kick_timer_lem 25 two_timers (client_timer 7) two_timers-IsOrdered refl
