-- ===== src/Examples/Roaming.antt =====
-- A laptop moves from one network to another.
use mathlib.Core.Logic.{◌↔◌}
use oxutrm.Base.{ℕ, ◌≡◌, ◌≢◌, refl, true, false, List, [], ◌∷◌, none, some, map, take, arith}
use oxutrm.Proto.Addr.{ipv4, ipv6, mapped}
use oxutrm.Net.Socketfam.{unmap_ip}
use oxutrm.Program.Roam.{RouteWatch, new, moved, settle, is_unspecified, moved-settle}
use oxutrm.Program.Quality
use oxutrm.Program.Quality.{
  Quality, Reading, RttStats, window, push, new_segment, current, answered, rtt_stats,
}
use oxutrm.Program.Quality.Segments.{
  Event, measured, after, Measurement, sampled, measure, current-new_segment,
}
use oxutrm.Program.Quality.Extremes.{Bounds, rtt_stats-Bounds}

-- 198.51.100.7 in its mapped form, and another.
abbrev moved_to : RouteWatch
moved_to = settle (ipv6 0xffff_c633_6407) (new none)

moved-settle_example :
    ((moved (ipv4 0x0a00_0001) moved_to ≡ true) ↔ (
      (is_unspecified (unmap_ip (ipv4 0x0a00_0001)) ≡ false)
      × (unmap_ip (ipv6 0xffff_c633_6407) ≢ unmap_ip (ipv4 0x0a00_0001))))
    × (moved (ipv6 0xffff_c633_6407) moved_to ≡ false)
    × (moved (ipv6 (mapped 0x0a00_0001)) moved_to ≡ moved (ipv4 0x0a00_0001) moved_to)
    × (settle (ipv4 0) moved_to ≡ moved_to)
    × (settle (ipv6 0) moved_to ≡ moved_to)
unfolding is_unspecified unmap_ip
moved-settle_example =
    moved-settle (ipv6 0xffff_c633_6407) (ipv4 0x0a00_0001) (new none) 0x0a00_0001 refl
      (omega arith)

abbrev reading : ℕ → ℕ → Reading
reading rtt sent = record {
  rtt = rtt;
  sent = sent;
  lost = 1;
  tx_bytes = 10;
  rx_bytes = 20;
  mtu = 1400;
  black_holes = 0;
}

abbrev second_link : List Measurement
second_link = (9, reading 40 7, false) ∷ (8, reading 30 5, false) ∷ []

abbrev first_link : List Event
first_link = measured 5 (reading 90 900) false ∷ measured 4 (reading 80 800) false ∷ []

current-new_segment_example :
    current (after (new_segment 7 (after (Quality.new 1) first_link)) (map measure second_link))
    ≡ take window
        (map (sampled (new_segment 7 (after (Quality.new 1) first_link)).segment) second_link)
current-new_segment_example = current-new_segment 1 7 first_link second_link (omega arith)

abbrev roamed : Quality
roamed = after (new_segment 7 (after (Quality.new 1) first_link)) (map measure second_link)

the_stats : rtt_stats roamed ≡ some (record { lowest = 30; highest = 40 })
unfolding rtt_stats after new_segment Quality.new
the_stats = refl

rtt_stats-Bounds_example : Bounds (rtt_stats roamed) roamed.segment roamed.ring
rtt_stats-Bounds_example = rtt_stats-Bounds roamed
