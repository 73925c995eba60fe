-- ===== src/Program/Quality.antt =====
-- src/quality.rs: a minute of measurements of the link that carries the session. A time is a number of
-- nanoseconds.
pub mod Segments
pub mod Extremes
use oxutrm.Base.{
  ℕ, zero, suc, ◌+◌, ◌-◌, ◌*◌, ◌/◌, ◌%◌, ◌^◌, Bool, true, false, ◌&&◌, not, List, [], ◌∷◌, Option,
  none, some, min, max, ltb, leb, ◌==◌, length, map, if◌then◌else◌,
}

abbrev pub window : ℕ
window = 60

abbrev pub sample_every : ℕ
sample_every = 1_000_000_000

abbrev pub throughput_span : ℕ
throughput_span = 5_000_000_000

pub record Reading : Type 0 where
  pub rtt : ℕ
  pub sent : ℕ
  pub lost : ℕ
  pub tx_bytes : ℕ
  pub rx_bytes : ℕ
  pub mtu : ℕ
  pub black_holes : ℕ

pub record Sample : Type 0 where
  pub at : ℕ
  pub reading : Reading
  pub segment : ℕ
  pub outage : Bool

pub record RttStats : Type 0 where
  pub lowest : ℕ
  pub highest : ℕ

pub record Loss : Type 0 where
  pub window_sent : ℕ
  pub window_lost : ℕ

pub record Throughput : Type 0 where
  pub up : ℕ
  pub down : ℕ

-- The ring has its newest sample first, where the source's deque has it last.
pub record Quality : Type 0 where
  pub ring : List Sample
  pub segment : ℕ
  pub segment_since : ℕ

unfoldable pub new : ℕ → Quality
new now = record { ring = []; segment = 1; segment_since = now }

abbrev pub due_after : ℕ → List Sample → Bool
due_after now [] = true
due_after now (s ∷ older) = leb sample_every (now - s.at)

unfoldable pub due : ℕ → Quality → Bool
due now q = due_after now q.ring

module _ {A : Type 0} where
  -- `pop_front`.
  unfoldable pub without_oldest : List A → List A
  without_oldest [] = []
  without_oldest (s ∷ []) = []
  without_oldest (s ∷ t ∷ older) = s ∷ without_oldest (t ∷ older)

  -- `while self.ring.len() > WINDOW`, with fuel.
  unfoldable pub trimmed : ℕ → List A → List A
  unfolding without_oldest
  trimmed zero ring = ring
  trimmed (suc fuel) ring =
      let next = trimmed fuel (without_oldest ring) in
      if ltb window (length ring) then next else ring

unfoldable pub push : ℕ → Reading → Bool → Quality → Quality
unfolding trimmed
push at reading outage q = record q {
  ring =
      trimmed (suc (length q.ring))
        (record { at = at; reading = reading; segment = q.segment; outage = outage } ∷ q.ring);
}

abbrev pub u32_max : ℕ
u32_max = 0xffff_ffff

unfoldable pub new_segment : ℕ → Quality → Quality
new_segment now q = record q { segment = min (q.segment + 1) u32_max; segment_since = now }

unfoldable pub of_segment : ℕ → List Sample → List Sample
of_segment segment [] = []
of_segment segment (s ∷ older) =
    if s.segment == segment then s ∷ of_segment segment older else of_segment segment older

-- The current link's samples, newest first.
unfoldable pub current : Quality → List Sample
unfolding of_segment
current q = of_segment q.segment q.ring

abbrev pub newest : List Sample → Option Sample
newest [] = none
newest (s ∷ older) = some s

unfoldable pub oldest : List Sample → Option Sample
oldest [] = none
oldest (s ∷ []) = some s
oldest (s ∷ t ∷ older) = oldest (t ∷ older)

abbrev pub rtt_of : ℕ → List Sample → Option ℕ
rtt_of segment [] = none
rtt_of segment (s ∷ older) =
    if s.segment == segment && not s.outage then some s.reading.rtt else none

unfoldable pub rtt_now : Quality → Option ℕ
rtt_now q = rtt_of q.segment q.ring

abbrev pub mtu_of : List Sample → Option ℕ
mtu_of [] = none
mtu_of (s ∷ older) = if ltb 0 s.reading.mtu then some s.reading.mtu else none

unfoldable pub mtu_now : Quality → Option ℕ
unfolding current
mtu_now q = mtu_of (current q)

abbrev pub fallen : List Sample → Option ℕ
fallen [] = none
fallen (now ∷ []) = none
fallen (now ∷ before ∷ older) =
    if ltb before.reading.black_holes now.reading.black_holes then some now.reading.mtu else none

unfoldable pub mtu_reduced : Quality → Option ℕ
unfolding current
mtu_reduced q = fallen (current q)

-- The answered seconds' round trips.
unfoldable pub answered : List Sample → List ℕ
answered [] = []
answered (s ∷ older) = if s.outage then answered older else s.reading.rtt ∷ answered older

unfoldable pub lowest_of : ℕ → List ℕ → ℕ
lowest_of m [] = m
lowest_of m (r ∷ rtts) = lowest_of (min m r) rtts

unfoldable pub highest_of : ℕ → List ℕ → ℕ
highest_of m [] = m
highest_of m (r ∷ rtts) = highest_of (max m r) rtts

unfoldable pub stats_of : List ℕ → Option RttStats
unfolding lowest_of highest_of
stats_of [] = none
stats_of (r ∷ rtts) = some record { lowest = lowest_of r rtts; highest = highest_of r rtts }

unfoldable pub rtt_stats : Quality → Option RttStats
unfolding current answered stats_of
rtt_stats q = stats_of (answered (current q))

abbrev pub loss_between : Option Sample → Option Sample → Option Loss
loss_between (some first) (some last) = some record {
  window_sent = last.reading.sent - first.reading.sent;
  window_lost = last.reading.lost - first.reading.lost;
}
loss_between (some first) none = none
loss_between none last = none

unfoldable pub loss : Quality → Option Loss
unfolding current oldest
loss q = loss_between (oldest (current q)) (newest (current q))

abbrev pub or_older : ℕ → Sample → Option Sample → Option Sample
or_older now s (some t) = some t
or_older now s none = if leb (now - s.at) throughput_span then some s else none

-- The oldest sample that is recent enough.
unfoldable pub first_within : ℕ → List Sample → Option Sample
first_within now [] = none
first_within now (s ∷ older) = or_older now s (first_within now older)

-- `per_second` divides in floating point: bytes by nanoseconds.
module _ (per_second : ℕ → ℕ → ℕ) where
  unfoldable pub throughput_between : Option Sample → Sample → Option Throughput
  throughput_between none last = none
  throughput_between (some first) last =
      if last.at - first.at == 0
      then none
      else some record {
        up = per_second (last.reading.tx_bytes - first.reading.tx_bytes) (last.at - first.at);
        down = per_second (last.reading.rx_bytes - first.reading.rx_bytes) (last.at - first.at);
      }

  unfoldable pub throughput_of : List Sample → Option Throughput
  unfolding throughput_between first_within
  throughput_of [] = none
  throughput_of (last ∷ older) = throughput_between (first_within last.at (last ∷ older)) last

  unfoldable pub throughput : Quality → Option Throughput
  unfolding current throughput_of
  throughput q = throughput_of (current q)
