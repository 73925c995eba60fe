-- ===== src/Examples/Punching.antt =====
-- Two ends find a path.
use mathlib.Core.List.{Memᴰ}
use oxutrm.Base.{
  ℕ, ◌^◌, ◌<◌, ◌≡◌, refl, true, List, [], ◌∷◌, Option, none, some, ltb, ◌==◌, if◌then◌else◌, All,
  arith, ◌||◌,
}
use oxutrm.Proto.Frame.{Bytes}
use oxutrm.Proto.Addr.{SocketAddr, v4, v6, ipv4, ipv6, ip, is_ipv6}
use oxutrm.Proto.Rungs.{host, peer_reflexive, direct, Family}
use oxutrm.Net.Socketfam.{unmap, to_socket_family, unmap-to_socket_family}
use oxutrm.Net.Priority.{ice_priority, rank, ice_priority-rank}
use oxutrm.Net.Stun.{controlling, Direction, client_to_host, host_to_client, Tid, Check, CheckKind}
use oxutrm.Net.Ice.Tables.{PairState, admits}
use oxutrm.Net.Ice.Best.{Outranked}
use oxutrm.Net.Ice.{Messages, IceAgent, Turn, Fate, new, turn}
use oxutrm.Net.Ice.History.{
  Step, after, learn_theirs, restrict, called, turned, Happened, Requested, Answered,
}
use oxutrm.Net.Ice.Chosen.{SettlesOn, checked, settles_proven}

abbrev wide : SocketAddr
wide = v6 0x2001_0db8 443 0 0

abbrev narrow : SocketAddr
narrow = v4 0xc633_6407 4242

unmap-to_socket_family_example :
    (is_ipv6 (ip (to_socket_family wide narrow)) ≡ (is_ipv6 (ip wide) || is_ipv6 (ip narrow)))
    × (unmap (to_socket_family wide narrow) ≡ unmap narrow)
    × (unmap (unmap narrow) ≡ unmap narrow)
unmap-to_socket_family_example = unmap-to_socket_family wide narrow (omega arith)

ice_priority-rank_example :
    (ltb (ice_priority peer_reflexive (ipv6 1)) (ice_priority host (ipv4 2))
      ≡ ltb (rank peer_reflexive (is_ipv6 (ipv6 1))) (rank host (is_ipv6 (ipv4 2))))
    × (0 < ice_priority peer_reflexive (ipv6 1))
    × (ice_priority peer_reflexive (ipv6 1) < 2 ^ 31)
ice_priority-rank_example = ice_priority-rank peer_reflexive host (ipv6 1) (ipv4 2)

-- Messages in three parts: the direction, the kind and the transaction.
abbrev mark : Direction → ℕ
mark client_to_host = 1
mark host_to_client = 2

abbrev a_check : ℕ → Tid → Option Check
a_check k tid =
    if k == 1
    then some record { kind = CheckKind.request; tid = tid; reflexive = none }
    else if k == 2
    then some record { kind = CheckKind.success_response; tid = tid; reflexive = none }
    else some record { kind = CheckKind.nomination; tid = tid; reflexive = none }

abbrev read_toy : Direction → Bytes → Option Check
read_toy d [] = none
read_toy d (m ∷ []) = none
read_toy d (m ∷ k ∷ tid) = if m == mark d then a_check k tid else none

abbrev toy : Messages
toy = record {
  request = λ d tid. some (mark d ∷ 1 ∷ tid);
  response = λ d tid seen. some (mark d ∷ 2 ∷ tid);
  nomination = λ d tid. some (mark d ∷ 3 ∷ tid);
  parse = read_toy;
}

abbrev fates : SocketAddr → Fate
fates remote = record { tid = 9 ∷ []; goes_out = true }

abbrev a_turn : ℕ → Option (SocketAddr × Bytes) → Turn
a_turn now arrival = record {
  tested_at = now;
  sent_at = now;
  fates = fates;
  nomination_tid = 5 ∷ [];
  handled_at = now;
  arrival = arrival;
}

-- The host's request comes, and its response to the check.
abbrev punched : List Step
punched =
    turned (a_turn 20 (some (narrow, 1 ∷ 2 ∷ 9 ∷ [])))
    ∷ turned (a_turn 10 (some (narrow, 2 ∷ 1 ∷ 7 ∷ [])))
    ∷ called 0
    ∷ restrict (λ a. true)
    ∷ learn_theirs record { addr = narrow; kind = host; priority = 1853882623 }
    ∷ []

abbrev before_last : IceAgent
before_last = after toy wide (new controlling 3000) punched

abbrev last : Turn
last = a_turn 30 none

settled : SettlesOn narrow (turn toy wide last before_last).1
unfolding turn after new
settled = (wide, direct Family.ipv4, 1, refl)

settles_proven_example :
    Happened (Requested toy wide controlling 3000 narrow) (turned last ∷ punched)
    × Answered toy wide controlling 3000 narrow (turned last ∷ punched)
    × (admits (checked toy wide last before_last).remote_filter narrow ≡ true)
    × ((s : PairState) × Memᴰ (narrow, s) (checked toy wide last before_last).pairs
        × All
            (Outranked (checked toy wide last before_last).remote_filter s.priority)
            (checked toy wide last before_last).pairs)
settles_proven_example = settles_proven toy wide 3000 punched last narrow settled
