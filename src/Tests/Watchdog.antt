-- ===== src/Tests/Watchdog.antt =====
-- Rounds of the watchdog at small inputs.
use native.Mathlib.Decide.{ℕ_discrete}
use frommel.Base.{
  ℕ, ◌≤◌, ◌≢◌, ◌∙◌, inl, length-set, get_elem?-set_self, get_elem?-set_ne, ◌≡◌, refl, some, List,
  [], ◌∷◌, arith, get_elem?, set, false,
}
use frommel.Station.{Station, zero_station, same_node}
use frommel.Watchdog.{Action, watchdog, cleanup, handle_packet}
use frommel.Watchdog.Rounds.{Round, cleanup-Round, answer-lost}
use frommel.Conn.Nodes.{
  HasDistinctNodes, IsNode, set-HasDistinctNodes, init-zero, length-init, init-HasDistinctNodes,
}
use frommel.Conn.{init}
use frommel.Tests.Data.{sys, volumes, exists, has_login, node, client, table}

cleanup-Round_example :
    (acts : List Action) × (conns' : List Station) × (cleanup exists volumes 500 501 table
      ≡ some (acts, zero_station ∷ conns'))
    × Round 500 501 1 (client 7 100 0 ∷ zero_station ∷ client 9 100 350 ∷ []) acts conns'
cleanup-Round_example =
    cleanup-Round exists volumes sys has_login 500 501 zero_station
      (client 7 100 0 ∷ zero_station ∷ client 9 100 350 ∷ [])

-- 300 connections, of which 1 and 257 are in use.
abbrev one_used : List Station
one_used = set (init 300) 1 (client 7 100 0)

abbrev two_used : List Station
two_used = set one_used 257 (client 9 100 350)

one_used-HasDistinctNodes : HasDistinctNodes one_used
one_used-HasDistinctNodes =
    set-HasDistinctNodes (init 300) 1 (client 7 100 0) (omega (arith, length-init 300))
      (init-HasDistinctNodes 300) (λ j l one ne g node. ground (arith, init-zero 300 j l g))

two_used-HasDistinctNodes : HasDistinctNodes two_used
two_used-HasDistinctNodes =
    set-HasDistinctNodes one_used 257 (client 9 100 350)
      (omega (arith, length-init 300, length-set (init 300) 1 (client 7 100 0)))
      one_used-HasDistinctNodes apart
  where
    apart :
        (j : ℕ) (l : Station)
        → 1 ≤ j
        → j ≢ 257
        → get_elem? one_used j ≡ some l
        → IsNode (node 9)
        → same_node (node 9) l.addr ≡ false
    apart j l one ne g at = elim (ℕ_discrete j 1) [
      | yes e ↦ ground (arith, get_elem?-set_self (init 300) 1 (client 7 100 0), length-init 300)
      | no e ↦ ground (arith, get_elem?-set_ne (init 300) 1 j (client 7 100 0), init-zero 300 j l)
    ]

answer-lost_example :
    handle_packet 300 two_used ((watchdog 257 b'?' (client 9 100 350)).cid ∷ b'N' ∷ []) (node 9) 510
    ≡ some two_used
answer-lost_example =
    answer-lost two_used 300 257 510 (client 9 100 350) (client 7 100 0) (node 9) (omega arith)
      (omega arith) two_used-HasDistinctNodes
      (get_elem?-set_self one_used 257 (client 9 100 350)
        (omega (arith, length-init 300, length-set (init 300) 1 (client 7 100 0))))
      (get_elem?-set_ne one_used 257 1 (client 9 100 350) (λ e. omega arith)
        ∙ get_elem?-set_self (init 300) 1 (client 7 100 0) (omega (arith, length-init 300)))
      (inl (λ e. omega arith)) refl
