-- ===== src/Master/Probation.antt =====
-- Quarantine: who enters it, and how long it lasts.
use huddle_cluster.Base.{
  ℕ, ◌+◌, ◌<◌, ◌≡◌, String, Option, List, [], ◌∷◌, arith, Dict, length, leb, if◌then◌else◌,
}
use huddle_cluster.Base.Floats.{Floats}
use huddle_cluster.Master.{
  NodeRecord, Settings, alive, dead, quarantined, leaving, on_quarantined, recent, beat, rejoin,
}

module _ (fl : Floats) {J : Type 0} (c : Settings fl.Float) where
  open fl use {Float}

  -- The deaths that still count for a node at a time.
  abbrev pub flaps : Float → NodeRecord Float J → ℕ
  flaps now n = length (recent fl c now n.recent_deaths)

  -- A heartbeat by status: a dead node comes back alive, or, with too many deaths inside the flap
  -- window, quarantined with a count of one; a quarantined node becomes alive exactly when its
  -- count reaches the required number; the others keep their status. Only entering quarantine is
  -- reported.
  beat-status :
      (now : Float) (metrics : Option (Dict J)) (n : NodeRecord Float J)
      → let r = beat fl c now metrics n in
        (r.0.status ≡ elim n.status [
          | dead ↦ if leb c.flap_threshold (flaps now n) then quarantined else alive
          | quarantined ↦
              if leb c.quarantine_recovery (n.consecutive_alive_heartbeats + 1)
              then alive
              else quarantined
          | alive ↦ alive
          | leaving ↦ leaving
        ])
        × (r.0.heartbeat_count ≡ n.heartbeat_count + 1)
        × (r.0.last_heartbeat ≡ now)
        × (r.1 ≡ elim n.status [
          | dead ↦ if leb c.flap_threshold (flaps now n) then on_quarantined n.node_id ∷ [] else []
          | _ ↦ []
        ])
  unfolding beat
  beat-status now metrics n = ground arith

  -- A rejoin takes no node out of quarantine, and puts a dead node there exactly as a heartbeat
  -- would; in all other states the node is alive then. It has the new address and port, and no
  -- death is forgotten.
  rejoin-status :
      (now : Float) (address : String) (port : ℕ) (metadata : Option (Dict J)) (cn : Option String)
      (n : NodeRecord Float J)
      → let r = rejoin fl c now address port metadata cn n in
        (r.0.status ≡ elim n.status [
          | dead ↦ if leb c.flap_threshold (flaps now n) then quarantined else alive
          | quarantined ↦ quarantined
          | _ ↦ alive
        ])
        × (r.0.address ≡ address)
        × (r.0.port ≡ port)
        × (r.0.death_count ≡ n.death_count)
  unfolding rejoin
  rejoin-status now address port metadata cn n = ground arith

  unfoldable pub beat_all : List (Float × Option (Dict J)) → NodeRecord Float J → NodeRecord Float J
  beat_all [] n = n
  beat_all ((now, metrics) ∷ ms) n = beat_all ms (beat fl c now metrics n).0

  beat_alive :
      (now : Float) (metrics : Option (Dict J)) (n : NodeRecord Float J)
      → n.status ≡ alive
      → (beat fl c now metrics n).0.status ≡ alive
  unfolding beat
  beat_alive now metrics n h = ground arith

  beat_all-alive :
      (ms : List (Float × Option (Dict J))) (n : NodeRecord Float J)
      → n.status ≡ alive
      → (beat_all ms n).status ≡ alive
  unfolding beat_all
  beat_all-alive [] n h = h
  beat_all-alive ((now, metrics) ∷ ms) n h = beat_all-alive ms _ (beat_alive now metrics n h)

  beat_quarantined :
      (now : Float) (metrics : Option (Dict J)) (n : NodeRecord Float J)
      → n.status ≡ quarantined
      → let n' = (beat fl c now metrics n).0 in
        (n'.consecutive_alive_heartbeats ≡ n.consecutive_alive_heartbeats + 1)
        × (n'.status ≡ (
            if leb c.quarantine_recovery (n.consecutive_alive_heartbeats + 1)
            then alive
            else quarantined))
  unfolding beat
  beat_quarantined now metrics n h = ground arith

  -- A quarantined node whose count is short of the required number is alive after some heartbeats
  -- exactly if they bring the count up to it, and quarantined until then.
  pub beat_all-status :
      (ms : List (Float × Option (Dict J))) (n : NodeRecord Float J)
      → n.status ≡ quarantined
      → n.consecutive_alive_heartbeats < c.quarantine_recovery
      → (beat_all ms n).status ≡ (
          if leb c.quarantine_recovery (n.consecutive_alive_heartbeats + length ms)
          then alive
          else quarantined)
  unfolding beat_all
  beat_all-status [] n h short = ground arith
  beat_all-status ((now, metrics) ∷ ms) n h short = ground (
    arith,
    beat_quarantined now metrics n h,
    beat_all-alive ms (beat fl c now metrics n).0,
    beat_all-status ms (beat fl c now metrics n).0,
  )
