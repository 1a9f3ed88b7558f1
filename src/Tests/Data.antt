-- ===== src/Tests/Data.antt =====
-- A small server: one volume, and tables of connections on it.
use frommel.Base.{ℕ, refl, Bool, true, List, [], ◌∷◌, replicate, arith, Str, codes}
use frommel.Volume.{Volume, zero_volume}
use frommel.Station.{Station, Addr, zero_station, status_attached}
use frommel.Conn.Logout.{HasLogin}

abbrev pub sys : Volume
sys = record { flags = 1; name = codes "SYS"; path = codes "/vol/sys" }

abbrev pub volumes : List Volume
volumes = sys ∷ replicate 15 zero_volume

-- Every path exists.
abbrev pub exists : Str → Bool
exists path = true

pub has_login : HasLogin volumes sys
has_login = record { mounted = refl; short = omega arith; plain = omega arith }

abbrev pub node : ℕ → Addr
node n = record { net = 1; host = n; port = 0x4003 }

-- A connection of node `n` that is in use, was heard of at time `t` and has watchdog time `w`.
abbrev pub client : ℕ → ℕ → ℕ → Station
client n t w = record zero_station {
  status = status_attached;
  addr = node n;
  last_time = t;
  wdog_time = w;
}

-- connections 0, 1, 2 and 3
abbrev pub table : List Station
table = zero_station ∷ client 7 100 0 ∷ zero_station ∷ client 9 100 350 ∷ []
