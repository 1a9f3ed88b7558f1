-- ===== src/Conn/Nodes.antt =====
-- No client has two connections, and how many connections are in use.
use native.Mathlib.Decide.{ℕ_discrete}
use frommel.Base.{
  ℕ, zero, suc, ◌≤◌, ◌<◌, ◌≡◌, refl, ◌≢◌, ◌⊎◌, inl, inr, Bool, true, false, Option, none, some,
  List, [], ◌∷◌, get_elem?, set, length, arith, Str, find_from-none, get_elem?-set_self,
  get_elem?-set_ne, count-set, count-set_same, Bool-cases, if◌then◌else◌, replicate,
  length-replicate, ◌∙◌, sym, subst, find_from_bounds, find_from_passes,
}
use frommel.Volume.{Volume}
use frommel.Station.{Station, Addr, same_node, in_use, zero_station}
use frommel.Conn.{init, attach_client, scan_client_by_addr, count_used, is_client}
use frommel.Conn.Logout.{HasLogin}
use frommel.Conn.Attach.{Chosen, known, free, attach_client_lem, fresh}

-- An address that is not all zeros, as a cleared connection has it.
abbrev pub IsNode : Addr → Type 0
IsNode a = (a.net ≢ 0) ⊎ (a.host ≢ 0)

-- No two connections belong to one node.
abbrev pub HasDistinctNodes : List Station → Type 0
HasDistinctNodes conns =
    (i j : ℕ) (k l : Station)
    → 1 ≤ i
    → 1 ≤ j
    → get_elem? conns i ≡ some k
    → get_elem? conns j ≡ some l
    → IsNode k.addr
    → same_node k.addr l.addr ≡ true
    → i ≡ j

-- No other connection has the node of `s`.
abbrev IsApart : List Station → ℕ → Station → Type 0
IsApart conns c s =
    (j : ℕ) (l : Station)
    → 1 ≤ j
    → j ≢ c
    → get_elem? conns j ≡ some l
    → IsNode s.addr
    → same_node s.addr l.addr ≡ false

pub set-HasDistinctNodes :
    (conns : List Station) (c : ℕ) (s : Station)
    → c < length conns
    → HasDistinctNodes conns
    → IsApart conns c s
    → HasDistinctNodes (set conns c s)
set-HasDistinctNodes conns c s lt old apart i j k l one one' gi gj node same =
    elim (ℕ_discrete i c) [
      | yes p ↦ elim (ℕ_discrete j c) [
        | yes q ↦ omega arith
        | no q ↦
            ground (
              arith,
              get_elem?-set_self conns c s lt,
              get_elem?-set_ne conns c j s,
              apart j l one' q,
            )
      ]
      | no p ↦ elim (ℕ_discrete j c) [
        | yes q ↦
            ground (
              arith,
              get_elem?-set_self conns c s lt,
              get_elem?-set_ne conns c i s,
              apart i k one p,
            )
        | no q ↦ ground (
          arith,
          get_elem?-set_ne conns c i s,
          get_elem?-set_ne conns c j s,
          old i j k l one one',
        )
      ]
    ]

scan-none :
    (conns : List Station) (a : Addr) (j : ℕ) (l : Station)
    → scan_client_by_addr conns (some a) ≡ none
    → 1 ≤ j
    → get_elem? conns j ≡ some l
    → same_node l.addr a ≡ false
unfolding scan_client_by_addr
scan-none [] a j l h one g = cc
scan-none (spare ∷ conns) a zero l h one g = absurd (omega arith)
scan-none (spare ∷ conns) a (suc j) l h one g =
    ground (arith, find_from-none (is_client a) 1 conns j {x = l})

scan-some :
    (conns : List Station) (a : Addr) (c : ℕ) (k : Station)
    → scan_client_by_addr conns (some a) ≡ some c
    → get_elem? conns c ≡ some k
    → same_node k.addr a ≡ true
unfolding scan_client_by_addr
scan-some [] a c l h g = cc
scan-some (spare ∷ conns) a zero k h g =
    absurd (omega (arith, find_from_bounds (is_client a) 1 conns {j = 0} h))
scan-some (spare ∷ conns) a (suc c) k h g =
    ground (arith, find_from_passes (is_client a) 1 conns c {x = k})

module _ (stat : Str → Bool) (vols : List Volume) (v : Volume) (login : HasLogin vols v) where
  fresh-IsApart :
      (conns : List Station) (addr : Option Addr) (now c : ℕ) (k : Station)
      → HasDistinctNodes conns
      → Chosen stat vols v login conns addr c
      → 1 ≤ c
      → get_elem? conns c ≡ some k
      → IsApart conns c (fresh stat vols v login addr now k)
  fresh-IsApart conns none now c k old ch one g j l one' ne gj node =
      elim (Bool-cases (same_node k.addr l.addr)) [
        | inl e ↦ absurd (ne (sym (old c j k l one one' g gj node e)))
        | inr e ↦ e
      ]
  fresh-IsApart conns (some a) now c k old (known e) one g j l one' ne gj node =
      elim (Bool-cases (same_node a l.addr)) [
        | inl s ↦
            let mine = scan-some conns a c k e g in
            absurd (ne (sym (old c j k l one one' g gj (ground arith) (ground arith))))
        | inr s ↦ s
      ]
  fresh-IsApart conns (some a) now c k old (free e f) one g j l one' ne gj node =
      ground (arith, scan-none conns a j l e one' gj)

  -- If volume 0 is mounted at a path without colons that leaves room for /login, then whatever
  -- address a client attaches with, no two connections belong to one node afterwards, if none did
  -- before.
  pub attach-HasDistinctNodes :
      (conns : List Station) (addr : Option Addr) (now : ℕ) (r : Option ℕ) (fds : List ℕ)
      (conns' : List Station)
      → attach_client stat vols conns addr now ≡ some (r, fds, conns')
      → HasDistinctNodes conns
      → HasDistinctNodes conns'
  attach-HasDistinctNodes conns addr now r fds conns' e old =
      elim (attach_client_lem stat vols v login conns addr now) [
        | inl (c, ch, at) ↦
            let same : conns' ≡ set conns c (fresh stat vols v login addr now at.before) =
              ground (arith, at.returns) in
            subst HasDistinctNodes (sym same) (
              set-HasDistinctNodes conns c _ at.inside old
                (fresh-IsApart conns addr now c at.before old ch at.at_least at.was))
        | inr (_, _, f) ↦
            let same : conns' ≡ conns = ground (arith, f) in subst HasDistinctNodes (sym same) old
      ]

count_used-set :
    (conns : List Station) (c : ℕ) (k s : Station)
    → 1 ≤ c
    → get_elem? conns c ≡ some k
    → in_use s ≡ true
    → count_used (set conns c s) ≡ (if in_use k then count_used conns else suc (count_used conns))
unfolding count_used
count_used-set [] c k s one g u = cc
count_used-set (spare ∷ conns) zero k s one g u = absurd (omega arith)
count_used-set (spare ∷ conns) (suc c) k s one g u = elim (Bool-cases (in_use k)) [
  | inl e ↦ rw e (count-set_same in_use conns c {x = k} s g (u ∙ sym e))
  | inr e ↦ rw e (count-set in_use conns c {x = k} s g e u)
]

-- The connection that a client is given is in use afterwards: one more is in use if it was not before,
-- and as many as before if it was.
pub attach-count :
    (stat : Str → Bool) (vols : List Volume) (v : Volume)
    → HasLogin vols v
    → (conns : List Station) (addr : Option Addr) (now c : ℕ) (k : Station) (fds : List ℕ)
      (conns' : List Station)
    → attach_client stat vols conns addr now ≡ some (some c, fds, conns')
    → get_elem? conns c ≡ some k
    → count_used conns' ≡ (if in_use k then count_used conns else suc (count_used conns))
attach-count stat vols v login conns addr now c k fds conns' e g =
    elim (attach_client_lem stat vols v login conns addr now) [
      | inl (d, ch, at) ↦
          let s = fresh stat vols v login addr now at.before in
          let here : d ≡ c = ground (arith, at.returns) in
          let same : conns' ≡ set conns d s = ground (arith, at.returns) in
          let was : get_elem? conns d ≡ some k = ground arith in
          rw same (count_used-set conns d k s at.at_least was (fresh-in_use addr at.before))
      | inr (_, _, f) ↦ cc
    ]
  where
    fresh-in_use : (a : Option Addr) (b : Station) → in_use (fresh stat vols v login a now b) ≡ true
    fresh-in_use none b = refl
    fresh-in_use (some a) b = refl

get_elem?-init :
    (n i : ℕ) (k : Station) → get_elem? (replicate n zero_station) i ≡ some k → k ≡ zero_station
get_elem?-init zero i k g = cc
get_elem?-init (suc n) zero k g = cc
get_elem?-init (suc n) (suc i) k g = get_elem?-init n i k g

pub init-zero : (n i : ℕ) (k : Station) → get_elem? (init n) i ≡ some k → k ≡ zero_station
unfolding init
init-zero n i k g = get_elem?-init (suc n) i k g

pub length-init : (n : ℕ) → length (init n) ≡ suc n
unfolding init
length-init n = length-replicate (suc n) zero_station

-- The table that the server starts with has no node twice.
pub init-HasDistinctNodes : (n : ℕ) → HasDistinctNodes (init n)
init-HasDistinctNodes n i j k l one one' g g' (inl a) same =
    absurd (ground (arith, init-zero n i k g))
init-HasDistinctNodes n i j k l one one' g g' (inr a) same =
    absurd (ground (arith, init-zero n i k g))
