-- ===== src/Fs/Path.antt =====
-- What `fs_build_path` builds.
use mathlib.Core.List.{append_assoc}
use native.Mathlib.Decide.{dec_lt}
use frommel.Base.{
  ℕ, ◌+◌, ◌-◌, ◌≤◌, ◌<◌, ◌≡◌, refl, ◌≢◌, ◌==◌, false, Option, none, some, List, [], ◌∷◌, ◌++◌,
  arith, Str, length, get_elem?, length-append, length-take, take, take-all, strncat-fits,
  strncat-overflow, length-map, if◌then◌else◌, ◌⊎◌, inl, inr,
}
use frommel.Volume.{Volume, find_volume, max_vol_path_len}
use frommel.Station.{Station, DirHandle}
use frommel.Fs.{
  split_at, split_last, forward_slashes, upper, append_part, append_if_given, finish_path,
  resolve_colon, build_on_volume, build_from_dh, build_path, error_ok, error_invalid_path,
  ends_in_slash, is_empty,
}

-- No byte of the text is `mark`.
abbrev pub Free : ℕ → Str → Type 0
Free mark [] = Unit {0}
Free mark (c ∷ s) = (c ≢ mark) × Free mark s

split_at-Free : (mark : ℕ) (s : Str) → Free mark s → split_at mark s ≡ none
unfolding split_at
split_at-Free mark [] h = refl
split_at-Free mark (c ∷ s) h = ground (arith, split_at-Free mark s h.1)

-- A part that fits is appended behind a slash.
append_part-fits :
    (size : ℕ) (dest part : Str)
    → length dest + length part + 1 < size
    → append_part size dest part ≡ some (dest ++ b'/' ∷ part)
unfolding append_part
append_part-fits size dest part h =
    let sum : length (dest ++ b'/' ∷ []) ≡ length dest + 1 = length-append dest (b'/' ∷ []) in
    rw (
      strncat-fits size dest (b'/' ∷ []) 1 (omega arith) (omega arith),
      strncat-fits size (dest ++ b'/' ∷ []) part (size - length (dest ++ b'/' ∷ [])) (omega arith)
          (omega arith),
      append_assoc,
    )

-- One that does not fit with its slash and the terminator is written past the array.
append_part-overflow :
    (size : ℕ) (dest part : Str)
    → size ≤ length dest + length part + 1
    → append_part size dest part ≡ none
unfolding append_part
append_part-overflow size dest part h = elim (dec_lt (length dest + 1) size) [
  | yes lt ↦
      let sum : length (dest ++ b'/' ∷ []) ≡ length dest + 1 = length-append dest (b'/' ∷ []) in
      rw (
        strncat-fits size dest (b'/' ∷ []) 1 (omega arith) (omega arith),
        strncat-overflow size (dest ++ b'/' ∷ []) part (size - length (dest ++ b'/' ∷ []))
            (omega arith) (omega arith),
      )
  | no ge ↦ rw (strncat-overflow size dest (b'/' ∷ []) 1 (omega arith) (omega arith))
]

-- `base`, and behind a slash `part`, which is left out if it is empty.
abbrev pub joined : Str → Str → Str
joined base [] = base
joined base (c ∷ s) = base ++ b'/' ∷ c ∷ s

abbrev pub given : Option Str → Str
given none = []
given (some s) = s

append_if_given-fits :
    (size : ℕ) (dest : Str) (part : Option Str)
    → length (joined dest (given part)) < size
    → append_if_given size dest part ≡ some (joined dest (given part))
append_if_given-fits size dest none h = refl
append_if_given-fits size dest (some []) h = refl
append_if_given-fits size dest (some (c ∷ s)) h =
    append_part-fits size dest (c ∷ s) (omega (arith, length-append dest (b'/' ∷ c ∷ s)))

-- Either the fault comes here, or the array is left full and the next access is the fault.
append_if_given-overflow :
    (size : ℕ) (dest : Str) (part : Option Str)
    → size ≤ length (joined dest (given part))
    → (append_if_given size dest part ≡ none)
      ⊎ ((append_if_given size dest part ≡ some dest) × (size ≤ length dest))
append_if_given-overflow size dest none h = inr (refl, h)
append_if_given-overflow size dest (some []) h = inr (refl, h)
append_if_given-overflow size dest (some (c ∷ s)) h =
    inl (append_part-overflow size dest (c ∷ s) (omega (arith, length-append dest (b'/' ∷ c ∷ s))))

length-joined-le : (a b : Str) → length a ≤ length (joined a b)
length-joined-le a [] = omega arith
length-joined-le a (c ∷ b) = omega (arith, length-append a (b'/' ∷ c ∷ b))

length-joined-take :
    (size : ℕ) (a b : Str) → size ≤ length (joined a b) → size ≤ length (joined (take size a) b)
length-joined-take size a [] h = omega (arith, length-take size a)
length-joined-take size a (c ∷ b) h = omega (
  arith,
  length-take size a,
  length-append a (b'/' ∷ c ∷ b),
  length-append (take size a) (b'/' ∷ c ∷ b),
)

-- The path that a handle and a relative path name, before its slashes are turned.
abbrev pub full_path : Volume → DirHandle → Option Str → Str
full_path v h path = joined (joined v.path h.path) (given path)

module _ (vols : List Volume) (h : DirHandle) (v : Volume) (path : Option Str) (destlen : ℕ) where
  build_on_volume-fits :
      length (full_path v h path) < destlen
      → build_on_volume vols (some v) h path destlen 0
        ≡ resolve_colon vols destlen (forward_slashes (full_path v h path))
  unfolding build_on_volume finish_path
  build_on_volume-fits fits =
      let outer : length (joined v.path h.path) < destlen =
        omega (arith, length-joined-le (joined v.path h.path) (given path)) in
      let inner : length v.path ≤ destlen = omega (arith, length-joined-le v.path h.path) in
      ground (
        arith,
        take-all destlen v.path inner,
        append_if_given-fits destlen v.path (some h.path) outer,
        append_if_given-fits destlen (joined v.path h.path) path fits,
        length-map (λ c. if c == b'\\' then b'/' else c) (full_path v h path),
      )

  build_on_volume-overflow :
      destlen ≤ length (full_path v h path) → build_on_volume vols (some v) h path destlen 0 ≡ none
  unfolding build_on_volume finish_path
  build_on_volume-overflow big = elim (dec_lt (length (joined v.path h.path)) destlen) [
    | yes lt ↦
        let inner : length v.path ≤ destlen = omega (arith, length-joined-le v.path h.path) in
        ground (
          arith,
          take-all destlen v.path inner,
          append_if_given-fits destlen v.path (some h.path) lt,
          append_if_given-overflow destlen (joined v.path h.path) path big,
        )
    | no ge ↦
        let start = take destlen v.path in
        let full = length-joined-take destlen v.path h.path (omega arith) in
        ground (
          arith,
          append_if_given-overflow destlen start (some h.path) full,
          length-joined-le start (given path),
          append_if_given-overflow destlen start path,
        )
  ]

Free-append : (mark : ℕ) (a b : Str) → Free mark a → Free mark b → Free mark (a ++ b)
Free-append mark [] b h k = k
Free-append mark (c ∷ a) b h k = (h.0, Free-append mark a b h.1 k)

split_at-append : (mark : ℕ) (a b : Str) → Free mark a → split_at mark (a ++ mark ∷ b) ≡ some (a, b)
unfolding split_at
split_at-append mark [] b h = ground arith
split_at-append mark (c ∷ a) b h = ground (arith, split_at-append mark a b h.1)

split_last-Free : (mark : ℕ) (s : Str) → Free mark s → split_last mark s ≡ none
unfolding split_last
split_last-Free mark [] h = refl
split_last-Free mark (c ∷ s) h = ground (arith, split_last-Free mark s h.1)

pub split_last-append :
    (mark : ℕ) (a b : Str) → Free mark b → split_last mark (a ++ mark ∷ b) ≡ some (a, b)
unfolding split_last
split_last-append mark [] b h = ground (arith, split_last-Free mark b h)
split_last-append mark (c ∷ a) b h = ground (arith, split_last-append mark a b h)

is_empty-false : (s : Str) → s ≢ [] → is_empty s ≡ false
is_empty-false [] h = absurd (h refl)
is_empty-false (c ∷ s) h = refl

-- The two outcomes for a colon, on a text that is split at it.
module _ (vols : List Volume) (destlen : ℕ) (dir name rest : Str) (free_dir : Free b':' dir)
    (free_name : Free b':' name) (simple : Free b'/' name) where
  abbrev with_colon : Str
  with_colon = (dir ++ b'/' ∷ name) ++ b':' ∷ rest

  at_colon : split_at b':' with_colon ≡ some (dir ++ b'/' ∷ name, rest)
  at_colon =
      split_at-append b':' (dir ++ b'/' ∷ name) rest
        (Free-append b':' dir (b'/' ∷ name) free_dir ((λ e. omega arith), free_name))

  resolve_colon-unknown :
      find_volume vols (upper name) ≡ none
      → resolve_colon vols destlen with_colon ≡ some (error_invalid_path, with_colon)
  unfolding resolve_colon
  resolve_colon-unknown missing = ground (arith, at_colon, split_last-append b'/' dir name simple)

  resolve_colon-known :
      (i : ℕ) (w : Volume)
      → rest ≢ []
      → find_volume vols (upper name) ≡ some i
      → get_elem? vols i ≡ some w
      → w.path ≢ []
      → ends_in_slash w.path ≡ false
      → length w.path < max_vol_path_len
      → resolve_colon vols destlen with_colon
        ≡ some (error_ok, take destlen (w.path ++ b'/' ∷ rest))
  unfolding resolve_colon
  resolve_colon-known i w some_rest known there some_path plain short = ground (
    arith,
    at_colon,
    split_last-append b'/' dir name simple,
    is_empty-false rest some_rest,
    is_empty-false w.path some_path,
  )

module _ (vols : List Volume) (k : Station) (dh : ℕ) (path : Option Str) (dest : Str) (destlen : ℕ)
    (h : DirHandle) (v : Volume) (slot : get_elem? k.dh dh ≡ some h) (used : h.flags ≢ 0)
    (mounted : get_elem? vols h.volno ≡ some v) where
  -- For a handle in use on an existing volume and a path without colons: the result is the volume's
  -- path, the handle's and the given one, joined by slashes, with every backslash turned, if this and
  -- its terminator fit the array; and if they do not fit, an access is out of bounds.
  pub build_path_joins :
      Free b':' (forward_slashes (full_path v h path))
      → (length (full_path v h path) < destlen
          → build_path vols k dh path dest destlen 0
            ≡ some (error_ok, forward_slashes (full_path v h path)))
        × (destlen ≤ length (full_path v h path) → build_path vols k dh path dest destlen 0 ≡ none)
  unfolding build_path build_from_dh resolve_colon
  build_path_joins plain = (
    λ fits. ground (
      arith,
      slot,
      mounted,
      build_on_volume-fits vols h v path destlen fits,
      split_at-Free b':' (forward_slashes (full_path v h path)) plain,
    ),
    λ big. ground (arith, slot, mounted, build_on_volume-overflow vols h v path destlen big),
  )

  -- With a colon in it, what stands between the last slash before the first colon and that colon is
  -- taken for a volume's name: if there is such a volume, the text before the colon is replaced by its
  -- path (here one that does not end in a slash, behind which a rest is put), and if not, the path is
  -- invalid. Where the handle points plays no part in it.
  pub build_path_colon :
      (dir name rest : Str)
      → length (full_path v h path) < destlen
      → forward_slashes (full_path v h path) ≡ (dir ++ b'/' ∷ name) ++ b':' ∷ rest
      → Free b':' dir
      → Free b':' name
      → Free b'/' name
      → rest ≢ []
      → (find_volume vols (upper name) ≡ none
          → build_path vols k dh path dest destlen 0
            ≡ some (error_invalid_path, forward_slashes (full_path v h path)))
        × ((i : ℕ) (w : Volume)
            → find_volume vols (upper name) ≡ some i
            → get_elem? vols i ≡ some w
            → w.path ≢ []
            → ends_in_slash w.path ≡ false
            → length w.path < max_vol_path_len
            → build_path vols k dh path dest destlen 0
              ≡ some (error_ok, take destlen (w.path ++ b'/' ∷ rest)))
  unfolding build_path build_from_dh
  build_path_colon dir name rest fits shape free_dir free_name simple some_rest =
      let built = build_on_volume-fits vols h v path destlen fits in
      (
        λ missing. ground (
          arith,
          slot,
          mounted,
          built,
          resolve_colon-unknown vols destlen dir name rest free_dir free_name simple missing,
        ),
        λ i w known there some_path plain short. ground (
          arith,
          slot,
          mounted,
          built,
          resolve_colon-known vols destlen dir name rest free_dir free_name simple i w some_rest
              known there some_path plain short,
        ),
      )
