-- ===== src/Trustee/Scan.antt =====
-- src/src/server/trustee.c: the climb of `trust_scan_rights` from a directory up to the root of its volume.
use frommel.Base.{
  ℕ, zero, suc, ◌-◌, ◌^◌, ◌<◌, ◌≤◌, ◌≡◌, ◌≢◌, inl, inr, refl, sym, ap, ◌∙◌, arith, ◌==◌, Option,
  none, some, List, [], ◌∷◌, ◌++◌, get_elem?, length, length-append, take, take-all, ◌>>=◌,
  >>=-eq-some, Str, str_eq, str_eq_refl, str_eq→eq, Option-cases, Bool-cases, strncat, codes, ltb,
}
use frommel.Volume.{Volume, max_vol_path_len}
use frommel.Station.{Station}
use frommel.Fs.{error_ok, split_last, build_path}
use frommel.Trustee.{
  Trustee, Disk, grab_rights, scan_from, scan_rights, trustee_file, error_no_record, zero_trustee,
  failure, sysfile, build_trustfile,
}
use frommel.Trustee.Files.{Access, grant_right}
use frommel.Trustee.Grant.{stored, grab_rights-stored, grab_rights-missing, grant_right_lem}

pub split_last-append :
    (m : ℕ) (a n : Str) → split_last m n ≡ none → split_last m (a ++ m ∷ n) ≡ some (a, n)
unfolding split_last
split_last-append m [] n h = ground arith
split_last-append m (c ∷ a) n h = ground (arith, split_last-append m a n h)

split_last-length :
    (m : ℕ) (s : Str) {a n : Str} → split_last m s ≡ some (a, n) → length a < length s
unfolding split_last
split_last-length m [] h = cc
split_last-length m (c ∷ s) {a} {n} h = elim (Option-cases (split_last m s)) [
  | inl e ↦ ground (arith, e)
  | inr ((b, t), e) ↦ ground (arith, e, split_last-length m s {a = b} {n = t} e)
]

-- The directory that is reached from `d` by the names, the last name first.
abbrev pub below : Str → List Str → Str
below d [] = d
below d (n ∷ ns) = below d ns ++ b'/' ∷ n

module _ (disk : Disk) (vols : List Volume) (volno objid : ℕ) (v : Volume) where
  -- None of the directories below `d` on the way has a record of the object or is the root of the volume.
  abbrev pub IsSilent : Str → List Str → Type 0
  IsSilent d [] = Unit
  IsSilent d (n ∷ ns) =
      (split_last b'/' n ≡ none)
      × (stored disk (trustee_file (below d (n ∷ ns))) objid ≡ none)
      × (below d (n ∷ ns) ≢ v.path)
      × IsSilent d ns

  climb :
      (fuel : ℕ) (d : Str) (ns : List Str) (rec : Trustee)
      → get_elem? vols volno ≡ some v
      → length (below d ns) < fuel
      → IsSilent d ns
      → (fuel' : ℕ) × (rec' : Trustee) × (length d < fuel')
        × (scan_from disk vols fuel volno objid (below d ns) rec
            ≡ scan_from disk vols fuel' volno objid d rec')
  unfolding scan_from
  climb fuel d [] rec hv hf h = (fuel, rec, hf, refl)
  climb zero d (n ∷ ns) rec hv hf h = absurd (omega arith)
  climb (suc fuel) d (n ∷ ns) rec hv hf (slash, miss, root, rest) =
      let r = (grab_rights disk (trustee_file (below d (n ∷ ns))) objid rec).1 in
      let (fuel', rec', lt, e) =
        climb fuel d ns r hv (omega (arith, length-append (below d ns) (b'/' ∷ n))) rest in
      (
        fuel',
        rec',
        lt,
        ground (
          arith,
          grab_rights-missing disk (trustee_file (below d (n ∷ ns))) objid rec miss,
          split_last-append b'/' (below d ns) n slash,
          hv,
          str_eq→eq (below d (n ∷ ns)) v.path,
          e,
        ),
      )

  found_at :
      (fuel : ℕ) (d : Str) (rec : Trustee) {r : Trustee}
      → length d < fuel
      → stored disk (trustee_file d) objid ≡ some r
      → scan_from disk vols fuel volno objid d rec ≡ some (error_ok, r)
  unfolding scan_from
  found_at zero d rec h s = absurd (omega arith)
  found_at (suc fuel) d rec h s =
      ground (arith, grab_rights-stored disk (trustee_file d) objid rec s)

  root_at :
      (fuel : ℕ) (rec : Trustee) {dir name : Str}
      → length v.path < fuel
      → get_elem? vols volno ≡ some v
      → split_last b'/' v.path ≡ some (dir, name)
      → stored disk (trustee_file v.path) objid ≡ none
      → scan_from disk vols fuel volno objid v.path rec ≡ some (error_no_record, zero_trustee)
  unfolding scan_from
  root_at zero rec h hv e s = absurd (omega arith)
  root_at (suc fuel) rec h hv e s =
      ground (
        arith,
        grab_rights-missing disk (trustee_file v.path) objid rec s,
        e,
        hv,
        str_eq_refl v.path,
      )

  -- A right that is stored for a directory is what the scan finds there and below, as long as no
  -- directory on the way up has a record of the object or is the root of the volume.
  pub scan_inherits :
      (d : Str) (ns : List Str) (rec : Trustee) {r : Trustee}
      → get_elem? vols volno ≡ some v
      → IsSilent d ns
      → stored disk (trustee_file d) objid ≡ some r
      → scan_rights disk vols volno objid (below d ns) rec ≡ some (error_ok, r)
  unfolding scan_rights
  scan_inherits d ns rec hv h s =
      let (fuel, rec', lt, e) = climb (suc (length (below d ns))) d ns rec hv (omega arith) h in
      e ∙ found_at fuel d rec' lt s

  -- If no directory on the way has a record of the object, the root of the volume neither,
  -- and the path of that holds a slash, the scan ends
  -- there without one, and the record is zero.
  pub scan_ends_at_root :
      (ns : List Str) (rec : Trustee) {dir name : Str}
      → get_elem? vols volno ≡ some v
      → IsSilent v.path ns
      → split_last b'/' v.path ≡ some (dir, name)
      → stored disk (trustee_file v.path) objid ≡ none
      → scan_rights disk vols volno objid (below v.path ns) rec
        ≡ some (error_no_record, zero_trustee)
  unfolding scan_rights
  scan_ends_at_root ns rec hv h q s =
      let (fuel, rec', lt, e) =
        climb (suc (length (below v.path ns))) v.path ns rec hv (omega arith) h in
      e ∙ root_at fuel rec' lt hv q s

  terminates :
      (fuel : ℕ) (path : Str) (rec : Trustee)
      → get_elem? vols volno ≡ some v
      → length path < fuel
      → (res : ℕ × Trustee) × (scan_from disk vols fuel volno objid path rec ≡ some res)
  unfolding scan_from
  terminates zero path rec hv h = absurd (omega arith)
  terminates (suc fuel) path rec hv h =
      let (found, r) = grab_rights disk (trustee_file path) objid rec in
      elim (Bool-cases found) [
        | inl e ↦ ((error_ok, r), ground (arith, e))
        | inr e ↦ elim (Option-cases (split_last b'/' path)) [
          | inl q ↦ ((failure, r), ground (arith, e, q))
          | inr ((dir, name), q) ↦ elim (Bool-cases (str_eq path v.path)) [
            | inl t ↦ ((error_no_record, zero_trustee), ground (arith, e, q, hv, t))
            | inr t ↦
                let (res, done) =
                  terminates fuel dir r hv
                    (omega (arith, split_last-length b'/' path {a = dir} {n = name} q)) in
                (res, ground (arith, e, q, hv, t, done))
          ]
        ]
      ]

  -- The scan comes to an end for every path, on a volume of the table.
  pub scan_rights-terminates :
      (path : Str) (rec : Trustee)
      → get_elem? vols volno ≡ some v
      → (res : ℕ × Trustee) × (scan_rights disk vols volno objid path rec ≡ some res)
  unfolding scan_rights
  scan_rights-terminates path rec hv = terminates (suc (length path)) path rec hv (omega arith)

strncat-fit :
    (size : ℕ) (dest s : Str) (n : ℕ) {out : Str}
    → length s ≤ n
    → strncat size dest s n ≡ some out
    → (out ≡ dest ++ s) × (length out < size)
strncat-fit size dest s n {out} h e =
    let q = take-all n s h in
    elim (Bool-cases (ltb (length dest) size)) [
      | inl t ↦ elim (Bool-cases (ltb (length (dest ++ take n s)) size)) [
        | inl t' ↦
            let same : out ≡ dest ++ take n s = ground (arith, t, t', e) in
            (same ∙ ap (λ x. dest ++ x) q, ground (arith, same, t'))
        | inr t' ↦ ground (arith, t, t', e)
      ]
      | inr t ↦ ground (arith, t, e)
    ]

cons_append : (a b : Str) (c : ℕ) → (a ++ c ∷ []) ++ b ≡ a ++ c ∷ b
cons_append [] b c = refl
cons_append (x ∷ a) b c = ap (◌∷◌ x) (cons_append a b c)

-- The end of `trust_build_trustfile`.
abbrev joined : Str → Option (ℕ × Str)
joined d = do
  d' ← strncat max_vol_path_len d (codes "/") max_vol_path_len
  e ← strncat max_vol_path_len d' sysfile max_vol_path_len
  some (error_ok, e)

joined-file : (d : Str) {file : Str} → joined d ≡ some (error_ok, file) → file ≡ trustee_file d
joined-file d {file} h =
    let (d1, e1, f1) = >>=-eq-some (strncat max_vol_path_len d (codes "/") max_vol_path_len) _ h in
    let (d2, e2, f2) = >>=-eq-some (strncat max_vol_path_len d1 sysfile max_vol_path_len) _ f1 in
    let (q1, l1) =
      strncat-fit max_vol_path_len d (codes "/") max_vol_path_len {out = d1} (omega arith) e1 in
    let (q2, l2) =
      strncat-fit max_vol_path_len d1 sysfile max_vol_path_len {out = d2} (omega arith) e2 in
    let same : file ≡ d2 = ground (arith, f2) in
    let whole : d2 ≡ d ++ b'/' ∷ sysfile =
      q2 ∙ ap (λ x. x ++ sysfile) q1 ∙ cons_append d sysfile b'/' in
    same
    ∙ whole
    ∙ sym
        (take-all (max_vol_path_len - 1) (d ++ b'/' ∷ sysfile) (omega (arith, l2, ap length whole)))

-- The trustee file of a directory stands in it.
build_trustfile-file :
    (vols : List Volume) (k : Station) (dh : ℕ) (path : Option Str) {file : Str}
    → build_trustfile vols k dh path max_vol_path_len ≡ some (error_ok, file)
    → (d : Str) × (build_path vols k dh path [] max_vol_path_len 0 ≡ some (error_ok, d))
      × (file ≡ trustee_file d)
unfolding build_trustfile
build_trustfile-file vols k dh path {file} h =
    let ((code, d), e, f) = >>=-eq-some (build_path vols k dh path [] max_vol_path_len 0) _ h in
    elim (Bool-cases (code == error_ok)) [
      | inl t ↦
          let chain : joined d ≡ some (error_ok, file) = ground (arith, t, f) in
          (d, ground (arith, t, e), joined-file d chain)
      | inr t ↦ ground (arith, t, f)
    ]

-- After `trust_grant_right` has returned OK for an object id of 32 bits and rights of 16, on a volume of
-- the table `trust_scan_rights` finds the right on the directory and on every one below it, up to directories
-- that have a record of their own for the object or are the root of the volume.
pub granted_inherits :
    (access : Access) (vols : List Volume) (disk : Disk) (k : Station) (dh : ℕ) (path : Option Str)
    (objid rights volno : ℕ) (ns : List Str) (rec : Trustee) {disk' : Disk} {v : Volume} {d : Str}
    → objid < 2 ^ 32
    → rights < 2 ^ 16
    → grant_right access vols disk k dh path objid rights ≡ some (error_ok, disk')
    → build_path vols k dh path [] max_vol_path_len 0 ≡ some (error_ok, d)
    → get_elem? vols volno ≡ some v
    → IsSilent disk' vols volno objid v d ns
    → scan_rights disk' vols volno objid (below d ns) rec
      ≡ some (error_ok, record { obj_id = objid; rights = rights })
granted_inherits access vols disk k dh path objid rights volno ns rec {disk'} {v} {d} hid hr h hd hv
      quiet =
    let (file, e, found, others, files) =
      grant_right_lem access vols disk k dh path objid rights hid hr h in
    let (d', e', at) = build_trustfile-file vols k dh path {file = file} e in
    let same : d' ≡ d = ground arith in
    let there : stored disk' (trustee_file d) objid
        ≡ some (record { obj_id = objid; rights = rights }) =
      ground (arith, same, at, found) in
    scan_inherits disk' vols volno objid v d ns rec hv quiet there
