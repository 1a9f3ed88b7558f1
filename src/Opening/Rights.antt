-- ===== src/Opening/Rights.antt =====
-- src/src/server/fs.c: which files are opened.
use frommel.Base.{
  ℕ, ◌<◌, ◌≡◌, ◌≢◌, refl, sym, ap, ◌∙◌, arith, ◌==◌, ◌&&◌, not, Bool, true, false, Option, none,
  some, List, [], ◌∷◌, ◌++◌, map-append, set, in_bounds, ltb, Str, codes, length, Bool-cases, inl,
  inr, >>=-eq-some, some-injective, none≢some,
}
use frommel.Volume.{Volume, max_vol_path_len}
use frommel.Station.{Station}
use frommel.Fs.{
  build_path, split_last, error_ok, error_out_of_handles, error_cant_write, error_no_file,
}
use frommel.Fs.Files.{find_free_fh}
use frommel.Trustee.Scan.{split_last-append}
use frommel.Trustee.{Disk, check_rights, sysfile, failure}
use frommel.Opening.{
  Mode, asked, mode_of, right_of, directory, is_sysfile, dotted, dotted_char, opened, may_open,
  open_built, open_allowed, open_on, open_file,
}

module _ (disk : Disk) (vols : List Volume) (read_prop : ℕ → Str → ℕ → Option (List ℕ))
    (st_mode : Str → Option ℕ) (open_fd : Str → Mode → Option ℕ) where
  abbrev Result : Type 0
  Result = ℕ × Option ℕ × Station

  fails :
      (code : ℕ) (k : Station) {handle : ℕ} {k' : Station}
      → ◌≢◌ {A = Result} (code, none, k) (error_ok, some handle, k')
  fails code k {handle} e = none≢some handle (ap (λ (x : Result). x.1) e)

  opened-ok :
      (k : Station) (h : ℕ) (o : Option ℕ) {handle : ℕ} {k' : Station}
      → ◌≡◌ {A = Result}
          (opened disk vols read_prop st_mode open_fd k h o)
          (error_ok, some handle, k')
      → (fd : ℕ) × (o ≡ some fd) × (h ≡ handle) × (k' ≡ record k { fh = set k.fh h (some fd) })
  opened-ok k h none e = absurd (fails failure k e)
  opened-ok k h (some fd) e =
      (fd, refl, some-injective (ap (λ (x : Result). x.1) e), sym (ap (λ (x : Result). x.2) e))

  -- What a file is opened for, and where.
  abbrev pub Opens : Station → ℕ → ℕ → Str → ℕ → Station → Type 0
  Opens k dh rights fname handle k' =
      (path : Str) × (fd : ℕ) × (check_rights disk vols read_prop k dh (directory fname)
          (right_of rights)
        ≡ some true)
      × (build_path vols k dh (some fname) [] max_vol_path_len 0 ≡ some (error_ok, path))
      × (is_sysfile path ≡ false)
      × (find_free_fh k ≡ some handle)
      × (open_fd (dotted path) (mode_of rights) ≡ some fd)
      × (k' ≡ record k { fh = set k.fh handle (some fd) })

  open_built-ok :
      (k : Station) (h dh rights : ℕ) (fname : Str) (code : ℕ) (path : Str) {handle : ℕ}
      {k' : Station}
      → find_free_fh k ≡ some h
      → check_rights disk vols read_prop k dh (directory fname) (right_of rights) ≡ some true
      → build_path vols k dh (some fname) [] max_vol_path_len 0 ≡ some (code, path)
      → ◌≡◌ {A = Result}
          (open_built disk vols read_prop st_mode open_fd k h rights (code, path))
          (error_ok, some handle, k')
      → Opens k dh rights fname handle k'
  open_built-ok k h dh rights fname code path {handle} {k'} ef ec eb e =
      elim (Bool-cases (code == error_ok)) [
        | inr n ↦ absurd (fails code k (rw n at e))
        | inl y ↦ elim (Bool-cases (is_sysfile path)) [
          | inl t ↦ absurd (fails error_cant_write k (rw (y, t) at e))
          | inr f ↦
              elim (Bool-cases (
                not (asked rights 128)
                && not (may_open disk vols read_prop st_mode open_fd (st_mode (dotted path))))) [
                  | inl b ↦ absurd (fails failure k (rw (y, f, b) at e))
                  | inr b ↦
                      let zero_code : code ≡ error_ok = ground arith in
                      let (fd, eo, eh, ek) =
                        opened-ok k h (open_fd (dotted path) (mode_of rights))
                          (rw (y, f, b) at e) in
                      (
                        path,
                        fd,
                        ec,
                        eb ∙ ap (λ (c : ℕ). some (c, path)) zero_code,
                        f,
                        ef ∙ ap some eh,
                        eo,
                        ek ∙ ap (λ (n : ℕ). record k { fh = set k.fh n (some fd) }) eh,
                      )
                ]
        ]
      ]

  -- If fs_open_file returns OK and a handle, then trust_check_rights has granted the rights that
  -- the mode stands for on the directory of the name, the path is the one that fs_build_path gives
  -- and not that of a trustee file, the handle was the first free one, the descriptor is what the
  -- kernel gave for the path, with the byte 0xae turned to a dot, and the mode, and nothing else
  -- of the connection has changed.
  pub open_file-Opens :
      (k : Station) (dh rights : ℕ) (fname : Str) {handle : ℕ} {k' : Station}
      → open_file disk vols read_prop st_mode open_fd k dh rights fname
        ≡ some (error_ok, some handle, k')
      → Opens k dh rights fname handle k'
  unfolding open_file
  open_file-Opens k dh rights fname {handle} {k'} e = by_handle (find_free_fh k) refl e
    where
      by_right :
          (h : ℕ) (allowed : Bool)
          → find_free_fh k ≡ some h
          → check_rights disk vols read_prop k dh (directory fname) (right_of rights) ≡ some allowed
          → open_allowed disk vols read_prop st_mode open_fd k h dh rights fname allowed
            ≡ some (error_ok, some handle, k')
          → Opens k dh rights fname handle k'
      by_right h false ef ec e = absurd (fails error_no_file k (some-injective e))
      by_right h true ef ec e =
          let ((code, path), eb, e1) =
            >>=-eq-some (build_path vols k dh (some fname) [] max_vol_path_len 0) _ e in
          open_built-ok k h dh rights fname code path ef ec eb (some-injective e1)

      by_handle :
          (free : Option ℕ)
          → find_free_fh k ≡ free
          → open_on disk vols read_prop st_mode open_fd k dh rights fname free
            ≡ some (error_ok, some handle, k')
          → Opens k dh rights fname handle k'
      by_handle none ef e = absurd (fails error_out_of_handles k (some-injective e))
      by_handle (some h) ef e =
          let (u, _, e1) = >>=-eq-some (in_bounds (ltb (length fname) max_vol_path_len)) _ e in
          let (allowed, ec, e2) =
            >>=-eq-some (check_rights disk vols read_prop k dh (directory fname) (right_of rights))
              _ e1 in
          by_right h allowed ef ec e2

  -- A name that fits, and whose path ends in the name of the trustee file with the byte 0xae for
  -- its dot, opens the trustee file of that directory, if a handle is free, the rights of the mode
  -- are granted, the rest of the path holds no byte 0xae, and the kernel finds the file and opens
  -- it.
  pub open_file-sysfile :
      (k : Station) (dh rights : ℕ) (fname dir : Str) (h fd m : ℕ)
      → length fname < max_vol_path_len
      → find_free_fh k ≡ some h
      → check_rights disk vols read_prop k dh (directory fname) (right_of rights) ≡ some true
      → build_path vols k dh (some fname) [] max_vol_path_len 0
        ≡ some (error_ok, dir ++ (b'/' ∷ (codes "$TRUSTEE" ++ (0xae ∷ codes "SYS"))))
      → dotted dir ≡ dir
      → st_mode (dir ++ (b'/' ∷ sysfile)) ≡ some m
      → m ≢ 0x4000
      → open_fd (dir ++ (b'/' ∷ sysfile)) (mode_of rights) ≡ some fd
      → open_file disk vols read_prop st_mode open_fd k dh rights fname
        ≡ some (error_ok, some h, record k { fh = set k.fh h (some fd) })
  unfolding open_file is_sysfile split_last
  open_file-sysfile k dh rights fname dir h fd m short ef ec eb plain es nm eo =
      let disguised = codes "$TRUSTEE" ++ (0xae ∷ codes "SYS") in
      let fits : ltb (length fname) max_vol_path_len ≡ true = ground arith in
      let name = split_last-append b'/' dir disguised no_slash in
      let shown =
        map-append dotted_char dir (b'/' ∷ disguised)
        ∙ ap (λ (d : Str). d ++ (b'/' ∷ sysfile)) plain in
      let no_dir : (m == 0x4000) ≡ false = ground arith in
      elim (Bool-cases (asked rights 128)) [
        | inl y ↦ rw (ef, fits, ec, eb, name, shown, y, eo) refl
        | inr n ↦ rw (ef, fits, ec, eb, name, shown, n, es, no_dir, eo) refl
      ]
    where
      no_slash : split_last b'/' (codes "$TRUSTEE" ++ (0xae ∷ codes "SYS")) ≡ none
      no_slash = refl
