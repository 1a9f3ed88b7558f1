-- ===== src/Trustee/Equals.antt =====
-- src/src/server/trustee.c: the loop of `trust_get_rights` over the objects that a user equals.
use frommel.Base.{window, ℕ, zero, suc, ◌+◌, ◌<◌, ◌≡◌, ◌≢◌, sym, ap, ◌∙◌, arith, some, List, Str}
use frommel.Volume.{Volume}
use frommel.Trustee.{Trustee, Disk, scan_rights, scan_equals, error_no_record}

module _ (disk : Disk) (vols : List Volume) (volno : ℕ) (bytes : List ℕ) (path : Str) where
  at_first :
      (fuel i id : ℕ) (rec : Trustee) {rec' : Trustee}
      → i < 32
      → window bytes i ≡ some id
      → id ≢ 0
      → scan_rights disk vols volno id path rec ≡ some (error_no_record, rec')
      → scan_equals disk vols (suc (suc fuel)) i volno bytes path rec ≡ some (error_no_record, rec')
  unfolding scan_equals
  at_first fuel i id rec {rec'} lt w ne h = ground (arith, w, h)

  skip :
      (fuel i n id : ℕ) (rec : Trustee) {rec' : Trustee}
      → n < fuel
      → i + n < 32
      → ((j : ℕ) → j < n → window bytes (j + i) ≡ some 0)
      → window bytes (n + i) ≡ some id
      → id ≢ 0
      → scan_rights disk vols volno id path rec ≡ some (error_no_record, rec')
      → scan_equals disk vols (suc fuel) i volno bytes path rec ≡ some (error_no_record, rec')
  unfolding scan_equals
  skip zero i n id rec lt le zeros w ne h = absurd (omega arith)
  skip (suc fuel) i zero id rec lt le zeros w ne h =
      at_first fuel i id rec (omega arith) (ap (window bytes) (omega arith) ∙ w) ne h
  skip (suc fuel) i (suc n) id rec {rec'} lt le zeros w ne h =
      let first : window bytes i ≡ some 0 =
        ap (window bytes) (omega arith) ∙ zeros 0 (omega arith) in
      let shift : (j : ℕ) → window bytes (suc j + i) ≡ window bytes (j + suc i) =
        λ j. ap (window bytes) (omega arith) in
      let rest =
        skip fuel (suc i) n id rec {rec' = rec'} (omega arith) (omega arith)
          (λ j lt'. sym (shift j) ∙ zeros (suc j) (omega arith)) (sym (shift n) ∙ w) ne h in
      ground (arith, first, rest)

  -- After `n` windows of zeros, the first object of SECURITY_EQUALS that has no record ends the loop: the
  -- windows behind it are not tried, whatever they name.
  pub only_first_equal :
      (n id : ℕ) (rec : Trustee) {rec' : Trustee}
      → n < 32
      → ((j : ℕ) → j < n → window bytes j ≡ some 0)
      → window bytes n ≡ some id
      → id ≢ 0
      → scan_rights disk vols volno id path rec ≡ some (error_no_record, rec')
      → scan_equals disk vols 33 0 volno bytes path rec ≡ some (error_no_record, rec')
  only_first_equal n id rec {rec'} lt zeros w ne h =
      skip 32 0 n id rec lt (omega arith) (λ j lt'. ap (window bytes) (omega arith) ∙ zeros j lt')
        (ap (window bytes) (omega arith) ∙ w) ne h
