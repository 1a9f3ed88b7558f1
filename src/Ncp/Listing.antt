-- ===== src/Ncp/Listing.antt =====
-- What a client sees of a directory that follows the sequence numbers of the replies, for
-- src/src/server/ncp_22.c.
use frommel.Base.{
  ℕ, zero, suc, ◌↔◌, true, four_at, get_be32-put_be32, ◌+◌, ◌^◌, ◌≡◌, ◌<◌, ◌≤◌, inl, inr, refl,
  arith, Bool, false, Option, none, some, List, [], ◌∷◌, ◌++◌, get_elem?, if◌then◌else◌, u32,
  Bool-cases, Option-cases, sym, ltb, Str,
}
use frommel.Volume.{Volume, max_vol_path_len}
use frommel.Station.{Station}
use frommel.Fs.{build_path, error_ok}
use frommel.Fs.Path.{Free, split_last-append}
use frommel.Ncp.Fields.{Reply, complete, be32_at, text_field}
use frommel.Ncp.Wanted.{IsListed, is_wanted_iff}
use frommel.Ncp.Scandir.{Dirent, Shelf, scan_entries, is_wanted, scan_reply, handle_scandir}

-- The entries that are counted, in their order.
abbrev pub chosen : (Dirent → Bool) → List Dirent → List Dirent
chosen wanted [] = []
chosen wanted (e ∷ es) = let rest = chosen wanted es in if wanted e then e ∷ rest else rest

scan_entries-chosen :
    (wanted : Dirent → Bool) (es : List Dirent) (n c : ℕ)
    → c < 2 ^ 32
    → n + 1 < 2 ^ 32
    → scan_entries wanted (u32 (c + 1 + n)) c es ≡ get_elem? (chosen wanted es) n
unfolding scan_entries
scan_entries-chosen wanted [] n c hc hn = refl
scan_entries-chosen wanted (e ∷ es) zero c hc hn = elim (Bool-cases (wanted e)) [
  | inl y ↦ ground (arith, y)
  | inr w ↦ ground (arith, w, scan_entries-chosen wanted es zero c hc hn)
]
scan_entries-chosen wanted (e ∷ es) (suc n) c hc hn = elim (Bool-cases (wanted e)) [
  | inl y ↦
      let next : u32 (u32 (c + 1) + 1 + n) ≡ u32 (c + 1 + suc n) = omega arith in
      ground
        (arith, y, next, scan_entries-chosen wanted es n (u32 (c + 1)) (omega arith) (omega arith))
  | inr w ↦ ground (arith, w, scan_entries-chosen wanted es (suc n) c hc hn)
]

abbrev pub told : Shelf → Str → ℕ → Option Dirent → Reply
told env dir seqno none = complete 0xff
told env dir seqno (some e) = scan_reply env dir seqno e

-- The reply for an entry begins with the number of the next one.
next_seqno :
    (env : Shelf) (dir : Str) (n : ℕ) (e : Dirent)
    → be32_at (told env dir (u32 (0xffffffff + n)) (some e)).1 0 ≡ some (u32 (0xffffffff + suc n))
unfolding scan_reply four_at
next_seqno env dir n e =
    let next : u32 (u32 (0xffffffff + n) + 1) ≡ u32 (0xffffffff + suc n) = omega arith in
    let small : u32 (0xffffffff + suc n) < 2 ^ 32 = omega arith in
    rw (next, get_be32-put_be32 (u32 (0xffffffff + suc n)) small) refl

-- NCP 22 30 goes through the entries of the directory that match the pattern and are files or
-- directories, as asked: the n-th sequence number from 0xffffffff on, modulo 2^32, is answered
-- with the n-th of these, counted from 0, and with 0xff if there are no more, if n + 1 is less
-- than 2^32 and the path of the request leads to a directory that can be read. An entry is one of
-- these exactly if its name matches the pattern or is the pattern, it is not a trustee file, and
-- it is a file where the bit 0x10 of the attribute is not set, and a directory other than the two
-- dots where it is. The reply for an entry begins with the next sequence number.
pub handle_scandir-chosen :
    (env : Shelf) (vols : List Volume) (k : Station) (body : List ℕ) (size dh attr path_len n : ℕ)
    (path dir pattern : Str) (es : List Dirent)
    → 7 ≤ size
    → n + 1 < 2 ^ 32
    → get_elem? body 0 ≡ some dh
    → get_elem? body 1 ≡ some attr
    → be32_at body 2 ≡ some (u32 (0xffffffff + n))
    → get_elem? body 6 ≡ some path_len
    → text_field body 7 path_len ≡ some path
    → build_path vols k dh (some path) [] max_vol_path_len 0
      ≡ some (error_ok, dir ++ b'/' ∷ pattern)
    → Free b'/' pattern
    → env.readdir dir ≡ some es
    → (handle_scandir env vols k body size
        ≡ some (
            told env dir (u32 (0xffffffff + n)) (get_elem? (chosen (is_wanted pattern attr) es) n)))
      × ((e : Dirent) → (is_wanted pattern attr e ≡ true) ↔ IsListed pattern attr e)
      × ((e : Dirent)
          → be32_at (told env dir (u32 (0xffffffff + n)) (some e)).1 0
            ≡ some (u32 (0xffffffff + suc n)))
unfolding handle_scandir
handle_scandir-chosen env vols k body size dh attr path_len n path dir pattern es hs hn h0 h1 h2 h6
      h7 hb free hr =
    let fits : ltb size 7 ≡ false = ground arith in
    let seqno : u32 (0xfffffffe + 1 + n) ≡ u32 (0xffffffff + n) = omega arith in
    let found = scan_entries-chosen (is_wanted pattern attr) es n 0xfffffffe (omega arith) hn in
    let cut = split_last-append b'/' dir pattern free in
    let answered : handle_scandir env vols k body size
        ≡ some (
            told env dir (u32 (0xffffffff + n))
              (get_elem? (chosen (is_wanted pattern attr) es) n)) =
      elim (Option-cases (get_elem? (chosen (is_wanted pattern attr) es) n)) [
        | inl q ↦ rw (fits, h0, h1, h2, h6, h7, hb, cut, hr, sym seqno, found, q) refl
        | inr (e, q) ↦ rw (fits, h0, h1, h2, h6, h7, hb, cut, hr, sym seqno, found, q) refl
      ] in
    (answered, is_wanted_iff pattern attr, next_seqno env dir n)
