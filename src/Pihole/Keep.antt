-- ===== src/Pihole/Keep.antt =====
-- The plan never drops a name outside NetBox's zones, and none at all while deletes are off.
use mathlib.Core.Path.{subst}
use k8s_homelab.Prelude.{
  ◌++◌, ◌≡◌, refl, ◌∙◌, ap, List, [], ◌∷◌, Bool, true, not, ◌||◌, some, Bool-cases, inl, inr, sym,
  arith, all, ◌==◌, contains, nat_eq, list_eq, pair_eq, string_eq,
}
use k8s_homelab.Prelude.{contains-add, ==_of_eq, ==_eq}
use k8s_homelab.Prelude.Text.{Text, words, lower, lower_idem, ends_with}
use k8s_homelab.Pihole.Plan.{
  Entry, in_zone, HostScan, split_pair, host_split, host_splits, host_names, host_single,
  host_words, scan_hosts,
}
use k8s_homelab.Pihole.Scan.{zoned, split_words}
use k8s_homelab.Pihole.Loop.{scan_hosts-cons}

-- The zones are spelled in lower case, as `netbox_wanted` returns them.
abbrev pub IsLowered : List Text → Type 0
IsLowered zones = all (λ z. lower z == z) zones ≡ true

ends_with-lower : (s t : Text) → ends_with s t ≡ true → ends_with (lower s) (lower t) ≡ true
unfolding ends_with lower
ends_with-lower [] t h = ==_of_eq (lower t) [] (ap lower (==_eq t [] h))
ends_with-lower (c ∷ s) t h = elim (Bool-cases ((c ∷ s) == t)) [
  | inl e ↦ rw (==_of_eq (lower (c ∷ s)) (lower t) (ap lower (==_eq (c ∷ s) t e))) refl
  | inr e ↦ ground (arith, ends_with-lower s t)
]

abbrev under_zone : Text → Text → Bool
under_zone n z = n == z || ends_with n (b'.' ∷ z)

under_zone-lower :
    (n z : Text) → (lower z == z) ≡ true → under_zone n z ≡ true → under_zone (lower n) z ≡ true
unfolding lower
under_zone-lower n z low h = elim (Bool-cases (n == z)) [
  | inl e ↦
      let q : lower n ≡ z = ap lower (==_eq n z e) ∙ ==_eq (lower z) z low in
      rw (==_of_eq (lower n) z q) refl
  | inr e ↦
      let q : ends_with (lower n) (b'.' ∷ z) ≡ true =
        subst (λ t. ends_with (lower n) (b'.' ∷ t) ≡ true) (==_eq (lower z) z low)
          (ends_with-lower n (b'.' ∷ z) (ground arith)) in
      ground arith
]

module _ (zones : List Text) (wanted : List Entry) (delete : Bool) where
  readd-host_split_mono :
      (ip n : Text) (s : HostScan) (p : Entry)
      → contains s.readd p ≡ true
      → contains (host_split zones wanted delete ip n s).readd p ≡ true
  unfolding host_split
  readd-host_split_mono ip n s p h =
      ground (arith, contains-add {A = Entry} (split_pair zones wanted delete ip n) s.readd p)

  readd-host_splits_mono :
      (ip : Text) (names : List Text) (s : HostScan) (p : Entry)
      → contains s.readd p ≡ true
      → contains (host_splits zones wanted delete ip names s).readd p ≡ true
  unfolding host_splits
  readd-host_splits_mono ip [] s p h = h
  readd-host_splits_mono ip (n ∷ names) s p h =
      readd-host_splits_mono ip names (host_split zones wanted delete ip n s) p
        (readd-host_split_mono ip n s p h)

  readd-host_names_mono :
      (line ip : Text) (names : List Text) (s : HostScan) (p : Entry)
      → contains s.readd p ≡ true
      → contains (host_names zones wanted delete line ip names s).readd p ≡ true
  unfolding host_names host_single
  readd-host_names_mono line ip [] s p m = readd-host_splits_mono ip [] _ p m
  readd-host_names_mono line ip (n ∷ []) s p m = ground arith
  readd-host_names_mono line ip (n ∷ k ∷ names) s p m =
      readd-host_splits_mono ip (n ∷ k ∷ names) _ p m

  readd-host_words_mono :
      (line : Text) (ws : List Text) (s t : HostScan) (p : Entry)
      → host_words zones wanted delete line ws s ≡ some t
      → contains s.readd p ≡ true
      → contains t.readd p ≡ true
  unfolding host_words
  readd-host_words_mono line [] s t p h m = cc
  readd-host_words_mono line (ip ∷ names) s t p h m =
      ground (arith, readd-host_names_mono line ip names s p)

  readd-scan_hosts_mono :
      (lines : List Text) (s t : HostScan) (p : Entry)
      → scan_hosts zones wanted delete lines s ≡ some t
      → contains s.readd p ≡ true
      → contains t.readd p ≡ true
  unfolding scan_hosts
  readd-scan_hosts_mono [] s t p h m = ground arith
  readd-scan_hosts_mono (line ∷ lines) s t p h m =
      let (u, first, rest) = scan_hosts-cons zones wanted delete line lines s t h in
      readd-scan_hosts_mono lines u t p rest (readd-host_words_mono line (words line) s u p first m)

  -- A name that no split may drop.
  abbrev pub is_safe : Text → Bool
  is_safe n = not delete || not (zoned zones wanted delete n)

  in_zone-lower :
      (n : Text) (zs : List Text)
      → all (λ z. lower z == z) zs ≡ true
      → in_zone n zs ≡ true
      → in_zone (lower n) zs ≡ true
  unfolding in_zone
  in_zone-lower n [] h m = cc
  in_zone-lower n (z ∷ zs) h m = ground (arith, under_zone-lower n z, in_zone-lower n zs)

  readd-host_split_safe :
      (ip n : Text) (s : HostScan)
      → IsLowered zones
      → is_safe n ≡ true
      → contains (host_split zones wanted delete ip n s).readd (split_pair zones wanted delete ip n)
        ≡ true
  unfolding host_split split_pair
  readd-host_split_safe ip n s low h = ground (
    arith,
    in_zone-lower n zones low,
    lower_idem n,
    contains-add {A = Entry} (split_pair zones wanted delete ip n) s.readd
        (split_pair zones wanted delete ip n),
  )

  readd-host_splits_safe :
      (ip n : Text) (names : List Text) (s : HostScan)
      → IsLowered zones
      → is_safe n ≡ true
      → contains names n ≡ true
      → contains
          (host_splits zones wanted delete ip names s).readd
          (split_pair zones wanted delete ip n)
        ≡ true
  unfolding host_splits
  readd-host_splits_safe ip n [] s low h m = cc
  readd-host_splits_safe ip n (k ∷ names) s low h m = elim (Bool-cases (n == k)) [
    | inl e ↦
        readd-host_splits_mono ip names (host_split zones wanted delete ip k s)
          (split_pair zones wanted delete ip n)
          (subst
            (λ x.
              contains (host_split zones wanted delete ip x s).readd
                (split_pair zones wanted delete ip n)
              ≡ true)
            (==_eq n k e) (readd-host_split_safe ip n s low h))
    | inr e ↦
        readd-host_splits_safe ip n names (host_split zones wanted delete ip k s) low h
          (ground arith)
  ]

  -- The words of a line that is split, with a name of it that is safe.
  readd-host_words_safe :
      (line ip n : Text) (names : List Text) (s t : HostScan)
      → IsLowered zones
      → is_safe n ≡ true
      → contains names n ≡ true
      → split_words zones wanted delete (ip ∷ names) ≡ true
      → host_words zones wanted delete line (ip ∷ names) s ≡ some t
      → contains t.readd (split_pair zones wanted delete ip n) ≡ true
  unfolding host_words host_names
  readd-host_words_safe line ip n [] s t low h m w e = cc
  readd-host_words_safe line ip n (k ∷ []) s t low h m w e = cc
  readd-host_words_safe line ip n (k ∷ j ∷ names) s t low h m w e = ground (
    arith,
    readd-host_splits_safe ip n (k ∷ j ∷ names)
        (record s { remove_hosts = s.remove_hosts ++ line ∷ [] }) low h m,
  )

  -- A safe name of a line that is split comes back on its own.
  pub readd-scan_hosts_safe :
      (lines : List Text) (line ip n : Text) (names : List Text) (s t : HostScan)
      → IsLowered zones
      → is_safe n ≡ true
      → contains lines line ≡ true
      → words line ≡ ip ∷ names
      → contains names n ≡ true
      → split_words zones wanted delete (ip ∷ names) ≡ true
      → scan_hosts zones wanted delete lines s ≡ some t
      → contains t.readd (split_pair zones wanted delete ip n) ≡ true
  unfolding scan_hosts
  readd-scan_hosts_safe [] line ip n names s t low h m q k w e = cc
  readd-scan_hosts_safe (l ∷ lines) line ip n names s t low h m q k w e =
      let (u, first, rest) = scan_hosts-cons zones wanted delete l lines s t e in
      elim (Bool-cases (line == l)) [
        | inl same ↦ readd-scan_hosts_mono lines u t (split_pair zones wanted delete ip n) rest (
            readd-host_words_safe line ip n names s u low h k w (
              subst (λ ws. host_words zones wanted delete line ws s ≡ some u) q
                (subst (λ x. host_words zones wanted delete x (words x) s ≡ some u)
                  (sym (==_eq line l same)) first)))
        | inr other ↦
            readd-scan_hosts_safe lines line ip n names u t low h (ground arith) q k w rest
      ]
