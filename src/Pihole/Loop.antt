-- ===== src/Pihole/Loop.antt =====
-- The loops of `plan` over all lines: what they collect is decided line by line.
use k8s_homelab.Prelude.{
  ◌≡◌, refl, ◌∙◌, List, [], ◌∷◌, Bool, true, false, not, ◌&&◌, ◌||◌, some, Option-cases, inl, inr,
  arith, any, ◌==◌, contains, nat_eq, list_eq, pair_eq, string_eq,
}
use k8s_homelab.Prelude.{contains-append, contains-add}
use k8s_homelab.Prelude.Text.{Text, words}
use k8s_homelab.Pihole.Plan.{
  Entry, in_zone, HostScan, CnameScan, cname_pair, host_words, scan_hosts, cname_line, scan_cnames,
}
use k8s_homelab.Pihole.Scan.{
  is_nil, removed_words, held_words, split_words, remove_hosts-host_words, have-host_words,
  readd-host_words, host_words-total,
}

module _ (zones : List Text) (wanted : List Entry) (delete : Bool) where
  -- A loop that succeeds is a first step and a loop from there.
  pub scan_hosts-cons :
      (line : Text) (lines : List Text) (s t : HostScan)
      → scan_hosts zones wanted delete (line ∷ lines) s ≡ some t
      → (u : HostScan) × (host_words zones wanted delete line (words line) s ≡ some u)
        × (scan_hosts zones wanted delete lines u ≡ some t)
  unfolding scan_hosts
  scan_hosts-cons line lines s t h =
      elim (Option-cases (host_words zones wanted delete line (words line) s)) [
        | inl e ↦ absurd (ground arith)
        | inr (u, e) ↦ (u, e, rw e at h)
      ]

  pub remove_hosts-scan_hosts :
      (lines : List Text) (s t : HostScan) (l : Text)
      → scan_hosts zones wanted delete lines s ≡ some t
      → contains t.remove_hosts l ≡ (
          contains s.remove_hosts l
          || (contains lines l && removed_words zones wanted delete (words l)))
  unfolding scan_hosts
  remove_hosts-scan_hosts [] s t l h = ground arith
  remove_hosts-scan_hosts (line ∷ lines) s t l h =
      let (u, first, rest) = scan_hosts-cons line lines s t h in
      ground (
        arith,
        remove_hosts-host_words zones wanted delete line l (words line) s u first,
        remove_hosts-scan_hosts lines u t l rest,
      )

  pub have-scan_hosts :
      (lines : List Text) (s t : HostScan) (p : Entry)
      → scan_hosts zones wanted delete lines s ≡ some t
      → contains t.have p
        ≡ (contains s.have p || any (λ l. held_words zones wanted delete p (words l)) lines)
  unfolding scan_hosts
  have-scan_hosts [] s t p h = ground arith
  have-scan_hosts (line ∷ lines) s t p h =
      let (u, first, rest) = scan_hosts-cons line lines s t h in
      ground (
        arith,
        have-host_words zones wanted delete line p (words line) s u first,
        have-scan_hosts lines u t p rest,
      )

  pub readd-scan_hosts :
      (lines : List Text) (s t : HostScan)
      → scan_hosts zones wanted delete lines s ≡ some t
      → any (λ l. split_words zones wanted delete (words l)) lines ≡ false
      → t.readd ≡ s.readd
  unfolding scan_hosts
  readd-scan_hosts [] s t h e = ground arith
  readd-scan_hosts (line ∷ lines) s t h e =
      let (u, first, rest) = scan_hosts-cons line lines s t h in
      ground (
        arith,
        readd-host_words zones wanted delete line (words line) s u first,
        readd-scan_hosts lines u t rest,
      )

  -- The loop fails just at a blank line.
  pub scan_hosts-total :
      (lines : List Text) (s : HostScan)
      → any (λ l. is_nil (words l)) lines ≡ false
      → (t : HostScan) × (scan_hosts zones wanted delete lines s ≡ some t)
  unfolding scan_hosts
  scan_hosts-total [] s e = (s, refl)
  scan_hosts-total (line ∷ lines) s e =
      let (u, first) = host_words-total zones wanted delete line (words line) s (ground arith) in
      let (t, rest) = scan_hosts-total lines u (ground arith) in (t, rw first rest)

  pub nonblank_of_scan_hosts :
      (lines : List Text) (s t : HostScan) (l : Text)
      → scan_hosts zones wanted delete lines s ≡ some t
      → contains lines l ≡ true
      → is_nil (words l) ≡ false
  unfolding scan_hosts host_words
  nonblank_of_scan_hosts [] s t l h m = cc
  nonblank_of_scan_hosts (line ∷ lines) s t l h m =
      let (u, first, rest) = scan_hosts-cons line lines s t h in
      ground (arith, nonblank_of_scan_hosts lines u t l rest)

  -- A CNAME line that the plan removes, and one that shows the wanted record `p`.
  abbrev pub removed_cname : Text → Bool
  removed_cname l =
      let (name, target) = cname_pair l in
      in_zone name zones && (delete && not (contains wanted (name, ("CNAME", target))))

  abbrev pub held_cname : Entry → Text → Bool
  held_cname p l =
      let (name, target) = cname_pair l in
      in_zone name zones && (contains wanted p && p == (name, ("CNAME", target)))

  pub remove_cnames-scan_cnames :
      (lines : List Text) (s : CnameScan) (l : Text)
      → contains (scan_cnames zones wanted delete lines s).remove_cnames l
        ≡ (contains s.remove_cnames l || (contains lines l && removed_cname l))
  unfolding scan_cnames cname_line
  remove_cnames-scan_cnames [] s l = ground arith
  remove_cnames-scan_cnames (line ∷ lines) s l =
      remove_cnames-scan_cnames lines (cname_line zones wanted delete line s) l
      ∙ ground (arith, contains-append s.remove_cnames (line ∷ []) l)

  pub have-scan_cnames :
      (lines : List Text) (s : CnameScan) (p : Entry)
      → contains (scan_cnames zones wanted delete lines s).have p
        ≡ (contains s.have p || any (held_cname p) lines)
  unfolding scan_cnames cname_line
  have-scan_cnames [] s p = ground arith
  have-scan_cnames (line ∷ lines) s p =
      let (name, target) = cname_pair line in
      have-scan_cnames lines (cname_line zones wanted delete line s) p
      ∙ ground (arith, contains-add {A = Entry} (name, ("CNAME", target)) s.have p)
