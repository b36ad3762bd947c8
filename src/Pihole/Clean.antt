-- ===== src/Pihole/Clean.antt =====
-- Which records and lines read back as they were written.
use k8s_homelab.Prelude.{
  ◌≡◌, List, [], ◌∷◌, Bool, true, false, not, ◌&&◌, some, arith, all, nat_eq, list_eq, pair_eq,
  string_eq,
}
use k8s_homelab.Prelude.Text.{
  Text, words, lower, lower_idem, no_space, is_empty, lacks, is_word, is_word-lower, all-words,
}
use k8s_homelab.Pihole.Plan.{
  Entry, in_zone, kind_of, is_address, is_cname, cname_target, HostScan, split_pair, host_split,
  host_splits, host_names, host_single, host_words, scan_hosts,
}
use k8s_homelab.Pihole.Scan.{removed_words}
use k8s_homelab.Pihole.Loop.{scan_hosts-cons}

-- A record that NetBox can hold: its name is a lower-case name of a zone, its address is written
-- in the way of its type, and a CNAME's target is spelled as the Pi-hole's lines are read.
pub record IsClean (zones : List Text) (w : Entry) : Type 0 where
  pub named : in_zone w.0 zones ≡ true
  pub lowered : lower w.0 ≡ w.0
  pub spaceless : no_space w.0 ≡ true
  pub nonempty : is_empty w.0 ≡ false
  pub address_spaceless : is_address w ≡ true → no_space w.1.1 ≡ true
  pub address_nonempty : is_address w ≡ true → is_empty w.1.1 ≡ false
  pub address_kind : is_address w ≡ true → kind_of w.1.1 ≡ w.1.0
  pub name_comma : is_cname w ≡ true → lacks b',' w.0 ≡ true
  pub target_comma : is_cname w ≡ true → lacks b',' w.1.1 ≡ true
  pub target_spelled : is_cname w ≡ true → cname_target w.1.1 ≡ w.1.1

module _ (zones : List Text) (wanted : List Entry) (delete : Bool) where
  -- A name that a split line leaves behind stays when its own line is read.
  abbrev pub is_kept : Entry → Bool
  is_kept p =
      is_word p.0 && (is_word p.1.1 && not (removed_words zones wanted delete (p.1.1 ∷ p.0 ∷ [])))

  readd-host_split :
      (ip n : Text) (s : HostScan)
      → is_word ip ≡ true
      → is_word n ≡ true
      → all is_kept s.readd ≡ true
      → all is_kept (host_split zones wanted delete ip n s).readd ≡ true
  unfolding host_split split_pair
  readd-host_split ip n s hi hn hs = ground (arith, is_word-lower n, lower_idem n)

  readd-host_splits :
      (ip : Text) (names : List Text) (s : HostScan)
      → is_word ip ≡ true
      → all is_word names ≡ true
      → all is_kept s.readd ≡ true
      → all is_kept (host_splits zones wanted delete ip names s).readd ≡ true
  unfolding host_splits
  readd-host_splits ip [] s hi hn hs = hs
  readd-host_splits ip (n ∷ names) s hi hn hs =
      readd-host_splits ip names (host_split zones wanted delete ip n s) hi (ground arith)
        (readd-host_split ip n s hi (ground arith) hs)

  readd-host_names :
      (line ip : Text) (names : List Text) (s : HostScan)
      → is_word ip ≡ true
      → all is_word names ≡ true
      → all is_kept s.readd ≡ true
      → all is_kept (host_names zones wanted delete line ip names s).readd ≡ true
  unfolding host_names host_single
  readd-host_names line ip [] s hi hn hs = readd-host_splits ip [] _ hi hn hs
  readd-host_names line ip (n ∷ []) s hi hn hs = ground arith
  readd-host_names line ip (n ∷ m ∷ names) s hi hn hs =
      readd-host_splits ip (n ∷ m ∷ names) _ hi hn hs

  readd-host_words :
      (line : Text) (ws : List Text) (s t : HostScan)
      → host_words zones wanted delete line ws s ≡ some t
      → all is_word ws ≡ true
      → all is_kept s.readd ≡ true
      → all is_kept t.readd ≡ true
  unfolding host_words
  readd-host_words line [] s t h hw hs = cc
  readd-host_words line (ip ∷ names) s t h hw hs = ground (arith, readd-host_names line ip names s)

  -- Every name that a split line leaves behind stays when its own line is read.
  pub readd-scan_hosts_kept :
      (lines : List Text) (s t : HostScan)
      → scan_hosts zones wanted delete lines s ≡ some t
      → all is_kept s.readd ≡ true
      → all is_kept t.readd ≡ true
  unfolding scan_hosts
  readd-scan_hosts_kept [] s t h hs = ground arith
  readd-scan_hosts_kept (line ∷ lines) s t h hs =
      let (u, first, rest) = scan_hosts-cons zones wanted delete line lines s t h in
      readd-scan_hosts_kept lines u t rest
        (readd-host_words line (words line) s u first (all-words line) hs)
