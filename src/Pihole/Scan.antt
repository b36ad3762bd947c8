-- ===== src/Pihole/Scan.antt =====
-- What the loops of `plan` collect, as tests on single lines.
use k8s_homelab.Prelude.{
  ◌≡◌, refl, ◌∙◌, ◌++◌, List, [], ◌∷◌, Bool, true, false, not, ◌&&◌, ◌||◌, some, arith, any, ◌==◌,
  contains, nat_eq, list_eq, pair_eq, string_eq, contains-append,
}
use k8s_homelab.Prelude.{contains-add}
use k8s_homelab.Prelude.Text.{Text, lower}
use k8s_homelab.Pihole.Plan.{
  Entry, in_zone, kind_of, HostScan, want_a, host_single, host_split, host_splits, host_names,
  host_words,
}

abbrev pub is_nil : List Text → Bool
is_nil [] = true
is_nil (w ∷ ws) = false

module _ (zones : List Text) (wanted : List Entry) (delete : Bool) where
  abbrev pub zoned : Text → Bool
  zoned n = in_zone (lower n) zones

  -- The words of a line that the plan removes.
  abbrev pub removed_words : List Text → Bool
  removed_words [] = false
  removed_words (ip ∷ []) = false
  removed_words (ip ∷ n ∷ []) =
      zoned n && (delete && not (contains (want_a zones wanted delete) (lower n, (kind_of ip, ip))))
  removed_words (ip ∷ n ∷ m ∷ names) = any zoned (n ∷ m ∷ names)

  -- The words of a line that shows the wanted record `p`.
  abbrev pub held_words : Entry → List Text → Bool
  held_words p (ip ∷ n ∷ []) =
      zoned n && (contains (want_a zones wanted delete) p && p == (lower n, (kind_of ip, ip)))
  held_words p _ = false

  -- The words of a line that is split.
  abbrev pub split_words : List Text → Bool
  split_words (ip ∷ n ∷ m ∷ names) = any zoned (n ∷ m ∷ names)
  split_words _ = false

  remove_hosts-host_splits :
      (ip : Text) (names : List Text) (s : HostScan)
      → (host_splits zones wanted delete ip names s).remove_hosts ≡ s.remove_hosts
  unfolding host_splits host_split
  remove_hosts-host_splits ip [] s = refl
  remove_hosts-host_splits ip (n ∷ names) s =
      remove_hosts-host_splits ip names (host_split zones wanted delete ip n s) ∙ ground arith

  have-host_splits :
      (ip : Text) (names : List Text) (s : HostScan)
      → (host_splits zones wanted delete ip names s).have ≡ s.have
  unfolding host_splits host_split
  have-host_splits ip [] s = refl
  have-host_splits ip (n ∷ names) s =
      have-host_splits ip names (host_split zones wanted delete ip n s) ∙ ground arith

  pub remove_hosts-host_words :
      (line l : Text) (ws : List Text) (s t : HostScan)
      → host_words zones wanted delete line ws s ≡ some t
      → contains t.remove_hosts l ≡ (contains s.remove_hosts l || (l == line && removed_words ws))
  unfolding host_words host_names host_single
  remove_hosts-host_words line l [] s t h = cc
  remove_hosts-host_words line l (ip ∷ []) s t h = ground arith
  remove_hosts-host_words line l (ip ∷ n ∷ []) s t h =
      ground (arith, contains-append s.remove_hosts (line ∷ []) l)
  remove_hosts-host_words line l (ip ∷ n ∷ m ∷ names) s t h = ground (
    arith,
    contains-append s.remove_hosts (line ∷ []) l,
    remove_hosts-host_splits ip (n ∷ m ∷ names)
        (record s { remove_hosts = s.remove_hosts ++ line ∷ [] }),
  )

  pub have-host_words :
      (line : Text) (p : Entry) (ws : List Text) (s t : HostScan)
      → host_words zones wanted delete line ws s ≡ some t
      → contains t.have p ≡ (contains s.have p || held_words p ws)
  unfolding host_words host_names host_single
  have-host_words line p [] s t h = cc
  have-host_words line p (ip ∷ []) s t h = ground arith
  have-host_words line p (ip ∷ n ∷ []) s t h =
      ground (arith, contains-add {A = Entry} (lower n, (kind_of ip, ip)) s.have p)
  have-host_words line p (ip ∷ n ∷ m ∷ names) s t h = ground (
    arith,
    have-host_splits ip (n ∷ m ∷ names) (record s { remove_hosts = s.remove_hosts ++ line ∷ [] }),
  )

  pub readd-host_words :
      (line : Text) (ws : List Text) (s t : HostScan)
      → host_words zones wanted delete line ws s ≡ some t
      → split_words ws ≡ false
      → t.readd ≡ s.readd
  unfolding host_words host_names host_single
  readd-host_words line [] s t h e = cc
  readd-host_words line (ip ∷ []) s t h e = ground arith
  readd-host_words line (ip ∷ n ∷ []) s t h e = ground arith
  readd-host_words line (ip ∷ n ∷ m ∷ names) s t h e = ground arith

  pub host_words-total :
      (line : Text) (ws : List Text) (s : HostScan)
      → is_nil ws ≡ false
      → (t : HostScan) × (host_words zones wanted delete line ws s ≡ some t)
  unfolding host_words
  host_words-total line [] s e = absurd (cc)
  host_words-total line (ip ∷ names) s e = (_, refl)
