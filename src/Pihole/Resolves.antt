-- ===== src/Pihole/Resolves.antt =====
-- Which names a Pi-hole's host lines resolve, before and after the plan is carried out.
use k8s_homelab.Prelude.{
  ◌≡◌, refl, ap, List, [], ◌∷◌, Bool, true, false, not, ◌&&◌, some, Bool-cases, inl, inr, map,
  minus, arith, any, ◌==◌, contains, nat_eq, list_eq, pair_eq,
}
use k8s_homelab.Prelude.{
  string_eq, contains-union, contains-filter, contains-map, any_witness, any_of_contains,
  all-contains, ==_eq, ==_refl,
}
use k8s_homelab.Prelude.Text.{Text, words, lower, lower_idem}
use k8s_homelab.Prelude.Sort.{sorted, contains-sorted}
use k8s_homelab.Pihole.Plan.{
  Entry, host_text, HostScan, Plan, want_a, split_pair, scan_hosts, no_hosts, plan,
}
use k8s_homelab.Pihole.Scan.{split_words, removed_words, held_words}
use k8s_homelab.Pihole.Loop.{remove_hosts-scan_hosts, have-scan_hosts}
use k8s_homelab.Pihole.Clean.{is_kept, readd-scan_hosts_kept}
use k8s_homelab.Pihole.Converge.{IsApplied, added, held-removed, words-host_text}
use k8s_homelab.Pihole.Settles.{plan-parts}
use k8s_homelab.Pihole.Keep.{IsLowered, is_safe, readd-scan_hosts_safe}

abbrev pub resolves_words : Text → Text → List Text → Bool
resolves_words ip n [] = false
resolves_words ip n (x ∷ names) = x == ip && any (λ k. lower k == lower n) names

-- Some line gives `ip` for the name `n`, whose case does not matter.
abbrev pub resolves : List Text → Text → Text → Bool
resolves lines ip n = any (λ l. resolves_words ip n (words l)) lines

module _ (zones : List Text) (wanted : List Entry) (delete : Bool) where
  -- The pair of a name resolves as the name does.
  resolves_words-split_pair :
      (ip n k : Text)
      → (lower k == lower n) ≡ true
      → resolves_words ip n (ip ∷ (split_pair zones wanted delete ip k).0 ∷ []) ≡ true
  unfolding split_pair
  resolves_words-split_pair ip n k h = ground (arith, lower_idem k, ==_refl ip)

  split_pair-ip : (ip k : Text) → (split_pair zones wanted delete ip k).1.1 ≡ ip
  unfolding split_pair
  split_pair-ip ip k = ground arith

  is_safe-lower :
      (n k : Text)
      → (lower k == lower n) ≡ true
      → is_safe zones wanted delete n ≡ true
      → is_safe zones wanted delete k ≡ true
  is_safe-lower n k e h = ground arith

  -- A line of a removed line's words that resolves a safe name was split.
  split-resolves :
      (ip n : Text) (ws : List Text)
      → is_safe zones wanted delete n ≡ true
      → removed_words zones wanted delete ws ≡ true
      → resolves_words ip n ws ≡ true
      → split_words zones wanted delete ws ≡ true
  split-resolves ip n [] s r v = cc
  split-resolves ip n (x ∷ []) s r v = cc
  split-resolves ip n (x ∷ k ∷ []) s r v = ground arith
  split-resolves ip n (x ∷ k ∷ m ∷ ws) s r v = r

  -- The words of a line that resolves a name: the address, and a name spelled alike.
  resolves-parts :
      (ip n : Text) (ws : List Text)
      → resolves_words ip n ws ≡ true
      → (names : List Text) × (k : Text) × (ws ≡ ip ∷ names)
        × (contains names k ≡ true)
        × ((lower k == lower n) ≡ true)
  resolves-parts ip n [] v = absurd (cc)
  resolves-parts ip n (x ∷ names) v =
      let (k, m, q) = any_witness (λ k. lower k == lower n) names (ground arith) in
      (names, k, ap (λ y. y ∷ names) (==_eq x ip (ground arith)), m, q)

  held-resolves :
      (ip n k : Text) (ws : List Text)
      → (lower k == lower n) ≡ true
      → held_words zones wanted delete (split_pair zones wanted delete ip k) ws ≡ true
      → resolves_words ip n ws ≡ true
  unfolding split_pair
  held-resolves ip n k [] e h = cc
  held-resolves ip n k (x ∷ []) e h = cc
  held-resolves ip n k (x ∷ m ∷ []) e h = ground (arith, lower_idem k, lower_idem m)
  held-resolves ip n k (x ∷ m ∷ j ∷ ws) e h = cc

module _ (zones : List Text) (wanted : List Entry) (delete : Bool) (low : IsLowered zones)
    (hosts : List Text) (r : HostScan)
    (scanned : scan_hosts zones wanted delete hosts (no_hosts zones wanted delete) ≡ some r)
    (after : List Text)
    (applied : IsApplied hosts r.remove_hosts
      (sorted (map host_text (added zones wanted delete r)))
      after) where
  -- A name put back after a split resolves, by its own line or by one that already held it.
  readd-resolves :
      (ip n k : Text)
      → (lower k == lower n) ≡ true
      → contains r.readd (split_pair zones wanted delete ip k) ≡ true
      → resolves after ip n ≡ true
  unfolding no_hosts
  readd-resolves ip n k e m =
      let p = split_pair zones wanted delete ip k in
      elim (Bool-cases (contains r.have p)) [
        | inl held ↦
            let (l, ml, q) =
              any_witness (λ l. held_words zones wanted delete p (words l)) hosts
                (ground (arith, have-scan_hosts zones wanted delete hosts _ r p scanned)) in
            any_of_contains (λ l. resolves_words ip n (words l)) after l
              (ground (
                arith,
                applied l,
                remove_hosts-scan_hosts zones wanted delete hosts _ r l scanned,
                held-removed zones wanted delete p (words l) q,
              ))
              (held-resolves zones wanted delete ip n k (words l) e q)
        | inr new ↦
            let kept : is_kept zones wanted delete p ≡ true =
              all-contains (is_kept zones wanted delete) r.readd p
                (readd-scan_hosts_kept zones wanted delete hosts _ r scanned refl) m in
            any_of_contains (λ l. resolves_words ip n (words l)) after (host_text p)
              (ground (
                arith,
                applied (host_text p),
                contains-sorted (map host_text (added zones wanted delete r)) (host_text p),
                contains-map host_text (added zones wanted delete r) (host_text p),
                any_of_contains (λ v. host_text p == host_text v) (added zones wanted delete r) p,
                contains-union (minus (want_a zones wanted delete) r.have) (minus r.readd r.have) p,
                contains-filter (λ a. not (contains r.have a)) r.readd p,
              ))
              (rw
                (
                  words-host_text zones wanted delete p (ground arith) (ground arith),
                  split_pair-ip zones wanted delete ip k,
                )
                (resolves_words-split_pair zones wanted delete ip n k e))
      ]

  resolves-after :
      (ip n : Text)
      → is_safe zones wanted delete n ≡ true
      → resolves hosts ip n ≡ true
      → resolves after ip n ≡ true
  unfolding no_hosts
  resolves-after ip n s v =
      let (l, ml, q) = any_witness (λ l. resolves_words ip n (words l)) hosts v in
      elim (Bool-cases (removed_words zones wanted delete (words l))) [
        | inl gone ↦
            let (names, k, e, mk, same) = resolves-parts zones wanted delete ip n (words l) q in
            readd-resolves ip n k same (
              readd-scan_hosts_safe zones wanted delete hosts l ip k names _ r low
                (is_safe-lower zones wanted delete n k same s) ml e mk
                (rw e at (split-resolves zones wanted delete ip n (words l) s gone q)) scanned)
        | inr stays ↦
            any_of_contains (λ l. resolves_words ip n (words l)) after l
              (ground
                (arith, applied l, remove_hosts-scan_hosts zones wanted delete hosts _ r l scanned))
              q
      ]

-- Whatever the plan does, a name outside the zones that resolved to an address before still does
-- after it; while deletes are off, so does every name.
module _ (zones : List Text) (wanted : List Entry) (delete : Bool) where
  pub resolves-plan :
      IsLowered zones
      → (hosts cnames : List Text) (p : Plan) → plan zones wanted delete hosts cnames ≡ some p
      → (after : List Text) → IsApplied hosts p.remove_hosts p.add_hosts after
      → (ip n : Text) → is_safe zones wanted delete n ≡ true
      → resolves hosts ip n ≡ true
      → resolves after ip n ≡ true
  unfolding plan
  resolves-plan low hosts cnames p h after applied =
      let (r, scanned, e) = plan-parts zones wanted delete hosts cnames p h in
      resolves-after zones wanted delete low hosts r scanned after (rw e at applied)
