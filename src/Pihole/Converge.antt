-- ===== src/Pihole/Converge.antt =====
-- One application of `plan` settles a Pi-hole: `plan` then asks for nothing more.
use k8s_homelab.Prelude.{
  ◌≡◌, refl, List, [], ◌∷◌, Bool, true, false, not, ◌&&◌, ◌||◌, some, Bool-cases, inl, inr, map,
  arith, any, ◌==◌, contains, nat_eq, list_eq, pair_eq, string_eq,
}
use k8s_homelab.Prelude.{
  minus, union, contains-union, contains-filter, contains-map, any_witness, any_of_contains,
  any-eq-false, eq_nil_of_contains, minus-eq-nil, all-contains, ==_refl,
}
use k8s_homelab.Prelude.{==_eq}
use k8s_homelab.Prelude.Text.{Text, words, is_word, words-pair}
use k8s_homelab.Prelude.Sort.{sorted, contains-sorted}
use k8s_homelab.Pihole.Plan.{Entry, is_address, host_text, HostScan, want_a, scan_hosts, no_hosts}
use k8s_homelab.Pihole.Scan.{is_nil, removed_words, held_words, split_words}
use k8s_homelab.Pihole.Loop.{
  remove_hosts-scan_hosts, have-scan_hosts, readd-scan_hosts, scan_hosts-total,
  nonblank_of_scan_hosts,
}
use k8s_homelab.Pihole.Clean.{IsClean, is_kept, readd-scan_hosts_kept}

-- `after` holds the lines of `before` that were not removed, and the added ones.
abbrev pub IsApplied : List Text → List Text → List Text → List Text → Type 0
IsApplied before removed added after =
    (l : Text)
    → contains after l ≡ ((contains before l && not (contains removed l)) || contains added l)

module _ (zones : List Text) (wanted : List Entry) (delete : Bool) where
  split-removed :
      (ws : List Text)
      → removed_words zones wanted delete ws ≡ false
      → split_words zones wanted delete ws ≡ false
  split-removed [] h = refl
  split-removed (ip ∷ []) h = refl
  split-removed (ip ∷ n ∷ []) h = refl
  split-removed (ip ∷ n ∷ m ∷ ws) h = h

  pub held-removed :
      (w : Entry) (ws : List Text)
      → held_words zones wanted delete w ws ≡ true
      → removed_words zones wanted delete ws ≡ false
  held-removed w [] h = cc
  held-removed w (ip ∷ []) h = cc
  held-removed w (ip ∷ n ∷ []) h = ground arith
  held-removed w (ip ∷ n ∷ m ∷ ws) h = cc

  pub words-host_text :
      (w : Entry)
      → is_word w.0 ≡ true
      → is_word w.1.1 ≡ true
      → words (host_text w) ≡ w.1.1 ∷ w.0 ∷ []
  words-host_text w hn hv =
      words-pair w.1.1 w.0 (ground arith) (ground arith) (ground arith) (ground arith)

  -- A line that the plan writes is well read, and is not one that it removes.
  abbrev Settled : Text → Type 0
  Settled l = (is_nil (words l) ≡ false) × (removed_words zones wanted delete (words l) ≡ false)

  abbrev pub added : HostScan → List Entry
  added r = union (minus (want_a zones wanted delete) r.have) (minus r.readd r.have)

  Settled-kept : (w : Entry) → is_kept zones wanted delete w ≡ true → Settled (host_text w)
  Settled-kept w h = rw (words-host_text w (ground arith) (ground arith)) (refl, ground arith)

  Settled-held :
      (w : Entry) (l : Text)
      → contains (want_a zones wanted delete) w ≡ true
      → IsClean zones w
      → is_address w ≡ true
      → l ≡ host_text w
      → (held_words zones wanted delete w (words l) ≡ true) × Settled l
  Settled-held w l m c a e = rw e (
      rw
        (words-host_text w (ground (arith, c.spaceless, c.nonempty))
          (ground (arith, c.address_spaceless a, c.address_nonempty a)))
        (rw (c.lowered, c.address_kind a, c.named, m, ==_refl w) (refl, (refl, ground arith))))

module _ (zones : List Text) (wanted : List Entry) (delete : Bool)
    (clean : (w : Entry) → contains wanted w ≡ true → IsClean zones w) where
  want_a-IsClean :
      (w : Entry)
      → contains (want_a zones wanted delete) w ≡ true
      → IsClean zones w × (is_address w ≡ true)
  unfolding want_a
  want_a-IsClean w m =
      let e = contains-filter is_address wanted w in (clean w (ground arith), ground arith)

  module _ (hosts : List Text) (r : HostScan)
      (scanned : scan_hosts zones wanted delete hosts (no_hosts zones wanted delete) ≡ some r) where
    -- A line of the old list that was not removed, and a line that was added.
    old-Settled :
        (l : Text)
        → contains hosts l ≡ true
        → contains r.remove_hosts l ≡ false
        → Settled zones wanted delete l
    unfolding no_hosts
    old-Settled l m k =
        let e = remove_hosts-scan_hosts zones wanted delete hosts _ r l scanned in
        (nonblank_of_scan_hosts zones wanted delete hosts _ r l scanned m, ground arith)

    added-Settled :
        (w : Entry)
        → contains (added zones wanted delete r) w ≡ true
        → Settled zones wanted delete (host_text w)
    unfolding no_hosts
    added-Settled w m =
        let u =
          contains-union (minus (want_a zones wanted delete) r.have) (minus r.readd r.have) w in
        let f = contains-filter (λ a. not (contains r.have a)) (want_a zones wanted delete) w in
        let g = contains-filter (λ a. not (contains r.have a)) r.readd w in
        elim (Bool-cases (contains (want_a zones wanted delete) w)) [
          | inl e ↦
              let (c, a) = want_a-IsClean w e in
              (Settled-held zones wanted delete w (host_text w) e c a refl).1
          | inr e ↦ Settled-kept zones wanted delete w (
              all-contains (is_kept zones wanted delete) r.readd w
                (readd-scan_hosts_kept zones wanted delete hosts _ r scanned refl) (ground arith))
        ]

    module _ (after : List Text)
        (applied : IsApplied hosts r.remove_hosts
          (sorted (map host_text (added zones wanted delete r)))
          after) where
      after-Settled : (l : Text) → contains after l ≡ true → Settled zones wanted delete l
      after-Settled l m =
          elim (Bool-cases (contains (sorted (map host_text (added zones wanted delete r))) l)) [
            | inl e ↦
                let (w, mw, q) =
                  any_witness (λ w. l == host_text w) (added zones wanted delete r)
                    (ground (
                      arith,
                      contains-sorted (map host_text (added zones wanted delete r)) l,
                      contains-map host_text (added zones wanted delete r) l,
                    )) in
                rw (==_eq l (host_text w) q) (added-Settled w mw)
            | inr e ↦ old-Settled l (ground (arith, applied l)) (ground (arith, applied l))
          ]

      after-held :
          (w : Entry)
          → contains (want_a zones wanted delete) w ≡ true
          → any (λ l. held_words zones wanted delete w (words l)) after ≡ true
      unfolding no_hosts
      after-held w m = elim (Bool-cases (contains r.have w)) [
        | inl e ↦
            let (l, ml, q) =
              any_witness (λ l. held_words zones wanted delete w (words l)) hosts
                (ground (arith, have-scan_hosts zones wanted delete hosts _ r w scanned)) in
            any_of_contains (λ l. held_words zones wanted delete w (words l)) after l
              (ground (
                arith,
                applied l,
                remove_hosts-scan_hosts zones wanted delete hosts _ r l scanned,
                held-removed zones wanted delete w (words l) q,
              ))
              q
        | inr e ↦
            let (c, a) = want_a-IsClean w m in
            any_of_contains (λ l. held_words zones wanted delete w (words l)) after (host_text w)
              (ground (
                arith,
                applied (host_text w),
                contains-sorted (map host_text (added zones wanted delete r)) (host_text w),
                contains-map host_text (added zones wanted delete r) (host_text w),
                any_of_contains (λ v. host_text w == host_text v) (added zones wanted delete r) w,
                contains-union (minus (want_a zones wanted delete) r.have) (minus r.readd r.have) w,
                contains-filter (λ a. not (contains r.have a)) (want_a zones wanted delete) w,
              ))
              (Settled-held zones wanted delete w (host_text w) m c a refl).0
      ]

      -- The second reading finds every wanted address, and nothing to remove or to split.
      pub scan_hosts-after :
          (r' : HostScan) × (scan_hosts zones wanted delete after (no_hosts zones wanted delete)
            ≡ some r')
          × (r'.remove_hosts ≡ [])
          × (added zones wanted delete r' ≡ [])
      unfolding no_hosts
      scan_hosts-after =
          let (r', scanned') =
            scan_hosts-total zones wanted delete after (no_hosts zones wanted delete)
              (any-eq-false (λ l. is_nil (words l)) after (λ l m. (after-Settled l m).0)) in
          let readd' = readd-scan_hosts zones wanted delete after _ r' scanned' (
            any-eq-false (λ l. split_words zones wanted delete (words l)) after
              (λ l m. split-removed zones wanted delete (words l) (after-Settled l m).1)) in
          let held = minus-eq-nil (want_a zones wanted delete) r'.have λ w m.
            ground
              (arith, have-scan_hosts zones wanted delete after _ r' w scanned', after-held w m) in
          (
            r',
            scanned',
            eq_nil_of_contains r'.remove_hosts λ l. elim (Bool-cases (contains after l)) [
              | inl m ↦ ground (
                arith,
                remove_hosts-scan_hosts zones wanted delete after _ r' l scanned',
                after-Settled l m,
              )
              | inr m ↦
                  ground (arith, remove_hosts-scan_hosts zones wanted delete after _ r' l scanned')
            ],
            rw (readd', held),
          )
