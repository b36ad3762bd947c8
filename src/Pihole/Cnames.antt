-- ===== src/Pihole/Cnames.antt =====
-- The CNAME lines of `plan`, read again after the plan was carried out.
use mathlib.Core.Path.{subst}
use k8s_homelab.Prelude.{
  ◌≡◌, List, [], Bool, true, false, not, map, ap, sym, ==_of_eq, Bool-cases, inl, inr, arith, any,
  filter, minus, ◌==◌, contains, ==_eq, nat_eq, list_eq, pair_eq,
}
use k8s_homelab.Prelude.{
  string_eq, contains-filter, contains-map, any_witness, any_of_contains, eq_nil_of_contains,
  minus-eq-nil,
}
use k8s_homelab.Prelude.Text.{Text, split_on-pair, strip-no_space}
use k8s_homelab.Prelude.Sort.{sorted, contains-sorted}
use k8s_homelab.Pihole.Plan.{Entry, is_cname, cname_pair, cname_text, CnameScan, scan_cnames}
use k8s_homelab.Pihole.Loop.{removed_cname, held_cname, remove_cnames-scan_cnames, have-scan_cnames}
use k8s_homelab.Pihole.Clean.{IsClean}
use k8s_homelab.Pihole.Converge.{IsApplied}

module _ (zones : List Text) (wanted : List Entry) (delete : Bool) where
  abbrev pub cnames_added : CnameScan → List Entry
  cnames_added c = minus (filter is_cname wanted) c.have

  held-removed_cname :
      (w : Entry) (l : Text)
      → held_cname zones wanted delete w l ≡ true
      → removed_cname zones wanted delete l ≡ false
  held-removed_cname w l h = ground arith

  -- A CNAME line that the plan writes is read as the record that it stands for.
  cname_pair-cname_text :
      (w : Entry) → IsClean zones w → is_cname w ≡ true → cname_pair (cname_text w) ≡ (w.0, w.1.1)
  unfolding cname_pair
  cname_pair-cname_text w c k =
      rw
        (
          split_on-pair b',' w.0 w.1.1 (c.name_comma k) (c.target_comma k),
          strip-no_space w.0 c.spaceless,
        )
        (rw (c.lowered, c.target_spelled k))

  entry-cname : (w : Entry) → is_cname w ≡ true → w ≡ (w.0, ("CNAME", w.1.1))
  entry-cname w k = ground arith

  held_cname-cname_text :
      (w : Entry)
      → contains wanted w ≡ true
      → IsClean zones w
      → is_cname w ≡ true
      → held_cname zones wanted delete w (cname_text w) ≡ true
  held_cname-cname_text w m c k =
      rw (cname_pair-cname_text w c k, c.named, m) (==_of_eq {A = Entry} w _ (entry-cname w k))

  -- A line that is added is not one that is removed.
  written-kept :
      (w : Entry) (l : Text)
      → contains wanted w ≡ true
      → IsClean zones w
      → is_cname w ≡ true
      → (l == cname_text w) ≡ true
      → removed_cname zones wanted delete l ≡ false
  written-kept w l m c k q = held-removed_cname w l (
      subst (λ x. held_cname zones wanted delete w x ≡ true) (sym (==_eq l (cname_text w) q))
        (held_cname-cname_text w m c k))

module _ (zones : List Text) (wanted : List Entry) (delete : Bool)
    (clean : (w : Entry) → contains wanted w ≡ true → IsClean zones w) where
  -- A wanted CNAME, and one that is added, is clean.
  cname-IsClean :
      (w : Entry)
      → contains (filter is_cname wanted) w ≡ true
      → (contains wanted w ≡ true) × IsClean zones w × (is_cname w ≡ true)
  cname-IsClean w m =
      let e = contains-filter is_cname wanted w in
      (ground arith, clean w (ground arith), ground arith)

  module _ (cnames : List Text) (s : CnameScan) (fresh : s.have ≡ []) (empty : s.remove_cnames ≡ [])
      (after : List Text) where
    abbrev c : CnameScan
    c = scan_cnames zones wanted delete cnames s

    module _
        (applied : IsApplied cnames c.remove_cnames
          (sorted (map cname_text (cnames_added zones wanted delete c)))
          after) where
      after-kept :
          (l : Text) → contains after l ≡ true → removed_cname zones wanted delete l ≡ false
      after-kept l m =
          elim (Bool-cases
            (contains (sorted (map cname_text (cnames_added zones wanted delete c))) l)) [
              | inl e ↦
                  let (w, mw, q) =
                    any_witness (λ w. l == cname_text w) (cnames_added zones wanted delete c)
                      (ground (
                        arith,
                        contains-sorted (map cname_text (cnames_added zones wanted delete c)) l,
                        contains-map cname_text (cnames_added zones wanted delete c) l,
                      )) in
                  let f =
                    contains-filter (λ a. not (contains c.have a)) (filter is_cname wanted) w in
                  let (mem, clean_w, k) = cname-IsClean w (ground arith) in
                  written-kept zones wanted delete w l mem clean_w k q
              | inr e ↦ ground (
                arith,
                applied l,
                remove_cnames-scan_cnames zones wanted delete cnames s l,
                ap (λ (xs : List Text). contains xs l) empty,
              )
            ]

      after-held :
          (w : Entry)
          → contains (filter is_cname wanted) w ≡ true
          → any (held_cname zones wanted delete w) after ≡ true
      after-held w m =
          let (mem, clean_w, k) = cname-IsClean w m in
          elim (Bool-cases (contains c.have w)) [
            | inl e ↦
                let (l, ml, q) = any_witness (held_cname zones wanted delete w) cnames (
                  ground (
                    arith,
                    have-scan_cnames zones wanted delete cnames s w,
                    ap (λ (xs : List Entry). contains xs w) fresh,
                  )) in
                any_of_contains (held_cname zones wanted delete w) after l
                  (ground (
                    arith,
                    applied l,
                    remove_cnames-scan_cnames zones wanted delete cnames s l,
                    ap (λ (xs : List Text). contains xs l) empty,
                    held-removed_cname zones wanted delete w l q,
                  ))
                  q
            | inr e ↦
                any_of_contains (held_cname zones wanted delete w) after (cname_text w)
                  (ground (
                    arith,
                    applied (cname_text w),
                    contains-sorted (map cname_text (cnames_added zones wanted delete c))
                        (cname_text w),
                    contains-map cname_text (cnames_added zones wanted delete c) (cname_text w),
                    any_of_contains (λ v. cname_text w == cname_text v)
                        (cnames_added zones wanted delete c) w,
                    contains-filter (λ a. not (contains c.have a)) (filter is_cname wanted) w,
                  ))
                  (held_cname-cname_text zones wanted delete w mem clean_w k)
          ]

      -- The second reading finds every wanted CNAME, and nothing to remove.
      pub scan_cnames-after :
          (s' : CnameScan)
          → s'.have ≡ []
          → s'.remove_cnames ≡ []
          → ((scan_cnames zones wanted delete after s').remove_cnames ≡ [])
            × (cnames_added zones wanted delete (scan_cnames zones wanted delete after s') ≡ [])
      scan_cnames-after s' fresh' empty' = (
        eq_nil_of_contains (scan_cnames zones wanted delete after s').remove_cnames λ l. ground (
          arith,
          remove_cnames-scan_cnames zones wanted delete after s' l,
          ap (λ (xs : List Text). contains xs l) empty',
          after-kept l,
        ),
        minus-eq-nil (filter is_cname wanted) (scan_cnames zones wanted delete after s').have
            λ w m. ground (arith, have-scan_cnames zones wanted delete after s' w, after-held w m),
      )
