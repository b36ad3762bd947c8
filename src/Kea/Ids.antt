-- ===== src/Kea/Ids.antt =====
-- The ids that the subnets of a site are given.
use mathlib.Core.Path.{subst}
use mathlib.Core.Option.{some-injective}
use k8s_homelab.Prelude.{
  are_distinct, ap, Returns-eq-some, Returns-any, leb, >>=-eq-some, nat_eq, false, ◌||◌,
  >>=-Returns, refl, some, contains, ◌&&◌, arith, ◌∷◌, ◌≡◌, [], not, true,
}
use k8s_homelab.Prelude.{Returns, map, ltb, ◌<◌, all, Bool, ◌≤◌, ℕ, List}
use k8s_homelab.Prelude.Sort.{sorted_by}
use k8s_homelab.Kea.Site.{
  sorted_reservations, with_domain, code_leb, option_entries, by_network, with_router, SiteData,
  Entry, site, choose_id, entries, site_entry,
}
use k8s_homelab.Kea.{Subnet, Converter, subnet_id}
use k8s_homelab.Ipv4.{Network}

-- An octet that is not 0, or a number of the series from 1000 up.
abbrev pub is_subnet_id : ℕ → Bool
is_subnet_id id = ltb 0 id && (ltb id 256 || leb 1000 id)

abbrev is_fresh : List ℕ → ℕ → Bool
is_fresh used id = not (contains used id) && is_subnet_id id

unused_above :
    (next : ℕ) (used : List ℕ) → all (λ i. ltb i next) used ≡ true → contains used next ≡ false
unused_above next [] h = refl
unused_above next (x ∷ used) h = ground (arith, unused_above next used)

subnet_id-bound : (sub : Subnet) → subnet_id sub < 256
unfolding subnet_id
subnet_id-bound sub = ground arith

choose_id_lem :
    (sid next : ℕ) (used : List ℕ)
    → sid < 256
    → 1000 ≤ next
    → all (λ i. ltb i next) used ≡ true
    → (is_fresh used (choose_id sid next used).0 ≡ true)
      × (next ≤ (choose_id sid next used).1)
      × ((choose_id sid next used).0 < (choose_id sid next used).1)
unfolding choose_id
choose_id_lem sid next used lt ge h =
    let unused = unused_above next used h in (ground arith, ground arith, ground arith)

all_below_more :
    (m n : ℕ) (used : List ℕ)
    → m ≤ n
    → all (λ i. ltb i m) used ≡ true
    → all (λ i. ltb i n) used ≡ true
all_below_more m n [] le h = refl
all_below_more m n (x ∷ used) le h = ground (arith, all_below_more m n used)

-- What is fresh beside one more id is not that id.
fresh_beside :
    (id : ℕ) (used ids : List ℕ)
    → all (is_fresh (id ∷ used)) ids ≡ true
    → (contains ids id ≡ false) × (all (is_fresh used) ids ≡ true)
fresh_beside id used [] h = (refl, refl)
fresh_beside id used (x ∷ ids) h =
    let (a, b) = fresh_beside id used ids (ground arith) in (ground arith, ground arith)

abbrev ids_of : List Entry → List ℕ
ids_of found = map (λ e. e.id) found

abbrev AreFresh : List ℕ → List Entry × Converter → Type 0
AreFresh used made =
    (all (is_fresh used) (ids_of made.0) ≡ true) × (are_distinct (ids_of made.0) ≡ true)

site_entry-id :
    (sid : ℕ) (net : Network) (sub : Subnet) (c : Converter)
    → Returns (λ made. made.0.id ≡ sid) (site_entry sid net sub c)
unfolding site_entry
site_entry-id sid net sub c =
    >>=-Returns _ _ (with_router net sub.options c) _ (Returns-any (with_router net sub.options c))
      (λ routed t.
        >>=-Returns _ _ (option_entries (sorted_by code_leb (with_domain sub routed.0 routed.1))) _
          (Returns-any (option_entries (sorted_by code_leb (with_domain sub routed.0 routed.1))))
          (λ options t.
            >>=-Returns _ _ (sorted_reservations sub.reservations) _
              (Returns-any (sorted_reservations sub.reservations)) (λ reservations t. refl)))

entries-AreFresh :
    (subnets : List (Network × Subnet)) (next : ℕ) (used : List ℕ) (c : Converter)
    → 1000 ≤ next
    → all (λ i. ltb i next) used ≡ true
    → Returns (AreFresh used) (entries subnets next used c)
unfolding entries
entries-AreFresh [] next used c ge h = (refl, refl)
entries-AreFresh ((net, sub) ∷ later) next used c ge h =
    let chosen = choose_id (subnet_id sub) next used in
    let (fresh, more, below) = choose_id_lem (subnet_id sub) next used (subnet_id-bound sub) ge h in
    >>=-Returns (λ made. made.0.id ≡ chosen.0) (AreFresh used) (site_entry chosen.0 net sub c) _
      (site_entry-id chosen.0 net sub c)
      (λ made e.
        >>=-Returns (AreFresh (chosen.0 ∷ used)) (AreFresh used)
          (entries later chosen.1 (chosen.0 ∷ used) made.1) _
          (entries-AreFresh later chosen.1 (chosen.0 ∷ used) made.1 (omega (arith, more, ge))
            (ground (arith, all_below_more next chosen.1 used)))
          (λ rest (fine, distinct).
            let (a, b) = fresh_beside chosen.0 used (ids_of rest.0) fine in
            (ground arith, ground arith)))

drop_fresh : (ids : List ℕ) → all (is_fresh []) ids ≡ true → all is_subnet_id ids ≡ true
drop_fresh [] h = refl
drop_fresh (x ∷ ids) h = ground (arith, drop_fresh ids)

-- The ids of a site's subnets are distinct, and each is an octet that is not 0 or at least 1000.
pub site-ids :
    (c told : Converter) (s : SiteData)
    → site c ≡ some (s, told)
    → (are_distinct (map (λ e. e.id) s.subnet4) ≡ true)
      × (all is_subnet_id (map (λ e. e.id) s.subnet4) ≡ true)
unfolding site
site-ids c told s h =
    let (made, e, f) = >>=-eq-some (entries (sorted_by by_network c.subnets) 1000 [] c) _ h in
    let (fine, distinct) =
      Returns-eq-some (AreFresh []) (entries (sorted_by by_network c.subnets) 1000 [] c)
        (entries-AreFresh (sorted_by by_network c.subnets) 1000 [] c (omega arith) refl) e in
    let (options, g, i) =
      >>=-eq-some (option_entries (sorted_by code_leb made.1.global_options)) _ f in
    let same = ap (λ p. p.0.subnet4) (some-injective _ _ i) in
    subst
      (λ es.
        (are_distinct (map (λ e. e.id) es) ≡ true) × (all is_subnet_id (map (λ e. e.id) es) ≡ true))
      same (distinct, drop_fresh (map (λ e. e.id) made.0) fine)
