-- ===== src/Kea/Entries.antt =====
-- The entries of a site stand for the subnets, in order, and making them changes no subnet.
use mathlib.Core.Path.{ap₂}
use k8s_homelab.Prelude.{
  is_none, nat_eq, ◌∙◌, ◌∷◌, all, not, ◌&&◌, refl, ◌+◌, ltb, Returns-any, [], if-Returns, if_keeps,
  map, >>=-Returns, ◌≡◌, Returns, ℕ, List,
}
use k8s_homelab.Prelude.Dict.{lookup, Dict}
use k8s_homelab.Prelude.Sort.{sorted_by}
use k8s_homelab.Prelude.Text.{Text}
use k8s_homelab.Kea.{subnet_id, Subnet, Converter}
use k8s_homelab.Kea.Site.{
  choose_id, serves_dns, sorted_reservations, with_domain, code_leb, by_network, lacks_code,
  option_entries, Entry, entries, site, site_entry, with_router,
}
use k8s_homelab.Ipv4.{network_text, Network, network_eq}

abbrev pub texts_of : List (Network × Subnet) → List Text
texts_of subnets = map (λ p. network_text p.0) subnets

-- The networks of the entries, and the subnets that are left.
abbrev IsEntryOf : Network → Converter → Entry × Converter → Type 0
IsEntryOf net c made = (made.0.subnet ≡ network_text net) × (made.1.subnets ≡ c.subnets)

abbrev AreEntriesOf : List (Network × Subnet) → Converter → List Entry × Converter → Type 0
AreEntriesOf subnets c made =
    (map (λ e. e.subnet) made.0 ≡ texts_of subnets) × (made.1.subnets ≡ c.subnets)

with_router-subnets :
    (net : Network) (options : Dict ℕ Text) (c : Converter)
    → Returns (λ routed. routed.1.subnets ≡ c.subnets) (with_router net options c)
unfolding with_router
with_router-subnets net options c =
    if_keeps (Returns (λ routed. routed.1.subnets ≡ c.subnets)) (lacks_code 3 options c) _ _
      (if-Returns (λ routed. routed.1.subnets ≡ c.subnets)
        (ltb 4294967295 (net.first + c.router_host)) _ (λ e. refl))
      refl

site_entry-IsEntryOf :
    (sid : ℕ) (net : Network) (sub : Subnet) (c : Converter)
    → Returns (IsEntryOf net c) (site_entry sid net sub c)
unfolding site_entry
site_entry-IsEntryOf sid net sub c =
    >>=-Returns (λ routed. routed.1.subnets ≡ c.subnets) _ (with_router net sub.options c) _
      (with_router-subnets net sub.options c)
      (λ routed same.
        >>=-Returns _ _ (option_entries (sorted_by code_leb (with_domain sub routed.0 routed.1))) _
          (Returns-any (option_entries (sorted_by code_leb (with_domain sub routed.0 routed.1))))
          (λ options t.
            >>=-Returns _ _ (sorted_reservations sub.reservations) _
              (Returns-any (sorted_reservations sub.reservations))
              (λ reservations t. (refl, same))))

entries-AreEntriesOf :
    (subnets : List (Network × Subnet)) (next : ℕ) (used : List ℕ) (c : Converter)
    → Returns (AreEntriesOf subnets c) (entries subnets next used c)
unfolding entries
entries-AreEntriesOf [] next used c = (refl, refl)
entries-AreEntriesOf ((net, sub) ∷ later) next used c =
    let chosen = choose_id (subnet_id sub) next used in
    >>=-Returns (IsEntryOf net c) _ (site_entry chosen.0 net sub c) _
      (site_entry-IsEntryOf chosen.0 net sub c)
      (λ made (e, same).
        >>=-Returns (AreEntriesOf later made.1) _ (entries later chosen.1 (chosen.0 ∷ used) made.1)
          _ (entries-AreEntriesOf later chosen.1 (chosen.0 ∷ used) made.1)
          (λ rest (f, kept). (ap₂ ◌∷◌ e f, kept ∙ same)))

pub site-entries :
    (c : Converter)
    → Returns
        (λ made.
          (map (λ e. e.subnet) made.0.subnet4 ≡ texts_of (sorted_by by_network c.subnets))
          × (made.1.subnets ≡ c.subnets))
        (site c)
unfolding site
site-entries c =
    >>=-Returns (AreEntriesOf (sorted_by by_network c.subnets) c) _
      (entries (sorted_by by_network c.subnets) 1000 [] c) _
      (entries-AreEntriesOf (sorted_by by_network c.subnets) 1000 [] c)
      (λ made (e, same).
        >>=-Returns _ _ (option_entries (sorted_by code_leb made.1.global_options)) _
          (Returns-any (option_entries (sorted_by code_leb made.1.global_options)))
          (λ options t. (
            e,
            if_keeps (λ (d : Converter). d.subnets ≡ c.subnets)
                (is_none (lookup 6 made.1.global_options) && not (all serves_dns made.0)) _ _ same
                same,
          )))
